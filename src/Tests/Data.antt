-- ===== src/Tests/Data.antt =====
-- Concrete characters, words and candidates for the tests.
use Prim.Native.Char.{code}
use Prim.Native.String.{String}
use ycmd_cpp.Base.{ℕ, true, false, List, [], ◌∷◌, Bytes}
use ycmd_cpp.BreakProperty.{BreakProperty}
use ycmd_cpp.CodePoint.{CodePoint, RawCodePoint, Table}
use ycmd_cpp.Character.{Character}
use ycmd_cpp.Word.{Word}
use ycmd_cpp.Candidate.{Candidate, from_word}

-- The code points of a literal: its bytes, as every literal here is ASCII.
abbrev pub codes : String → Bytes
codes String.[] = []
codes (String.◌∷◌ c s) = code c ∷ codes s

abbrev pub small : ℕ → Character
small c = record {
  normal = c ∷ [];
  base = c ∷ [];
  folded_case = c ∷ [];
  swapped_case = c ∷ [];
  is_base = true;
  is_letter = true;
  is_punctuation = false;
  is_uppercase = false;
}

-- An uppercase letter, with its lowercase one.
abbrev pub capital : ℕ → ℕ → Character
capital c folded = record {
  normal = c ∷ [];
  base = folded ∷ [];
  folded_case = folded ∷ [];
  swapped_case = folded ∷ [];
  is_base = true;
  is_letter = true;
  is_punctuation = false;
  is_uppercase = true;
}

-- "fooBar" and the query "fb".
abbrev pub foo_bar_characters : List Character
foo_bar_characters =
    small b'f' ∷ small b'o' ∷ small b'o' ∷ capital b'B' b'b' ∷ small b'a' ∷ small b'r' ∷ []

abbrev pub foo_bar : Candidate
foo_bar =
    from_word
      (record { text = codes "fooBar"; characters = foo_bar_characters; bytes_present = λ _. true })

abbrev pub fb : Word
fb = record {
  text = codes "fb";
  characters = small b'f' ∷ small b'b' ∷ [];
  bytes_present = λ _. false;
}

-- A code point that stands for itself and has the given break property.
abbrev pub with_property : ℕ → BreakProperty → CodePoint
with_property c property = record {
  normal = c ∷ [];
  folded_case = c ∷ [];
  swapped_case = c ∷ [];
  is_letter = false;
  is_punctuation = false;
  is_uppercase = false;
  break_property = property;
  combining_class = 0;
}

abbrev pub row : Bytes → Bytes → RawCodePoint
row original folded = record {
  original = original;
  normal = original;
  folded_case = folded;
  swapped_case = folded;
  is_letter = true;
  is_punctuation = false;
  is_uppercase = true;
  break_property = 0;
  combining_class = 0;
}

-- The rows of "A" and "B".
abbrev pub table : Table
table = row (codes "A") (codes "a") ∷ row (codes "B") (codes "b") ∷ []
