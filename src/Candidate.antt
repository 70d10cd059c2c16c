-- ===== src/Candidate.antt =====
-- `Candidate` of src/core/Candidate.h and Candidate.cpp: a word with what its ranking needs.
use ycmd_cpp.Base.{Bool, true, false, not, ◌&&◌, ◌||◌, List, [], ◌∷◌, ◌++◌, if◌then◌else◌, Bytes}
use ycmd_cpp.CodePoint.{Table}
use ycmd_cpp.CodePoint.Decode.{Decoded, ok, ◌>>=◌}
use ycmd_cpp.Character.{Character}
use ycmd_cpp.Std.{Algorithms}
use ycmd_cpp.Word.{Word, make_word}

pub record Candidate : Type 0 where
  pub word : Word
  pub open word use *
  pub case_swapped_text : Bytes
  pub word_boundary_chars : List Character
  pub text_is_lowercase : Bool

unfoldable pub compute_case_swapped_text : List Character → Bytes
compute_case_swapped_text [] = []
compute_case_swapped_text (c ∷ cs) = c.swapped_case ++ compute_case_swapped_text cs

-- The test of the loop: an uppercase letter after another character, or a letter after punctuation.
abbrev pub is_boundary : Character → Character → Bool
is_boundary previous c =
    (not previous.is_uppercase && c.is_uppercase) || (previous.is_punctuation && c.is_letter)

-- The `for` over the characters after the first.
unfoldable pub boundary_chars_from : Character → List Character → List Character
boundary_chars_from previous [] = []
boundary_chars_from previous (c ∷ cs) =
    let rest = boundary_chars_from c cs in if is_boundary previous c then c ∷ rest else rest

unfoldable pub compute_word_boundary_chars : List Character → List Character
unfolding boundary_chars_from
compute_word_boundary_chars [] = []
compute_word_boundary_chars (first ∷ cs) =
    if not first.is_punctuation
    then first ∷ boundary_chars_from first cs
    else boundary_chars_from first cs

unfoldable pub compute_text_is_lowercase : List Character → Bool
compute_text_is_lowercase [] = true
compute_text_is_lowercase (c ∷ cs) =
    let rest = compute_text_is_lowercase cs in if c.is_uppercase then false else rest

-- What the constructor's body adds to the word.
unfoldable pub from_word : Word → Candidate
unfolding compute_case_swapped_text compute_word_boundary_chars compute_text_is_lowercase
from_word word = record {
  word = word;
  case_swapped_text = compute_case_swapped_text word.characters;
  word_boundary_chars = compute_word_boundary_chars word.characters;
  text_is_lowercase = compute_text_is_lowercase word.characters;
}

unfoldable pub make_candidate : Algorithms → Table → Bytes → Decoded Candidate
unfolding from_word make_word
make_candidate std table text = do word ← make_word std table text; ok (from_word word)
