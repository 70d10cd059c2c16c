-- ===== src/Word.antt =====
-- `Word` of src/core/Word.h and Word.cpp: a text, its characters, and the bytes of their bases.
-- The repositories of code points and characters are caches of pure constructors (see
-- Repository.antt), so an element that is fetched from one is modelled by the constructor's value.
pub mod Break
pub mod Rules
pub mod Laws
use mathlib.Core.Bool.{xor}
use ycmd_cpp.Base.{
  ℕ, zero, suc, Bool, true, false, not, ◌&&◌, List, [], ◌∷◌, ◌==◌, if◌then◌else◌, Bytes, map,
}
use ycmd_cpp.CodePoint.{CodePoint, Table, code_point}
use ycmd_cpp.CodePoint.Decode.{Decoded, ok, throw, ◌>>=◌, map_decoded, split_code_points}
use ycmd_cpp.Character.{Character, from_code_points}
use ycmd_cpp.Std.{Algorithms}
use ycmd_cpp.Word.Break.{break_code_points_into_characters}

-- `std::bitset< 256 >`, by the bits that are set.
abbrev pub Bitset : Type 0
Bitset = ℕ → Bool

pub record Word : Type 0 where
  pub text : Bytes
  pub characters : List Character
  pub bytes_present : Bitset

unfoldable pub set_bit : ℕ → Bitset → Bitset
set_bit byte bits = λ i. if i == byte then true else bits i

unfoldable pub set_bits : Bytes → Bitset → Bitset
unfolding set_bit
set_bits [] bits = bits
set_bits (byte ∷ rest) bits = set_bits rest (set_bit byte bits)

unfoldable pub compute_bytes_present : List Character → Bitset → Bitset
unfolding set_bits
compute_bytes_present [] bits = bits
compute_bytes_present (c ∷ cs) bits = compute_bytes_present cs (set_bits c.base bits)

-- `( bytes & other ) == other` on the bits below `n`.
unfoldable pub covers : ℕ → Bitset → Bitset → Bool
covers zero bits other = true
covers (suc n) bits other = not (xor (bits n && other n) (other n)) && covers n bits other

abbrev pub num_bytes : ℕ
num_bytes = 256

unfoldable pub contains_bytes : Word → Word → Bool
unfolding covers
contains_bytes word other = covers num_bytes word.bytes_present other.bytes_present

unfoldable pub is_empty : Word → Bool
is_empty word = elim word.characters [ [] ↦ true | _ ↦ false ]

module _ (std : Algorithms) (table : Table) where
  -- `BreakIntoCodePoints`.
  unfoldable pub break_into_code_points : Bytes → Decoded (List CodePoint)
  unfolding split_code_points code_point
  break_into_code_points text = do
    code_points ← split_code_points text
    ok (map (code_point table) code_points)

  -- The constructor of `Character`, from its text.
  unfoldable pub make_character : Bytes → Decoded Character
  unfolding break_into_code_points from_code_points
  make_character text = do
    code_points ← break_into_code_points text
    ok (from_code_points std code_points)

  -- `Word::BreakIntoCharacters`.
  unfoldable pub break_into_characters : Bytes → Decoded (List Character)
  unfolding make_character break_code_points_into_characters
  break_into_characters text = do
    code_points ← break_into_code_points text
    map_decoded make_character (break_code_points_into_characters code_points)

  -- The constructor of `Word`.
  unfoldable pub make_word : Bytes → Decoded Word
  unfolding break_into_characters compute_bytes_present
  make_word text = do
    characters ← break_into_characters text
    ok (record {
      text = text;
      characters = characters;
      bytes_present = compute_bytes_present characters (λ _. false);
    })
