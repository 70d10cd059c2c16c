-- ===== src/CodePoint/Decode.antt =====
-- `GetCodePointLength` and the loop of `BreakIntoCodePoints` in src/core/CodePoint.cpp.
pub mod Laws
use Prim.Native.Nat.{bit_and}
use ycmd_cpp.Base.{
  ℕ, zero, suc, Bool, true, false, List, [], ◌∷◌, ltb, ◌==◌, if◌then◌else◌, Bytes, length, take,
  drop,
}

-- `UnicodeDecodeError`, by its message.
pub data UnicodeDecodeError : Type 0 where
  invalid_leading_byte invalid_length : UnicodeDecodeError

pub data Decoded {ℓ} (A : Type ℓ) : Type ℓ where
  ok : A → Decoded A
  throw : UnicodeDecodeError → Decoded A

infixl 5 ◌>>=◌
abbrev pub ◌>>=◌ {ℓ κ} : {A : Type ℓ} {B : Type κ} → Decoded A → (A → Decoded B) → Decoded B
ok a >>= f = f a
throw e >>= f = throw e

-- A loop that constructs an element for each of a list's, and stops at the first throw.
unfoldable pub map_decoded {ℓ κ} :
    {A : Type ℓ} {B : Type κ} → (A → Decoded B) → List A → Decoded (List B)
map_decoded f [] = ok []
map_decoded f (x ∷ xs) = do y ← f x; ys ← map_decoded f xs; ok (y ∷ ys)

unfoldable pub get_code_point_length : ℕ → Decoded ℕ
get_code_point_length leading_byte =
    if bit_and leading_byte 0x80 == 0x00
    then ok 1
    else if bit_and leading_byte 0xe0 == 0xc0
    then ok 2
    else if bit_and leading_byte 0xf0 == 0xe0
    then ok 3
    else if bit_and leading_byte 0xf8 == 0xf0
    then ok 4
    else throw invalid_leading_byte

-- The loop over `iter`, the rest of the text. Each round takes at least one byte, so the text's
-- length is enough fuel.
unfoldable pub split_fuel : ℕ → Bytes → Decoded (List Bytes)
split_fuel zero rest = ok []
split_fuel (suc fuel) [] = ok []
split_fuel (suc fuel) (byte ∷ more) = do
  len ← get_code_point_length byte
  let text = byte ∷ more
  elim (ltb (length text) len) [
    | true ↦ throw invalid_length
    | false ↦ do others ← split_fuel fuel (drop len text); ok (take len text ∷ others)
  ]

-- The strings that `BreakIntoCodePoints` hands to the repository of code points.
unfoldable pub split_code_points : Bytes → Decoded (List Bytes)
unfolding split_fuel get_code_point_length
split_code_points text = split_fuel (length text) text
