-- ===== src/CodePoint/Decode/Laws.antt =====
-- `GetCodePointLength` on every byte, and what `BreakIntoCodePoints` splits a text into.
use ycmd_cpp.Base.{
  ℕ, zero, suc, ◌≤◌, ◌<◌, ◌≡◌, refl, ap, ◌∙◌, ◌↔◌, inl, inr, Bool, true, false, ◌&&◌, List, [], ◌∷◌,
  ◌++◌, arith, ltb, ◌==◌, if◌then◌else◌, Bool-cases, Bytes, length, take, drop, concat, All,
  length-append, take-append-drop, length-take, length-drop, take-length-append, drop-length-append,
}
use ycmd_cpp.CodePoint.Decode.{
  Decoded, ok, throw, ◌>>=◌, invalid_leading_byte, get_code_point_length, split_fuel,
  split_code_points,
}

-- The lengths that UTF-8 gives to a sequence by its first byte.
abbrev pub utf8_length : ℕ → Decoded ℕ
utf8_length b =
    if ltb b 0x80
    then ok 1
    else if ltb b 0xc0
    then throw invalid_leading_byte
    else if ltb b 0xe0
    then ok 2
    else if ltb b 0xf0
    then ok 3
    else if ltb b 0xf8
    then ok 4
    else throw invalid_leading_byte

length_code : Decoded ℕ → ℕ
length_code (ok n) = suc n
length_code (throw invalid_leading_byte) = 0
length_code (throw other) = 1

every_byte : ℕ → Bool
every_byte zero = true
every_byte (suc n) =
    length_code (get_code_point_length n) == length_code (utf8_length n) && every_byte n

every_byte_sound :
    (n b : ℕ)
    → every_byte n ≡ true
    → b < n
    → length_code (get_code_point_length b) ≡ length_code (utf8_length b)
unfolding every_byte
every_byte_sound zero b h k = absurd (omega arith)
every_byte_sound (suc n) b h k = ground (arith, every_byte_sound n b)

bytes_checked : every_byte 256 ≡ true
unfolding every_byte length_code get_code_point_length
bytes_checked = refl

get_code_point_length_cases : (b n : ℕ) → get_code_point_length b ≡ ok n → (1 ≤ n) × (n ≤ 4)
unfolding get_code_point_length
get_code_point_length_cases b n h = ground arith

length_code_injective :
    (b : ℕ)
    → length_code (get_code_point_length b) ≡ length_code (utf8_length b)
    → get_code_point_length b ≡ utf8_length b
unfolding length_code get_code_point_length
length_code_injective b h = ground arith

-- The masks and comparisons of `GetCodePointLength` give, on every byte, the length that UTF-8
-- assigns to a leading byte, and refuse continuation bytes and 0xf8 to 0xff.
pub get_code_point_length-utf8_length : (b : ℕ) → b < 256 → get_code_point_length b ≡ utf8_length b
get_code_point_length-utf8_length b h =
    length_code_injective b (every_byte_sound 256 b bytes_checked h)

-- A string that is one code point: as long as its first byte says.
abbrev pub IsCodePoint : Bytes → Type 0
IsCodePoint [] = ⊥
IsCodePoint (byte ∷ more) = get_code_point_length byte ≡ ok (suc (length more))

abbrev pub Splits : Bytes → List Bytes → Type 0
Splits text pieces = (concat pieces ≡ text) × All IsCodePoint pieces

take-IsCodePoint :
    (byte : ℕ) (more : Bytes) (n : ℕ)
    → get_code_point_length byte ≡ ok n
    → n ≤ suc (length more)
    → IsCodePoint (take n (byte ∷ more))
take-IsCodePoint byte more zero e h = absurd (omega (arith, get_code_point_length_cases byte 0 e))
take-IsCodePoint byte more (suc n) e h = e ∙ ap ok (omega (arith, length-take n more))

-- The two steps of a chain that did not throw.
both_ok :
    {A B : Type 0} {out : B} (first : Decoded A) (then_do : A → Decoded B)
    → (first >>= then_do) ≡ ok out
    → (value : A) × (first ≡ ok value) × (then_do value ≡ ok out)
both_ok (throw e) then_do same = cc
both_ok (ok value) then_do same = (value, refl, same)

-- One round that succeeds: the length of the first code point, which fits, and the other rounds.
split_fuel-round :
    (fuel byte : ℕ) (more : Bytes) (pieces : List Bytes)
    → split_fuel (suc fuel) (byte ∷ more) ≡ ok pieces
    → (n : ℕ) × (others : List Bytes) × (get_code_point_length byte ≡ ok n)
      × (n ≤ suc (length more))
      × (split_fuel fuel (drop n (byte ∷ more)) ≡ ok others)
      × (pieces ≡ take n (byte ∷ more) ∷ others)
unfolding split_fuel
split_fuel-round fuel byte more pieces e =
    let (n, en, e1) = both_ok (get_code_point_length byte) _ e in
    elim (Bool-cases (ltb (suc (length more)) n)) [
      | inl short ↦ absurd (ground arith)
      | inr fits ↦
          let (others, eo, e2) =
            both_ok (split_fuel fuel (drop n (byte ∷ more))) _ (rw fits at e1) in
          (n, others, en, ground arith, eo, ground arith)
    ]

split_fuel-Splits :
    (fuel : ℕ) (text : Bytes) (pieces : List Bytes)
    → length text ≤ fuel
    → split_fuel fuel text ≡ ok pieces
    → Splits text pieces
unfolding split_fuel
split_fuel-Splits zero [] pieces h e = ground arith
split_fuel-Splits zero (byte ∷ more) pieces h e = absurd (omega arith)
split_fuel-Splits (suc fuel) [] pieces h e = ground arith
split_fuel-Splits (suc fuel) (byte ∷ more) pieces h e =
    let (n, others, en, fits, eo, ep) = split_fuel-round fuel byte more pieces e in
    let pos = (get_code_point_length_cases byte n en).0 in
    let (whole, each) =
      split_fuel-Splits fuel (drop n (byte ∷ more)) others
        (omega (arith, length-drop n (byte ∷ more))) eo in
    rw ep
      (rw whole (take-append-drop n (byte ∷ more)), (take-IsCodePoint byte more n en fits, each))

split_fuel-of_Splits :
    (fuel : ℕ) (pieces : List Bytes)
    → length (concat pieces) ≤ fuel
    → All IsCodePoint pieces
    → split_fuel fuel (concat pieces) ≡ ok pieces
unfolding split_fuel
split_fuel-of_Splits zero [] h each = refl
split_fuel-of_Splits (suc fuel) [] h each = refl
split_fuel-of_Splits fuel ([] ∷ others) h each = absurd each.0
split_fuel-of_Splits zero ((byte ∷ more) ∷ others) h each = absurd (omega arith)
split_fuel-of_Splits (suc fuel) ((byte ∷ more) ∷ others) h each =
    let rec : split_fuel fuel (concat others) ≡ ok others =
      split_fuel-of_Splits fuel others (omega (arith, length-append more (concat others))) each.1 in
    let fits : ltb (suc (length (more ++ concat others))) (suc (length more)) ≡ false =
      ground (arith, length-append more (concat others)) in
    ground (
      arith,
      each.0,
      fits,
      rec,
      drop-length-append more (concat others),
      take-length-append more (concat others),
    )

-- `BreakIntoCodePoints` gives `pieces` exactly when they make up the text in order and each is as
-- long as its leading byte says; so the pieces are unique, and it throws when there are none.
pub split_code_points_iff :
    (text : Bytes) (pieces : List Bytes)
    → (split_code_points text ≡ ok pieces) ↔ ((concat pieces ≡ text) × All IsCodePoint pieces)
unfolding split_code_points
split_code_points_iff text pieces = (
  λ e. split_fuel-Splits (length text) text pieces (omega arith) e,
  λ s. rw (← s.0) (split_fuel-of_Splits (length (concat pieces)) pieces (omega arith) s.1),
)
