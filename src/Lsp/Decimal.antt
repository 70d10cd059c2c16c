-- ===== src/Lsp/Decimal.antt =====
-- Numbers as `std::ostream` prints them and as `std::from_chars` reads them, for the length in
-- the header of src/lsp/comms.cpp.
use mathlib.Core.List.{append-nil, append_assoc}
use ycmd_cpp.Base.{
  ℕ, zero, suc, ◌+◌, ◌-◌, ◌*◌, ◌/◌, ◌%◌, ◌^◌, ◌<◌, ◌≡◌, refl, ◌∙◌, Bool, true, ◌&&◌, [], ◌∷◌, ◌++◌,
  Option, none, some, arith, ltb, leb, if◌then◌else◌, Bool-cases, inl, inr, Bytes,
}

-- The digits of a number, most significant first. A digit is left behind in each round, so the
-- number itself bounds the rounds.
unfoldable pub digits : ℕ → ℕ → Bytes
digits zero n = []
digits (suc fuel) n =
    let rest = digits fuel (n / 10) ++ ((48 + n % 10) ∷ []) in
    if ltb n 10 then (48 + n) ∷ [] else rest

-- `os << n`.
unfoldable pub decimal : ℕ → Bytes
unfolding digits
decimal n = digits (suc n) n

abbrev pub is_digit : ℕ → Bool
is_digit c = leb b'0' c && leb c b'9'

-- The value of the digits at the front, after those that `total` stands for.
unfoldable pub scan_digits : ℕ → Bytes → ℕ
scan_digits total [] = total
scan_digits total (c ∷ cs) =
    let more = scan_digits (total * 10 + (c - 48)) cs in if is_digit c then more else total

-- `std::from_chars` into a `size_t`: no value without a digit in front, or if it does not fit.
unfoldable pub from_chars : Bytes → Option ℕ
unfolding scan_digits
from_chars [] = none
from_chars (c ∷ cs) =
    let n = scan_digits 0 (c ∷ cs) in
    if is_digit c then (if ltb n (2 ^ 64) then some n else none) else none

scan_digits-digits :
    (fuel n : ℕ) (rest : Bytes)
    → n < fuel
    → scan_digits 0 (digits fuel n ++ rest) ≡ scan_digits n rest
unfolding digits scan_digits
scan_digits-digits zero n rest h = absurd (omega arith)
scan_digits-digits (suc fuel) n rest h = elim (Bool-cases (ltb n 10)) [
  | inl one ↦ ground arith
  | inr more ↦ ground (
    arith,
    append_assoc (digits fuel (n / 10)) ((48 + n % 10) ∷ []) rest,
    scan_digits-digits fuel (n / 10) ((48 + n % 10) ∷ rest),
  )
]

-- A number that is printed begins with a digit.
digits_head :
    (fuel n : ℕ)
    → n < fuel
    → (c : ℕ) × (cs : Bytes) × (digits fuel n ≡ c ∷ cs) × (is_digit c ≡ true)
unfolding digits
digits_head zero n h = absurd (omega arith)
digits_head (suc fuel) n h = elim (Bool-cases (ltb n 10)) [
  | inl one ↦ (48 + n, [], ground arith, ground arith)
  | inr more ↦
      let (c, cs, e, d) = digits_head fuel (n / 10) (ground arith) in
      (c, cs ++ ((48 + n % 10) ∷ []), ground (arith, e), d)
]

pub decimal_head : (n : ℕ) → (c : ℕ) × (cs : Bytes) × (decimal n ≡ c ∷ cs) × (is_digit c ≡ true)
unfolding decimal
decimal_head n = digits_head (suc n) n (omega arith)

from_chars_digit :
    (c : ℕ) (cs : Bytes) (n : ℕ)
    → is_digit c ≡ true
    → scan_digits 0 (c ∷ cs) ≡ n
    → n < 2 ^ 64
    → from_chars (c ∷ cs) ≡ some n
unfolding from_chars
from_chars_digit c cs n d e h = ground arith

-- A printed number that fits is read back, up to the end of the text.
pub from_chars-decimal : (n : ℕ) → n < 2 ^ 64 → from_chars (decimal n) ≡ some n
unfolding decimal
from_chars-decimal n h =
    let (c, cs, e, d) = decimal_head n in rw e (from_chars_digit c cs n d (rw e at scanned) h)
  where
    scanned : scan_digits 0 (digits (suc n) n) ≡ n
    scanned =
        rw append-nil at (scan_digits-digits (suc n) n [] (omega arith))
        ∙ unfold scan_digits in refl
