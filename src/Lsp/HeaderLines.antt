-- ===== src/Lsp/HeaderLines.antt =====
-- How a line of a header is read: the line with the length that `send_message` writes, and lines of
-- other names.
use ycmd_cpp.Base.{
  ℕ, zero, suc, ◌^◌, ◌+◌, ◌/◌, ◌%◌, ◌<◌, ◌≡◌, refl, sym, ap, ◌∙◌, true, false, some, List, [], ◌∷◌,
  ◌++◌, map, arith, ltb, ◌==◌, Bool-cases, inl, inr, Bytes, bytes_eq,
}
use ycmd_cpp.Lsp.Decimal.{is_digit, digits, decimal, decimal_head, from_chars, from_chars-decimal}
use ycmd_cpp.Lsp.Reader.{
  split_at, next_line, read_line, read_field, read_value, skip_space, tolower, content_length_name,
  strip_step, strip_cr,
}
use ycmd_cpp.Lsp.Reader.Laws.{Lacks, split_at-append}
use ycmd_cpp.Lsp.Writer.{content_length_field}

strip_step_keep : (c : ℕ) (r : Bytes) → (c == b'\r') ≡ false → strip_step c r ≡ c ∷ r
strip_step_keep c [] h = rw h
strip_step_keep c (d ∷ ds) h = refl

-- A carriage return is taken off at the end only.
strip_cr-append :
    (a b : Bytes) (c : ℕ) → (c == b'\r') ≡ false → strip_cr (a ++ (c ∷ b)) ≡ a ++ (c ∷ strip_cr b)
unfolding strip_cr
strip_cr-append [] b c h = strip_step_keep c (strip_cr b) h
strip_cr-append (x ∷ []) b c h = ap (strip_step x) (strip_cr-append [] b c h)
strip_cr-append (x ∷ y ∷ a) b c h = ap (strip_step x) (strip_cr-append (y ∷ a) b c h)

pub strip_cr_line : (a : Bytes) → Lacks b'\r' a → strip_cr (a ++ (b'\r' ∷ [])) ≡ a
unfolding strip_cr
strip_cr_line [] h = refl
strip_cr_line (x ∷ a) h = ap (strip_step x) (strip_cr_line a h.1) ∙ strip_step_keep x a h.0

pub Lacks-append : (m : ℕ) (a b : Bytes) → Lacks m a → Lacks m b → Lacks m (a ++ b)
Lacks-append m [] b h k = k
Lacks-append m (x ∷ a) b h k = (h.0, Lacks-append m a b h.1 k)

-- No mark below the digits stands in a printed number.
digits-Lacks : (fuel n m : ℕ) → m < 48 → Lacks m (digits fuel n)
unfolding digits
digits-Lacks zero n m h = tt
digits-Lacks (suc fuel) n m h = elim (Bool-cases (ltb n 10)) [
  | inl one ↦ rw (one, digits) (ground arith, tt)
  | inr more ↦
      rw (more, digits)
        (Lacks-append m (digits fuel (n / 10)) ((48 + n % 10) ∷ []) (digits-Lacks fuel (n / 10) m h)
          (ground arith, tt))
]

-- The line with the length.
abbrev pub length_line : ℕ → Bytes
length_line n = content_length_field ++ decimal n

read_value_digits :
    (c : ℕ) (cs : Bytes) (n k : ℕ)
    → is_digit c ≡ true
    → from_chars (c ∷ cs) ≡ some n
    → read_value (skip_space (c ∷ cs)) k ≡ next_line n
unfolding read_value skip_space
read_value_digits c cs n k d e = ground arith

read_value-decimal : (n k : ℕ) → n < 2 ^ 64 → read_value (skip_space (decimal n)) k ≡ next_line n
read_value-decimal n k h =
    let (c, cs, e, d) = decimal_head n in
    ap (λ l. read_value (skip_space l) k) e
    ∙ read_value_digits c cs n k d (ap from_chars (sym e) ∙ from_chars-decimal n h)

pub read_line-length_line : (n k : ℕ) → n < 2 ^ 64 → read_line (length_line n) k ≡ next_line n
unfolding read_line read_field split_at bytes_eq skip_space
read_line-length_line n k h = read_value-decimal n k h

pub length_line-Lacks : (n m : ℕ) → m < 32 → Lacks m (length_line n)
length_line-Lacks n m h =
    Lacks-append m content_length_field (decimal n) (ground arith)
      (unfold decimal in digits-Lacks (suc n) n m (omega arith))

-- A header line other than the one with the length: its name and its value.
abbrev pub IsOther : Bytes × Bytes → Type 0
IsOther (name, value) =
    Lacks b':' name
    × Lacks b'\n' name
    × Lacks b'\n' value
    × (bytes_eq (map tolower name) content_length_name ≡ false)

-- Header lines with their line ends, before the rest of a stream.
abbrev pub header_lines : List (Bytes × Bytes) → Bytes → Bytes
header_lines [] rest = rest
header_lines ((name, value) ∷ lines) rest =
    (name ++ (b':' ∷ (value ++ (b'\r' ∷ [])))) ++ (b'\n' ∷ header_lines lines rest)

read_line_field :
    (s : Bytes) (k : ℕ) (name value : Bytes)
    → split_at b':' s ≡ some (name, value)
    → read_line s k ≡ read_field (some (name, value)) k
unfolding read_line
read_line_field [] k name value e = unfold split_at in cc e
read_line_field (c ∷ cs) k name value e = ap (λ o. read_field o k) e

pub read_line-IsOther :
    (name value : Bytes) (k : ℕ)
    → IsOther (name, value)
    → read_line (strip_cr (name ++ (b':' ∷ value))) k ≡ next_line k
unfolding read_field
read_line-IsOther name value k (no_colon, _, _, differs) =
    ap (λ l. read_line l k) (strip_cr-append name value b':' refl)
    ∙ read_line_field (name ++ (b':' ∷ strip_cr value)) k name (strip_cr value)
        (split_at-append b':' name (strip_cr value) no_colon)
    ∙ rw differs
