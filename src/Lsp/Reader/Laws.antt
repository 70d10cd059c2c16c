-- ===== src/Lsp/Reader/Laws.antt =====
-- What `read_message` reads of a stream.
use ycmd_cpp.Base.{
  ℕ, zero, suc, ◌≤◌, ◌<◌, ◌≡◌, ◌≢◌, ◌⊎◌, refl, sym, ◌∙◌, false, Option, none, some, [], ◌∷◌, ◌++◌,
  arith, ◌==◌, Bool-cases, Option-cases, inl, inr, Bytes, length, All,
}
use ycmd_cpp.Lsp.Reader.{
  prepend, split_at, Header, next_line, end_headers, read_line, strip_cr, Headers, headers,
  headers_ended, headers_stuck, read_headers, Read, out_of_fuel, read_fuel, after_headers,
  read_message,
}

prepend-some :
    (c : ℕ) (o : Option (Bytes × Bytes)) (a b : Bytes)
    → prepend c o ≡ some (a, b)
    → (a' : Bytes) × (o ≡ some (a', b)) × (a ≡ c ∷ a')
prepend-some c none a b e = cc
prepend-some c (some (a', b')) a b e = (a', ground arith, ground arith)

-- The part after the mark is shorter than the whole.
pub split_at-length :
    (mark : ℕ) (s a b : Bytes) → split_at mark s ≡ some (a, b) → length b < length s
unfolding split_at
split_at-length mark [] a b e = cc
split_at-length mark (c ∷ cs) a b e = elim (Bool-cases (c == mark)) [
  | inl here ↦ ground arith
  | inr later ↦
      let (a', e', _) = prepend-some c (split_at mark cs) a b (rw later at e) in
      omega (arith, split_at-length mark cs a' b e')
]

abbrev pub Lacks : ℕ → Bytes → Type 0
Lacks mark = All (λ c. (c == mark) ≡ false)

pub split_at-append :
    (mark : ℕ) (a b : Bytes) → Lacks mark a → split_at mark (a ++ (mark ∷ b)) ≡ some (a, b)
unfolding split_at
split_at-append mark [] b h = ground arith
split_at-append mark (c ∷ a) b h = ground (arith, split_at-append mark a b h.1)

-- The first line of a stream, by what it does to the loop over the header.
data FirstLine (s : Bytes) (n : ℕ) : Type 0 where
  none_left : split_at b'\n' s ≡ none → FirstLine s n
  ends :
      (line rest : Bytes) (k : ℕ)
      → split_at b'\n' s ≡ some (line, rest)
      → read_line (strip_cr line) n ≡ end_headers k
      → FirstLine s n
  goes_on :
      (line rest : Bytes) (k : ℕ)
      → split_at b'\n' s ≡ some (line, rest)
      → read_line (strip_cr line) n ≡ next_line k
      → FirstLine s n

Header-cases : (h : Header) → ((k : ℕ) × (h ≡ end_headers k)) ⊎ ((k : ℕ) × (h ≡ next_line k))
Header-cases (end_headers k) = inl (k, refl)
Header-cases (next_line k) = inr (k, refl)

first_line : (s : Bytes) (n : ℕ) → FirstLine s n
first_line s n = elim (Option-cases (split_at b'\n' s)) [
  | inl e ↦ none_left e
  | inr ((line, rest), e) ↦ elim (Header-cases (read_line (strip_cr line) n)) [
    | inl (k, f) ↦ ends line rest k e f
    | inr (k, f) ↦ goes_on line rest k e f
  ]
]

abbrev after_line : {s : Bytes} {n : ℕ} → ℕ → FirstLine s n → Headers
after_line fuel (none_left e) = headers_ended
after_line fuel (ends line rest k e f) = headers k rest
after_line fuel (goes_on line rest k e f) = read_headers fuel rest k

read_headers-after_line :
    (fuel : ℕ) (s : Bytes) (n : ℕ) (first : FirstLine s n)
    → read_headers (suc fuel) s n ≡ after_line fuel first
unfolding read_headers
read_headers-after_line fuel s n (none_left e) = rw (e, read_headers)
read_headers-after_line fuel s n (ends line rest k e f) = rw (e, f, read_headers)
read_headers-after_line fuel s n (goes_on line rest k e f) = rw (e, f, read_headers)

after_line_fuel :
    {s : Bytes} {n : ℕ} (f g : ℕ) (first : FirstLine s n)
    → ((rest : Bytes) (k : ℕ)
        → length rest < length s
        → read_headers f rest k ≡ read_headers g rest k)
    → after_line f first ≡ after_line g first
after_line_fuel f g (none_left e) same = refl
after_line_fuel f g (ends line rest k e h) same = refl
after_line_fuel {s} f g (goes_on line rest k e h) same =
    same rest k (split_at-length b'\n' s line rest e)

-- Any fuel above the length of the stream is enough for the header.
pub read_headers_fuel :
    (f g : ℕ) (s : Bytes) (n : ℕ)
    → length s < f
    → length s < g
    → read_headers f s n ≡ read_headers g s n
read_headers_fuel zero g s n hf hg = absurd (omega arith)
read_headers_fuel (suc f) zero s n hf hg = absurd (omega arith)
read_headers_fuel (suc f) (suc g) s n hf hg =
    read_headers-after_line f s n (first_line s n)
    ∙ after_line_fuel f g (first_line s n)
        (λ rest k h. read_headers_fuel f g rest k (omega arith) (omega arith))
    ∙ sym (read_headers-after_line g s n (first_line s n))

-- What a loop with enough fuel leaves: it takes a line at least.
pub data Shorter (s : Bytes) : Headers → Type 0 where
  stops : Shorter s headers_ended
  reads : {k : ℕ} {rest : Bytes} → length rest < length s → Shorter s (headers k rest)

Shorter-weaken : {s t : Bytes} {h : Headers} → length t ≤ length s → Shorter t h → Shorter s h
Shorter-weaken le stops = stops
Shorter-weaken le (reads h) = reads (omega arith)

after_line-Shorter :
    {s : Bytes} {n : ℕ} (f : ℕ) (first : FirstLine s n)
    → ((rest : Bytes) (k : ℕ) → length rest < length s → Shorter rest (read_headers f rest k))
    → Shorter s (after_line f first)
after_line-Shorter f (none_left e) rec = stops
after_line-Shorter {s} f (ends line rest k e h) rec = reads (split_at-length b'\n' s line rest e)
after_line-Shorter {s} f (goes_on line rest k e h) rec =
    let less = split_at-length b'\n' s line rest e in Shorter-weaken (omega arith) (rec rest k less)

read_headers-Shorter : (f : ℕ) (s : Bytes) (n : ℕ) → length s < f → Shorter s (read_headers f s n)
read_headers-Shorter zero s n h = absurd (omega arith)
read_headers-Shorter (suc f) s n h = rw (read_headers-after_line f s n (first_line s n)) (
    after_line-Shorter f (first_line s n)
      (λ rest k less. read_headers-Shorter f rest k (omega arith)))

after_headers-same :
    (s : Bytes) (c d : Bytes → Read) (h : Headers)
    → ((rest : Bytes) → length rest < length s → c rest ≡ d rest)
    → Shorter s h
    → after_headers c h ≡ after_headers d h
unfolding after_headers
after_headers-same s c d headers_ended same stops = refl
after_headers-same s c d headers_stuck same h = elim h [ ]
after_headers-same s c d (headers n rest) same (reads less) = elim (Bool-cases (n == 0)) [
  | inl e ↦ rw (e, after_headers) (same rest less)
  | inr e ↦ rw (e, after_headers)
]

-- Any fuel above the length of the stream is enough for a message.
read_fuel_enough :
    (f g : ℕ) (s : Bytes) → length s < f → length s < g → read_fuel f s ≡ read_fuel g s
unfolding read_fuel
read_fuel_enough zero g s hf hg = absurd (omega arith)
read_fuel_enough (suc f) zero s hf hg = absurd (omega arith)
read_fuel_enough (suc f) (suc g) s hf hg =
    after_headers-same s (read_fuel f) (read_fuel g) (read_headers (suc (length s)) s 0)
      (λ rest less. read_fuel_enough f g rest (omega arith) (omega arith))
      (read_headers-Shorter (suc (length s)) s 0 (omega arith))

after_headers_runs :
    (s : Bytes) (c : Bytes → Read) (h : Headers)
    → ((rest : Bytes) → length rest < length s → c rest ≢ out_of_fuel)
    → Shorter s h
    → after_headers c h ≢ out_of_fuel
unfolding after_headers
after_headers_runs s c headers_ended runs stops = ground arith
after_headers_runs s c headers_stuck runs h = elim h [ ]
after_headers_runs s c (headers n rest) runs (reads less) = ground (arith, runs rest less)

read_fuel-ne-out_of_fuel : (f : ℕ) (s : Bytes) → length s < f → read_fuel f s ≢ out_of_fuel
unfolding read_fuel
read_fuel-ne-out_of_fuel zero s h = absurd (omega arith)
read_fuel-ne-out_of_fuel (suc f) s h =
    after_headers_runs s (read_fuel f) (read_headers (suc (length s)) s 0)
      (λ rest less. read_fuel-ne-out_of_fuel f rest (omega arith))
      (read_headers-Shorter (suc (length s)) s 0 (omega arith))

-- The two loops of `read_message` come to an end on every stream: with a message, or at the end of
-- the stream.
pub read_message-ne-out_of_fuel : (stream : Bytes) → read_message stream ≢ out_of_fuel
unfolding read_message
read_message-ne-out_of_fuel stream =
    read_fuel-ne-out_of_fuel (suc (length stream)) stream (omega arith)

-- Reading goes by the first header: it is skipped if it gives no length.
pub read_message-read_headers :
    (s : Bytes) → read_message s ≡ after_headers read_message (read_headers (suc (length s)) s 0)
unfolding read_message read_fuel
read_message-read_headers s =
    after_headers-same s (read_fuel (length s)) read_message (read_headers (suc (length s)) s 0)
      (λ rest less. read_fuel_enough (length s) (suc (length rest)) rest less (omega arith))
      (read_headers-Shorter (suc (length s)) s 0 (omega arith))

-- One line of a header, by what it does.
pub read_headers_line :
    (fuel : ℕ) (line rest : Bytes) (n k : ℕ)
    → Lacks b'\n' line
    → read_line (strip_cr line) n ≡ next_line k
    → read_headers (suc fuel) (line ++ (b'\n' ∷ rest)) n ≡ read_headers fuel rest k
read_headers_line fuel line rest n k h e =
    read_headers-after_line fuel (line ++ (b'\n' ∷ rest)) n
      (goes_on line rest k (split_at-append b'\n' line rest h) e)

pub read_headers_last :
    (fuel : ℕ) (line rest : Bytes) (n k : ℕ)
    → Lacks b'\n' line
    → read_line (strip_cr line) n ≡ end_headers k
    → read_headers (suc fuel) (line ++ (b'\n' ∷ rest)) n ≡ headers k rest
read_headers_last fuel line rest n k h e =
    read_headers-after_line fuel (line ++ (b'\n' ∷ rest)) n
      (ends line rest k (split_at-append b'\n' line rest h) e)
