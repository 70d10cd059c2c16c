-- ===== src/Identifiers/Laws.antt =====
-- What the scans for identifiers find.
use ycmd_cpp.Base.{
  ℕ, zero, suc, ◌+◌, ◌≤◌, ◌<◌, ◌≡◌, refl, ap, Bool, true, false, List, [], ◌∷◌, ◌++◌, arith, ltb,
  ltb→lt, Bool-cases, inl, inr, ◌⊎◌, some, Bytes, All,
}
use ycmd_cpp.Identifiers.{
  Match, match_end, first_ending_after, last_ending_by, between, scan_back,
  start_of_longest_identifier_ending_at,
}

-- The matches do not overlap and come in order, as the library's iterator gives them.
abbrev pub IsOrdered : ℕ → List Match → Type 0
IsOrdered low [] = Unit
IsOrdered low (m ∷ ms) = (low ≤ m.position) × IsOrdered (match_end m) ms

abbrev pub first_str : List Match → Bytes
first_str [] = []
first_str (m ∷ ms) = m.str

abbrev pub last_str : Bytes → List Match → Bytes
last_str best [] = best
last_str best (m ∷ ms) = last_str m.str ms

abbrev pub EndsBy : ℕ → Match → Type 0
EndsBy index m = match_end m ≤ index

abbrev pub EndsAfter : ℕ → Match → Type 0
EndsAfter index m = index < match_end m

-- The matches split where they pass the index.
abbrev pub SplitAt : ℕ → Bytes → List Match → Type 0
SplitAt index best ms =
    (earlier later : List Match) × (ms ≡ earlier ++ later)
    × All (EndsBy index) earlier
    × All (EndsAfter index) later
    × (first_ending_after index ms ≡ first_str later)
    × (last_ending_by index best ms ≡ last_str best earlier)

EndsAfter-IsOrdered :
    (index low : ℕ) (ms : List Match) → index < low → IsOrdered low ms → All (EndsAfter index) ms
EndsAfter-IsOrdered index low [] h ordered = tt
EndsAfter-IsOrdered index low (m ∷ ms) h (le, ordered) = (
  omega (arith, h, le),
  EndsAfter-IsOrdered index (match_end m) ms (omega (arith, h, le)) ordered,
)

-- Where the matches come in order, some of them end by the index and all after these end after it;
-- the identifier under the cursor is the first of the latter and the one before it the last of the
-- former, or empty where there is none.
pub under_cursor_lem :
    (index low : ℕ) (best : Bytes) (ms : List Match) → IsOrdered low ms → SplitAt index best ms
unfolding first_ending_after last_ending_by
under_cursor_lem index low best [] ordered = ([], [], refl, tt, tt, refl, refl)
under_cursor_lem index low best (m ∷ ms) (le, ordered) =
    elim (Bool-cases (ltb index (match_end m))) [
      | inl after ↦ (
        [],
        m ∷ ms,
        refl,
        tt,
        (
          ltb→lt index (match_end m) after,
          EndsAfter-IsOrdered index (match_end m) ms (ltb→lt index (match_end m) after) ordered,
        ),
        ground (arith, after),
        ground (arith, after),
      )
      | inr by ↦
          (let (earlier, later, split, ends, starts, first, last) =
              under_cursor_lem index (match_end m) m.str ms ordered in
            (
              m ∷ earlier,
              later,
              ap (◌∷◌ m) split,
              (ground (arith, by), ends),
              starts,
              ground (arith, by, first),
              ground (arith, by, last),
            ))
    ]

-- The scan from `start` down: it stops above the first position from which the text up to `end` is
-- no identifier.
scan_back_lem :
    (is_identifier : List ℕ → Bool) (end : ℕ) (line : List ℕ) (start : ℕ)
    → (let r = scan_back is_identifier end line start in
        (1 ≤ r)
        × (r ≤ start + 2)
        × ((i : ℕ) → r ≤ suc i → i ≤ start → is_identifier (between i end line) ≡ true)
        × ((r ≡ 1) ⊎ ((i : ℕ) × (r ≡ i + 2) × (is_identifier (between i end line) ≡ false))))
unfolding scan_back
scan_back_lem is_identifier end line zero = elim (Bool-cases (is_identifier (between 0 end line))) [
  | inl hit ↦ rw hit (omega arith, omega arith, λ i h k. ground (arith, hit), inl refl)
  | inr miss ↦ rw miss (omega arith, omega arith, λ i h k. ground arith, inr (0, refl, miss))
]
scan_back_lem is_identifier end line (suc start) =
    let (low, high, inside, stop) = scan_back_lem is_identifier end line start in
    elim (Bool-cases (is_identifier (between (suc start) end line))) [
      | inl hit ↦ rw hit (low, omega (arith, high), λ i h k. ground (arith, hit, inside i h), stop)
      | inr miss ↦
          rw miss (omega arith, omega arith, λ i h k. ground arith, inr (suc start, refl, miss))
    ]

-- A sequence of code points that is an identifier from `i` on is one from every later position.
abbrev pub SuffixesMatch : (List ℕ → Bool) → ℕ → List ℕ → Type 0
SuffixesMatch is_identifier end line =
    (i j : ℕ)
    → i ≤ j
    → j < end
    → is_identifier (between i end line) ≡ true
    → is_identifier (between j end line) ≡ true

-- With the cursor after `end` code points the column that is returned is at least 1 and at most the
-- cursor's. The text from each position at or after it up to the cursor is an identifier. If
-- suffixes of identifiers are identifiers, no identifier that ends at the cursor starts before it.
pub start_of_longest_identifier_ending_at_lem :
    (end : ℕ) (is_identifier : List ℕ → Bool) (line : List ℕ)
    → (start : ℕ) × (start_of_longest_identifier_ending_at (suc end) is_identifier line
        ≡ some start)
      × (1 ≤ start)
      × (start ≤ suc end)
      × ((i : ℕ) → start ≤ suc i → i < end → is_identifier (between i end line) ≡ true)
      × (SuffixesMatch is_identifier end line
          → (i : ℕ) → i < end
          → is_identifier (between i end line) ≡ true
          → start ≤ suc i)
unfolding start_of_longest_identifier_ending_at
start_of_longest_identifier_ending_at_lem zero is_identifier line =
    (1, refl, omega arith, omega arith, λ i k l. ground (arith, l), λ s i l m. omega arith)
start_of_longest_identifier_ending_at_lem (suc start) is_identifier line =
    let (low, high, inside, stop) = scan_back_lem is_identifier (suc start) line start in
    (
      scan_back is_identifier (suc start) line start,
      refl,
      low,
      omega (arith, high),
      λ i k l. inside i k (omega (arith, l)),
      λ suffixes i l found. elim stop [
        | inl one ↦ omega (arith, one)
        | inr (s, at, miss) ↦ ground (arith, suffixes i s, found, at, miss, high)
      ],
    )
