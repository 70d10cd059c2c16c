-- ===== src/Query/Prefix.antt =====
-- The flag of `QueryMatchResult` for a prefix, which compares the last two indices.
use ycmd_cpp.Base.{
  ℕ, ◌+◌, ◌<◌, ◌≡◌, sym, ◌∙◌, Bool, true, false, some, List, [], ◌∷◌, arith, Bool-cases, inl, inr,
}
use mathlib.Core.Bool.{false≢true}
use ycmd_cpp.Character.{Character, matches_smart}
use ycmd_cpp.Query.{match_loop}
use ycmd_cpp.Query.Embedding.{IsPrefix, none_left, next}

-- Once a character is passed, the candidate's index stays ahead of the query's.
match_loop_ahead :
    (cs : List Character) (q : Character) (qs : List Character) (k j s t : ℕ) (flag : Bool)
    → j < k
    → match_loop cs q qs k j s ≡ some (t, flag)
    → flag ≡ false
unfolding match_loop
match_loop_ahead [] q qs k j s t flag h e = cc
match_loop_ahead (c ∷ cs) q [] k j s t flag h e =
    ground (arith, match_loop_ahead cs q [] (k + 1) j s t flag)
match_loop_ahead (c ∷ cs) q (q' ∷ qs) k j s t flag h e = ground (
  arith,
  match_loop_ahead cs q' qs (k + 1) (j + 1) (s + k) t flag,
  match_loop_ahead cs q (q' ∷ qs) (k + 1) j s t flag,
)

IsPrefix-head :
    {q c : Character} {qs cs : List Character}
    → IsPrefix (q ∷ qs) (c ∷ cs)
    → ¬ (matches_smart q c ≡ false)
IsPrefix-head (next m p) f = absurd (false≢true (sym f ∙ m))

IsPrefix-tail :
    {q c : Character} {qs cs : List Character} → IsPrefix (q ∷ qs) (c ∷ cs) → IsPrefix qs cs
IsPrefix-tail (next m p) = p

-- While no character is passed, the flag will tell whether none is.
pub match_loop_level :
    (cs : List Character) (q : Character) (qs : List Character) (k s : ℕ) {t : ℕ} {flag : Bool}
    → match_loop cs q qs k k s ≡ some (t, flag)
    → (flag ≡ true → IsPrefix (q ∷ qs) cs) × (IsPrefix (q ∷ qs) cs → flag ≡ true)
unfolding match_loop
match_loop_level [] q qs k s e = cc
match_loop_level (c ∷ cs) q [] k s e = elim (Bool-cases (matches_smart q c)) [
  | inl m ↦ (λ _. next m none_left, λ _. ground arith)
  | inr m ↦
      let off = match_loop_ahead cs q [] (k + 1) k s _ _ (omega arith) (rw (m, match_loop) at e) in
      (λ on. absurd (false≢true (sym off ∙ on)), λ p. absurd (IsPrefix-head p m))
]
match_loop_level (c ∷ cs) q (q' ∷ qs) k s e = elim (Bool-cases (matches_smart q c)) [
  | inl m ↦
      let (to, from) = match_loop_level cs q' qs (k + 1) (s + k) (rw (m, match_loop) at e) in
      (λ on. next m (to on), λ p. from (IsPrefix-tail p))
  | inr m ↦
      let off =
        match_loop_ahead cs q (q' ∷ qs) (k + 1) k s _ _ (omega arith) (rw (m, match_loop) at e) in
      (λ on. absurd (false≢true (sym off ∙ on)), λ p. absurd (IsPrefix-head p m))
]
