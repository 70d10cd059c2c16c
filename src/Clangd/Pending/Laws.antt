-- ===== src/Clangd/Pending/Laws.antt =====
-- The requests that wait, after a request is sent and after a response.
use ycmd_cpp.Base.{
  ℕ, suc, ◌+◌, ◌≤◌, ◌<◌, ◌≡◌, refl, Option, none, some, List, [], ◌∷◌, ◌++◌, arith, ◌==◌,
  if◌then◌else◌, Bool-cases, Option-cases, inl, inr, Bytes,
}
use ycmd_cpp.Clangd.Pending.{
  RequestId, text, number, id_eq, PendingRequest, Pending, get_response, find_pending,
  erase_pending, handle_response,
}

module _ {H : Type 0} where
  -- Identifiers are numbers that grow along the deque, from `low` on and below `high`.
  abbrev pub Rising : ℕ → ℕ → List (PendingRequest H) → Type 0
  Rising low high [] = low ≤ high
  Rising low high (r ∷ rs) =
      (n : ℕ) × (r.id ≡ number n) × (low ≤ n) × (n < high) × Rising (suc n) high rs

  -- The requests that wait have distinct identifiers, all of them given out before.
  abbrev pub IsPending : Pending H → Type 0
  IsPending p = Rising 0 p.next_id p.pending_requests

  Rising-append :
      (low high : ℕ) (rs : List (PendingRequest H)) (h : H)
      → Rising low high rs
      → Rising low (high + 1) (rs ++ (record { id = number high; handler = h } ∷ []))
  Rising-append low high [] h le = (high, refl, le, omega arith, omega arith)
  Rising-append low high (r ∷ rs) h (n, e, le, lt, rest) =
      (n, e, le, omega arith, Rising-append (suc n) high rs h rest)

  Rising-weaken :
      (low low' high : ℕ) (rs : List (PendingRequest H))
      → low' ≤ low
      → Rising low high rs
      → Rising low' high rs
  Rising-weaken low low' high [] h le = omega arith
  Rising-weaken low low' high (r ∷ rs) h (n, e, le, lt, rest) = (n, e, omega arith, lt, rest)

  Rising-erase_pending :
      (low high : ℕ) (id : RequestId) (rs : List (PendingRequest H))
      → Rising low high rs
      → Rising low high (erase_pending id rs)
  unfolding erase_pending
  Rising-erase_pending low high id [] le = le
  Rising-erase_pending low high id (r ∷ rs) (n, e, le, lt, rest) =
      elim (Bool-cases (id_eq r.id id)) [
        | inl hit ↦ rw (hit, erase_pending) (Rising-weaken (suc n) low high rs (omega arith) rest)
        | inr miss ↦
            rw (miss, erase_pending) (n, e, le, lt, Rising-erase_pending (suc n) high id rs rest)
      ]

  -- What a request that waits under the number is resumed by.
  abbrev pub waiting : Pending H → ℕ → Option H
  waiting p n = find_pending (number n) p.pending_requests

  find_pending_low :
      (low high m : ℕ) (rs : List (PendingRequest H))
      → Rising low high rs
      → m < low
      → find_pending (number m) rs ≡ none
  unfolding find_pending
  find_pending_low low high m [] le h = refl
  find_pending_low low high m (r ∷ rs) (n, e, le, lt, rest) h =
      ground (arith, find_pending_low (suc n) high m rs rest)

  pub find_pending_text :
      (s : Bytes) (low high : ℕ) (rs : List (PendingRequest H))
      → Rising low high rs
      → find_pending (text s) rs ≡ none
  unfolding find_pending
  find_pending_text s low high [] le = refl
  find_pending_text s low high (r ∷ rs) (n, e, le, lt, rest) =
      ground (arith, find_pending_text s (suc n) high rs rest)

  pub find_pending_high :
      (low high m : ℕ) (rs : List (PendingRequest H))
      → Rising low high rs
      → high ≤ m
      → find_pending (number m) rs ≡ none
  unfolding find_pending
  find_pending_high low high m [] le h = refl
  find_pending_high low high m (r ∷ rs) (n, e, le, lt, rest) h =
      ground (arith, find_pending_high (suc n) high m rs rest)

  find_pending-append :
      (m k : ℕ) (h : H) (rs : List (PendingRequest H))
      → find_pending (number k) rs ≡ none
      → find_pending (number m) (rs ++ (record { id = number k; handler = h } ∷ []))
        ≡ (if k == m then some h else find_pending (number m) rs)
  unfolding find_pending
  find_pending-append m k h [] e = refl
  find_pending-append m k h (r ∷ rs) e = ground (arith, find_pending-append m k h rs)

  find_pending-erase_pending :
      (low high m k : ℕ) (rs : List (PendingRequest H))
      → Rising low high rs
      → find_pending (number m) (erase_pending (number k) rs)
        ≡ (if k == m then none else find_pending (number m) rs)
  unfolding find_pending erase_pending
  find_pending-erase_pending low high m k [] le = ground arith
  find_pending-erase_pending low high m k (r ∷ rs) (n, e, le, lt, rest) = ground (
    arith,
    find_pending-erase_pending (suc n) high m k rs rest,
    find_pending_low (suc n) high m rs rest,
  )

  -- A new request gets a number of its own, waits under it, and leaves the others waiting.
  pub get_response_lem :
      (p : Pending H) (handler : H)
      → IsPending p
      → IsPending (get_response p handler).0
        × ((get_response p handler).1 ≡ number p.next_id)
        × (waiting p p.next_id ≡ none)
        × ((m : ℕ)
            → waiting (get_response p handler).0 m
              ≡ (if p.next_id == m then some handler else waiting p m))
  unfolding get_response
  get_response_lem p handler v =
      let fresh = find_pending_high 0 p.next_id p.next_id p.pending_requests v (omega arith) in
      (
        Rising-append 0 p.next_id p.pending_requests handler v,
        refl,
        fresh,
        λ m. find_pending-append m p.next_id handler p.pending_requests fresh,
      )

  none_waits :
      (p : Pending H) (k m : ℕ)
      → waiting p k ≡ none
      → waiting p m ≡ (if k == m then none else waiting p m)
  none_waits p k m e = ground arith

  -- A response resumes the request that waits under its number and no other, and afterwards none
  -- waits under it; a response that no request waits for changes nothing.
  pub handle_response_lem :
      (p : Pending H) (k : ℕ)
      → IsPending p
      → ((handle_response p (number k)).1 ≡ waiting p k)
        × IsPending (handle_response p (number k)).0
        × ((handle_response p (number k)).0.next_id ≡ p.next_id)
        × ((m : ℕ)
            → waiting (handle_response p (number k)).0 m ≡ (if k == m then none else waiting p m))
  unfolding handle_response
  handle_response_lem p k v = elim (Option-cases (find_pending (number k) p.pending_requests)) [
    | inl e ↦ rw (handle_response, e) (refl, v, refl, λ m. none_waits p k m e)
    | inr (h, e) ↦
        rw (handle_response, e)
          (
            refl,
            Rising-erase_pending 0 p.next_id (number k) p.pending_requests v,
            refl,
            λ m. find_pending-erase_pending 0 p.next_id m k p.pending_requests v,
          )
  ]
