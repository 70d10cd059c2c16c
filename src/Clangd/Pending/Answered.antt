-- ===== src/Clangd/Pending/Answered.antt =====
-- What is left when every request is answered.
use ycmd_cpp.Base.{
  ℕ, ◌<◌, ◌≡◌, refl, ◌∙◌, Bool, true, false, Option, none, some, List, [], ◌∷◌, any, arith, ltb,
  ◌==◌, if◌then◌else◌, Bool-cases, inl, inr, ltb→lt,
}
use ycmd_cpp.Clangd.Pending.{number, PendingRequest, Incoming, find_pending}
use ycmd_cpp.Clangd.Pending.Laws.{Rising, find_pending_high}
use ycmd_cpp.Clangd.Pending.History.{
  Event, receive, answered, unless_answered, after, asked, outstanding, waiting-after,
}

-- A list of requests that none can be found in is empty.
Rising-nil :
    {H : Type 0} (low high : ℕ) (rs : List (PendingRequest H))
    → Rising low high rs
    → ((n : ℕ) → find_pending (number n) rs ≡ none)
    → rs ≡ []
unfolding find_pending
Rising-nil low high [] v h = refl
Rising-nil low high (r ∷ rs) (n, e, le, lt, rest) h = absurd (ground (arith, h n))

-- Does the message answer the request of the number?
abbrev pub is_number : ℕ → Option ℕ → Bool
is_number n none = false
is_number n (some k) = k == n

abbrev pub answers : {M : Type 0} → ℕ → Incoming M → Bool
answers n message = is_number n (answered message.method message.id)

unless_answered_lem :
    {H : Type 0} (n : ℕ) (o : Option ℕ) (h : Option H)
    → unless_answered o n h ≡ (if is_number n o then none else h)
unfolding unless_answered
unless_answered_lem n none h = refl
unless_answered_lem n (some k) h = refl

module _ {H M : Type 0} where
  -- Messages that come one after another, the first of the list first.
  abbrev pub received : List (Incoming M) → List (Event H M) → List (Event H M)
  received [] past = past
  received (message ∷ messages) past = received messages (receive message ∷ past)

  asked-received :
      (messages : List (Incoming M)) (past : List (Event H M))
      → asked (received messages past) ≡ asked past
  asked-received [] past = refl
  asked-received (message ∷ messages) past =
      asked-received messages (receive message ∷ past) ∙ unfold asked in refl

  outstanding_stays :
      (n : ℕ) (messages : List (Incoming M)) (past : List (Event H M))
      → outstanding past n ≡ none
      → outstanding (received messages past) n ≡ none
  outstanding_stays n [] past h = h
  outstanding_stays n (message ∷ messages) past h =
      let split = unless_answered_lem n (answered message.method message.id) (outstanding past n) in
      outstanding_stays n messages (receive message ∷ past)
        (unfold outstanding in ground (arith, split, h))

  outstanding-received :
      (n : ℕ) (messages : List (Incoming M)) (past : List (Event H M))
      → any (answers n) messages ≡ true
      → outstanding (received messages past) n ≡ none
  outstanding-received n [] past h = ground (arith, h)
  outstanding-received n (message ∷ messages) past h =
      let split = unless_answered_lem n (answered message.method message.id) (outstanding past n) in
      elim (Bool-cases (answers n message)) [
        | inl now ↦
            outstanding_stays n messages (receive message ∷ past)
              (unfold outstanding in ground (arith, split, now))
        | inr later ↦
            outstanding-received n messages (receive message ∷ past) (ground (arith, h, later))
      ]

  -- When messages that answer every request so far have come, in whatever order and with whatever
  -- messages between them, no request waits.
  pub pending_requests-received :
      (messages : List (Incoming M)) (past : List (Event H M))
      → ((n : ℕ) → n < asked past → any (answers n) messages ≡ true)
      → (after (received messages past)).pending_requests ≡ []
  pending_requests-received messages past each =
      let (v, next, same) = waiting-after (received messages past) in
      Rising-nil 0 _ _ v (λ n. elim (Bool-cases (ltb n (asked past))) [
        | inl below ↦ same n ∙ outstanding-received n messages past (each n (ltb→lt n _ below))
        | inr above ↦
            find_pending_high 0 _ n _ v (ground (arith, next, above, asked-received messages past))
      ])
