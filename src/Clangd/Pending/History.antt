-- ===== src/Clangd/Pending/History.antt =====
-- The requests that wait after any history of requests sent and messages received.
use ycmd_cpp.Base.{
  ℕ, ◌+◌, ◌≡◌, refl, sym, ap, ◌∙◌, Option, none, some, List, [], ◌∷◌, arith, ◌==◌, if◌then◌else◌,
  Bytes,
}
use ycmd_cpp.Clangd.Pending.{
  incoming, RequestId, text, number, Pending, Incoming, no_requests, get_response, find_pending,
  handle_response, pump_message,
}
use ycmd_cpp.Clangd.Pending.Laws.{
  IsPending, waiting, get_response_lem, handle_response_lem, find_pending_text,
}

pub data Event (H M : Type 0) : Type 0 where
  ask : H → Event H M
  receive : Incoming M → Event H M

-- The number that a message answers, by its two fields.
unfoldable pub answered : Option Bytes → Option RequestId → Option ℕ
answered none (some (number k)) = some k
answered none (some (text s)) = none
answered none none = none
answered (some method) id = none

unfoldable pub unless_answered : {H : Type 0} → Option ℕ → ℕ → Option H → Option H
unless_answered none n h = h
unless_answered (some k) n h = if k == n then none else h

module _ {H M : Type 0} where
  -- The state after a history, whose last event comes first.
  unfoldable pub after : List (Event H M) → Pending H
  unfolding get_response pump_message
  after [] = no_requests
  after (ask h ∷ past) = (get_response (after past) h).0
  after (receive message ∷ past) = (pump_message (after past) message).0

  -- Described without the state: how many requests were sent, and the
  -- handler of the request of a number, until it is answered.
  unfoldable pub asked : List (Event H M) → ℕ
  asked [] = 0
  asked (ask h ∷ past) = asked past + 1
  asked (receive message ∷ past) = asked past

  unfoldable pub outstanding : List (Event H M) → ℕ → Option H
  unfolding asked answered unless_answered
  outstanding [] n = none
  outstanding (ask h ∷ past) n = if asked past == n then some h else outstanding past n
  outstanding (receive message ∷ past) n =
      unless_answered (answered message.method message.id) n (outstanding past n)

  -- What one message does to a well-formed state.
  pump_message_lem :
      (p : Pending H) (method : Option Bytes) (id : Option RequestId) (content : M)
      → IsPending p
      → IsPending (pump_message p (incoming method id content)).0
        × ((pump_message p (incoming method id content)).0.next_id ≡ p.next_id)
        × ((n : ℕ)
            → waiting (pump_message p (incoming method id content)).0 n
              ≡ unless_answered (answered method id) n (waiting p n))
  unfolding pump_message answered unless_answered
  pump_message_lem p (some method) id content v = (v, refl, λ n. refl)
  pump_message_lem p none none content v = (v, refl, λ n. refl)
  pump_message_lem p none (some (number k)) content v =
      let step = handle_response_lem p k v in (step.1, step.2, step.3)
  pump_message_lem p none (some (text s)) content v =
      rw (handle_response, find_pending_text s 0 p.next_id p.pending_requests v)
        (v, refl, λ n. refl)

  -- After every history the number of the next request is the number of requests sent, and the
  -- handlers that wait are, number by number, those of the requests not yet answered.
  pub waiting-after :
      (past : List (Event H M))
      → IsPending (after past)
        × ((after past).next_id ≡ asked past)
        × ((n : ℕ) → waiting (after past) n ≡ outstanding past n)
  unfolding after outstanding find_pending
  waiting-after [] = (omega arith, refl, λ n. refl)
  waiting-after (ask h ∷ past) =
      let (v, next, same) = waiting-after past in
      let (v', given, fresh, grows) = get_response_lem (after past) h v in
      (v', ap (λ n. n + 1) next, λ n. rw (sym next, sym (same n)) (grows n))
  waiting-after (receive message ∷ past) =
      let (v, next, same) = waiting-after past in
      let (v', kept, shrinks) =
        pump_message_lem (after past) message.method message.id message.content v in
      (
        v',
        kept ∙ next,
        λ n. shrinks n ∙ ap (unless_answered (answered message.method message.id) n) (same n),
      )
