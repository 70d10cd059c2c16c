-- ===== src/Clangd/Pending.antt =====
-- The requests that wait for a response: `get_response` and `message_pump` of
-- src/completers/cpp/clangd_completer.cpp. A handler, which resumes the coroutine that waits, is a
-- value of the type `H`; that it is called is part of a step's result. An identifier is a double in
-- the source, which counts exactly as far as 2 ^ 53.
pub mod Laws
pub mod History
pub mod Answered
use ycmd_cpp.Base.{
  ℕ, zero, suc, ◌+◌, Bool, true, false, Option, none, some, List, [], ◌∷◌, ◌++◌, ◌==◌,
  if◌then◌else◌, Bytes, bytes_eq,
}

-- `lsp::ID`, a variant of a string and a number.
pub data RequestId : Type 0 where
  text : Bytes → RequestId
  number : ℕ → RequestId

unfoldable pub id_eq : RequestId → RequestId → Bool
unfolding bytes_eq
id_eq (text s) (text t) = bytes_eq s t
id_eq (text s) (number n) = false
id_eq (number m) (text t) = false
id_eq (number m) (number n) = m == n

pub record PendingRequest (H : Type 0) : Type 0 where
  pub id : RequestId
  pub handler : H

pub record Pending (H : Type 0) : Type 0 where
  pub next_id : ℕ
  pub pending_requests : List (PendingRequest H)

-- The two fields that tell the kinds of messages apart, and the whole message.
pub record Incoming (M : Type 0) : Type 0 where
  pub method : Option Bytes
  pub id : Option RequestId
  pub content : M

abbrev pub incoming : {M : Type 0} → Option Bytes → Option RequestId → M → Incoming M
incoming method id content = record { method = method; id = id; content = content }

module _ {H : Type 0} where
  abbrev pub no_requests : Pending H
  no_requests = record { next_id = 0; pending_requests = [] }

  -- The part of `get_response` before it waits: the new state, and the identifier that is sent.
  unfoldable pub get_response : Pending H → H → Pending H × RequestId
  get_response p handler = (
    record {
      next_id = p.next_id + 1;
      pending_requests =
          p.pending_requests ++ (record { id = number p.next_id; handler = handler } ∷ []);
    },
    number p.next_id,
  )

  -- `std::find_if` in the deque, and the deque without what it finds.
  unfoldable pub find_pending : RequestId → List (PendingRequest H) → Option H
  unfolding id_eq
  find_pending id [] = none
  find_pending id (r ∷ rs) = if id_eq r.id id then some r.handler else find_pending id rs

  unfoldable pub erase_pending : RequestId → List (PendingRequest H) → List (PendingRequest H)
  unfolding id_eq
  erase_pending id [] = []
  erase_pending id (r ∷ rs) = if id_eq r.id id then rs else r ∷ erase_pending id rs

  -- A response: the handler that it resumes, if a request waits for it.
  unfoldable pub handle_response : Pending H → RequestId → Pending H × Option H
  unfolding find_pending erase_pending
  handle_response p id = elim (find_pending id p.pending_requests) [
    | none ↦ (p, none)
    | some handler ↦
        (record p { pending_requests = erase_pending id p.pending_requests }, some handler)
  ]

  -- One round of `message_pump`. Requests of the server are not answered, and its notifications
  -- have no effect.
  unfoldable pub pump_message : {M : Type 0} → Pending H → Incoming M → Pending H × Option H
  unfolding handle_response
  pump_message p message = elim message.method [
    | some method ↦ (p, none)
    | none ↦ elim message.id [ none ↦ (p, none) | some id ↦ handle_response p id ]
  ]
