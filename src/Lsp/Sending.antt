-- ===== src/Lsp/Sending.antt =====
-- The buffer of `send_message` in src/lsp/comms.cpp, which is static, so that all calls share it. A
-- call appends its message and starts to write what the buffer holds; when that is written, as many
-- bytes are consumed. Between the two another coroutine may call it, and two writes to the pipe are
-- under way, which the library forbids.
pub mod Laws
use ycmd_cpp.Base.{List, [], ◌∷◌, ◌++◌, Bytes, length, drop}
use ycmd_cpp.Lsp.Writer.{send_message}

pub record Sending : Type 0 where
  -- The static buffer, what the calls that are suspended are writing, and what is on the pipe.
  pub buf : Bytes
  pub in_flight : List Bytes
  pub out : Bytes

-- A call, up to its `co_await`.
unfoldable pub begin_send : Bytes → Sending → Sending
unfolding send_message
begin_send content s =
    let held = s.buf ++ send_message content in
    record s { buf = held; in_flight = s.in_flight ++ (held ∷ []) }

-- The end of the write under way, with its call. While two are under way the library promises
-- nothing, and there is no step.
unfoldable pub finish_send : Sending → Sending
finish_send s = elim s.in_flight [
  | [] ↦ s
  | data' ∷ others ↦ elim others [
    | [] ↦ record { buf = drop (length data') s.buf; in_flight = []; out = s.out ++ data' }
    | _ ∷ _ ↦ s
  ]
]

-- Calls that each wait for the one before.
unfoldable pub send_in_turn : List Bytes → Sending → Sending
unfolding begin_send finish_send
send_in_turn [] s = s
send_in_turn (content ∷ contents) s = send_in_turn contents (finish_send (begin_send content s))
