-- ===== src/Lsp/Sending/Laws.antt =====
-- What arrives of messages that are sent in turn, and what two calls that overlap start.
use mathlib.Core.List.{append-nil, append_assoc}
use ycmd_cpp.Base.{ℕ, ◌<◌, ◌≡◌, refl, sym, ap, ◌∙◌, List, [], ◌∷◌, ◌++◌, Bytes, All, length, drop}
use ycmd_cpp.Lsp.Reader.{read_messages}
use ycmd_cpp.Lsp.Writer.{send_message}
use ycmd_cpp.Lsp.RoundTrip.{IsSendable, send_messages, read_messages-send_messages}
use ycmd_cpp.Lsp.Sending.{Sending, begin_send, finish_send, send_in_turn}

-- Nothing is being written; the pipe has the bytes.
abbrev pub idle : Bytes → Sending
idle out = record { buf = []; in_flight = []; out = out }

drop-length : (s : Bytes) → drop (length s) s ≡ []
drop-length [] = refl
drop-length (b ∷ s) = drop-length s

finish_send-begin_send :
    (content out : Bytes)
    → finish_send (begin_send content (idle out)) ≡ idle (out ++ send_message content)
unfolding finish_send begin_send
finish_send-begin_send content out = rw (drop-length (send_message content)) refl

send_in_turn-idle :
    (contents : List Bytes) (out : Bytes)
    → send_in_turn contents (idle out) ≡ idle (out ++ send_messages contents)
unfolding send_in_turn
send_in_turn-idle [] out = ap idle (sym (append-nil out))
send_in_turn-idle (content ∷ contents) out =
    ap (send_in_turn contents) (finish_send-begin_send content out)
    ∙ send_in_turn-idle contents (out ++ send_message content)
    ∙ ap idle (append_assoc out (send_message content) (send_messages contents))

-- Messages that are sent each after the end of the one before are read back in order, with the buffer
-- empty again and no write under way; if none is empty and their lengths fit into a `size_t`. A call
-- before any byte of another one's message is written starts a second write, of both messages, while
-- the first is under way.
pub read_messages-sent :
    (contents : List Bytes) (first second : Bytes) (fuel : ℕ)
    → All IsSendable contents
    → length contents < fuel
    → (read_messages fuel (send_in_turn contents (idle [])).out ≡ contents)
      × ((send_in_turn contents (idle [])).buf ≡ [])
      × ((send_in_turn contents (idle [])).in_flight ≡ [])
      × ((begin_send second (begin_send first (send_in_turn contents (idle [])))).in_flight
          ≡ send_message first ∷ (send_message first ++ send_message second) ∷ [])
unfolding begin_send
read_messages-sent contents first second fuel each enough =
    let turn = send_in_turn-idle contents [] in
    (
      ap (λ s. read_messages fuel s.out) turn
          ∙ read_messages-send_messages contents fuel each enough,
      ap (λ s. s.buf) turn,
      ap (λ s. s.in_flight) turn,
      ap (λ s. (begin_send second (begin_send first s)).in_flight) turn,
    )
