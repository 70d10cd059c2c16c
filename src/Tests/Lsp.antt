-- ===== src/Tests/Lsp.antt =====
-- Messages on a pipe, and the requests that wait for them, at concrete inputs.
use ycmd_cpp.Base.{
  ℕ, zero, suc, ◌≡◌, ◌≢◌, ◌<◌, refl, Option, true, any, none, some, List, [], ◌∷◌, ◌++◌, Bytes,
  arith, if◌then◌else◌, bytes_eq,
}
use ycmd_cpp.Lsp.Reader.{message, out_of_fuel, read_message, read_messages}
use ycmd_cpp.Lsp.Reader.Laws.{read_message-ne-out_of_fuel}
use ycmd_cpp.Lsp.Writer.{send_message}
use ycmd_cpp.Lsp.HeaderLines.{header_lines}
use ycmd_cpp.Lsp.RoundTrip.{send_messages, read_message-send_message}
use ycmd_cpp.Lsp.Sending.{begin_send, send_in_turn}
use ycmd_cpp.Lsp.Sending.Laws.{idle, read_messages-sent}
use ycmd_cpp.Clangd.Pending.{incoming, number, Incoming}
use ycmd_cpp.Clangd.Pending.Laws.{IsPending, waiting}
use ycmd_cpp.Clangd.Pending.History.{
  Event, ask, receive, after, asked, answered, outstanding, waiting-after,
}
use ycmd_cpp.Clangd.Pending.Answered.{answers}
use ycmd_cpp.Clangd.Pump.{message_pump}
use ycmd_cpp.Clangd.Pump.Laws.{AllParsed, texts, messages, pending_requests-message_pump}
use ycmd_cpp.Tests.Data.{codes}

abbrev other_header : List (Bytes × Bytes)
other_header = (codes "A", codes "b") ∷ []

read_message-send_message_example :
    read_message (header_lines other_header (send_message (codes "{}") ++ codes "[]"))
    ≡ message (codes "{}") (codes "[]")
read_message-send_message_example =
    read_message-send_message other_header (codes "{}") (codes "[]")
      (((refl, tt), (refl, tt), (refl, tt), unfold bytes_eq in refl), tt) (omega arith)
      (omega arith)

read_messages-sent_example :
    (read_messages 3 (send_in_turn (codes "{}" ∷ codes "[]" ∷ []) (idle [])).out
      ≡ codes "{}" ∷ codes "[]" ∷ [])
    × ((send_in_turn (codes "{}" ∷ codes "[]" ∷ []) (idle [])).buf ≡ [])
    × ((send_in_turn (codes "{}" ∷ codes "[]" ∷ []) (idle [])).in_flight ≡ [])
    × ((begin_send (codes "2") (
          begin_send (codes "1") (send_in_turn (codes "{}" ∷ codes "[]" ∷ []) (idle [])))).in_flight
        ≡ send_message (codes "1") ∷ (send_message (codes "1") ++ send_message (codes "2")) ∷ [])
read_messages-sent_example =
    read_messages-sent (codes "{}" ∷ codes "[]" ∷ []) (codes "1") (codes "2") 3
      ((omega arith, omega arith), ((omega arith, omega arith), tt)) (omega arith)

read_message-ne-out_of_fuel_example : read_message (send_message (codes "{}")) ≢ out_of_fuel
read_message-ne-out_of_fuel_example = read_message-ne-out_of_fuel (send_message (codes "{}"))

-- Two requests, and the response to the first.
abbrev history : List (Event ℕ ℕ)
history = receive (incoming none (some (number 0)) 7) ∷ ask 11 ∷ ask 10 ∷ []

waiting-after_example :
    IsPending (after history)
    × ((after history).next_id ≡ asked history)
    × ((n : ℕ) → waiting (after history) n ≡ outstanding history n)
waiting-after_example = waiting-after history

-- Two texts that answer the two requests, the second first.
abbrev answers_written : List (Bytes × Incoming ℕ)
answers_written =
    (codes "b", incoming none (some (number 1)) 7)
    ∷ (codes "a", incoming none (some (number 0)) 8)
    ∷ []

abbrev parse_answer : Bytes → Option (Incoming ℕ)
parse_answer s =
    if bytes_eq s (codes "b")
    then some (incoming none (some (number 1)) 7)
    else some (incoming none (some (number 0)) 8)

answers_written-AllParsed : AllParsed parse_answer answers_written
unfolding bytes_eq
answers_written-AllParsed =
    ((omega arith, omega arith), refl, ((omega arith, omega arith), refl, tt))

abbrev two_asked : List (Event ℕ ℕ)
two_asked = ask 11 ∷ ask 10 ∷ []

all_answered : (n : ℕ) → n < asked two_asked → any (answers n) (messages answers_written) ≡ true
unfolding asked answered
all_answered zero h = refl
all_answered (suc zero) h = refl
all_answered (suc (suc n)) h = absurd (omega (arith, h))

pending_requests-message_pump_example :
    (message_pump parse_answer 3
      (send_messages (texts answers_written))
      (after two_asked)).0.pending_requests
    ≡ []
pending_requests-message_pump_example =
    pending_requests-message_pump parse_answer answers_written two_asked 3 answers_written-AllParsed
      (omega arith) all_answered
