-- ===== src/Clangd/Messages/Replies.antt =====
-- A reply, from the text that is written to the request that it resumes.
use ycmd_cpp.Base.{
  ℕ, ◌≡◌, refl, ap, ◌∙◌, Option, none, some, [], ◌∷◌, ◌>>=◌, ◌==◌, if◌then◌else◌, arith, Bytes,
}
use ycmd_cpp.Json.{JsonLibrary, IsLawful, Codec}
use ycmd_cpp.Lsp.RoundTrip.{IsSendable, send_messages}
use ycmd_cpp.Clangd.Pending.{number, Pending, Incoming, incoming, pump_message}
use ycmd_cpp.Clangd.Pending.Laws.{IsPending, waiting, handle_response_lem}
use ycmd_cpp.Clangd.Pump.{message_pump}
use ycmd_cpp.Clangd.Pump.Laws.{pump_all, message_pump-pump_all}
use ycmd_cpp.Clangd.Messages.{send_reply, classify}
use ycmd_cpp.Clangd.Messages.Laws.{IsTyped, classify_lem}

module _ (lib : JsonLibrary) (strings : Codec lib Bytes) (numbers : Codec lib ℕ)
    (diagnostics : lib.Json → Option (Unit {0})) (dump : lib.Json → Bytes)
    (parse : Bytes → Option lib.Json) where
  -- What the pump makes of a text.
  abbrev pub parse_message : Bytes → Option (Incoming lib.Json)
  parse_message content = parse content >>= classify lib strings numbers diagnostics

  abbrev reply : ℕ → lib.Json → lib.Json
  reply n result = send_reply lib strings numbers (number n) result

  -- A reply that is written to the pipe is handed to the handler of the request with its number, and
  -- to no other; afterwards that request does not wait, and the others wait as before. The text of
  -- the reply is parsed as the reply, is not empty, and its length fits into a `size_t`.
  pub message_pump-send_reply :
      {H : Type 0}
      → IsLawful lib
      → IsTyped strings numbers
      → (p : Pending H) (n : ℕ) (handler : H) (result : lib.Json) → IsPending p
      → waiting p n ≡ some handler
      → parse (dump (reply n result)) ≡ some (reply n result)
      → IsSendable (dump (reply n result))
      → (let done = message_pump parse_message 2 (send_messages (dump (reply n result) ∷ [])) p in
          (done.1 ≡ handler ∷ [])
          × ((m : ℕ) → waiting done.0 m ≡ (if n == m then none else waiting p m)))
  unfolding pump_all pump_message
  message_pump-send_reply law typed p n handler result pending waits parsed sendable =
      let answer = reply n result in
      let classified =
        (classify_lem lib strings numbers law typed diagnostics (number n) [] result).1 in
      let pumped =
        message_pump-pump_all parse_message
          ((dump answer, incoming none (some (number n)) answer) ∷ []) 2 p
          (sendable, rw parsed classified, tt) (omega arith) in
      let (resumed, _, _, left) = handle_response_lem p n pending in
      (
        ap (λ done. done.1) pumped ∙ rw (resumed, waits) refl,
        λ m. ap (λ done. waiting done.0 m) pumped ∙ left m,
      )
