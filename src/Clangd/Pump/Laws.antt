-- ===== src/Clangd/Pump/Laws.antt =====
-- The pump on what a server writes.
use ycmd_cpp.Base.{
  ℕ, zero, suc, ◌<◌, ◌≡◌, refl, ap, ◌∙◌, true, Option, some, List, [], ◌∷◌, map, any, arith, Bytes,
  length,
}
use ycmd_cpp.Lsp.RoundTrip.{IsSendable, send_messages, read_message-send_message}
use ycmd_cpp.Clangd.Pending.{Pending, Incoming, pump_message}
use ycmd_cpp.Clangd.Pending.History.{Event, receive, after, asked}
use ycmd_cpp.Clangd.Pending.Answered.{answers, received, pending_requests-received}
use ycmd_cpp.Clangd.Pump.{message_pump, resume_first}

-- Texts that are written, with the messages that they are read as.
abbrev pub AllParsed :
    {M : Type 0} → (Bytes → Option (Incoming M)) → List (Bytes × Incoming M) → Type 0
AllParsed parse [] = Unit
AllParsed parse (w ∷ written) = IsSendable w.0 × (parse w.0 ≡ some w.1) × AllParsed parse written

abbrev pub texts : {M : Type 0} → List (Bytes × Incoming M) → List Bytes
texts written = map (λ w. w.0) written

abbrev pub messages : {M : Type 0} → List (Bytes × Incoming M) → List (Incoming M)
messages written = map (λ w. w.1) written

-- The steps of the pump for a list of messages.
unfoldable pub pump_all : {H M : Type 0} → Pending H → List (Incoming M) → Pending H × List H
unfolding pump_message
pump_all p [] = (p, [])
pump_all p (incoming ∷ messages) =
    let step = pump_message p incoming in
    let later = pump_all step.0 messages in (later.0, resume_first step.1 later.1)

module _ {H M : Type 0} (parse : Bytes → Option (Incoming M)) where
  -- The pump handles the messages that the server writes one after another, in order and each whole,
  -- for as many rounds as there are messages.
  pub message_pump-pump_all :
      (written : List (Bytes × Incoming M)) (fuel : ℕ) (p : Pending H)
      → AllParsed parse written
      → length written < fuel
      → message_pump parse fuel (send_messages (texts written)) p ≡ pump_all p (messages written)
  unfolding pump_all message_pump
  message_pump-pump_all written zero p each h = absurd (omega arith)
  message_pump-pump_all [] (suc fuel) p each h = refl
  message_pump-pump_all (w ∷ written) (suc fuel) p (sendable, parsed, each) h =
      let read =
        read_message-send_message [] w.0 (send_messages (texts written)) tt sendable.0 sendable.1 in
      let step : Pending H × Option H = pump_message p w.1 in
      rw (message_pump, read, parsed)
        (ap (λ later. (later.0, resume_first step.1 later.1))
          (message_pump-pump_all written fuel step.0 each (omega (arith, h))))

  pump_all-after :
      (incomings : List (Incoming M)) (past : List (Event H M))
      → (pump_all (after past) incomings).0 ≡ after (received incomings past)
  unfolding pump_all after
  pump_all-after [] past = refl
  pump_all-after (incoming ∷ incomings) past = pump_all-after incomings (receive incoming ∷ past)

  -- When the stream that the server writes answers every request so far, the pump leaves no request
  -- waiting at its end.
  pub pending_requests-message_pump :
      (written : List (Bytes × Incoming M)) (past : List (Event H M)) (fuel : ℕ)
      → AllParsed parse written
      → length written < fuel
      → ((n : ℕ) → n < asked past → any (answers n) (messages written) ≡ true)
      → (message_pump parse fuel (send_messages (texts written)) (after past)).0.pending_requests
        ≡ []
  pending_requests-message_pump written past fuel each h answered =
      ap (λ o. o.0.pending_requests) (message_pump-pump_all written fuel (after past) each h)
      ∙ ap (λ p. p.pending_requests) (pump_all-after (messages written) past)
      ∙ pending_requests-received (messages written) past answered
