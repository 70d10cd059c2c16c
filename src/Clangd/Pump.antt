-- ===== src/Clangd/Pump.antt =====
-- `message_pump` of src/completers/cpp/clangd_completer.cpp on the bytes that clangd writes. The
-- conversion of a text into a message is a parameter; where it throws, the generator is over.
pub mod Laws
use ycmd_cpp.Base.{ℕ, zero, suc, Option, none, some, List, [], ◌∷◌, Bytes}
use ycmd_cpp.Lsp.Reader.{Read, end_of_stream, out_of_fuel, message, read_message}
use ycmd_cpp.Clangd.Pending.{Pending, Incoming, pump_message}

abbrev pub resume_first : {H : Type 0} → Option H → List H → List H
resume_first none handlers = handlers
resume_first (some handler) handlers = handler ∷ handlers

module _ {H M : Type 0} (parse : Bytes → Option (Incoming M)) where
  -- The state when the stream ends, and the handlers that were resumed, in order. `fuel` bounds the
  -- number of messages.
  unfoldable pub message_pump : ℕ → Bytes → Pending H → Pending H × List H
  unfolding read_message pump_message
  message_pump zero stream p = (p, [])
  message_pump (suc fuel) stream p = elim (read_message stream) [
    | end_of_stream ↦ (p, [])
    | out_of_fuel ↦ (p, [])
    | message content rest ↦ elim (parse content) [
      | none ↦ (p, [])
      | some incoming ↦
          let step = pump_message p incoming in
          let later = message_pump fuel rest step.0 in (later.0, resume_first step.1 later.1)
    ]
  ]
