-- ===== src/Lsp/RoundTrip.antt =====
-- `send_message` against `read_message`.
use mathlib.Core.List.{append_assoc}
use ycmd_cpp.Base.{
  ℕ, zero, suc, ◌^◌, ◌≤◌, ◌<◌, ◌≡◌, refl, ap, ◌∙◌, List, [], ◌∷◌, ◌++◌, arith, Bytes, length, All,
  length-append, take-length-append, drop-length-append,
}
use ycmd_cpp.Lsp.Reader.{
  read_line, strip_cr, headers, read_headers, message, after_headers, read_message, read_messages,
}
use ycmd_cpp.Lsp.Reader.Laws.{
  read_headers_line, read_headers_last, read_headers_fuel, read_message-read_headers,
}
use ycmd_cpp.Lsp.Writer.{send_message}
use ycmd_cpp.Lsp.HeaderLines.{
  strip_cr_line, Lacks-append, length_line, read_line-length_line, length_line-Lacks, IsOther,
  header_lines, read_line-IsOther,
}

-- A written message, line by line.
send_message_lines :
    (content rest : Bytes)
    → send_message content ++ rest
      ≡ (length_line (length content) ++ (b'\r' ∷ []))
        ++ (b'\n' ∷ ((b'\r' ∷ []) ++ (b'\n' ∷ (content ++ rest))))
unfolding send_message
send_message_lines content rest = simp append_assoc

read_headers-send_message :
    (fuel k : ℕ) (content rest : Bytes)
    → length content < 2 ^ 64
    → read_headers (suc (suc fuel)) (send_message content ++ rest) k
      ≡ headers (length content) (content ++ rest)
read_headers-send_message fuel k content rest h =
    let n = length content in
    ap (λ s. read_headers (suc (suc fuel)) s k) (send_message_lines content rest)
    ∙ read_headers_line (suc fuel) (length_line n ++ (b'\r' ∷ [])) _ k n
        (Lacks-append b'\n' (length_line n) (b'\r' ∷ []) (length_line-Lacks n b'\n' (omega arith))
          (refl, tt))
        (ap (λ l. read_line l k)
            (strip_cr_line (length_line n) (length_line-Lacks n b'\r' (omega arith)))
          ∙ read_line-length_line n k h)
    ∙ read_headers_last fuel (b'\r' ∷ []) (content ++ rest) n n (refl, tt)
        (unfold read_line strip_cr in refl)

-- The rounds for other header lines, before those for the rest.
rounds : List (Bytes × Bytes) → ℕ → ℕ
rounds [] fuel = fuel
rounds (_ ∷ lines) fuel = suc (rounds lines fuel)

rounds-ge : (lines : List (Bytes × Bytes)) (fuel : ℕ) → fuel ≤ rounds lines fuel
unfolding rounds
rounds-ge [] fuel = omega arith
rounds-ge (_ ∷ lines) fuel = omega (arith, rounds-ge lines fuel)

read_headers-header_lines :
    (lines : List (Bytes × Bytes)) (fuel k : ℕ) (s : Bytes)
    → All IsOther lines
    → read_headers (rounds lines fuel) (header_lines lines s) k ≡ read_headers fuel s k
unfolding rounds
read_headers-header_lines [] fuel k s h = refl
read_headers-header_lines ((name, value) ∷ lines) fuel k s (other, others) =
    read_headers_line (rounds lines fuel) (name ++ (b':' ∷ (value ++ (b'\r' ∷ []))))
      (header_lines lines s) k k
      (Lacks-append b'\n' name (b':' ∷ (value ++ (b'\r' ∷ []))) other.1
        (refl, Lacks-append b'\n' value (b'\r' ∷ []) other.2 (refl, tt)))
      (read_line-IsOther name (value ++ (b'\r' ∷ [])) k
        (other.0, other.1, Lacks-append b'\n' value (b'\r' ∷ []) other.2 (refl, tt), other.3))
    ∙ read_headers-header_lines lines fuel k s others

-- The body behind a header: as many bytes as it says.
after_headers_body :
    (content rest : Bytes)
    → 0 < length content
    → after_headers read_message (headers (length content) (content ++ rest)) ≡ message content rest
unfolding after_headers
after_headers_body content rest h = ground (
  arith,
  length-append content rest,
  take-length-append content rest,
  drop-length-append content rest,
)

-- A message that `send_message` writes is read back whole, and the rest of the stream is left as it
-- is, also behind header lines of other names; if the message is not empty and its length fits into
-- a `size_t`.
pub read_message-send_message :
    (lines : List (Bytes × Bytes)) (content rest : Bytes)
    → All IsOther lines
    → 0 < length content
    → length content < 2 ^ 64
    → read_message (header_lines lines (send_message content ++ rest)) ≡ message content rest
read_message-send_message lines content rest others some_content fits =
    let s = send_message content ++ rest in
    let all = header_lines lines s in
    let enough = suc (suc (length all)) in
    read_message-read_headers all
    ∙ ap (after_headers read_message) (
        read_headers_fuel (suc (length all)) (rounds lines enough) all 0 (omega arith)
          (omega (arith, rounds-ge lines enough))
        ∙ read_headers-header_lines lines enough 0 s others
        ∙ read_headers-send_message (length all) 0 content rest fits)
    ∙ after_headers_body content rest some_content

-- A header that leaves no length is passed over.
read_message_pass :
    (fuel : ℕ) (s rest : Bytes)
    → length s < fuel
    → read_headers fuel s 0 ≡ headers 0 rest
    → read_message s ≡ read_message rest
unfolding after_headers
read_message_pass fuel s rest h e =
    read_message-read_headers s
    ∙ ap (after_headers read_message)
        (read_headers_fuel (suc (length s)) fuel s 0 (omega arith) h ∙ e)

-- A blank line between messages and a message of no bytes are passed over.
pub read_message_skips :
    (rest : Bytes)
    → (read_message (b'\n' ∷ rest) ≡ read_message rest)
      × (read_message (b'\r' ∷ b'\n' ∷ rest) ≡ read_message rest)
      × (read_message (send_message [] ++ rest) ≡ read_message rest)
read_message_skips rest = (
  read_message_pass (suc (length (b'\n' ∷ rest))) (b'\n' ∷ rest) rest (omega arith)
      (read_headers_last (suc (length rest)) [] rest 0 0 tt (unfold read_line strip_cr in refl)),
  read_message_pass (suc (length (b'\r' ∷ b'\n' ∷ rest))) (b'\r' ∷ b'\n' ∷ rest) rest (omega arith)
      (read_headers_last (suc (suc (length rest))) (b'\r' ∷ []) rest 0 0 (refl, tt)
        (unfold read_line strip_cr in refl)),
  read_message_pass (suc (suc (length (send_message [] ++ rest)))) (send_message [] ++ rest) rest
      (omega arith) (read_headers-send_message _ 0 [] rest (omega arith)),
)

-- The texts that the generator can yield.
abbrev pub IsSendable : Bytes → Type 0
IsSendable content = (0 < length content) × (length content < 2 ^ 64)

abbrev pub send_messages : List Bytes → Bytes
send_messages [] = []
send_messages (content ∷ contents) = send_message content ++ send_messages contents

-- The messages that are written one after another are read back in order, each whole, and nothing
-- else; if none is empty and their lengths fit into a `size_t`.
pub read_messages-send_messages :
    (contents : List Bytes) (fuel : ℕ)
    → All IsSendable contents
    → length contents < fuel
    → read_messages fuel (send_messages contents) ≡ contents
unfolding read_messages
read_messages-send_messages contents zero each h = absurd (omega arith)
read_messages-send_messages [] (suc fuel) each h = refl
read_messages-send_messages (content ∷ contents) (suc fuel) each h =
    rw
      (
        read_message-send_message [] content (send_messages contents) tt each.0.0 each.0.1,
        read_messages,
      )
      (ap (◌∷◌ content) (read_messages-send_messages contents fuel each.1 (omega arith)))
