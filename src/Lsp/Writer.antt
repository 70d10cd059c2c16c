-- ===== src/Lsp/Writer.antt =====
-- `send_message` of src/lsp/comms.cpp: the bytes that are written for the text of a message.
use ycmd_cpp.Base.{[], ◌∷◌, ◌++◌, Bytes, length}
use ycmd_cpp.Lsp.Decimal.{decimal}

-- "Content-Length: ".
abbrev pub content_length_field : Bytes
content_length_field =
    b'C' ∷ b'o' ∷ b'n' ∷ b't' ∷ b'e' ∷ b'n' ∷ b't' ∷ b'-' ∷ b'L' ∷ b'e' ∷ b'n' ∷ b'g' ∷ b't' ∷ b'h'
    ∷ b':' ∷ b' ' ∷ []

unfoldable pub send_message : Bytes → Bytes
unfolding decimal
send_message content =
    content_length_field ++ (decimal (length content) ++ (b'\r' ∷ b'\n' ∷ b'\r' ∷ b'\n' ∷ content))
