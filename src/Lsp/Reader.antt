-- ===== src/Lsp/Reader.antt =====
-- `read_message` of src/lsp/comms.cpp. The stream is the list of the bytes that are still to come:
-- what stands in the buffer and what does not yet is all one. Where the stream ends inside a
-- message, the read throws and the generator is over.
pub mod Laws
use ycmd_cpp.Base.{
  ℕ, zero, suc, ◌+◌, Bool, true, false, ◌&&◌, ◌||◌, Option, none, some, List, [], ◌∷◌, map, ltb,
  leb, ◌==◌, if◌then◌else◌, Bytes, bytes_eq, length, take, drop,
}
use ycmd_cpp.Lsp.Decimal.{from_chars}

abbrev pub prepend : ℕ → Option (Bytes × Bytes) → Option (Bytes × Bytes)
prepend c none = none
prepend c (some (before, after)) = some (c ∷ before, after)

-- The parts before and after the first `mark`.
unfoldable pub split_at : ℕ → Bytes → Option (Bytes × Bytes)
split_at mark [] = none
split_at mark (c ∷ cs) =
    let later = prepend c (split_at mark cs) in if c == mark then some ([], cs) else later

-- The `while` that takes `\r` off the end of a line.
abbrev pub strip_step : ℕ → Bytes → Bytes
strip_step c [] = if c == b'\r' then [] else c ∷ []
strip_step c (d ∷ ds) = c ∷ d ∷ ds

unfoldable pub strip_cr : Bytes → Bytes
strip_cr [] = []
strip_cr (c ∷ cs) = strip_step c (strip_cr cs)

-- `std::tolower` and `std::isspace` in the C locale.
abbrev pub tolower : ℕ → ℕ
tolower c = if leb b'A' c && leb c b'Z' then c + 32 else c

abbrev pub isspace : ℕ → Bool
isspace c = c == b' ' || (leb 9 c && leb c 13)

unfoldable pub skip_space : Bytes → Bytes
skip_space [] = []
skip_space (c ∷ cs) = let rest = skip_space cs in if isspace c then rest else c ∷ cs

-- "content-length".
abbrev pub content_length_name : Bytes
content_length_name =
    b'c' ∷ b'o' ∷ b'n' ∷ b't' ∷ b'e' ∷ b'n' ∷ b't' ∷ b'-' ∷ b'l' ∷ b'e' ∷ b'n' ∷ b'g' ∷ b't' ∷ b'h'
    ∷ []

-- What a line does to the loop over the header: go on or leave it, with the content length.
pub data Header : Type 0 where
  next_line end_headers : ℕ → Header

-- The value, behind the white space.
unfoldable pub read_value : Bytes → ℕ → Header
unfolding from_chars
read_value [] content_length = end_headers content_length
read_value (c ∷ cs) content_length = elim (from_chars (c ∷ cs)) [
  | none ↦ end_headers content_length
  | some n ↦ next_line n
]

unfoldable pub read_field : Option (Bytes × Bytes) → ℕ → Header
unfolding read_value skip_space bytes_eq
read_field none content_length = next_line content_length
read_field (some (header, value)) content_length =
    if bytes_eq (map tolower header) content_length_name
    then read_value (skip_space value) content_length
    else next_line content_length

unfoldable pub read_line : Bytes → ℕ → Header
unfolding read_field split_at
read_line [] content_length = end_headers content_length
read_line (c ∷ cs) content_length = read_field (split_at b':' (c ∷ cs)) content_length

pub data Headers : Type 0 where
  headers_ended headers_stuck : Headers
  headers : ℕ → Bytes → Headers

-- The inner loop. Each round takes a line, so the stream's length is enough fuel.
unfoldable pub read_headers : ℕ → Bytes → ℕ → Headers
unfolding read_line strip_cr split_at
read_headers zero stream content_length = headers_stuck
read_headers (suc fuel) stream content_length = elim (split_at b'\n' stream) [
  | none ↦ headers_ended
  | some (line, rest) ↦ elim (read_line (strip_cr line) content_length) [
    | end_headers n ↦ headers n rest
    | next_line n ↦ read_headers fuel rest n
  ]
]

pub data Read : Type 0 where
  end_of_stream out_of_fuel : Read
  message : Bytes → Bytes → Read

-- What stands behind the header: without a length the outer loop goes round again.
unfoldable pub after_headers : (Bytes → Read) → Headers → Read
after_headers continue headers_ended = end_of_stream
after_headers continue headers_stuck = out_of_fuel
after_headers continue (headers content_length rest) = elim (content_length == 0) [
  | true ↦ continue rest
  | false ↦
      if ltb (length rest) content_length
      then end_of_stream
      else message (take content_length rest) (drop content_length rest)
]

-- The outer loop, up to the message that it yields: the message and the rest of the stream. Each
-- round takes a line at least.
unfoldable pub read_fuel : ℕ → Bytes → Read
unfolding read_headers after_headers
read_fuel zero stream = out_of_fuel
read_fuel (suc fuel) stream =
    after_headers (λ rest. read_fuel fuel rest) (read_headers (suc (length stream)) stream 0)

unfoldable pub read_message : Bytes → Read
unfolding read_fuel
read_message stream = read_fuel (suc (length stream)) stream

-- The generator: the messages that it yields, until the stream ends. `fuel` bounds their number.
unfoldable pub read_messages : ℕ → Bytes → List Bytes
unfolding read_message
read_messages zero stream = []
read_messages (suc fuel) stream = elim (read_message stream) [
  | end_of_stream ↦ []
  | out_of_fuel ↦ []
  | message content rest ↦ content ∷ read_messages fuel rest
]
