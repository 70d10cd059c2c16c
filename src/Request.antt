-- ===== src/Request.antt =====
-- What is computed from a request: src/request_wrap.cpp. The values are computed on demand and kept,
-- which only saves work. The text library is a parameter, and so are the regular expressions. A
-- missing file throws in the source and gives no result. A view may be read past its end, into the
-- contents that follow it or the zero that ends a string, so a line is the memory from its first
-- byte on and a size.
pub mod Laws
use ycmd_cpp.Base.{
  ℕ, suc, ◌+◌, ◌-◌, ◌%◌, ◌^◌, Bool, Option, none, some, List, [], ◌∷◌, ◌++◌, ◌>>=◌, if◌then◌else◌,
  ltb, leb, ◌&&◌, map, concat, Bytes, find, get_elem?, length, take, drop,
}
use ycmd_cpp.Api.{FileData, SimpleRequest}
use ycmd_cpp.Identifiers.{
  View, Regex, Regexes, identifier_regex_for_filetype, start_of_longest_identifier_ending_at,
}

-- Conversions between UTF-8 and code points.
pub record TextCoding : Type 0 where
  pub decode : Bytes → List ℕ
  pub encoded : ℕ → Bytes

abbrev pub encode_all : TextCoding → List ℕ → Bytes
encode_all coding [] = []
encode_all coding (c ∷ cs) = coding.encoded c ++ encode_all coding cs

pub record Line : Type 0 where
  pub memory : Bytes
  pub size : ℕ

abbrev pub line_bytes : Line → Bytes
line_bytes line = take line.size line.memory

-- The difference of two values of `size_t`, which wraps around.
abbrev pub sub_size_t : ℕ → ℕ → ℕ
sub_size_t a b = (a + 2 ^ 64 - b) % 2 ^ 64

-- `substr`, which throws for a position past the end.
unfoldable pub substr : {A : Type 0} → ℕ → ℕ → List A → Option (List A)
substr position count xs =
    if leb position (length xs) then some (take count (drop position xs)) else none

-- The line of the cursor; a line number out of range gives the empty line.
unfoldable pub line_of : Regexes → SimpleRequest → Option Line
unfolding find
line_of regexes req = do
  file ← find req.filepath req.file_data
  let lines = regexes.split_lines file.contents
  if leb 1 req.line_num && leb req.line_num (length lines)
      then (do
        view ← get_elem? lines (req.line_num - 1)
        some
            (record { memory = drop view.data_offset file.contents ++ (0 ∷ []); size = view.size }))
      else some (record { memory = 0 ∷ []; size = 0 })

unfoldable pub first_filetype : SimpleRequest → Option Bytes
unfolding find
first_filetype req = do file ← find req.filepath req.file_data; get_elem? file.filetypes 0

module _ (coding : TextCoding) where
  abbrev pub line_value : Line → List ℕ
  line_value line = coding.decode (line_bytes line)

  -- The number of code points in the first `column_num` bytes.
  unfoldable pub column_codepoint : Line → ℕ → ℕ
  column_codepoint line column_num = length (coding.decode (take column_num line.memory))

  unfoldable pub start_codepoint : Regex → Line → ℕ → Option ℕ
  unfolding start_of_longest_identifier_ending_at column_codepoint
  start_codepoint regex line column_num =
      start_of_longest_identifier_ending_at (column_codepoint line column_num) regex.is_match
        (line_value line)

  -- The encoded size of the first `start_codepoint` code points, with the zero after the last one.
  unfoldable pub start_column : Line → ℕ → ℕ
  start_column line start = length (encode_all coding (take start (line_value line ++ (0 ∷ []))))

  unfoldable pub query : Line → ℕ → ℕ → Option (List ℕ)
  unfolding substr
  query line column start = substr (sub_size_t start 1) (sub_size_t column start) (line_value line)

  unfoldable pub query_bytes : Line → ℕ → ℕ → Option Bytes
  unfolding substr start_column
  query_bytes line column_num start =
      substr (sub_size_t (start_column line start) 1)
        (sub_size_t column_num (start_column line start)) (line_bytes line)

  -- All of them for one request.
  pub record Wrapped : Type 0 where
    pub filetype : Bytes
    pub column : ℕ
    pub start : ℕ
    pub start_byte : ℕ
    pub text : List ℕ
    pub text_bytes : Bytes

  unfoldable pub wrap : Regexes → SimpleRequest → Option Wrapped
  unfolding line_of first_filetype column_codepoint start_codepoint start_column query query_bytes
  wrap regexes req = do
    line ← line_of regexes req
    filetype ← first_filetype req
    let regex = identifier_regex_for_filetype regexes filetype
    let column = column_codepoint line req.column_num
    start ← start_codepoint regex line req.column_num
    text ← query line column start
    text_bytes ← query_bytes line req.column_num start
    some (record {
      filetype = filetype;
      column = column;
      start = start;
      start_byte = start_column line start;
      text = text;
      text_bytes = text_bytes;
    })
