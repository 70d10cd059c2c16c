-- ===== src/Identifiers.antt =====
-- Identifiers in a buffer: src/identifier_utils.cpp. Regular expressions are those of a library: a
-- parameter gives the matches in a text, in the order of the library's iterator, and whether a
-- sequence of code points is a match as a whole. So is the iterator that splits at line ends, whose
-- tokens are ranges of the contents. Where the source reads outside a vector or before a line there is no result.
pub mod Laws
use ycmd_cpp.Base.{
  ℕ, zero, suc, ◌+◌, ◌-◌, ◌%◌, ◌^◌, Bool, Option, none, some, List, [], ◌∷◌, map, ltb, leb, ◌==◌,
  if◌then◌else◌, ◌>>=◌, Bytes, length, get_elem?, take, drop, find,
}
use ycmd_cpp.Api.{FileData, SimpleRequest}

-- A match in a text, and a view of a part of the contents.
pub record Match : Type 0 where
  pub position : ℕ
  pub str : Bytes

pub record View : Type 0 where
  pub data_offset : ℕ
  pub size : ℕ

pub record Regex : Type 0 where
  pub matches : Bytes → List Match
  pub is_match : List ℕ → Bool

-- The default expression, and the tokens between line ends.
pub record Regexes : Type 0 where
  pub default_identifier_regex : Regex
  pub split_lines : Bytes → List View

abbrev pub viewed : Bytes → View → Bytes
viewed contents view = take view.size (drop view.data_offset contents)

-- `i - 1` in an unsigned 64-bit integer.
abbrev pub previous : ℕ → ℕ
previous zero = 2 ^ 64 - 1
previous (suc i) = i

abbrev pub match_end : Match → ℕ
match_end m = m.position + length m.str

-- The loop of `IdentifierUnderCursor`.
unfoldable pub first_ending_after : ℕ → List Match → Bytes
first_ending_after index [] = []
first_ending_after index (m ∷ ms) =
    if ltb index (match_end m) then m.str else first_ending_after index ms

-- The loop of `IdentifierBeforeCursor`, with the best match so far.
unfoldable pub last_ending_by : ℕ → Bytes → List Match → Bytes
last_ending_by index best [] = best
last_ending_by index best (m ∷ ms) =
    let rest = last_ending_by index m.str ms in if leb (match_end m) index then rest else best

-- The part of a code point sequence from `start` up to `end`.
abbrev pub between : ℕ → ℕ → List ℕ → List ℕ
between start end line_value = take (end - start) (drop start line_value)

-- The loop of `StartOfLongestIdentifierEndingAt`, from `start` down.
unfoldable pub scan_back : (List ℕ → Bool) → ℕ → List ℕ → ℕ → ℕ
scan_back is_identifier end line_value zero =
    if is_identifier (between 0 end line_value) then 1 else 2
scan_back is_identifier end line_value (suc start) =
    let rest = scan_back is_identifier end line_value start in
    if is_identifier (between (suc start) end line_value) then rest else suc start + 2

-- Without a code point before the cursor `end` wraps around, and the first round reads outside of the
-- line. Else the column is at most one past the line.
unfoldable pub start_of_longest_identifier_ending_at : ℕ → (List ℕ → Bool) → List ℕ → Option ℕ
unfolding scan_back
start_of_longest_identifier_ending_at zero is_identifier line_value = none
start_of_longest_identifier_ending_at (suc zero) is_identifier line_value = some 1
start_of_longest_identifier_ending_at (suc (suc start)) is_identifier line_value =
    some (scan_back is_identifier (suc start) line_value start)

module _ (regexes : Regexes) where
  -- The table of expressions by file type is empty.
  unfoldable pub identifier_regex_for_filetype : Bytes → Regex
  identifier_regex_for_filetype filetype = regexes.default_identifier_regex

  unfoldable pub identifiers_from_buffer : FileData → Option (List Bytes)
  unfolding identifier_regex_for_filetype
  identifiers_from_buffer file = elim file.filetypes [
    | [] ↦ none
    | filetype ∷ others ↦
        some (map (λ m. m.str) ((identifier_regex_for_filetype filetype).matches file.contents))
  ]

  -- The file and the line of the cursor, which the two lookups begin with.
  unfoldable pub cursor_line : SimpleRequest → Option (FileData × Bytes)
  unfolding find
  cursor_line request_data = do
    file ← find request_data.filepath request_data.file_data
    view ← get_elem? (regexes.split_lines file.contents) (previous request_data.line_num)
    some (file, viewed file.contents view)

  -- An index past the line gives nothing; else the matches of the line are searched.
  unfoldable pub on_matches : (List Match → Bytes) → ℕ → FileData × Bytes → Option Bytes
  unfolding identifier_regex_for_filetype
  on_matches scan index (file, line) = if ltb (length line) index then some [] else (do
    filetype ← get_elem? file.filetypes 0
    some (scan ((identifier_regex_for_filetype filetype).matches line)))

  unfoldable pub identifier_under_cursor : SimpleRequest → Option Bytes
  unfolding cursor_line on_matches first_ending_after
  identifier_under_cursor request_data = do
    found ← cursor_line request_data
    let index = previous request_data.column_num
    on_matches (λ ms. first_ending_after index ms) index found

  unfoldable pub identifier_before_cursor : SimpleRequest → Option Bytes
  unfolding cursor_line on_matches last_ending_by
  identifier_before_cursor request_data = do
    found ← cursor_line request_data
    let index = previous request_data.column_num
    on_matches (λ ms. last_ending_by index [] ms) index found
