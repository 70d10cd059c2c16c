-- ===== src/CodePoint.antt =====
-- `RawCodePoint`, `CodePoint` and `FindCodePoint` of src/core/CodePoint.h and CodePoint.cpp.
pub mod Decode
use ycmd_cpp.Base.{ℕ, Bool, false, List, [], ◌∷◌, ltb, if◌then◌else◌, Bytes, bytes_eq, bytes_lt}
use ycmd_cpp.BreakProperty.{BreakProperty, to_break_property}

pub record RawCodePoint : Type 0 where
  pub original : Bytes
  pub normal : Bytes
  pub folded_case : Bytes
  pub swapped_case : Bytes
  pub is_letter : Bool
  pub is_punctuation : Bool
  pub is_uppercase : Bool
  pub break_property : ℕ
  pub combining_class : ℕ

pub record CodePoint : Type 0 where
  pub normal : Bytes
  pub folded_case : Bytes
  pub swapped_case : Bytes
  pub is_letter : Bool
  pub is_punctuation : Bool
  pub is_uppercase : Bool
  pub break_property : BreakProperty
  pub combining_class : ℕ

-- The rows of `code_points`, the table of the generated file UnicodeTable.inc.
abbrev pub Table : Type 0
Table = List RawCodePoint

-- What `std::lower_bound` leaves: the rows from the first whose `original` is not below `text`.
unfoldable pub lower_bound : Table → Bytes → Table
lower_bound [] text = []
lower_bound (row ∷ rows) text =
    if bytes_lt row.original text then lower_bound rows text else row ∷ rows

-- The raw code point for a text that the table lacks.
unfoldable pub default_raw : Bytes → RawCodePoint
default_raw text = record {
  original = text;
  normal = text;
  folded_case = text;
  swapped_case = text;
  is_letter = false;
  is_punctuation = false;
  is_uppercase = false;
  break_property = 0;
  combining_class = 0;
}

-- The row that `std::lower_bound` stops at, if its text is the one that is looked for.
unfoldable pub row_at : Table → Bytes → RawCodePoint
row_at [] text = default_raw text
row_at (row ∷ rows) text = if bytes_eq text row.original then row else default_raw text

unfoldable pub find_code_point : Table → Bytes → RawCodePoint
unfolding lower_bound row_at default_raw
find_code_point table text = row_at (lower_bound table text) text

-- The constructor `CodePoint( RawCodePoint&& )`.
unfoldable pub from_raw : RawCodePoint → CodePoint
unfolding to_break_property
from_raw raw = record {
  normal = raw.normal;
  folded_case = raw.folded_case;
  swapped_case = raw.swapped_case;
  is_letter = raw.is_letter;
  is_punctuation = raw.is_punctuation;
  is_uppercase = raw.is_uppercase;
  break_property = to_break_property raw.break_property;
  combining_class = raw.combining_class;
}

-- The constructor `CodePoint( std::string_view )`.
unfoldable pub code_point : Table → Bytes → CodePoint
unfolding find_code_point from_raw
code_point table text = from_raw (find_code_point table text)

-- `operator<` of code points.
unfoldable pub code_point_lt : CodePoint → CodePoint → Bool
code_point_lt left right = ltb left.combining_class right.combining_class
