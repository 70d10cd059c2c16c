-- ===== src/BreakProperty.antt =====
-- `BreakProperty` of src/core/CodePoint.h, and the cast of a table byte to it.
use ycmd_cpp.Base.{ℕ, ◌==◌, if◌then◌else◌}

-- `unnamed` holds a byte that no enumerator has: the enumeration's type is `uint8_t`.
pub data BreakProperty : Type 0 where
  other cr lf control extend zwj regional_indicator prepend spacing_mark : BreakProperty
  l v t lv lvt ext_pict : BreakProperty
  unnamed : ℕ → BreakProperty

-- `static_cast< BreakProperty >( byte )`.
unfoldable pub to_break_property : ℕ → BreakProperty
to_break_property byte =
    if byte == 0
    then other
    else if byte == 1
    then cr
    else if byte == 2
    then lf
    else if byte == 3
    then control
    else if byte == 4
    then extend
    else if byte == 5
    then zwj
    else if byte == 6
    then regional_indicator
    else if byte == 7
    then prepend
    else if byte == 8
    then spacing_mark
    else if byte == 9
    then l
    else if byte == 10
    then v
    else if byte == 11
    then t
    else if byte == 12
    then lv
    else if byte == 13
    then lvt
    else if byte == 18
    then ext_pict
    else unnamed byte
