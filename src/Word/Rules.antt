-- ===== src/Word/Rules.antt =====
-- The rules GB3 to GB13 of Unicode's text segmentation, as a function of the properties before a
-- position and the one after it: an independent description of what src/core/Word.cpp computes.
use ycmd_cpp.Base.{Bool, true, false, not, ◌&&◌, ◌||◌, List, [], ◌∷◌, ◌++◌, if◌then◌else◌, Bytes}
use ycmd_cpp.BreakProperty.{
  BreakProperty, cr, lf, control, extend, zwj, regional_indicator, prepend, spacing_mark, l, v, t,
  lv, lvt, ext_pict,
}
use ycmd_cpp.CodePoint.{CodePoint}

abbrev pub is_cr : BreakProperty → Bool
is_cr cr = true
is_cr _ = false

abbrev pub is_lf : BreakProperty → Bool
is_lf lf = true
is_lf _ = false

abbrev pub is_control : BreakProperty → Bool
is_control control = true
is_control cr = true
is_control lf = true
is_control _ = false

-- GB6, GB7 and GB8: the pairs of a Hangul syllable.
abbrev pub joins_hangul : BreakProperty → BreakProperty → Bool
joins_hangul l l = true
joins_hangul l v = true
joins_hangul l lv = true
joins_hangul l lvt = true
joins_hangul lv v = true
joins_hangul lv t = true
joins_hangul v v = true
joins_hangul v t = true
joins_hangul lvt t = true
joins_hangul t t = true
joins_hangul _ _ = false

-- GB9 and GB9a: what no break stands before.
abbrev pub is_extender : BreakProperty → Bool
is_extender extend = true
is_extender zwj = true
is_extender spacing_mark = true
is_extender _ = false

abbrev pub is_prepend : BreakProperty → Bool
is_prepend prepend = true
is_prepend _ = false

abbrev pub is_ext_pict : BreakProperty → Bool
is_ext_pict ext_pict = true
is_ext_pict _ = false

abbrev pub is_regional : BreakProperty → Bool
is_regional regional_indicator = true
is_regional _ = false

-- A history is read backwards, the nearest property first: does it end in `ExtPict Extend*`?
abbrev pub ends_in_pictograph : List BreakProperty → Bool
ends_in_pictograph [] = false
ends_in_pictograph (extend ∷ before) = ends_in_pictograph before
ends_in_pictograph (ext_pict ∷ before) = true
ends_in_pictograph (_ ∷ before) = false

-- GB11: does it end in `ExtPict Extend* ZWJ`?
abbrev pub ends_in_joined_pictograph : List BreakProperty → Bool
ends_in_joined_pictograph [] = false
ends_in_joined_pictograph (zwj ∷ before) = ends_in_pictograph before
ends_in_joined_pictograph (_ ∷ before) = false

-- GB12 and GB13: does it end in an odd number of regional indicators?
abbrev pub ends_in_odd_regionals : List BreakProperty → Bool
ends_in_odd_regionals [] = false
ends_in_odd_regionals (regional_indicator ∷ before) = not (ends_in_odd_regionals before)
ends_in_odd_regionals (_ ∷ before) = false

-- The rules, in their order: is there a break between `previous` and `property`?
unfoldable pub is_break : BreakProperty → List BreakProperty → BreakProperty → Bool
is_break previous before property =
    if is_cr previous && is_lf property
    then false
    else if is_control previous || is_control property
    then true
    else if joins_hangul previous property
    then false
    else if is_extender property
    then false
    else if is_prepend previous
    then false
    else if ends_in_joined_pictograph (previous ∷ before) && is_ext_pict property
    then false
    else if ends_in_odd_regionals (previous ∷ before) && is_regional property
    then false
    else true

-- The text cut at every break: `character` is the cluster that is open, `previous` and `before`
-- the properties up to it, backwards.
unfoldable pub clusters_from :
    BreakProperty → List BreakProperty → Bytes → List CodePoint → List Bytes
clusters_from previous before character [] = character ∷ []
clusters_from previous before character (cp ∷ rest) =
    let property = cp.break_property in
    let joined = clusters_from property (previous ∷ before) (character ++ cp.normal) rest in
    let cut = character ∷ clusters_from property (previous ∷ before) cp.normal rest in
    if is_break previous before property then cut else joined

-- The extended grapheme clusters of a sequence of code points.
unfoldable pub grapheme_clusters : List CodePoint → List Bytes
unfolding clusters_from is_break
grapheme_clusters [] = []
grapheme_clusters (first ∷ rest) = clusters_from first.break_property [] first.normal rest
