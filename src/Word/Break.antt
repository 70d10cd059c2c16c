-- ===== src/Word/Break.antt =====
-- `BreakCodePointsIntoCharacters` of src/core/Word.cpp. The loop's variables are a record, and
-- each case of the outer `switch`, on the previous code point's property, is a function of the
-- current one's.
use ycmd_cpp.Base.{Bool, true, false, not, List, [], ◌∷◌, ◌++◌, if◌then◌else◌, Bytes}
use ycmd_cpp.BreakProperty.{
  BreakProperty, other, cr, lf, control, extend, zwj, regional_indicator, prepend, spacing_mark, l,
  v, t, lv, lvt, ext_pict, unnamed,
}
use ycmd_cpp.CodePoint.{CodePoint}

pub record Breaker : Type 0 where
  pub characters : List Bytes
  pub character : Bytes
  pub is_regional_indicator_nb_odd : Bool
  pub within_emoji_modifier : Bool

-- `character.append( code_point )`.
abbrev pub append : Bytes → Breaker → Breaker
append code_point b = record b { character = b.character ++ code_point }

-- `characters.push_back( character ); character = code_point;`.
abbrev pub push_back : Bytes → Breaker → Breaker
push_back code_point b = record b {
  characters = b.characters ++ (b.character ∷ []);
  character = code_point;
}

abbrev pub set_emoji : Bool → Breaker → Breaker
set_emoji on b = record b { within_emoji_modifier = on }

abbrev pub set_odd : Bool → Breaker → Breaker
set_odd on b = record b { is_regional_indicator_nb_odd = on }

after_cr : BreakProperty → Bytes → Breaker → Breaker
after_cr lf = append
after_cr _ = push_back

after_l : BreakProperty → Bytes → Breaker → Breaker
after_l l = append
after_l v = append
after_l lv = append
after_l lvt = append
after_l extend = append
after_l zwj = append
after_l spacing_mark = append
after_l _ = push_back

after_lv_or_v : BreakProperty → Bytes → Breaker → Breaker
after_lv_or_v v = append
after_lv_or_v t = append
after_lv_or_v extend = append
after_lv_or_v zwj = append
after_lv_or_v spacing_mark = append
after_lv_or_v _ = push_back

after_lvt_or_t : BreakProperty → Bytes → Breaker → Breaker
after_lvt_or_t t = append
after_lvt_or_t extend = append
after_lvt_or_t zwj = append
after_lvt_or_t spacing_mark = append
after_lvt_or_t _ = push_back

after_prepend : BreakProperty → Bytes → Breaker → Breaker
after_prepend control = push_back
after_prepend cr = push_back
after_prepend lf = push_back
after_prepend _ = append

after_extend : BreakProperty → Bytes → Breaker → Breaker
after_extend extend code_point b = append code_point b
after_extend zwj code_point b = append code_point b
after_extend spacing_mark code_point b = set_emoji false (append code_point b)
after_extend _ code_point b = set_emoji false (push_back code_point b)

after_zwj : BreakProperty → Bytes → Breaker → Breaker
after_zwj extend code_point b = set_emoji false (append code_point b)
after_zwj zwj code_point b = set_emoji false (append code_point b)
after_zwj spacing_mark code_point b = set_emoji false (append code_point b)
after_zwj ext_pict code_point b =
    if b.within_emoji_modifier
    then set_emoji false (append code_point b)
    else push_back code_point b
after_zwj _ code_point b = set_emoji false (push_back code_point b)

after_ext_pict : BreakProperty → Bytes → Breaker → Breaker
after_ext_pict spacing_mark code_point b = append code_point b
after_ext_pict extend code_point b = set_emoji true (append code_point b)
after_ext_pict zwj code_point b = set_emoji true (append code_point b)
after_ext_pict _ code_point b = push_back code_point b

-- The flag is flipped first, and the new value is tested.
flip_regional : Bytes → Breaker → Breaker
flip_regional code_point b =
    if not b.is_regional_indicator_nb_odd
    then append code_point (set_odd (not b.is_regional_indicator_nb_odd) b)
    else push_back code_point (set_odd (not b.is_regional_indicator_nb_odd) b)

after_regional_indicator : BreakProperty → Bytes → Breaker → Breaker
unfolding flip_regional
after_regional_indicator extend code_point b = set_odd false (append code_point b)
after_regional_indicator zwj code_point b = set_odd false (append code_point b)
after_regional_indicator spacing_mark code_point b = set_odd false (append code_point b)
after_regional_indicator regional_indicator code_point b = flip_regional code_point b
after_regional_indicator _ code_point b = set_odd false (push_back code_point b)

after_default : BreakProperty → Bytes → Breaker → Breaker
after_default extend = append
after_default zwj = append
after_default spacing_mark = append
after_default _ = push_back

-- The outer `switch`.
unfoldable pub step : BreakProperty → BreakProperty → Bytes → Breaker → Breaker
unfolding after_cr after_l after_lv_or_v after_lvt_or_t after_prepend after_extend after_zwj
    after_ext_pict after_regional_indicator after_default
step cr property = after_cr property
step control property = push_back
step lf property = push_back
step l property = after_l property
step lv property = after_lv_or_v property
step v property = after_lv_or_v property
step lvt property = after_lvt_or_t property
step t property = after_lvt_or_t property
step prepend property = after_prepend property
step extend property = after_extend property
step zwj property = after_zwj property
step ext_pict property = after_ext_pict property
step regional_indicator property = after_regional_indicator property
step other property = after_default property
step spacing_mark property = after_default property
step (unnamed byte) property = after_default property

-- The `for` over the code points after the first.
unfoldable pub run : BreakProperty → List CodePoint → Breaker → Breaker
run previous [] b = b
run previous (cp ∷ rest) b =
    run cp.break_property rest (step previous cp.break_property cp.normal b)

-- The last character is pushed after the loop; a single code point is returned before it.
unfoldable pub break_code_points_into_characters : List CodePoint → List Bytes
unfolding run step
break_code_points_into_characters [] = []
break_code_points_into_characters (first ∷ []) = first.normal ∷ []
break_code_points_into_characters (first ∷ second ∷ rest) =
    let b = run first.break_property (second ∷ rest) (record {
      characters = [];
      character = first.normal;
      is_regional_indicator_nb_odd = false;
      within_emoji_modifier = false;
    }) in
    b.characters ++ (b.character ∷ [])
