-- ===== src/Word/Laws.antt =====
-- The state machine of `BreakCodePointsIntoCharacters` against the segmentation rules.
use mathlib.Core.List.{append_assoc}
use ycmd_cpp.Base.{
  ◌≡◌, refl, ap, ◌∙◌, Bool, false, List, [], ◌∷◌, ◌++◌, map, arith, if◌then◌else◌, Bytes, concat,
  Bool-cases, inl, inr,
}
use ycmd_cpp.BreakProperty.{BreakProperty, cr, extend, zwj, regional_indicator}
use ycmd_cpp.CodePoint.{CodePoint}
use ycmd_cpp.Word.Break.{Breaker, step, run, break_code_points_into_characters}
use ycmd_cpp.Word.Rules.{
  is_break, ends_in_pictograph, ends_in_odd_regionals, clusters_from, grapheme_clusters,
}

-- What the two flags stand for after the properties `previous ∷ before`, read backwards.
abbrev odd_flag : BreakProperty → List BreakProperty → Bool
odd_flag regional_indicator before = ends_in_odd_regionals before
odd_flag _ before = false

abbrev emoji_flag : BreakProperty → List BreakProperty → Bool
emoji_flag extend before = ends_in_pictograph before
emoji_flag zwj before = ends_in_pictograph before
emoji_flag _ before = false

abbrev flagged : BreakProperty → List BreakProperty → List Bytes → Bytes → Breaker
flagged previous before characters character = record {
  characters = characters;
  character = character;
  is_regional_indicator_nb_odd = odd_flag previous before;
  within_emoji_modifier = emoji_flag previous before;
}

-- One round of the loop decides by the rules, and keeps the meaning of the flags.
step-is_break :
    (previous property : BreakProperty) (before : List BreakProperty) (code_point : Bytes)
    (characters : List Bytes) (character : Bytes)
    → step previous property code_point (flagged previous before characters character) ≡ (
        if is_break previous before property
        then flagged property (previous ∷ before) (characters ++ (character ∷ [])) code_point
        else flagged property (previous ∷ before) characters (character ++ code_point))
unfolding step is_break
step-is_break cr property before code_point characters character = ground arith
step-is_break regional_indicator property before code_point characters character = ground arith
step-is_break extend property before code_point characters character = ground arith
step-is_break zwj property before code_point characters character = ground arith
step-is_break _ property before code_point characters character = ground arith

run-clusters_from :
    (cps : List CodePoint) (previous : BreakProperty) (before : List BreakProperty)
    (characters : List Bytes) (character : Bytes)
    → let b = run previous cps (flagged previous before characters character) in
      b.characters ++ (b.character ∷ []) ≡ characters ++ clusters_from previous before character cps
unfolding run clusters_from
run-clusters_from [] previous before characters character = refl
run-clusters_from (cp ∷ cps) previous before characters character =
    let property = cp.break_property in
    ground (
      arith,
      step-is_break previous property before cp.normal characters character,
      run-clusters_from cps property (previous ∷ before) (characters ++ (character ∷ [])) cp.normal,
      run-clusters_from cps property (previous ∷ before) characters (character ++ cp.normal),
      append_assoc characters (character ∷ [])
          (clusters_from property (previous ∷ before) cp.normal cps),
    )

-- Both flags are off before the loop.
flagged-nil :
    (previous : BreakProperty) (character : Bytes)
    → flagged previous [] [] character ≡ record {
      characters = [];
      character = character;
      is_regional_indicator_nb_odd = false;
      within_emoji_modifier = false;
    }
flagged-nil cr character = refl
flagged-nil _ character = refl

-- The characters that a word is broken into are the extended grapheme clusters of its code
-- points: the loop, with its two flags, breaks exactly where the rules GB3 to GB13 break.
pub break_code_points_into_characters-grapheme_clusters :
    (cps : List CodePoint) → break_code_points_into_characters cps ≡ grapheme_clusters cps
unfolding break_code_points_into_characters grapheme_clusters
break_code_points_into_characters-grapheme_clusters [] = refl
break_code_points_into_characters-grapheme_clusters (first ∷ []) = refl
break_code_points_into_characters-grapheme_clusters (first ∷ second ∷ rest) =
    rw (flagged-nil first.break_property first.normal) at
      (run-clusters_from (second ∷ rest) first.break_property [] [] first.normal)

concat-clusters_from :
    (cps : List CodePoint) (previous : BreakProperty) (before : List BreakProperty)
    (character : Bytes)
    → concat (clusters_from previous before character cps)
      ≡ character ++ concat (map (λ cp. cp.normal) cps)
unfolding clusters_from
concat-clusters_from [] previous before character = refl
concat-clusters_from (cp ∷ cps) previous before character =
    let property = cp.break_property in
    elim (Bool-cases (is_break previous before property)) [
      | inl cut ↦
          rw cut
            (ap (◌++◌ character) (concat-clusters_from cps property (previous ∷ before) cp.normal))
      | inr joined ↦ rw joined (
          concat-clusters_from cps property (previous ∷ before) (character ++ cp.normal)
          ∙ append_assoc character cp.normal (concat (map (λ cp. cp.normal) cps)))
    ]

-- Nothing is lost or reordered: the characters of a word, joined, are the normal forms of its
-- code points, joined.
pub concat-break_code_points_into_characters :
    (cps : List CodePoint)
    → concat (break_code_points_into_characters cps) ≡ concat (map (λ cp. cp.normal) cps)
unfolding grapheme_clusters
concat-break_code_points_into_characters [] = rw break_code_points_into_characters-grapheme_clusters
concat-break_code_points_into_characters (first ∷ rest) =
    rw break_code_points_into_characters-grapheme_clusters
      (concat-clusters_from rest first.break_property [] first.normal)
