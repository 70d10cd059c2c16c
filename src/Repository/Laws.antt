-- ===== src/Repository/Laws.antt =====
-- What a repository gives, against what the constructor makes.
use ycmd_cpp.Base.{
  ◌≡◌, refl, sym, Option, none, some, List, [], ◌∷◌, arith, if◌then◌else◌, Option-cases, inl, inr,
  Bytes, bytes_eq, bytes_eq_iff, find, put, find-put, Dict, Bool-cases,
}
use ycmd_cpp.CodePoint.Decode.{Decoded, ok, throw, map_decoded}
use ycmd_cpp.Repository.{Holder, try_emplace, fill, get_element, join, get_elements}

pub find-try_emplace {ℓ} :
    {V : Type ℓ} (k j : Bytes) (v : V) (m : Dict V)
    → find j (try_emplace k v m)
      ≡ elim (find j m) [ some w ↦ some w | none ↦ if bytes_eq k j then some v else none ]
unfolding try_emplace
find-try_emplace k j v m = elim (Option-cases (find k m)) [
  | inl e ↦ ground (arith, e, find-put k j v m, bytes_eq_iff k j)
  | inr (w, e) ↦ ground (arith, e, bytes_eq_iff k j)
]

module _ {T : Type 0} (make : Bytes → Decoded T) where
  -- Every element that is stored is the one that its string makes.
  abbrev pub IsCache : Holder T → Type 0
  IsCache holder = (k : Bytes) (t : T) → find k holder ≡ some (some t) → make k ≡ ok t

  pub nil-IsCache : IsCache []
  unfolding find
  nil-IsCache k t e = cc

  try_emplace-IsCache :
      (holder : Holder T) (k : Bytes) → IsCache holder → IsCache (try_emplace k none holder)
  try_emplace-IsCache holder k c j t e = c j t (ground (arith, e, find-try_emplace k j none holder))

  put-IsCache :
      (holder : Holder T) (k : Bytes) (t : T)
      → IsCache holder
      → make k ≡ ok t
      → IsCache (put k (some t) holder)
  put-IsCache holder k t c m j u e = elim (Bool-cases (bytes_eq k j)) [
    | inl same ↦ ground (arith, find-put k j (some t) holder, (bytes_eq_iff k j).0 same)
    | inr other ↦ c j u (ground (arith, find-put k j (some t) holder))
  ]

  fill-make :
      (holder : Holder T) (k : Bytes) (slot : Option (Option T)) (made : Decoded T)
      → IsCache holder
      → make k ≡ made
      → ((t : T) → slot ≡ some (some t) → make k ≡ ok t)
      → ((fill make holder k slot made).1 ≡ make k) × IsCache (fill make holder k slot made).0
  unfolding fill
  fill-make holder k (some (some t)) made c m held = (sym (held t refl), c)
  fill-make holder k none (ok t) c m held = (sym m, put-IsCache holder k t c m)
  fill-make holder k (some none) (ok t) c m held = (sym m, put-IsCache holder k t c m)
  fill-make holder k none (throw e) c m held = (sym m, c)
  fill-make holder k (some none) (throw e) c m held = (sym m, c)

  -- One string: the result is the constructor's, and the cache is kept, thrown or not.
  pub get_element-make :
      (holder : Holder T) (k : Bytes)
      → IsCache holder
      → ((get_element make holder k).1 ≡ make k) × IsCache (get_element make holder k).0
  unfolding get_element
  get_element-make holder k c =
      let c' = try_emplace-IsCache holder k c in
      fill-make (try_emplace k none holder) k _ (make k) c' refl (λ t e. c' k t e)

  join-map_decoded :
      (k : Bytes) (ks : List Bytes) (held : Holder T) (made : Decoded T)
      (rest : Holder T × Decoded (List T))
      → made ≡ make k
      → rest.1 ≡ map_decoded make ks
      → IsCache held
      → IsCache rest.0
      → ((join make held made rest).1 ≡ map_decoded make (k ∷ ks))
        × IsCache (join make held made rest).0
  unfolding join map_decoded
  join-map_decoded k ks held (ok t) rest first others c c' = (rw (← first, others), c')
  join-map_decoded k ks held (throw e) rest first others c c' = (rw (← first), c)

  -- The elements for a sequence of strings are those that the constructor makes of them, and the
  -- first throw is the constructor's, whatever was stored before; and what is stored afterwards
  -- is again only what the constructor makes.
  pub get_elements-map_decoded :
      (holder : Holder T) (elements : List Bytes)
      → IsCache holder
      → ((get_elements make holder elements).1 ≡ map_decoded make elements)
        × IsCache (get_elements make holder elements).0
  unfolding get_elements
  get_elements-map_decoded holder [] c = (unfold map_decoded in refl, c)
  get_elements-map_decoded holder (k ∷ ks) c =
      let (first, c') = get_element-make holder k c in
      let (rest, c'') = get_elements-map_decoded (get_element make holder k).0 ks c' in
      join-map_decoded k ks _ (get_element make holder k).1 _ first rest c' c''
