-- ===== src/Repository.antt =====
-- `Repository` of src/core/Repository.h: elements that are made once for each string and kept.
-- A null pointer is `none`; the elements never change, so a pointer is modelled by what it holds.
pub mod Laws
use ycmd_cpp.Base.{
  ℕ, Option, none, some, List, [], ◌∷◌, ltb, if◌then◌else◌, Bytes, Dict, find, put, length,
}
use ycmd_cpp.CodePoint.Decode.{Decoded, ok, throw, ◌>>=◌}

abbrev pub Holder : Type 0 → Type 0
Holder T = Dict (Option T)

-- `NumStoredElements`.
unfoldable pub num_stored_elements : {T : Type 0} → Holder T → ℕ
num_stored_elements holder = length holder

-- `try_emplace( key, value )`, also the part of `operator[]` that inserts.
unfoldable pub try_emplace {ℓ} : {V : Type ℓ} → Bytes → V → Dict V → Dict V
unfolding find put
try_emplace key value dict = elim (find key dict) [ none ↦ put key value dict | some _ ↦ dict ]

-- In a repository of candidates, and in no other, a string of more than 80 bytes is replaced by the
-- empty one: the callers for candidates pass clipped strings.
unfoldable pub clip : Bytes → Bytes
clip element = if ltb 80 (length element) then [] else element

module _ {T : Type 0} (make : Bytes → Decoded T) where
  -- What the stored pointer gives: itself, or a new element that is stored for it. The
  -- constructor may throw, and then the null pointer stays.
  unfoldable pub fill : Holder T → Bytes → Option (Option T) → Decoded T → Holder T × Decoded T
  unfolding put
  fill holder element (some (some t)) made = (holder, ok t)
  fill holder element _ (ok t) = (put element (some t) holder, ok t)
  fill holder element _ (throw e) = (holder, throw e)

  -- One round of the loop in `GetElements`.
  unfoldable pub get_element : Holder T → Bytes → Holder T × Decoded T
  unfolding fill try_emplace
  get_element holder element =
      let held = try_emplace element none holder in
      fill held element (find element held) (make element)

  -- A round and the rounds after it: a constructor that throws ends the loop.
  unfoldable pub join :
      Holder T → Decoded T → Holder T × Decoded (List T) → Holder T × Decoded (List T)
  join held (throw e) rest = (held, throw e)
  join held (ok t) rest = (rest.0, rest.1 >>= λ ts. ok (t ∷ ts))

  -- The loop in `GetElements`.
  unfoldable pub get_elements : Holder T → List Bytes → Holder T × Decoded (List T)
  unfolding join
  get_elements holder [] = (holder, ok [])
  get_elements holder (element ∷ elements) =
      let (held, made) = get_element holder element in
      let rest = get_elements held elements in join held made rest
