-- ===== src/Utils.antt =====
-- `Lowercase`, `FindWithDefault` and `PartialSort` of src/core/Utils.h.
use Prim.Native.Nat.{bit_xor}
pub mod Laws
use ycmd_cpp.Base.{
  ℕ, ◌/◌, Bool, ◌&&◌, List, [], ◌∷◌, map, ltb, leb, if◌then◌else◌, Bytes, bytes_eq, max, length,
  take, drop, ◌++◌,
}
use ycmd_cpp.Std.{Algorithms}

unfoldable pub is_uppercase : ℕ → Bool
is_uppercase ascii_character = leb b'A' ascii_character && leb ascii_character b'Z'

unfoldable pub lowercase_char : ℕ → ℕ
unfolding is_uppercase
lowercase_char ascii_character =
    if is_uppercase ascii_character then bit_xor ascii_character 0x20 else ascii_character

unfoldable pub lowercase : Bytes → Bytes
unfolding lowercase_char
lowercase text = map lowercase_char text

-- `FindWithDefault` on a sequence of pairs: the value of the first pair with the key.
unfoldable pub find_with_default : List (Bytes × Bytes) → Bytes → Bytes → Bytes
find_with_default [] key value = value
find_with_default ((k, v) ∷ pairs) key value =
    if bytes_eq k key then v else find_with_default pairs key value

module _ (std : Algorithms) {A : Type 0} (lt : A → A → Bool) where
  -- The number of elements that stay: 0 asks for all of them.
  unfoldable pub max_elements : ℕ → List A → ℕ
  max_elements num_sorted_elements elements =
      if ltb 0 num_sorted_elements && leb num_sorted_elements (length elements)
      then num_sorted_elements
      else length elements

  -- `std::partial_sort` for few elements; else `std::nth_element`, and `std::sort` before it.
  unfoldable pub sort_first : ℕ → List A → List A
  sort_first k elements =
      if leb k (max 1024 (length elements / 64))
      then std.partial_sort lt k elements
      else std.sort lt (take k (std.nth_element lt k elements))
        ++ drop k (std.nth_element lt k elements)

  -- `PartialSort`; the `erase` at its end keeps the first elements.
  unfoldable pub partial_sort : ℕ → List A → List A
  unfolding max_elements sort_first
  partial_sort num_sorted_elements elements =
      let k = max_elements num_sorted_elements elements in take k (sort_first k elements)
