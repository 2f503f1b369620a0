-- ===== src/Algorithm/Lengths.antt =====
-- The length of a vector as an `int32_t`, in the sorts of algorithm/Algorithm.ipp.
use c_plus_plus.Prelude.{
  take-int_len, drop-int_len, ℕ, ◌^◌, ◌<◌, ◌≡◌, ap₂, ◌∙◌, false, List, ◌++◌, append-nil, arith,
  length,
}
use c_plus_plus.Algorithm.{on_front, is_least}

pub is_least-small : (size : ℕ) → size < 2 ^ 31 → is_least size ≡ false
unfolding is_least
is_least-small size h = ground (arith, h)

module _ {T : Type 0} where
  -- A vector that is not too long is sorted as a whole.
  pub on_front-all :
      (sort : List T → List T) (array : List T)
      → length array < 2 ^ 31
      → on_front sort array ≡ sort array
  unfolding on_front
  on_front-all sort array h =
      ap₂ (λ front behind. sort front ++ behind) (take-int_len array h) (drop-int_len array h)
      ∙ append-nil (sort array)
