-- ===== src/HashSet.antt =====
-- internal/set/hashset.go and internal/set/interfaces.go: the hash set that facts, rules, block
-- identifiers and set terms are kept in. A Go map from hashes to slices is an association list
-- whose order stands for the order in which a `range` loop happens to visit the map.
mod Buckets
pub mod Laws
pub mod Valid
pub mod Removal
pub mod Algebra
pub mod Growth
pub mod Scattered
use biscuit_go.Prelude.{
  ℕ, ◌+◌, ◌-◌, Bool, true, false, Option, none, some, List, [], ◌∷◌, ◌++◌, any, every,
  if◌then◌else◌,
}
unfoldable pub use Buckets.{bucket_at, put_bucket, elements_of, swap_remove}
pub use Buckets.{Bucket}

-- `HashSetElement`: the hash is that of `Hash(NewHashBuilder()).Build()`.
pub record Element {ℓ} (T : Type ℓ) : Type ℓ where
  pub hash : T → ℕ
  pub equal : T → T → Bool

pub record HashSet {ℓ} (T : Type ℓ) : Type ℓ where
  pub buckets : List (Bucket T)
  pub size : ℕ

module _ {ℓ} {T : Type ℓ} where
  unfoldable pub empty : HashSet T
  empty = record { buckets = []; size = 0 }

  -- `Clone`: the buckets are copied, so that the copy shares no slice with the original.
  unfoldable pub clone : HashSet T → HashSet T
  clone s = record { buckets = s.buckets; size = s.size }

  -- `Iter` and `ToSlice`.
  unfoldable pub to_slice : HashSet T → List T
  unfolding elements_of
  to_slice s = elements_of s.buckets

module _ {ℓ} {T : Type ℓ} ⦃e : Element T⦄ where
  unfoldable pub contains : T → HashSet T → Bool
  unfolding bucket_at
  contains x s = any (λ y. e.equal y x) (bucket_at (e.hash x) s.buckets)

  -- The new set, and whether the element was new.
  unfoldable pub insert : T → HashSet T → HashSet T × Bool
  unfolding bucket_at put_bucket
  insert x s =
      let h = e.hash x in
      let bucket = bucket_at h s.buckets in
      if any (λ y. e.equal y x) bucket
      then (s, false)
      else (record { buckets = put_bucket h (bucket ++ x ∷ []) s.buckets; size = s.size + 1 }, true)

  unfoldable pub insert_all : List T → HashSet T → HashSet T
  insert_all [] s = s
  insert_all (x ∷ xs) s = insert_all xs (insert x s).0

  -- `NewHashSet`.
  unfoldable pub new_hash_set : List T → HashSet T
  unfolding empty
  new_hash_set values = insert_all values empty

  unfoldable pub remove : T → HashSet T → HashSet T × Bool
  unfolding bucket_at put_bucket swap_remove
  remove x s =
      let h = e.hash x in
      let bucket = bucket_at h s.buckets in
      let found = λ (y : T). e.equal y x in
      if any found bucket
      then (
        record { buckets = put_bucket h (swap_remove found bucket) s.buckets; size = s.size - 1 },
        true,
      )
      else (s, false)

  unfoldable pub insert_common : HashSet T → List T → HashSet T → HashSet T
  insert_common other [] result = result
  insert_common other (x ∷ xs) result =
      insert_common other xs (if contains x other then (insert x result).0 else result)

  unfoldable pub intersect : HashSet T → HashSet T → HashSet T
  unfolding insert_common to_slice empty
  intersect s other = insert_common other (to_slice s) empty

  unfoldable pub union : HashSet T → HashSet T → HashSet T
  unfolding to_slice clone
  union s other = insert_all (to_slice other) (clone s)

  unfoldable pub is_superset : HashSet T → HashSet T → Bool
  unfolding to_slice
  is_superset s other = every (λ x. contains x s) (to_slice other)
