-- ===== src/HashSet/Buckets.antt =====
-- The map from hashes to slices that a hash set holds.
use biscuit_go.Prelude.{ℕ, Bool, List, [], ◌∷◌, ◌++◌, ◌==◌, if◌then◌else◌}

abbrev pub Bucket {ℓ} : Type ℓ → Type ℓ
Bucket T = ℕ × List T

module _ {ℓ} {T : Type ℓ} where
  -- `s.buckets[h]`: a missing key reads as an empty slice.
  unfoldable pub bucket_at : ℕ → List (Bucket T) → List T
  bucket_at h [] = []
  bucket_at h ((k, b) ∷ m) = if k == h then b else bucket_at h m

  -- `s.buckets[h] = b`.
  unfoldable pub put_bucket : ℕ → List T → List (Bucket T) → List (Bucket T)
  put_bucket h b [] = (h, b) ∷ []
  put_bucket h b ((k, c) ∷ m) = if k == h then (k, b) ∷ m else (k, c) ∷ put_bucket h b m

  unfoldable pub elements_of : List (Bucket T) → List T
  elements_of [] = []
  elements_of ((k, b) ∷ m) = b ++ elements_of m

  -- The last element of `x ∷ xs`, and the elements in front of it.
  unfoldable pub split_last : T → List T → T × List T
  split_last x [] = (x, [])
  split_last x (y ∷ ys) = ((split_last y ys).0, x ∷ (split_last y ys).1)

  -- The elements behind an index, the last of them moved to the front.
  unfoldable pub last_first : List T → List T
  unfolding split_last
  last_first [] = []
  last_first (x ∷ xs) = (split_last x xs).0 ∷ (split_last x xs).1

  -- `bucket[i] = bucket[len(bucket)-1]; bucket = bucket[:len(bucket)-1]` at the first index whose
  -- element passes the test.
  unfoldable pub swap_remove : (T → Bool) → List T → List T
  unfolding last_first
  swap_remove p [] = []
  swap_remove p (x ∷ xs) = if p x then last_first xs else x ∷ swap_remove p xs
