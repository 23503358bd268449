-- ===== src/HashSet/Scattered.antt =====
-- Hash sets of elements whose hashes differ: each has a bucket of its own, in the order of insertion.
use biscuit_go.Prelude.{
  ℕ, Bool, true, false, not, ◌&&◌, ◌||◌, List, [], ◌∷◌, ◌++◌, ◌≡◌, refl, sym, ap, ◌∙◌, ◌==◌, any,
  arith,
}
use mathlib.Core.List.{append-nil, append_assoc}
use biscuit_go.HashSet.Buckets.{Bucket, bucket_at, put_bucket, elements_of}
use biscuit_go.HashSet.{Element, HashSet, insert, insert_all, new_hash_set, to_slice, empty}
use biscuit_go.HashSet.Valid.{has_key}

module _ {ℓ} {T : Type ℓ} where
  bucket_at-absent : (h : ℕ) (m : List (Bucket T)) → has_key h m ≡ false → bucket_at h m ≡ []
  unfolding bucket_at has_key
  bucket_at-absent h [] a = refl
  bucket_at-absent h ((k, b) ∷ m) a = ground (arith, bucket_at-absent h m)

  put_bucket-absent :
      (h : ℕ) (b : List T) (m : List (Bucket T))
      → has_key h m ≡ false
      → put_bucket h b m ≡ m ++ (h, b) ∷ []
  unfolding put_bucket has_key
  put_bucket-absent h b [] a = refl
  put_bucket-absent h b ((k, c) ∷ m) a = ground (arith, put_bucket-absent h b m)

  has_key-snoc :
      (h k : ℕ) (b : List T) (m : List (Bucket T))
      → has_key h (m ++ (k, b) ∷ []) ≡ (has_key h m || (k == h))
  unfolding has_key
  has_key-snoc h k b [] = ground arith
  has_key-snoc h k b ((j, c) ∷ m) = ground (arith, has_key-snoc h k b m)

  elements_of-snoc :
      (h : ℕ) (x : T) (m : List (Bucket T))
      → elements_of (m ++ (h, x ∷ []) ∷ []) ≡ elements_of m ++ x ∷ []
  unfolding elements_of
  elements_of-snoc h x [] = refl
  elements_of-snoc h x ((k, c) ∷ m) =
      ap (λ l. c ++ l) (elements_of-snoc h x m) ∙ sym (append_assoc c (elements_of m) (x ∷ []))

module _ {ℓ} {T : Type ℓ} ⦃e : Element T⦄ where
  -- No two elements have one hash.
  unfoldable pub scattered : List T → Bool
  scattered [] = true
  scattered (x ∷ xs) = not (any (λ y. e.hash y == e.hash x) xs) && scattered xs

  -- No element's hash is a key of the buckets.
  unfoldable pub absent : List T → List (Bucket T) → Bool
  absent [] m = true
  absent (x ∷ xs) m = not (has_key (e.hash x) m) && absent xs m

  absent-snoc :
      (xs : List T) (x : T) (m : List (Bucket T))
      → absent xs m ≡ true
      → any (λ y. e.hash y == e.hash x) xs ≡ false
      → absent xs (m ++ (e.hash x, x ∷ []) ∷ []) ≡ true
  unfolding absent
  absent-snoc [] x m a n = refl
  absent-snoc (y ∷ xs) x m a n =
      ground (arith, absent-snoc xs x m, has_key-snoc (e.hash y) (e.hash x) (x ∷ []) m)

  insert-absent :
      (x : T) (s : HashSet T)
      → has_key (e.hash x) s.buckets ≡ false
      → (insert x s).0.buckets ≡ s.buckets ++ (e.hash x, x ∷ []) ∷ []
  unfolding insert
  insert-absent x s a =
      rw (bucket_at-absent (e.hash x) s.buckets a)
        (put_bucket-absent (e.hash x) (x ∷ []) s.buckets a)

  to_slice-insert_all :
      (xs : List T) (s : HashSet T)
      → scattered xs ≡ true
      → absent xs s.buckets ≡ true
      → to_slice (insert_all xs s) ≡ to_slice s ++ xs
  unfolding scattered insert_all to_slice absent
  to_slice-insert_all [] s d a = sym (append-nil (to_slice s))
  to_slice-insert_all (x ∷ xs) s d a =
      let m = s.buckets in
      let fresh : has_key (e.hash x) m ≡ false = ground arith in
      let once : any (λ y. e.hash y == e.hash x) xs ≡ false = ground arith in
      let rest : absent xs m ≡ true = ground arith in
      let grown = insert-absent x s fresh in
      to_slice-insert_all xs (insert x s).0 (ground arith) (rw grown (absent-snoc xs x m rest once))
      ∙ ap (λ b. elements_of b ++ xs) grown
      ∙ ap (λ l. l ++ xs) (elements_of-snoc (e.hash x) x m)
      ∙ append_assoc (elements_of m) (x ∷ []) xs

  absent-nil : (xs : List T) → absent xs [] ≡ true
  unfolding absent has_key
  absent-nil [] = refl
  absent-nil (x ∷ xs) = absent-nil xs

  -- A set of elements of different hashes yields them in the order in which they came.
  pub to_slice-new_hash_set : (xs : List T) → scattered xs ≡ true → to_slice (new_hash_set xs) ≡ xs
  unfolding new_hash_set empty to_slice elements_of
  to_slice-new_hash_set xs d = to_slice-insert_all xs empty d (absent-nil xs)
