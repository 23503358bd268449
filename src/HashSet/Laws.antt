-- ===== src/HashSet/Laws.antt =====
-- When the elements' `Hash` and `Equal` agree, and what the single-element operations do then.
use biscuit_go.Prelude.{
  ℕ, ◌+◌, true, false, not, ◌||◌, List, [], ◌∷◌, ◌++◌, ◌≡◌, refl, any, ◌==◌, if◌then◌else◌, arith,
  any-append,
}
use biscuit_go.HashSet.Buckets.{Bucket, bucket_at, put_bucket}
use biscuit_go.HashSet.{Element, HashSet, contains, insert}

-- `Equal` is an equivalence, and equal elements have equal hashes.
pub record IsLawful {ℓ} {T : Type ℓ} (e : Element T) : Type ℓ where
  pub equal_refl : (a : T) → e.equal a a ≡ true
  pub equal_symm : (a b : T) → e.equal a b ≡ e.equal b a
  pub equal_trans : (a b c : T) → e.equal a b ≡ true → e.equal b c ≡ true → e.equal a c ≡ true
  pub hash-equal : (a b : T) → e.equal a b ≡ true → e.hash a ≡ e.hash b

pub bucket_at-put_bucket {ℓ} :
    {T : Type ℓ} (h k : ℕ) (b : List T) (m : List (Bucket T))
    → bucket_at k (put_bucket h b m) ≡ (if h == k then b else bucket_at k m)
unfolding bucket_at put_bucket
bucket_at-put_bucket h k b [] = ground arith
bucket_at-put_bucket h k b ((j, c) ∷ m) = ground (arith, bucket_at-put_bucket h k b m)

module _ {ℓ} {T : Type ℓ} ⦃e : Element T⦄ (l : IsLawful e) where
  pub any_congr :
      (x y : T) (b : List T)
      → e.equal x y ≡ true
      → any (λ z. e.equal z x) b ≡ any (λ z. e.equal z y) b
  any_congr x y [] h = refl
  any_congr x y (z ∷ b) h =
      ground (arith, any_congr x y b h, l.equal_trans z x y, l.equal_trans z y x, l.equal_symm x y)

  -- With a lawful equality and hash, after `Insert` a set contains the new element and what it
  -- contained before, and nothing else.
  pub contains-insert :
      (x y : T) (s : HashSet T) → contains y (insert x s).0 ≡ (e.equal x y || contains y s)
  unfolding contains insert
  contains-insert x y s = ground (
    arith,
    any_congr x y (bucket_at (e.hash x) s.buckets),
    l.hash-equal x y,
    bucket_at-put_bucket (e.hash x) (e.hash y) (bucket_at (e.hash x) s.buckets ++ x ∷ []) s.buckets,
    any-append (λ z. e.equal z y) (bucket_at (e.hash x) s.buckets) (x ∷ []),
  )

  -- `Insert` answers whether the element was absent.
  pub insert-new : (x : T) (s : HashSet T) → (insert x s).1 ≡ not (contains x s)
  unfolding contains insert
  insert-new x s = ground arith

module _ {ℓ} {T : Type ℓ} ⦃e : Element T⦄ (x : T) (alone : (y : T) → e.equal y x ≡ false) where
  any-alone : (b : List T) → any (λ y. e.equal y x) b ≡ false
  any-alone [] = refl
  any-alone (y ∷ b) = rw (alone y, any-alone b) refl

  -- An element that nothing equals is always inserted.
  pub size-insert_alone : (s : HashSet T) → (insert x s).0.size ≡ s.size + 1
  unfolding insert
  size-insert_alone s = rw (any-alone (bucket_at (e.hash x) s.buckets)) refl
