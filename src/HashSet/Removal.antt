-- ===== src/HashSet/Removal.antt =====
-- `HashSet.Remove`: the element at the index found gives way to the last of its bucket.
use biscuit_go.Prelude.{
  suc, ◌+◌, Bool, true, false, not, ◌&&◌, ◌||◌, List, [], ◌∷◌, ◌≡◌, refl, ap, any, All, arith,
  length, Bool-cases, inl, inr,
}
use biscuit_go.HashSet.Buckets.{bucket_at, split_last, last_first, swap_remove}
use biscuit_go.HashSet.{Element, HashSet, contains, remove, to_slice}
use biscuit_go.HashSet.Laws.{IsLawful, any_congr, bucket_at-put_bucket}
use biscuit_go.HashSet.Valid.{
  Unique, IsValid, bucket_at-Placed, put_bucket-Placed, length-put_bucket,
}

module _ {ℓ} {T : Type ℓ} where
  any-split_last :
      (p : T → Bool) (x : T) (xs : List T)
      → (p (split_last x xs).0 || any p (split_last x xs).1) ≡ (p x || any p xs)
  unfolding split_last
  any-split_last p x [] = refl
  any-split_last p x (y ∷ xs) = ground (arith, any-split_last p y xs)

  any-last_first : (p : T → Bool) (xs : List T) → any p (last_first xs) ≡ any p xs
  unfolding last_first
  any-last_first p [] = refl
  any-last_first p (x ∷ xs) = any-split_last p x xs

  length-split_last : (x : T) (xs : List T) → length (split_last x xs).1 ≡ length xs
  unfolding split_last
  length-split_last x [] = refl
  length-split_last x (y ∷ xs) = ap suc (length-split_last y xs)

  length-swap_remove :
      (p : T → Bool) (xs : List T) → any p xs ≡ true → length (swap_remove p xs) + 1 ≡ length xs
  unfolding swap_remove
  length-swap_remove p [] h = cc
  length-swap_remove p (x ∷ []) h = ground arith
  length-swap_remove p (x ∷ y ∷ xs) h =
      ground (arith, length-split_last y xs, length-swap_remove p (y ∷ xs))

  swap_remove-absent : (p : T → Bool) (xs : List T) → any p xs ≡ false → swap_remove p xs ≡ xs
  unfolding swap_remove
  swap_remove-absent p [] h = refl
  swap_remove-absent p (x ∷ xs) h = ground (arith, swap_remove-absent p xs)

  All-split_last :
      (P : T → Type 0) (x : T) (xs : List T)
      → P x
      → All P xs
      → P (split_last x xs).0 × All P (split_last x xs).1
  unfolding split_last
  All-split_last P x [] hx h = (hx, tt)
  All-split_last P x (y ∷ xs) hx h = let (hz, hs) = All-split_last P y xs h.0 h.1 in (hz, (hx, hs))

  All-swap_remove :
      (P : T → Type 0) (p : T → Bool) (xs : List T) → All P xs → All P (swap_remove p xs)
  unfolding swap_remove
  All-swap_remove P p [] h = tt
  All-swap_remove P p (x ∷ xs) (hx, h) = elim (Bool-cases (p x)) [
    | inl here ↦ rw here (go xs h)
    | inr there ↦ rw there (hx, All-swap_remove P p xs h)
  ]
    where
      go : (l : List T) → All P l → All P (last_first l)
      go [] k = tt
      go (y ∷ l) k = All-split_last P y l k.0 k.1

module _ {ℓ} {T : Type ℓ} ⦃e : Element T⦄ (l : IsLawful e) where
  any-swap_remove :
      (x y : T) (xs : List T)
      → Unique xs
      → any (λ z. e.equal z x) xs ≡ true
      → any (λ z. e.equal z y) (swap_remove (λ z. e.equal z x) xs)
        ≡ (any (λ z. e.equal z y) xs && not (e.equal x y))
  unfolding swap_remove
  any-swap_remove x y [] u h = cc
  any-swap_remove x y (z ∷ xs) (here, u) h = ground (
    arith,
    any-swap_remove x y xs u,
    any-last_first (λ w. e.equal w y) xs,
    any_congr l z y xs,
    any_congr l x y xs,
    l.equal_trans z x y,
    l.equal_trans z y x,
    l.equal_trans x z y,
    l.equal_symm x z,
    l.equal_symm x y,
    here,
  )

  Unique-split_last :
      (x : T) (xs : List T) → Unique (x ∷ xs) → Unique ((split_last x xs).0 ∷ (split_last x xs).1)
  unfolding split_last
  Unique-split_last x [] u = u
  Unique-split_last x (y ∷ xs) (fresh, u) =
      let (last, rest) = Unique-split_last y xs u in
      let apart = any-split_last (λ z. e.equal z x) y xs in
      (
        ground (arith, apart, fresh, last, l.equal_symm x (split_last y xs).0),
        (ground (arith, apart, fresh), rest),
      )

  Unique-swap_remove :
      (x : T) (xs : List T) → Unique xs → Unique (swap_remove (λ z. e.equal z x) xs)
  unfolding swap_remove
  Unique-swap_remove x [] u = tt
  Unique-swap_remove x (y ∷ xs) (fresh, u) = elim (Bool-cases (e.equal y x)) [
    | inl same ↦ rw same (go xs u)
    | inr other ↦ rw other (still xs u fresh, Unique-swap_remove x xs u)
  ]
    where
      go : (l : List T) → Unique l → Unique (last_first l)
      go [] k = tt
      go (z ∷ l) k = Unique-split_last z l k

      still :
          (l : List T)
          → Unique l
          → any (λ z. e.equal z y) l ≡ false
          → any (λ z. e.equal z y) (swap_remove (λ z. e.equal z x) l) ≡ false
      still zs k h = elim (Bool-cases (any (λ z. e.equal z x) zs)) [
        | inl found ↦ ground (arith, any-swap_remove x y zs k found)
        | inr none_found ↦ rw (swap_remove-absent (λ z. e.equal z x) zs none_found) h
      ]

  -- With a lawful equality and hash, `Remove` keeps a set well formed.
  pub remove-IsValid : {s : HashSet T} → IsValid s → (x : T) → IsValid (remove x s).0
  unfolding remove to_slice
  remove-IsValid {s} v x =
      let h = e.hash x in
      let bucket = bucket_at h s.buckets in
      let (hashes, once) = bucket_at-Placed h s.buckets v.placed in
      elim (Bool-cases (any (λ y. e.equal y x) bucket)) [
        | inl found ↦ rw found (record {
          placed =
              put_bucket-Placed h _ s.buckets v.placed
                (All-swap_remove (λ y. e.hash y ≡ h) (λ y. e.equal y x) bucket hashes)
                (Unique-swap_remove x bucket once);
          counted = omega (
            arith,
            length-put_bucket h (swap_remove (λ y. e.equal y x) bucket) s.buckets,
            length-swap_remove (λ y. e.equal y x) bucket found,
            v.counted,
          );
        })
        | inr gone ↦ rw gone v
      ]

  -- After `Remove` from a well-formed set, with a lawful equality and hash, the elements equal to
  -- the argument are gone and all others are still there.
  pub contains-remove :
      {s : HashSet T}
      → IsValid s
      → (x y : T) → contains y (remove x s).0 ≡ (contains y s && not (e.equal x y))
  unfolding contains remove
  contains-remove {s} v x y = ground (
    arith,
    any-swap_remove x y (bucket_at (e.hash x) s.buckets)
        (bucket_at-Placed (e.hash x) s.buckets v.placed).1,
    any_congr l x y (bucket_at (e.hash x) s.buckets),
    l.hash-equal x y,
    bucket_at-put_bucket (e.hash x) (e.hash y)
        (swap_remove (λ z. e.equal z x) (bucket_at (e.hash x) s.buckets)) s.buckets,
  )
