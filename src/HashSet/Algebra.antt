-- ===== src/HashSet/Algebra.antt =====
-- The operations of `HashSet` on two sets, against membership.
use biscuit_go.Prelude.{
  true, false, ◌&&◌, ◌||◌, List, [], ◌∷◌, ◌≡◌, ◌↔◌, refl, sym, ◌∙◌, any, every, arith, Bool-cases,
  inl, inr,
}
use biscuit_go.HashSet.{
  Element, HashSet, empty, clone, contains, insert, insert_all, insert_common, new_hash_set,
  intersect, union, is_superset, to_slice,
}
use biscuit_go.HashSet.Buckets.{bucket_at}
use biscuit_go.HashSet.Laws.{IsLawful, any_congr, contains-insert}
use biscuit_go.HashSet.Valid.{IsValid, insert-IsValid, contains-to_slice}

module _ {ℓ} {T : Type ℓ} ⦃e : Element T⦄ (l : IsLawful e) where
  pub empty-IsValid : IsValid {T = T} empty
  unfolding empty to_slice
  empty-IsValid = record { placed = tt; counted = refl }

  pub contains-empty : (x : T) → contains x empty ≡ false
  unfolding contains empty bucket_at
  contains-empty x = refl

  pub contains_congr : (x y : T) (s : HashSet T) → e.equal x y ≡ true → contains x s ≡ contains y s
  unfolding contains
  contains_congr x y s h =
      ground (arith, any_congr l x y (bucket_at (e.hash x) s.buckets), l.hash-equal x y)

  pub insert_all-IsValid : (xs : List T) (s : HashSet T) → IsValid s → IsValid (insert_all xs s)
  unfolding insert_all
  insert_all-IsValid [] s v = v
  insert_all-IsValid (x ∷ xs) s v = insert_all-IsValid xs (insert x s).0 (insert-IsValid l v x)

  pub contains-insert_all :
      (y : T) (xs : List T) (s : HashSet T)
      → contains y (insert_all xs s) ≡ (contains y s || any (λ x. e.equal x y) xs)
  unfolding insert_all
  contains-insert_all y [] s = ground arith
  contains-insert_all y (x ∷ xs) s =
      ground (arith, contains-insert_all y xs (insert x s).0, contains-insert l x y s)

  -- `NewHashSet` builds a well-formed set of exactly the values it is given.
  pub new_hash_set-IsValid : (xs : List T) → IsValid (new_hash_set xs)
  unfolding new_hash_set
  new_hash_set-IsValid xs = insert_all-IsValid xs empty empty-IsValid

  pub contains-new_hash_set :
      (y : T) (xs : List T) → contains y (new_hash_set xs) ≡ any (λ x. e.equal x y) xs
  unfolding new_hash_set
  contains-new_hash_set y xs = ground (arith, contains-insert_all y xs empty, contains-empty y)

  pub union-IsValid : (s t : HashSet T) → IsValid s → IsValid (union s t)
  unfolding union clone
  union-IsValid s t v = insert_all-IsValid (to_slice t) s v

  -- With a lawful equality and hash, the union with a well-formed set contains what one of the two
  -- contains, and nothing else.
  pub contains-union :
      (s : HashSet T) {t : HashSet T}
      → IsValid t
      → (y : T) → contains y (union s t) ≡ (contains y s || contains y t)
  unfolding union clone
  contains-union s {t} v y =
      ground (arith, contains-insert_all y (to_slice t) s, contains-to_slice l v y)

  insert_common-IsValid :
      (other : HashSet T) (xs : List T) (s : HashSet T)
      → IsValid s
      → IsValid (insert_common other xs s)
  unfolding insert_common
  insert_common-IsValid other [] s v = v
  insert_common-IsValid other (x ∷ xs) s v = elim (Bool-cases (contains x other)) [
    | inl both ↦ rw both (insert_common-IsValid other xs _ (insert-IsValid l v x))
    | inr left ↦ rw left (insert_common-IsValid other xs s v)
  ]

  contains-insert_common :
      (other : HashSet T) (y : T) (xs : List T) (s : HashSet T)
      → contains y (insert_common other xs s)
        ≡ (contains y s || (any (λ x. e.equal x y) xs && contains y other))
  unfolding insert_common
  contains-insert_common other y [] s = ground arith
  contains-insert_common other y (x ∷ xs) s = ground (
    arith,
    contains-insert_common other y xs (insert x s).0,
    contains-insert_common other y xs s,
    contains-insert l x y s,
    contains_congr x y other,
  )

  pub intersect-IsValid : (s t : HashSet T) → IsValid (intersect s t)
  unfolding intersect
  intersect-IsValid s t = insert_common-IsValid t (to_slice s) empty empty-IsValid

  -- With a lawful equality and hash, the intersection of a well-formed set with another contains
  -- what both contain, and nothing else.
  pub contains-intersect :
      {s : HashSet T} (t : HashSet T)
      → IsValid s
      → (y : T) → contains y (intersect s t) ≡ (contains y s && contains y t)
  unfolding intersect
  contains-intersect {s} t v y = ground (
    arith,
    contains-insert_common t y (to_slice s) empty,
    contains-empty y,
    contains-to_slice l v y,
  )

  every-contains :
      (s : HashSet T) (xs : List T) (x : T)
      → every (λ y. contains y s) xs ≡ true
      → any (λ y. e.equal y x) xs ≡ true
      → contains x s ≡ true
  every-contains s [] x h m = cc
  every-contains s (y ∷ xs) x h m = ground (arith, every-contains s xs x, contains_congr y x s)

  every_of_all :
      (s : HashSet T) (xs : List T)
      → ((x : T) → any (λ y. e.equal y x) xs ≡ true → contains x s ≡ true)
      → every (λ y. contains y s) xs ≡ true
  every_of_all s [] h = refl
  every_of_all s (y ∷ xs) h =
      ground (arith, h y, l.equal_refl y, every_of_all s xs (λ x m. h x (ground arith)))

  -- With a lawful equality and hash, `IsSuperSet` of a well-formed set answers true exactly when
  -- every element of it is in the other set.
  pub is_superset_iff :
      (s : HashSet T) {t : HashSet T}
      → IsValid t
      → (is_superset s t ≡ true) ↔ ((x : T) → contains x t ≡ true → contains x s ≡ true)
  unfolding is_superset
  is_superset_iff s {t} v = (
    λ h x m. every-contains s (to_slice t) x h (sym (contains-to_slice l v x) ∙ m),
    λ h. every_of_all s (to_slice t) (λ x m. h x (contains-to_slice l v x ∙ m)),
  )
