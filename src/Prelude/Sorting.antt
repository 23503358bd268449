-- ===== src/Prelude/Sorting.antt =====
-- Sorting forgets the order of a list, up to the equality of the comparison.
use Prim.Native.Nat.{Ordering}
use mathlib.Core.Path.{◌≡◌, refl, sym, ◌∙◌}
use mathlib.Core.Logic.{◌⊎◌, ◌≢◌, inl, inr, ∥∥₁_elim}
use mathlib.Core.List.{Perm, List, [], ◌∷◌}
use mathlib.Core.List.{Permᴰ}
use native.Mathlib.Omega.{arith}
use biscuit_go.Prelude.Order.{
  IsOrder, order_refl, eq_right, compare_lists, insert_sorted, sort, lists-IsOrder, compared,
  compared-sort,
}

gt-or-not : (c : Ordering) → (c ≡ Ordering.gt) ⊎ (c ≢ Ordering.gt)
gt-or-not Ordering.gt = inl refl
gt-or-not Ordering.lt = inr cc
gt-or-not Ordering.eq = inr cc

module _ {ℓ} {A : Type ℓ} {cmp : A → A → Ordering} (o : IsOrder cmp) where
  -- Two lists of one length whose elements are equal in the order, one by one.
  abbrev pub Same : List A → List A → Type 0
  Same xs ys = compare_lists cmp xs ys ≡ Ordering.eq

  Same-cons :
      (x y : A) (xs ys : List A) → cmp x y ≡ Ordering.eq → Same xs ys → Same (x ∷ xs) (y ∷ ys)
  unfolding compare_lists
  Same-cons x y xs ys h k = ground arith

  Same-inv :
      (x y : A) (xs ys : List A) → Same (x ∷ xs) (y ∷ ys) → (cmp x y ≡ Ordering.eq) × Same xs ys
  unfolding compare_lists
  Same-inv x y xs ys h = ground arith

  pub Same-refl : (xs : List A) → Same xs xs
  Same-refl xs = order_refl (lists-IsOrder o) xs

  pub Same-trans : (xs ys zs : List A) → Same xs ys → Same ys zs → Same xs zs
  Same-trans xs ys zs h k = (lists-IsOrder o).eq_left xs ys zs h ∙ k

  insert_sorted-gt :
      (x y : A) (xs : List A)
      → cmp x y ≡ Ordering.gt
      → insert_sorted cmp x (y ∷ xs) ≡ y ∷ insert_sorted cmp x xs
  unfolding insert_sorted
  insert_sorted-gt x y xs h = ground arith

  insert_sorted-le :
      (x y : A) (xs : List A) → cmp x y ≢ Ordering.gt → insert_sorted cmp x (y ∷ xs) ≡ x ∷ y ∷ xs
  unfolding insert_sorted
  insert_sorted-le x y xs h = ground arith

  insert_sorted-Same :
      (x y : A) (xs ys : List A)
      → cmp x y ≡ Ordering.eq
      → Same xs ys
      → Same (insert_sorted cmp x xs) (insert_sorted cmp y ys)
  insert_sorted-Same x y [] [] e h = unfold insert_sorted in Same-cons x y [] [] e h
  insert_sorted-Same x y [] (w ∷ ys) e h = unfold compare_lists in ground arith
  insert_sorted-Same x y (z ∷ xs) [] e h = unfold compare_lists in ground arith
  insert_sorted-Same x y (z ∷ xs) (w ∷ ys) e h =
      let (here, rest) = Same-inv z w xs ys h in
      let alike : cmp x z ≡ cmp y w = o.eq_left x y z e ∙ eq_right o y z w here in
      elim (gt-or-not (cmp x z)) [
        | inl above ↦
            rw (insert_sorted-gt x z xs above, insert_sorted-gt y w ys (sym alike ∙ above))
              (Same-cons z w _ _ here (insert_sorted-Same x y xs ys e rest))
        | inr below ↦
            rw (insert_sorted-le x z xs below, insert_sorted-le y w ys (λ k. below (alike ∙ k)))
              (Same-cons x y _ _ e h)
      ]

  above_trans : (x y z : A) → cmp x z ≡ Ordering.gt → cmp y z ≢ Ordering.gt → cmp x y ≡ Ordering.gt
  above_trans x y z h k =
      ground (arith, o.lt_trans y z x, o.eq_left y z x, o.opposite_lem x z, o.opposite_lem y x)

  -- Two elements in front of a rest that neither of them moves into.
  insert_front :
      (x y : A) (r : List A)
      → insert_sorted cmp x r ≡ x ∷ r
      → insert_sorted cmp y r ≡ y ∷ r
      → Same (insert_sorted cmp x (y ∷ r)) (insert_sorted cmp y (x ∷ r))
  insert_front x y r hx hy = elim (gt-or-not (cmp x y)) [
    | inl above ↦
        rw
          (
            insert_sorted-gt x y r above,
            insert_sorted-le y x r (λ k. ground (arith, o.opposite_lem x y)),
            hx,
          )
          (Same-refl _)
    | inr below ↦ elim (gt-or-not (cmp y x)) [
      | inl over ↦ rw (insert_sorted-le x y r below, insert_sorted-gt y x r over, hy) (Same-refl _)
      | inr under ↦
          rw (insert_sorted-le x y r below, insert_sorted-le y x r under)
            (Same-cons x y _ _ (ground (arith, o.opposite_lem x y))
              (Same-cons y x r r (ground (arith, o.opposite_lem x y)) (Same-refl r)))
    ]
  ]

  -- The order of two insertions does not matter.
  insert_sorted_comm :
      (x y : A) (l : List A)
      → Same
          (insert_sorted cmp x (insert_sorted cmp y l))
          (insert_sorted cmp y (insert_sorted cmp x l))
  insert_sorted_comm x y [] = unfold insert_sorted in insert_front x y [] refl refl
  insert_sorted_comm x y (z ∷ l) = elim (gt-or-not (cmp x z)) [
    | inl xz ↦ elim (gt-or-not (cmp y z)) [
      | inl yz ↦
          rw
            (
              insert_sorted-gt x z l xz,
              insert_sorted-gt y z l yz,
              insert_sorted-gt x z (insert_sorted cmp y l) xz,
              insert_sorted-gt y z (insert_sorted cmp x l) yz,
            )
            (Same-cons z z _ _ (order_refl o z) (insert_sorted_comm x y l))
      | inr yz ↦
          rw
            (
              insert_sorted-gt x z l xz,
              insert_sorted-le y z l yz,
              insert_sorted-gt x y (z ∷ l) (above_trans x y z xz yz),
              insert_sorted-gt x z l xz,
              insert_sorted-le y z (insert_sorted cmp x l) yz,
            )
            (Same-refl _)
    ]
    | inr xz ↦ elim (gt-or-not (cmp y z)) [
      | inl yz ↦
          rw
            (
              insert_sorted-le x z l xz,
              insert_sorted-gt y z l yz,
              insert_sorted-gt y x (z ∷ l) (above_trans y x z yz xz),
              insert_sorted-gt y z l yz,
              insert_sorted-le x z (insert_sorted cmp y l) xz,
            )
            (Same-refl _)
      | inr yz ↦
          rw (insert_sorted-le x z l xz, insert_sorted-le y z l yz)
            (insert_front x y (z ∷ l) (insert_sorted-le x z l xz) (insert_sorted-le y z l yz))
    ]
  ]

  sort-Permᴰ : {xs ys : List A} → Permᴰ xs ys → Same (sort cmp xs) (sort cmp ys)
  sort-Permᴰ Permᴰ.nil = Same-refl _
  sort-Permᴰ (Permᴰ.cons {a = a} {b = b} {l₁ = l} {l₂ = m} e d) =
      go (insert_sorted-Same a b (sort cmp l) (sort cmp m) (rw e (order_refl o b)) (sort-Permᴰ d))
    where
      go :
          Same (insert_sorted cmp a (sort cmp l)) (insert_sorted cmp b (sort cmp m))
          → Same (sort cmp (a ∷ l)) (sort cmp (b ∷ m))
      go h = unfold sort in h
  sort-Permᴰ (Permᴰ.swap {a = a} {b = b} {l = l} e f) =
      unfold sort in rw (← e, ← f) (insert_sorted_comm a b (sort cmp l))
  sort-Permᴰ (Permᴰ.trans {l₂ = l} d d') =
      Same-trans _ (sort cmp l) _ (sort-Permᴰ d) (sort-Permᴰ d')

  -- Two iterators that yield the same elements in any order compare equal.
  pub compared-perm : (xs ys : List A) → Perm xs ys → compared cmp xs ys ≡ Ordering.eq
  compared-perm xs ys p = compared-sort cmp xs ys ∙ ∥∥₁_elim p (hlevel) (λ d. sort-Permᴰ d)
