-- ===== src/Prelude/Order.antt =====
-- Three-way comparisons: Go's negative, zero and positive results are `lt`, `eq` and `gt`. When a
-- comparison is a total order up to its own equality, and the ways in which the program builds one
-- comparison from others.
use Prim.Native.Nat.{suc, compare, Ordering}
use mathlib.Core.Path.{◌≡◌, refl, ap, ap₂, ◌∙◌, fun_ext}
use mathlib.Core.Bool.{Bool, true, false}
use mathlib.Core.List.{List, [], ◌∷◌}
use mathlib.Core.Option.{Option, none, some}
use native.Mathlib.Omega.{arith}
use biscuit_go.Prelude.Lists.{length, All}

abbrev pub is_eq : Ordering → Bool
is_eq Ordering.eq = true
is_eq _ = false

-- `-x` of a result of `Compare`.
abbrev pub opposite : Ordering → Ordering
opposite Ordering.lt = Ordering.gt
opposite Ordering.eq = Ordering.eq
opposite Ordering.gt = Ordering.lt

-- `if x := c; x != 0 { return x }` followed by `return d`.
abbrev pub then_compare : Ordering → Ordering → Ordering
then_compare Ordering.eq d = d
then_compare Ordering.lt d = Ordering.lt
then_compare Ordering.gt d = Ordering.gt

pub record IsOrder {ℓ} {A : Type ℓ} (cmp : A → A → Ordering) : Type ℓ where
  pub opposite_lem : (a b : A) → cmp b a ≡ opposite (cmp a b)
  pub eq_left : (a b c : A) → cmp a b ≡ Ordering.eq → cmp a c ≡ cmp b c
  pub lt_trans : (a b c : A) → cmp a b ≡ Ordering.lt → cmp b c ≡ Ordering.lt → cmp a c ≡ Ordering.lt

pub compare-IsOrder : IsOrder compare
compare-IsOrder = record {
  opposite_lem = λ a b. ground arith;
  eq_left = λ a b c h. ground arith;
  lt_trans = λ a b c h k. ground arith;
}

module _ {ℓ} {A : Type ℓ} {cmp : A → A → Ordering} (o : IsOrder cmp) where
  pub order_refl : (a : A) → cmp a a ≡ Ordering.eq
  order_refl a = ground (arith, o.opposite_lem a a)

  -- Equality in the order is symmetric and transitive.
  pub order_symm : (a b : A) → is_eq (cmp a b) ≡ is_eq (cmp b a)
  order_symm a b = ground (arith, o.opposite_lem a b)

  pub order_trans :
      (a b c : A) → is_eq (cmp a b) ≡ true → is_eq (cmp b c) ≡ true → is_eq (cmp a c) ≡ true
  order_trans a b c h k = ground (arith, o.eq_left a b c)

  pub eq_right : (a b c : A) → cmp b c ≡ Ordering.eq → cmp a b ≡ cmp a c
  eq_right a b c h = ground (arith, o.eq_left b c a, o.opposite_lem b a, o.opposite_lem c a)

-- The comparison of two fields, one after the other.
pub then-IsOrder {ℓ} :
    {A : Type ℓ} {f g : A → A → Ordering}
    → IsOrder f
    → IsOrder g
    → IsOrder (λ a b. then_compare (f a b) (g a b))
then-IsOrder {f = f} {g = g} o p = record {
  opposite_lem = λ a b. ground (arith, o.opposite_lem a b, p.opposite_lem a b);
  eq_left = λ a b c h. ground (arith, o.eq_left a b c, p.eq_left a b c);
  lt_trans = λ a b c h k.
      ground (arith, o.lt_trans a b c, o.eq_left a b c, eq_right o a b c, p.lt_trans a b c);
}

-- The comparison of what a function makes of two values.
pub pullback-IsOrder {ℓ κ} :
    {A : Type ℓ} {B : Type κ} {cmp : B → B → Ordering} (f : A → B)
    → IsOrder cmp
    → IsOrder (λ a b. cmp (f a) (f b))
pullback-IsOrder f o = record {
  opposite_lem = λ a b. o.opposite_lem (f a) (f b);
  eq_left = λ a b c. o.eq_left (f a) (f b) (f c);
  lt_trans = λ a b c. o.lt_trans (f a) (f b) (f c);
}

module _ {ℓ} {A : Type ℓ} where
  -- `for i := range a`, over two slices of one length.
  unfoldable pub compare_each : (A → A → Ordering) → List A → List A → Ordering
  compare_each cmp [] bs = Ordering.eq
  compare_each cmp (a ∷ as_) [] = Ordering.eq
  compare_each cmp (a ∷ as_) (b ∷ bs) = then_compare (cmp a b) (compare_each cmp as_ bs)

  unfoldable pub compare_lists : (A → A → Ordering) → List A → List A → Ordering
  unfolding compare_each
  compare_lists cmp as_ bs =
      then_compare (compare (length as_) (length bs)) (compare_each cmp as_ bs)

  module _ {cmp : A → A → Ordering} (o : IsOrder cmp) where
    compare_lists-opposite :
        (as_ bs : List A) → compare_lists cmp bs as_ ≡ opposite (compare_lists cmp as_ bs)
    unfolding compare_lists
    compare_lists-opposite [] [] = refl
    compare_lists-opposite [] (b ∷ bs) = ground arith
    compare_lists-opposite (a ∷ as_) [] = ground arith
    compare_lists-opposite (a ∷ as_) (b ∷ bs) =
        ground (arith, compare_lists-opposite as_ bs, o.opposite_lem a b)

    compare_lists-eq_left :
        (as_ bs cs : List A)
        → compare_lists cmp as_ bs ≡ Ordering.eq
        → compare_lists cmp as_ cs ≡ compare_lists cmp bs cs
    unfolding compare_lists
    compare_lists-eq_left [] [] cs h = refl
    compare_lists-eq_left [] (b ∷ bs) cs h = ground arith
    compare_lists-eq_left (a ∷ as_) [] cs h = ground arith
    compare_lists-eq_left (a ∷ as_) (b ∷ bs) [] h = ground arith
    compare_lists-eq_left (a ∷ as_) (b ∷ bs) (c ∷ cs) h =
        ground (arith, compare_lists-eq_left as_ bs cs, o.eq_left a b c)

    compare_lists-lt_trans :
        (as_ bs cs : List A)
        → compare_lists cmp as_ bs ≡ Ordering.lt
        → compare_lists cmp bs cs ≡ Ordering.lt
        → compare_lists cmp as_ cs ≡ Ordering.lt
    unfolding compare_lists
    compare_lists-lt_trans [] [] cs h k = ground arith
    compare_lists-lt_trans [] (b ∷ bs) [] h k = ground arith
    compare_lists-lt_trans [] (b ∷ bs) (c ∷ cs) h k = ground arith
    compare_lists-lt_trans (a ∷ as_) [] cs h k = ground arith
    compare_lists-lt_trans (a ∷ as_) (b ∷ bs) [] h k = ground arith
    compare_lists-lt_trans (a ∷ as_) (b ∷ bs) (c ∷ cs) h k = ground (
      arith,
      compare_lists-lt_trans as_ bs cs,
      o.lt_trans a b c,
      o.eq_left a b c,
      eq_right o a b c,
    )

    pub lists-IsOrder : IsOrder (compare_lists cmp)
    lists-IsOrder = record {
      opposite_lem = compare_lists-opposite;
      eq_left = compare_lists-eq_left;
      lt_trans = compare_lists-lt_trans;
    }

  -- `slices.Sort` and its variants, as an insertion sort.
  unfoldable pub insert_sorted : (A → A → Ordering) → A → List A → List A
  insert_sorted cmp x [] = x ∷ []
  insert_sorted cmp x (y ∷ ys) = elim (cmp x y) [
    | Ordering.gt ↦ y ∷ insert_sorted cmp x ys
    | _ ↦ x ∷ y ∷ ys
  ]

  unfoldable pub sort : (A → A → Ordering) → List A → List A
  unfolding insert_sorted
  sort cmp [] = []
  sort cmp (x ∷ xs) = insert_sorted cmp x (sort cmp xs)

-- A Go slice: `none` is `nil`, which `len` and `range` do not tell from an empty slice.
abbrev pub Slice {ℓ} : Type ℓ → Type ℓ
Slice A = Option (List A)

abbrev pub elements {ℓ} : {A : Type ℓ} → Slice A → List A
elements none = []
elements (some l) = l

-- A slice that stays `nil` where there is nothing to put into it.
unfoldable pub slice_of {ℓ} : {A : Type ℓ} → List A → Slice A
slice_of [] = none
slice_of (a ∷ as_) = some (a ∷ as_)

pub elements-slice_of {ℓ} : {A : Type ℓ} (l : List A) → elements (slice_of l) ≡ l
unfolding slice_of
elements-slice_of [] = refl
elements-slice_of (a ∷ l) = refl

-- `set.ComparedSlices`.
unfoldable pub compared_slices {ℓ} :
    {A : Type ℓ} → (A → A → Ordering) → Slice A → Slice A → Ordering
compared_slices cmp a none = Ordering.gt
compared_slices cmp a (some b) = compare_lists cmp (elements a) b

-- `set.Compared`, of what two iterators yield.
unfoldable pub compared {ℓ} : {A : Type ℓ} → (A → A → Ordering) → List A → List A → Ordering
unfolding sort compare_each
compared cmp as_ bs =
    then_compare (compare (length as_) (length bs)) (compare_each cmp (sort cmp as_) (sort cmp bs))

module _ {ℓ} {A : Type ℓ} (cmp : A → A → Ordering) where
  length-insert_sorted : (x : A) (xs : List A) → length (insert_sorted cmp x xs) ≡ suc (length xs)
  unfolding insert_sorted
  length-insert_sorted x [] = refl
  length-insert_sorted x (y ∷ xs) = ground (arith, length-insert_sorted x xs)

  pub length-sort : (xs : List A) → length (sort cmp xs) ≡ length xs
  unfolding sort
  length-sort [] = refl
  length-sort (x ∷ xs) = length-insert_sorted x (sort cmp xs) ∙ ap suc (length-sort xs)

  -- Comparing what iterators yield is comparing the sorted slices.
  pub compared-sort :
      (xs ys : List A) → compared cmp xs ys ≡ compare_lists cmp (sort cmp xs) (sort cmp ys)
  unfolding compared compare_lists
  compared-sort xs ys = rw (length-sort xs, length-sort ys)

  pub compared-IsOrder : IsOrder cmp → IsOrder (compared cmp)
  compared-IsOrder o =
      rw (fun_ext (λ xs. fun_ext (λ ys. compared-sort xs ys)))
        (pullback-IsOrder (sort cmp) (lists-IsOrder o))

-- Two comparisons that agree on the elements of two lists compare these alike.
module _ {ℓ} {A : Type ℓ} (P : A → Type 0) (f g : A → A → Ordering)
    (agree : (a b : A) → P a → P b → f a b ≡ g a b) where
  All-insert_sorted : (x : A) (xs : List A) → P x → All P xs → All P (insert_sorted f x xs)
  unfolding insert_sorted
  All-insert_sorted x [] hx h = (hx, tt)
  All-insert_sorted x (y ∷ xs) hx h = ground (arith, All-insert_sorted x xs hx h.1, h.0, hx, h.1)

  All-sort : (xs : List A) → All P xs → All P (sort f xs)
  unfolding sort
  All-sort [] h = tt
  All-sort (x ∷ xs) h = All-insert_sorted x (sort f xs) h.0 (All-sort xs h.1)

  insert_sorted_congr :
      (x : A) (xs : List A) → P x → All P xs → insert_sorted f x xs ≡ insert_sorted g x xs
  unfolding insert_sorted
  insert_sorted_congr x [] hx h = refl
  insert_sorted_congr x (y ∷ xs) hx h =
      ground (arith, agree x y hx h.0, insert_sorted_congr x xs hx h.1)

  sort_congr : (xs : List A) → All P xs → sort f xs ≡ sort g xs
  unfolding sort
  sort_congr [] h = refl
  sort_congr (x ∷ xs) h =
      insert_sorted_congr x (sort f xs) h.0 (All-sort xs h.1)
      ∙ ap (insert_sorted g x) (sort_congr xs h.1)

  compare_each_congr :
      (xs ys : List A) → All P xs → All P ys → compare_each f xs ys ≡ compare_each g xs ys
  unfolding compare_each
  compare_each_congr [] ys hx hy = refl
  compare_each_congr (x ∷ xs) [] hx hy = refl
  compare_each_congr (x ∷ xs) (y ∷ ys) hx hy =
      ground (arith, agree x y hx.0 hy.0, compare_each_congr xs ys hx.1 hy.1)

  pub compared_congr : (xs ys : List A) → All P xs → All P ys → compared f xs ys ≡ compared g xs ys
  unfolding compared
  compared_congr xs ys hx hy = ap (then_compare (compare (length xs) (length ys))) (
      compare_each_congr (sort f xs) (sort f ys) (All-sort xs hx) (All-sort ys hy)
      ∙ ap₂ (compare_each g) (sort_congr xs hx) (sort_congr ys hy))
