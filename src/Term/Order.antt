-- ===== src/Term/Order.antt =====
-- `Compare` on terms (datalog/datalog.go) as an order.
use biscuit_go.Prelude.{
  ℕ, zero, suc, ◌+◌, ◌≤◌, ◌≡◌, refl, sym, ap, ◌∙◌, true, false, List, [], ◌∷◌, Bytes, ℤ, pos,
  compare_ℤ, compare_bytes, compare_bytes-opposite, compare_bytes-eq, compare, Ordering,
  then_compare, compared, compared-IsOrder, IsOrder, compare-IsOrder, then-IsOrder,
  pullback-IsOrder, order_refl, order_symm, order_trans, arith, All, compared_congr,
}
use mathlib.Core.Path.{subst, fun_ext}
use biscuit_go.Term.{
  Term, variable, integer, string, date, bytes, bool, set, Terms, nil, cons, list_of, term_type,
  compare_at, compare_terms, depth, depths, equal,
}

compare_ℤ-IsOrder : IsOrder compare_ℤ
compare_ℤ-IsOrder = record {
  opposite_lem = λ a b. ground arith;
  eq_left = λ a b c h. ground arith;
  lt_trans = λ a b c h k. ground arith;
}

compare_bytes-lt_trans :
    (a b c : Bytes)
    → compare_bytes a b ≡ Ordering.lt
    → compare_bytes b c ≡ Ordering.lt
    → compare_bytes a c ≡ Ordering.lt
unfolding compare_bytes
compare_bytes-lt_trans [] [] c h k = ground arith
compare_bytes-lt_trans [] (b ∷ bs) [] h k = ground arith
compare_bytes-lt_trans [] (b ∷ bs) (c ∷ cs) h k = ground arith
compare_bytes-lt_trans (a ∷ as_) [] c h k = ground arith
compare_bytes-lt_trans (a ∷ as_) (b ∷ bs) [] h k = ground arith
compare_bytes-lt_trans (a ∷ as_) (b ∷ bs) (c ∷ cs) h k =
    ground
      (arith, compare_bytes-lt_trans as_ bs cs, compare_bytes-eq as_ bs, compare_bytes-eq bs cs)

compare_bytes-IsOrder : IsOrder compare_bytes
compare_bytes-IsOrder = record {
  opposite_lem = compare_bytes-opposite;
  eq_left = λ a b c h. ap (λ x. compare_bytes x c) (compare_bytes-eq a b h);
  lt_trans = compare_bytes-lt_trans;
}

-- The parts of a term, with a fixed value where a term has no such part.
number_of : Term → ℕ
number_of (variable v) = v
number_of (string s) = s
number_of (date d) = d
number_of (bool true) = 1
number_of (bool false) = 0
number_of _ = 0

integer_of : Term → ℤ
integer_of (integer i) = i
integer_of _ = pos 0

bytes_of : Term → Bytes
bytes_of (bytes b) = b
bytes_of _ = []

elements_in : Term → List Term
elements_in (set ts) = list_of ts
elements_in _ = []

-- The comparison of the parts, one after the other.
compare_parts : ℕ → Term → Term → Ordering
compare_parts n a b = then_compare (compare (term_type a) (term_type b)) (
    then_compare (compare (number_of a) (number_of b)) (
      then_compare (compare_ℤ (integer_of a) (integer_of b)) (
        then_compare (compare_bytes (bytes_of a) (bytes_of b))
          (compared (compare_at n) (elements_in a) (elements_in b)))))

then_compare-eq : (x : Ordering) → then_compare x Ordering.eq ≡ x
then_compare-eq x = ground arith

compare_at-parts : (n : ℕ) (a b : Term) → compare_at (suc n) a b ≡ compare_parts n a b
unfolding compare_at compare_parts number_of integer_of bytes_of elements_in compared compare_bytes
compare_at-parts n (variable v) (variable w) = sym (then_compare-eq (compare v w))
compare_at-parts n (integer i) (integer j) = sym (then_compare-eq (compare_ℤ i j))
compare_at-parts n (string s) (string t) = sym (then_compare-eq (compare s t))
compare_at-parts n (date d) (date e) = sym (then_compare-eq (compare d e))
compare_at-parts n (bytes a) (bytes b) = sym (then_compare-eq (compare_bytes a b))
compare_at-parts n (bool true) (bool true) = refl
compare_at-parts n (bool true) (bool false) = refl
compare_at-parts n (bool false) (bool true) = refl
compare_at-parts n (bool false) (bool false) = refl
compare_at-parts n (set a) (set b) = refl
compare_at-parts n _ _ = refl

parts-IsOrder : (n : ℕ) → IsOrder (compare_at n) → IsOrder (compare_parts n)
unfolding compare_parts
parts-IsOrder n o = then-IsOrder (pullback-IsOrder term_type compare-IsOrder) (
    then-IsOrder (pullback-IsOrder number_of compare-IsOrder) (
      then-IsOrder (pullback-IsOrder integer_of compare_ℤ-IsOrder) (
        then-IsOrder (pullback-IsOrder bytes_of compare_bytes-IsOrder)
          (pullback-IsOrder elements_in (compared-IsOrder (compare_at n) o)))))

pub compare_at-IsOrder : (n : ℕ) → IsOrder (compare_at n)
compare_at-IsOrder zero =
    unfold compare_at in
    record { opposite_lem = λ a b. refl; eq_left = λ a b c h. refl; lt_trans = λ a b c h k. h }
compare_at-IsOrder (suc n) = go (parts-IsOrder n (compare_at-IsOrder n))
  where
    go : IsOrder (compare_parts n) → IsOrder (compare_at (suc n))
    go o = subst IsOrder (fun_ext (λ a. fun_ext (λ b. sym (compare_at-parts n a b)))) o

depths_bound : (ts : Terms) (n : ℕ) → depths ts ≤ n → All (λ t. depth t ≤ n) (list_of ts)
unfolding depths
depths_bound nil n h = tt
depths_bound (cons t ts) n h = (ground arith, depths_bound ts n (ground arith))

elements_in-depth : (a : Term) (n : ℕ) → depth a ≤ suc n → All (λ t. depth t ≤ n) (elements_in a)
unfolding elements_in depth
elements_in-depth (set ts) n h = depths_bound ts n (omega arith)
elements_in-depth _ n h = tt

-- A set of depth 0 would be none, so a term of depth 0 has no elements.
elements_in-flat : (a : Term) → depth a ≤ 0 → elements_in a ≡ []
unfolding elements_in depth
elements_in-flat (set ts) h = absurd (omega arith)
elements_in-flat (variable v) h = refl
elements_in-flat _ h = refl

All-both : (P Q : Term → Type 0) (ts : List Term) → All P ts → All Q ts → All (λ t. P t × Q t) ts
All-both P Q [] h k = tt
All-both P Q (t ∷ ts) h k = ((h.0, k.0), All-both P Q ts h.1 k.1)

compare_parts-flat :
    (n m : ℕ) (a b : Term) → depth a ≤ 0 → depth b ≤ 0 → compare_parts n a b ≡ compare_parts m a b
unfolding compare_parts compared
compare_parts-flat n m a b ha hb = rw (elements_in-flat a ha, elements_in-flat b hb)

compare_parts_congr :
    (n m : ℕ) (a b : Term)
    → compared (compare_at n) (elements_in a) (elements_in b)
      ≡ compared (compare_at m) (elements_in a) (elements_in b)
    → compare_parts n a b ≡ compare_parts m a b
unfolding compare_parts
compare_parts_congr n m a b e = rw e

-- Any depth that both terms keep to gives the same result.
compare_at_irrel :
    (n m : ℕ) (a b : Term)
    → depth a ≤ n
    → depth b ≤ n
    → depth a ≤ m
    → depth b ≤ m
    → compare_at (suc n) a b ≡ compare_at (suc m) a b
compare_at_irrel zero m a b ha hb ka kb =
    compare_at-parts 0 a b ∙ compare_parts-flat 0 m a b ha hb ∙ sym (compare_at-parts m a b)
compare_at_irrel (suc n) zero a b ha hb ka kb =
    compare_at-parts (suc n) a b
    ∙ compare_parts-flat (suc n) 0 a b ka kb
    ∙ sym (compare_at-parts 0 a b)
compare_at_irrel (suc n) (suc m) a b ha hb ka kb =
    compare_at-parts (suc n) a b
    ∙ compare_parts_congr (suc n) (suc m) a b (
        compared_congr (λ t. (depth t ≤ n) × (depth t ≤ m)) (compare_at (suc n))
          (compare_at (suc m)) (λ x y hx hy. compare_at_irrel n m x y hx.0 hy.0 hx.1 hy.1)
          (elements_in a) (elements_in b)
          (All-both _ _ (elements_in a) (elements_in-depth a n ha) (elements_in-depth a m ka))
          (All-both _ _ (elements_in b) (elements_in-depth b n hb) (elements_in-depth b m kb)))
    ∙ sym (compare_at-parts (suc m) a b)

-- At the depths of three terms together, `Compare` is one comparison.
compare_terms-at :
    (n : ℕ) (a b : Term) → depth a ≤ n → depth b ≤ n → compare_terms a b ≡ compare_at (suc n) a b
compare_terms-at n a b ha hb =
    unfold compare_terms in
    compare_at_irrel (depth a + depth b) n a b (omega arith) (omega arith) ha hb

-- `Compare` on terms of any nesting is a total order up to its own equality: it is antisymmetric,
-- its equality can be replaced on the left, and its `less` is transitive.
pub compare_terms-IsOrder : IsOrder compare_terms
compare_terms-IsOrder = record {
  opposite_lem = λ a b.
      let n = depth a + depth b in
      let o = compare_at-IsOrder (suc n) in
      rw
        (
          compare_terms-at n a b (omega arith) (omega arith),
          compare_terms-at n b a (omega arith) (omega arith),
        )
        (o.opposite_lem a b);
  eq_left = λ a b c h.
      let n = depth a + depth b + depth c in
      let o = compare_at-IsOrder (suc n) in
      rw
        (
          compare_terms-at n a c (omega arith) (omega arith),
          compare_terms-at n b c (omega arith) (omega arith),
        )
        (o.eq_left a b c (sym (compare_terms-at n a b (omega arith) (omega arith)) ∙ h));
  lt_trans = λ a b c h k.
      let n = depth a + depth b + depth c in
      let o = compare_at-IsOrder (suc n) in
      rw (compare_terms-at n a c (omega arith) (omega arith)) (
        o.lt_trans a b c (sym (compare_terms-at n a b (omega arith) (omega arith)) ∙ h)
          (sym (compare_terms-at n b c (omega arith) (omega arith)) ∙ k));
}

-- So `Equal` is an equivalence.
pub equal-equivalence :
    ((a : Term) → equal a a ≡ true)
    × ((a b : Term) → equal a b ≡ equal b a)
    × ((a b c : Term) → equal a b ≡ true → equal b c ≡ true → equal a c ≡ true)
unfolding equal
equal-equivalence = (
  λ a. rw (order_refl compare_terms-IsOrder a),
  order_symm compare_terms-IsOrder,
  order_trans compare_terms-IsOrder,
)
