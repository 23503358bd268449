-- ===== src/Surface/Panics.antt =====
-- types.go: `Compare` of rules that name scopes without a key.
use biscuit_go.Prelude.{
  ℕ, zero, suc, ◌+◌, some, none, List, [], ◌∷◌, ◌≡◌, refl, true, false, arith, Ordering, compared,
  compare_each, sort, compare_lists, All, compared_slices, panic, compare_bytes_refl,
}
use biscuit_go.Surface.{
  Term, variable, integer, string, date, bytes, bool, set, Terms, nil, cons, list_of, Predicate, Op,
  value, unary, binary, Expression, Scope, Rule,
}
use biscuit_go.Surface.Compare.{
  compare_at, compare_terms, compare_ids, compare_predicates, compare_ops, compare_expressions,
  compare_scopes, compared_slices_run, compare_rules, depth, compare_each_run, then_run,
  compare_keys,
}

module _ {A : Type 0} (cmp : A → A → Ordering) (cmp_refl : (a : A) → cmp a a ≡ Ordering.eq) where
  compare_each_refl : (l : List A) → compare_each cmp l l ≡ Ordering.eq
  unfolding compare_each
  compare_each_refl [] = refl
  compare_each_refl (a ∷ l) = rw (cmp_refl a, compare_each_refl l) refl

  compared_refl : (l : List A) → compared cmp l l ≡ Ordering.eq
  unfolding compared
  compared_refl l = ground (arith, compare_each_refl (sort cmp l))

  compared_slices_refl : (l : List A) → compared_slices cmp (some l) (some l) ≡ Ordering.eq
  unfolding compared_slices compare_lists
  compared_slices_refl l = rw (compare_each_refl l) (ground arith)

compare_at_refl : (n : ℕ) (a : Term) → compare_at n a a ≡ Ordering.eq
unfolding compare_at biscuit_go.Surface.Compare.compare_same biscuit_go.Term.compare_bool
compare_at_refl zero a = refl
compare_at_refl (suc n) (variable v) = ground (arith, compare_bytes_refl v)
compare_at_refl (suc n) (integer i) = ground arith
compare_at_refl (suc n) (string s) = ground (arith, compare_bytes_refl s)
compare_at_refl (suc n) (date d m) = ground arith
compare_at_refl (suc n) (bytes b) = ground (arith, compare_bytes_refl b)
compare_at_refl (suc n) (bool true) = refl
compare_at_refl (suc n) (bool false) = refl
compare_at_refl (suc n) (set ts) = compared_refl (compare_at n) (compare_at_refl n) (list_of ts)

compare_terms_refl : (a : Term) → compare_terms a a ≡ Ordering.eq
unfolding compare_terms
compare_terms_refl a = compare_at_refl (suc (depth a + depth a)) a

compare_ids_refl : (ts : Terms) → compare_ids ts ts ≡ Ordering.eq
unfolding compare_ids
compare_ids_refl nil = refl
compare_ids_refl (cons t ts) = rw (compare_terms_refl t, compare_ids_refl ts) refl

compare_predicates_refl : (p : Predicate) → compare_predicates p p ≡ Ordering.eq
unfolding compare_predicates
compare_predicates_refl p = rw (compare_bytes_refl p.name, compare_ids_refl p.ids) (ground arith)

compare_ops_refl : (o : Op) → compare_ops o o ≡ Ordering.eq
unfolding compare_ops
compare_ops_refl (value t) = compare_terms_refl t
compare_ops_refl (unary f) = ground arith
compare_ops_refl (binary f) = ground arith

-- An expression that is no `nil` slice.
abbrev pub IsMade : Expression → Type 0
IsMade none = ⊥
IsMade (some os) = Unit

compare_expressions_refl : (e : Expression) → IsMade e → compare_expressions e e ≡ Ordering.eq
unfolding compare_expressions
compare_expressions_refl none m = absurd m
compare_expressions_refl (some os) m = compared_slices_refl compare_ops compare_ops_refl os

compare_each_made :
    (es : List Expression) → All IsMade es → compare_each compare_expressions es es ≡ Ordering.eq
unfolding compare_each
compare_each_made [] m = refl
compare_each_made (e ∷ es) (m, ms) = rw (compare_expressions_refl e m, compare_each_made es ms) refl

compare_scopes-panics : (s : Scope) → s.key ≡ none → compare_scopes s s ≡ panic
unfolding compare_scopes compare_keys then_run
compare_scopes-panics s h = rw h (ground arith)

-- Comparing a rule with itself panics, when its slices are no `nil` and its first scope, such as
-- `authority` or `previous`, has no key.
pub compare_rules-panics :
    (r : Rule) (body : List Predicate) (es : List Expression) (s : Scope) (ss : List Scope)
    → r.body ≡ some body
    → r.expressions ≡ some es
    → All IsMade es
    → r.scopes ≡ some (s ∷ ss)
    → s.key ≡ none
    → compare_rules r r ≡ panic
unfolding compare_rules compared_slices_run compare_each_run compared_slices compare_lists then_run
compare_rules-panics r body es s ss b e m c k =
    rw
      (
        compare_predicates_refl r.head,
        b,
        e,
        c,
        compare_each_refl compare_predicates compare_predicates_refl body,
        compare_each_made es m,
        compare_scopes-panics s k,
      )
      (ground arith)
