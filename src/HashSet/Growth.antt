-- ===== src/HashSet/Growth.antt =====
-- internal/set/hashset.go: a set only grows under insertions, and is the same if it does not grow.
use biscuit_go.Prelude.{
  ◌+◌, ◌≤◌, ◌≡◌, refl, sym, ap, ◌∙◌, ◌⊎◌, inl, inr, List, [], ◌∷◌, any, Bool-cases, arith,
}
use biscuit_go.HashSet.{Element, HashSet, insert, insert_all, union, to_slice, bucket_at}

module _ {ℓ} {T : Type ℓ} ⦃e : Element T⦄ where
  insert_cases : (x : T) (s : HashSet T) → ((insert x s).0 ≡ s) ⊎ ((insert x s).0.size ≡ s.size + 1)
  unfolding insert
  insert_cases x s = elim (Bool-cases (any (λ y. e.equal y x) (bucket_at (e.hash x) s.buckets))) [
    | inl held ↦ inl (rw (held, insert) refl)
    | inr absent ↦ inr (rw (absent, insert) refl)
  ]

  pub size-insert_all : (xs : List T) (s : HashSet T) → s.size ≤ (insert_all xs s).size
  unfolding insert_all
  size-insert_all [] s = omega arith
  size-insert_all (x ∷ xs) s = elim (insert_cases x s) [
    | inl same ↦ omega (arith, size-insert_all xs (insert x s).0, ap (λ r. r.size) same)
    | inr more ↦ omega (arith, size-insert_all xs (insert x s).0, more)
  ]

  pub insert_all-same :
      (xs : List T) (s : HashSet T) → (insert_all xs s).size ≡ s.size → insert_all xs s ≡ s
  unfolding insert_all
  insert_all-same [] s h = refl
  insert_all-same (x ∷ xs) s h = elim (insert_cases x s) [
    | inl same ↦
        ap (insert_all xs) same
        ∙ insert_all-same xs s (ap (λ r. (insert_all xs r).size) (sym same) ∙ h)
    | inr more ↦ absurd (omega (arith, size-insert_all xs (insert x s).0, more))
  ]

  pub size-union : (s other : HashSet T) → s.size ≤ (union s other).size
  unfolding union
  size-union s other = size-insert_all (to_slice other) s

  pub union-same : (s other : HashSet T) → (union s other).size ≡ s.size → union s other ≡ s
  unfolding union
  union-same s other h = insert_all-same (to_slice other) s h
