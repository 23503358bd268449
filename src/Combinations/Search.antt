-- ===== src/Combinations/Search.antt =====
-- The odometer of datalog/evaluator.go against the list of all combinations.
use mathlib.Core.Path.{subst}
use mathlib.Core.List.{append_assoc, map-append}
use biscuit_go.Prelude.{
  ℕ, zero, suc, ◌-◌, ◌≤◌, ◌<◌, ◌≡◌, refl, sym, ap, ◌∙◌, ◌⊎◌, inl, inr, Option, none, some, List, [],
  ◌∷◌, ◌++◌, map, length, All, length-append, arith,
}
use biscuit_go.Combinations.{increment, increment_at, search}
use biscuit_go.Combinations.Order.{increment_at-zero, increment_at-suc}
use biscuit_go.Combinations.Tuples.{
  range, prefixed, tuples, from, from_next, Agree, agree_here, agree_next, from-increment,
  from_next-carry, from_next-over, increment_at-HasLength,
}

All-map-Agree_here :
    (i : ℕ) (is : List ℕ) (ts : List (List ℕ)) → All (Agree 0 (i ∷ is)) (map (λ t. i ∷ t) ts)
All-map-Agree_here i is [] = tt
All-map-Agree_here i is (t ∷ ts) = (agree_here, All-map-Agree_here i is ts)

All-map-Agree_next :
    (p i : ℕ) (is : List ℕ) (ts : List (List ℕ))
    → All (Agree p is) ts
    → All (Agree (suc p) (i ∷ is)) (map (λ t. i ∷ t) ts)
All-map-Agree_next p i is [] h = tt
All-map-Agree_next p i is (t ∷ ts) h = (agree_next h.0, All-map-Agree_next p i is ts h.1)

pub length-map : (f : List ℕ → List ℕ) (ts : List (List ℕ)) → length (map f ts) ≡ length ts
length-map f [] = refl
length-map f (t ∷ ts) = ap suc (length-map f ts)

-- What `failedAtIndex` skips shares the beginning that failed.
abbrev Skips : ℕ → ℕ → List ℕ → Type 0
Skips k p is =
    (pre : List (List ℕ)) × (from k is ≡ pre ++ from_next k (increment_at k p is))
    × All (Agree p is) pre
    × (0 < length pre)

skip : (k p : ℕ) (is : List ℕ) → 0 < k → p < length is → Skips k p is
skip k p [] h lt = absurd (omega arith)
skip k zero (i ∷ is) h lt = (
  map (λ t. i ∷ t) (from k is),
  ap (λ ts. map (λ t. i ∷ t) (from k is) ++ ts)
      (sym (ap (from_next k) (increment_at-zero k i is) ∙ from_next-carry k i (length is) h)),
  All-map-Agree_here i is (from k is),
  subst (λ m. 0 < m) (sym (length-map (λ t. i ∷ t) (from k is) ∙ ap length (from-increment k is h)))
      (omega arith),
)
skip k (suc p) (i ∷ is) h lt =
    let (pre, e, agree, some_list) = skip k p is h (omega arith) in
    (
      map (λ t. i ∷ t) pre,
      ap (λ ts. map (λ t. i ∷ t) ts ++ prefixed (range (suc i) (k - suc i)) (tuples k (length is)))
            e
          ∙ ap (λ ts. ts ++ prefixed (range (suc i) (k - suc i)) (tuples k (length is)))
              (map-append (λ t. i ∷ t) pre _)
          ∙ append_assoc (map (λ t. i ∷ t) pre) _ _
          ∙ ap (λ ts. map (λ t. i ∷ t) pre ++ ts)
              (sym (
                ap (from_next k) (increment_at-suc k p i is)
                ∙ from_next-over k i (length is) (increment_at k p is) h
                    (increment_at-HasLength k p is (omega arith)))),
      All-map-Agree_next p i is pre agree,
      subst (λ m. 0 < m) (sym (length-map (λ t. i ∷ t) pre)) some_list,
    )

-- The combinations on which a test of the indexes does not fail.
abbrev pub keep : (List ℕ → Option ℕ) → List (List ℕ) → List (List ℕ)
keep visit [] = []
keep visit (t ∷ ts) = let rest = keep visit ts in elim (visit t) [ none ↦ t ∷ rest | some p ↦ rest ]

-- A test that fails at a position fails on every combination with the same digits up to it.
pub record IsPruning (visit : List ℕ → Option ℕ) : Type 0 where
  pub in_range : (is : List ℕ) (p : ℕ) → visit is ≡ some p → p < length is
  pub fails_alike :
      (is js : List ℕ) (p : ℕ) → visit is ≡ some p → Agree p is js → (q : ℕ) × (visit js ≡ some q)

pub visit_cases : (o : Option ℕ) → (o ≡ none) ⊎ ((p : ℕ) × (o ≡ some p))
visit_cases none = inl refl
visit_cases (some p) = inr (p, refl)

module _ (visit : List ℕ → Option ℕ) where
  keep-none :
      (t : List ℕ) (ts : List (List ℕ)) → visit t ≡ none → keep visit (t ∷ ts) ≡ t ∷ keep visit ts
  keep-none t ts h = rw (h, keep) refl

  keep-some :
      (t : List ℕ) (ts : List (List ℕ)) (p : ℕ)
      → visit t ≡ some p
      → keep visit (t ∷ ts) ≡ keep visit ts
  keep-some t ts p h = rw (h, keep) refl

  keep-append : (xs ys : List (List ℕ)) → keep visit (xs ++ ys) ≡ keep visit xs ++ keep visit ys
  keep-append [] ys = refl
  keep-append (x ∷ xs) ys = elim (visit_cases (visit x)) [
    | inl e ↦
        keep-none x (xs ++ ys) e
        ∙ ap (λ ts. x ∷ ts) (keep-append xs ys)
        ∙ ap (λ ts. ts ++ keep visit ys) (sym (keep-none x xs e))
    | inr (p, e) ↦
        keep-some x (xs ++ ys) p e
        ∙ keep-append xs ys
        ∙ ap (λ ts. ts ++ keep visit ys) (sym (keep-some x xs p e))
  ]

  keep-skipped :
      (p : ℕ) (is : List ℕ) (pre : List (List ℕ))
      → IsPruning visit
      → visit is ≡ some p
      → All (Agree p is) pre
      → keep visit pre ≡ []
  keep-skipped p is [] v e h = refl
  keep-skipped p is (t ∷ ts) v e h =
      let (q, fails) = v.fails_alike is t p e h.0 in
      keep-some t ts q fails ∙ keep-skipped p is ts v e h.1

  module _ (k : ℕ) (v : IsPruning visit) (positive : 0 < k) where
    abbrev after_step : ℕ → Option (List ℕ) → List (List ℕ)
    after_step fuel o = elim o [ none ↦ [] | some next ↦ search k visit fuel next ]

    search-none :
        (fuel : ℕ) (is : List ℕ)
        → visit is ≡ none
        → search k visit (suc fuel) is ≡ is ∷ after_step fuel (increment k is)
    unfolding search increment
    search-none fuel is e = rw (e, search) refl

    search-some :
        (fuel : ℕ) (is : List ℕ) (p : ℕ)
        → visit is ≡ some p
        → search k visit (suc fuel) is ≡ after_step fuel (increment_at k p is)
    unfolding search increment_at
    search-some fuel is p e = rw (e, search) refl

    after_keep :
        (fuel : ℕ) (o : Option (List ℕ))
        → ((is : List ℕ)
            → length (from k is) ≤ fuel
            → search k visit fuel is ≡ keep visit (from k is))
        → length (from_next k o) ≤ fuel
        → after_step fuel o ≡ keep visit (from_next k o)
    after_keep fuel none h enough = refl
    after_keep fuel (some is) h enough = h is enough

    pub search-keep :
        (fuel : ℕ) (is : List ℕ)
        → length (from k is) ≤ fuel
        → search k visit fuel is ≡ keep visit (from k is)
    search-keep zero is enough =
        absurd (ground (arith, enough, ap length (from-increment k is positive)))
    search-keep (suc fuel) is enough = elim (visit_cases (visit is)) [
      | inl e ↦
          search-none fuel is e
          ∙ ap (λ ts. is ∷ ts)
              (after_keep fuel (increment k is) (search-keep fuel)
                (omega (arith, enough, ap length (from-increment k is positive))))
          ∙ sym (ap (keep visit) (from-increment k is positive) ∙ keep-none is _ e)
      | inr (p, e) ↦
          let (pre, split, agree, some_list) = skip k p is positive (v.in_range is p e) in
          search-some fuel is p e
          ∙ after_keep fuel (increment_at k p is) (search-keep fuel) (
              omega (
                arith,
                enough,
                some_list,
                ap length split,
                length-append pre (from_next k (increment_at k p is)),
              ))
          ∙ sym (
              ap (keep visit) split
              ∙ keep-append pre _
              ∙ ap (λ ts. ts ++ keep visit (from_next k (increment_at k p is)))
                  (keep-skipped p is pre v e agree))
    ]
