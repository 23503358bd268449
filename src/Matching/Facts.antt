-- ===== src/Matching/Facts.antt =====
-- The facts behind a match of `combineIt.matches` (datalog/evaluator.go).
use mathlib.Core.Path.{subst}
use biscuit_go.Prelude.{
  ℕ, ◌≡◌, refl, sym, ◌∙◌, ◌⊎◌, inl, inr, true, false, Option, none, some, List, [], ◌∷◌, length,
  arith, get_elem?, elements,
}
use biscuit_go.Fact.{Predicate, predicate_match}
use biscuit_go.Expression.Machine.{Values}
use biscuit_go.Matching.{
  FactWithOrigin, Bound, fails_at, bound, later, bind_terms, matches_at, first_mismatch, bind_at,
  bind_all,
}
use biscuit_go.Matching.Pruning.{bind_all-some, bind_all-none}
use biscuit_go.Matching.Sound.{Keeps, Binds, Binds-Keeps, bind_terms-Binds, insert_cases}

pub fact_cases : (o : Option FactWithOrigin) → (o ≡ none) ⊎ ((f : FactWithOrigin) × (o ≡ some f))
fact_cases none = inl refl
fact_cases (some f) = inr (f, refl)

module _ (facts : List FactWithOrigin) where
  -- The predicates match the facts at the indexes, one by one, and the variables have their terms.
  abbrev pub Matched : Values → List Predicate → List ℕ → Type 0
  Matched m [] is = Unit
  Matched m (p ∷ ps) [] = ⊥
  Matched m (p ∷ ps) (i ∷ is) =
      ((f : FactWithOrigin) × (get_elem? facts i ≡ some f)
        × (predicate_match (f.fact) p ≡ true)
        × Binds m (elements p.terms) (elements (f.fact.terms)))
      × Matched m ps is

  bind_at-Binds :
      (i : ℕ) (p : Predicate) (m n : Values) (f : FactWithOrigin)
      → get_elem? facts i ≡ some f
      → bind_at facts i p m ≡ some n
      → Keeps m n × Binds n (elements p.terms) (elements (f.fact.terms))
  unfolding bind_at
  bind_at-Binds i p m n f at e =
      bind_terms-Binds (elements p.terms) (elements (f.fact.terms)) m n (sym opened ∙ e)
    where
      opened : bind_at facts i p m ≡ bind_terms (elements p.terms) (elements (f.fact.terms)) m
      opened = rw (at, bind_at) refl

  matches_at-fact :
      (i : ℕ) (p : Predicate)
      → matches_at facts i p ≡ true
      → (f : FactWithOrigin) × (get_elem? facts i ≡ some f) × (predicate_match (f.fact) p ≡ true)
  unfolding matches_at
  matches_at-fact i p e = elim (fact_cases (get_elem? facts i)) [
    | inl h ↦ absurd (ground (arith, absent h))
    | inr (f, h) ↦ (f, h, sym (present f h) ∙ e)
  ]
    where
      absent : get_elem? facts i ≡ none → matches_at facts i p ≡ false
      absent h = rw (h, matches_at) refl

      present :
          (f : FactWithOrigin)
          → get_elem? facts i ≡ some f
          → matches_at facts i p ≡ predicate_match (f.fact) p
      present f h = rw (h, matches_at) refl

  first_mismatch-none :
      (p : Predicate) (ps : List Predicate) (i : ℕ) (is : List ℕ)
      → first_mismatch facts (p ∷ ps) (i ∷ is) ≡ none
      → (matches_at facts i p ≡ true) × (first_mismatch facts ps is ≡ none)
  unfolding first_mismatch
  first_mismatch-none p ps i is e = ground arith

  pub bind_all-Matched :
      (ps : List Predicate) (is : List ℕ) (m n : Values)
      → length is ≡ length ps
      → first_mismatch facts ps is ≡ none
      → bind_all facts ps is m ≡ bound n
      → Keeps m n × Matched n ps is
  unfolding bind_all
  bind_all-Matched [] is m n len e b = (subst (Keeps m) (ground arith) (λ v t h. h), tt)
  bind_all-Matched (p ∷ ps) [] m n len e b = absurd (omega arith)
  bind_all-Matched (p ∷ ps) (i ∷ is) m n len e b = elim (insert_cases (bind_at facts i p m)) [
    | inl h ↦ absurd (ground (arith, bind_all-none facts p ps i is m h))
    | inr (o, h) ↦
        let (at, rest) = first_mismatch-none p ps i is e in
        let (f, found, matched) = matches_at-fact i p at in
        let (before, binds) = bind_at-Binds i p m o f found h in
        let (keeps, others) =
          bind_all-Matched ps is o n (ground arith) rest
            (later-bound _ n (sym (bind_all-some facts p ps i is m o h) ∙ b)) in
        (
          (λ v t k. keeps v t (before v t k)),
          (
            (
              f,
              found,
              matched,
              Binds-Keeps o n (elements p.terms) (elements (f.fact.terms)) keeps binds,
            ),
            others,
          ),
        )
  ]
    where
      later-bound : (r : Bound) (n : Values) → later r ≡ bound n → r ≡ bound n
      later-bound (fails_at q) n h = ground arith
      later-bound (bound o) n h = h
