-- ===== src/Matching/Yielded.antt =====
-- The matches that `combineIt.matches` yields (datalog/evaluator.go).
use mathlib.Core.Path.{subst}
use biscuit_go.Prelude.{
  ℕ, zero, suc, ◌≡◌, refl, sym, ap, ◌∙◌, ◌⊎◌, inl, inr, Bool, true, false, Option, none, some, List,
  [], ◌∷◌, map, length, arith, if◌then◌else◌, Bytes, All, All-append,
}
use biscuit_go.Fact.{Predicate}
use biscuit_go.Origin.{Origin}
use biscuit_go.Expression.Machine.{Values}
use biscuit_go.Combinations.Tuples.{tuples, range, prefixed}
use biscuit_go.Combinations.Search.{keep}
use biscuit_go.Matching.{
  FactWithOrigin, Bound, fails_at, bound, either, bind_all, failed_position, new_matched_variables,
  yielded, yielded_all, matches, complete, has_nil, origin_of,
}
use biscuit_go.Matching.Pruning.{matches-keep}
use biscuit_go.Matching.Facts.{Matched, bind_all-Matched}
use biscuit_go.Matching.Origins.{IsUnion, OriginsAreValid, origin_of-IsUnion}

All-keep :
    (P : List ℕ → Type 0) (visit : List ℕ → Option ℕ) (ts : List (List ℕ))
    → All P ts
    → All (λ t. P t × (visit t ≡ none)) (keep visit ts)
All-keep P visit [] h = tt
All-keep P visit (t ∷ ts) h = elim (position_cases (visit t)) [
  | inl e ↦
      subst (All (λ t. P t × (visit t ≡ none))) (sym (kept e)) ((h.0, e), All-keep P visit ts h.1)
  | inr (p, e) ↦
      subst (All (λ t. P t × (visit t ≡ none))) (sym (dropped p e)) (All-keep P visit ts h.1)
]
  where
    position_cases : (o : Option ℕ) → (o ≡ none) ⊎ ((p : ℕ) × (o ≡ some p))
    position_cases none = inl refl
    position_cases (some p) = inr (p, refl)

    kept : visit t ≡ none → keep visit (t ∷ ts) ≡ t ∷ keep visit ts
    kept e = rw (e, keep) refl

    dropped : (p : ℕ) → visit t ≡ some p → keep visit (t ∷ ts) ≡ keep visit ts
    dropped p e = rw (e, keep) refl

All-cons :
    (n d : ℕ) (ts : List (List ℕ))
    → All (λ t. length t ≡ n) ts
    → All (λ t. length t ≡ suc n) (map (λ t. d ∷ t) ts)
All-cons n d [] h = tt
All-cons n d (t ∷ ts) h = (ap suc h.0, All-cons n d ts h.1)

All-prefixed :
    (n : ℕ) (ds : List ℕ) (ts : List (List ℕ))
    → All (λ t. length t ≡ n) ts
    → All (λ t. length t ≡ suc n) (prefixed ds ts)
unfolding prefixed
All-prefixed n [] ts h = tt
All-prefixed n (d ∷ ds) ts h =
    All-append _ (map (λ t. d ∷ t) ts) (prefixed ds ts) (All-cons n d ts h) (All-prefixed n ds ts h)

All-tuples : (k n : ℕ) → All (λ t. length t ≡ n) (tuples k n)
unfolding tuples
All-tuples k zero = (refl, tt)
All-tuples k (suc n) = All-prefixed n (range 0 k) (tuples k n) (All-tuples k n)

either-none :
    (o : Option ℕ) (b : Bound) → either o b ≡ none → (o ≡ none) × ((n : Values) × (b ≡ bound n))
either-none (some p) b e = ground arith
either-none none (fails_at p) e = ground arith
either-none none (bound n) e = (refl, (n, refl))

-- A map that is completed has no variable without a term.
completed :
    (n : Values) (r : Option Origin × Values) (o : Option Origin)
    → elim (complete n) [ none ↦ none | some m ↦ some (o, m) ] ≡ some r
    → (has_nil n ≡ false) × ((o, n) ≡ r)
unfolding complete
completed n r o e = if_nil (has_nil n) e
  where
    if_nil :
        (b : Bool)
        → elim (if b then none else some n) [ none ↦ none | some m ↦ some (o, m) ] ≡ some r
        → (b ≡ false) × ((o, n) ≡ r)
    if_nil true e = ground arith
    if_nil false e = (refl, ground arith)

yielded_cases :
    (o : Option (Option Origin × Values))
    → (o ≡ none) ⊎ ((r : Option Origin × Values) × (o ≡ some r))
yielded_cases none = inl refl
yielded_cases (some r) = inr (r, refl)

module _ (facts : List FactWithOrigin) (digest : Bytes → ℕ) (ps : List Predicate) where
  -- What a match is: it comes from one fact for each predicate, gives a term to each of its variables,
  -- and its origin is the union of the origins of the facts.
  abbrev pub IsMatch : Option Origin × Values → Type 0
  IsMatch (o, m) =
      (is : List ℕ) × (length is ≡ length ps)
      × Matched facts m ps is
      × (has_nil m ≡ false)
      × IsUnion facts digest o is

  yielded-bound :
      (is : List ℕ) (n : Values)
      → bind_all facts ps is (new_matched_variables ps []) ≡ bound n
      → yielded facts digest ps is
        ≡ elim (complete n) [ none ↦ none | some m ↦ some (origin_of facts digest is, m) ]
  unfolding yielded
  yielded-bound is n b = rw (b, yielded) refl

module _ (facts : List FactWithOrigin) (digest : Bytes → ℕ) (valid : OriginsAreValid facts digest)
    (ps : List Predicate) where
  yielded-IsMatch :
      (is : List ℕ) (r : Option Origin × Values)
      → length is ≡ length ps
      → failed_position facts ps is ≡ none
      → yielded facts digest ps is ≡ some r
      → IsMatch facts digest ps r
  unfolding failed_position
  yielded-IsMatch is r len e y =
      let (mismatch, found) = either-none _ _ e in
      let (n, b) = found in
      let (no_nil, same) =
        completed n r (origin_of facts digest is)
          (sym (yielded-bound facts digest ps is n b) ∙ y) in
      let matched =
        (bind_all-Matched facts ps is (new_matched_variables ps []) n len mismatch b).1 in
      subst (IsMatch facts digest ps) same
        (is, len, matched, no_nil, origin_of-IsUnion facts digest valid n ps is len matched)

  yielded_all-IsMatch :
      (iss : List (List ℕ))
      → All (λ is. (length is ≡ length ps) × (failed_position facts ps is ≡ none)) iss
      → All (IsMatch facts digest ps) (yielded_all facts digest ps iss)
  unfolding yielded_all
  yielded_all-IsMatch [] h = tt
  yielded_all-IsMatch (is ∷ iss) h = elim (yielded_cases (yielded facts digest ps is)) [
    | inl e ↦ subst (All (IsMatch facts digest ps)) (sym (without e)) (yielded_all-IsMatch iss h.1)
    | inr (r, e) ↦
        subst (All (IsMatch facts digest ps)) (sym (with_one r e))
          (yielded-IsMatch is r h.0.0 h.0.1 e, yielded_all-IsMatch iss h.1)
  ]
    where
      without :
          yielded facts digest ps is ≡ none
          → yielded_all facts digest ps (is ∷ iss) ≡ yielded_all facts digest ps iss
      without e = rw (e, yielded_all) refl

      with_one :
          (r : Option Origin × Values)
          → yielded facts digest ps is ≡ some r
          → yielded_all facts digest ps (is ∷ iss) ≡ r ∷ yielded_all facts digest ps iss
      with_one r e = rw (e, yielded_all) refl

  -- Where the origins of the facts are well-formed sets, every match of a body comes from exactly
  -- one fact for each predicate: the fact matches the predicate, the variables of the predicate
  -- have terms equal to those of the fact, no variable is left without a term, and the origin of
  -- the match has exactly the blocks that the origin of one of those facts has. Only the match of
  -- an empty body has no origin.
  pub matches-IsMatch : All (IsMatch facts digest ps) (matches facts digest ps)
  matches-IsMatch = subst (All (IsMatch facts digest ps)) (sym (matches-keep facts digest ps)) (
      yielded_all-IsMatch _ (
        All-keep (λ is. length is ≡ length ps) (failed_position facts ps)
          (tuples (length facts) (length ps)) (All-tuples (length facts) (length ps))))
