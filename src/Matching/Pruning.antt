-- ===== src/Matching/Pruning.antt =====
-- What `combineIt.matches` skips (datalog/evaluator.go).
use biscuit_go.Prelude.{
  ℕ, zero, suc, ◌<◌, ◌≡◌, refl, sym, ap, ◌∙◌, ◌≢◌, ◌⊎◌, inl, inr, Option, none, some, List, [], ◌∷◌,
  length, arith, Bytes,
}
use biscuit_go.Fact.{Predicate}
use biscuit_go.Expression.Machine.{Values}
use biscuit_go.Combinations.Tuples.{tuples, Agree, agree_here, agree_next}
use biscuit_go.Combinations.Search.{IsPruning, keep}
use biscuit_go.Combinations.Odometer.{combinations-keep}
use biscuit_go.Matching.{
  FactWithOrigin, either, Bound, fails_at, bound, later, first_mismatch, bind_at, bind_all,
  failed_position, new_matched_variables, yielded_all, matches,
}

bind_cases : (o : Option Values) → (o ≡ none) ⊎ ((n : Values) × (o ≡ some n))
bind_cases none = inl refl
bind_cases (some n) = inr (n, refl)

later-positive : (b : Bound) → later b ≢ fails_at 0
later-positive (fails_at p) e = ground arith
later-positive (bound m) e = ground arith

later-fails : (p : ℕ) (b : Bound) → later b ≡ fails_at (suc p) → b ≡ fails_at p
later-fails p (fails_at q) e = ground arith
later-fails p (bound m) e = ground arith

either-some :
    (o : Option ℕ) (b : Bound) (p : ℕ) → either o b ≡ some p → (o ≡ some p) ⊎ (b ≡ fails_at p)
either-some (some q) b p e = inl e
either-some none (fails_at q) p e = inr (ground arith)
either-some none (bound m) p e = ground arith

either-fails : (o : Option ℕ) (p : ℕ) → (q : ℕ) × (either o (fails_at p) ≡ some q)
either-fails (some q) p = (q, refl)
either-fails none p = (p, refl)

module _ (facts : List FactWithOrigin) where
  first_mismatch-Agree :
      (ps : List Predicate) (is js : List ℕ) (p : ℕ)
      → first_mismatch facts ps is ≡ some p
      → Agree p is js
      → first_mismatch facts ps js ≡ some p
  unfolding first_mismatch
  first_mismatch-Agree [] is js p e a = ground arith
  first_mismatch-Agree (q ∷ ps) _ _ _ e (agree_here {i = i} {is = is} {js = js}) = ground arith
  first_mismatch-Agree (q ∷ ps) _ _ _ e (agree_next {p = p} {i = i} {is = is} {js = js} a) =
      ground (arith, first_mismatch-Agree ps is js p (ground arith) a)

  first_mismatch-lt :
      (ps : List Predicate) (is : List ℕ) (p : ℕ)
      → first_mismatch facts ps is ≡ some p
      → p < length is
  unfolding first_mismatch
  first_mismatch-lt [] is p e = ground arith
  first_mismatch-lt (q ∷ ps) [] p e = ground arith
  first_mismatch-lt (q ∷ ps) (i ∷ is) zero e = omega arith
  first_mismatch-lt (q ∷ ps) (i ∷ is) (suc p) e =
      omega (arith, first_mismatch-lt ps is p (ground arith))

  pub bind_all-none :
      (q : Predicate) (ps : List Predicate) (i : ℕ) (is : List ℕ) (m : Values)
      → bind_at facts i q m ≡ none
      → bind_all facts (q ∷ ps) (i ∷ is) m ≡ fails_at 0
  unfolding bind_all
  bind_all-none q ps i is m h = rw (h, bind_all) refl

  pub bind_all-some :
      (q : Predicate) (ps : List Predicate) (i : ℕ) (is : List ℕ) (m n : Values)
      → bind_at facts i q m ≡ some n
      → bind_all facts (q ∷ ps) (i ∷ is) m ≡ later (bind_all facts ps is n)
  unfolding bind_all
  bind_all-some q ps i is m n h = rw (h, bind_all) refl

  bind_all-Agree_here :
      (q : Predicate) (ps : List Predicate) (i : ℕ) (is js : List ℕ) (m : Values)
      → bind_all facts (q ∷ ps) (i ∷ is) m ≡ fails_at 0
      → bind_all facts (q ∷ ps) (i ∷ js) m ≡ fails_at 0
  bind_all-Agree_here q ps i is js m e = elim (bind_cases (bind_at facts i q m)) [
    | inl h ↦ bind_all-none q ps i js m h
    | inr (n, h) ↦ absurd (later-positive _ (sym (bind_all-some q ps i is m n h) ∙ e))
  ]

  bind_all-Agree_next :
      (q : Predicate) (ps : List Predicate) (i : ℕ) (is js : List ℕ) (m : Values) (p : ℕ)
      → ((n : Values) → bind_all facts ps is n ≡ fails_at p → bind_all facts ps js n ≡ fails_at p)
      → bind_all facts (q ∷ ps) (i ∷ is) m ≡ fails_at (suc p)
      → bind_all facts (q ∷ ps) (i ∷ js) m ≡ fails_at (suc p)
  bind_all-Agree_next q ps i is js m p next e = elim (bind_cases (bind_at facts i q m)) [
    | inl h ↦ absurd (ground (arith, bind_all-none q ps i is m h))
    | inr (n, h) ↦
        bind_all-some q ps i js m n h
        ∙ ap later (next n (later-fails p _ (sym (bind_all-some q ps i is m n h) ∙ e)))
  ]

  bind_all-Agree :
      (ps : List Predicate) (is js : List ℕ) (m : Values) (p : ℕ)
      → bind_all facts ps is m ≡ fails_at p
      → Agree p is js
      → bind_all facts ps js m ≡ fails_at p
  unfolding bind_all
  bind_all-Agree [] is js m p e a = ground arith
  bind_all-Agree (q ∷ ps) _ _ m _ e (agree_here {i = i} {is = is} {js = js}) =
      bind_all-Agree_here q ps i is js m e
  bind_all-Agree (q ∷ ps) _ _ m _ e (agree_next {p = p} {i = i} {is = is} {js = js} a) =
      bind_all-Agree_next q ps i is js m p (λ n h. bind_all-Agree ps is js n p h a) e

  bind_all-lt :
      (ps : List Predicate) (is : List ℕ) (m : Values) (p : ℕ)
      → bind_all facts ps is m ≡ fails_at p
      → p < length is
  unfolding bind_all
  bind_all-lt [] is m p e = ground arith
  bind_all-lt (q ∷ ps) [] m p e = ground arith
  bind_all-lt (q ∷ ps) (i ∷ is) m zero e = omega arith
  bind_all-lt (q ∷ ps) (i ∷ is) m (suc p) e = elim (bind_cases (bind_at facts i q m)) [
    | inl h ↦ absurd (ground (arith, bind_all-none q ps i is m h))
    | inr (n, h) ↦
        omega
          (arith, bind_all-lt ps is n p (later-fails p _ (sym (bind_all-some q ps i is m n h) ∙ e)))
  ]

  pub failed_position-IsPruning : (ps : List Predicate) → IsPruning (failed_position facts ps)
  unfolding failed_position
  failed_position-IsPruning ps = record {
    in_range = λ is p e. elim (either-some _ _ p (e)) [
      | inl h ↦ first_mismatch-lt ps is p h
      | inr h ↦ bind_all-lt ps is _ p h
    ];
    fails_alike = λ is js p e a. elim (either-some _ _ p (e)) [
      | inl h ↦ (
        p,
        ap (λ o. either o (bind_all facts ps js (new_matched_variables ps [])))
            (first_mismatch-Agree ps is js p h a),
      )
      | inr h ↦
          let (q, fails) = either-fails (first_mismatch facts ps js) p in
          (q, ap (either (first_mismatch facts ps js)) (bind_all-Agree ps is js _ p h a) ∙ fails)
    ];
  }

  -- What a body matches, with the skipping of combinations, is what is yielded for all combinations
  -- of facts that do not fail, in lexicographic order, and each once.
  pub matches-keep :
      (digest : Bytes → ℕ) (ps : List Predicate)
      → matches facts digest ps
        ≡ yielded_all facts digest ps
            (keep (failed_position facts ps) (tuples (length facts) (length ps)))
  unfolding matches
  matches-keep digest ps = ap (yielded_all facts digest ps) (
      combinations-keep (length facts) (length ps) (failed_position facts ps)
        (failed_position-IsPruning ps))
