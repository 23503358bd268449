-- ===== src/Matching.antt =====
-- datalog/evaluator.go, `matchedVariables` and `combineIt`: the combinations of facts that match the
-- predicates of a body, with what they bind the variables to.
pub mod Pruning
pub mod Sound
pub mod Facts
pub mod Origins
pub mod Yielded
use biscuit_go.Prelude.{
  ℕ, suc, ◌==◌, ◌≡◌, Bool, true, false, Option, none, some, List, [], ◌∷◌, ◌++◌, map, if◌then◌else◌,
  length, get_elem?, Bytes, elements,
}
use biscuit_go.HashSet.{HashSet, to_slice, clone}
use biscuit_go.Term.{Term, variable, equal}
use biscuit_go.Origin.{Origin, insert_origin}
use biscuit_go.Fact.{Predicate, Fact, FactSet, entries, predicate_match}
use biscuit_go.Expression.Machine.{Values, lookup_value}
use biscuit_go.Combinations.{combinations}

pub record FactWithOrigin : Type 0 where
  pub fact : Fact
  pub origin : Origin

unfoldable pub assign : ℕ → Option Term → Values → Values
assign v t [] = (v, t) ∷ []
assign v t ((w, u) ∷ m) = if w == v then (w, t) ∷ m else (w, u) ∷ assign v t m

-- `matchedVariables.insert`. An absent entry and one without a term are both `nil`.
unfoldable pub insert_variable : ℕ → Term → Values → Option Values
unfolding assign lookup_value
insert_variable v t m = elim (lookup_value v m) [
  | none ↦ some (assign v (some t) m)
  | some none ↦ some (assign v (some t) m)
  | some (some u) ↦ if equal t u then some m else none
]

-- `complete`: nothing if a variable has no term.
unfoldable pub has_nil : Values → Bool
has_nil [] = false
has_nil ((v, none) ∷ m) = true
has_nil ((v, some t) ∷ m) = has_nil m

unfoldable pub complete : Values → Option Values
unfolding has_nil
complete m = if has_nil m then none else some m

unfoldable pub add_variables : List Term → Values → Values
unfolding assign
add_variables [] m = m
add_variables (variable v ∷ ts) m = add_variables ts (assign v none m)
add_variables (_ ∷ ts) m = add_variables ts m

-- `newMatchedVariables`, from the map so far.
unfoldable pub new_matched_variables : List Predicate → Values → Values
unfolding add_variables
new_matched_variables [] m = m
new_matched_variables (p ∷ ps) m = new_matched_variables ps (add_variables (elements p.terms) m)

-- The loop over the terms of one predicate. `Match` has seen that there are as many terms in the fact.
unfoldable pub bind_terms : List Term → List Term → Values → Option Values
unfolding insert_variable
bind_terms [] us m = some m
bind_terms (t ∷ ts) [] m = some m
bind_terms (variable v ∷ ts) (u ∷ us) m = elim (insert_variable v u m) [
  | none ↦ none
  | some n ↦ bind_terms ts us n
]
bind_terms (t ∷ ts) (u ∷ us) m = bind_terms ts us m

-- What the loop over the predicates comes to: the position that fails, or the map of variables.
pub data Bound : Type 0 where
  fails_at : ℕ → Bound
  bound : Values → Bound

abbrev pub later : Bound → Bound
later (fails_at p) = fails_at (suc p)
later (bound m) = bound m

-- The position that fails: in the first loop, or in the second.
abbrev pub either : Option ℕ → Bound → Option ℕ
either (some p) b = some p
either none (fails_at p) = some p
either none (bound m) = none

module _ (facts : List FactWithOrigin) where
  -- Whether the predicate matches the fact at the index. No index is out of range, where the program
  -- would panic.
  unfoldable pub matches_at : ℕ → Predicate → Bool
  matches_at i p = elim (get_elem? facts i) [ none ↦ false | some f ↦ predicate_match (f.fact) p ]

  -- The first loop of `matches`: the first position whose fact does not match its predicate.
  unfoldable pub first_mismatch : List Predicate → List ℕ → Option ℕ
  unfolding matches_at
  first_mismatch (p ∷ ps) (i ∷ is) =
      let rest = first_mismatch ps is in
      if matches_at i p then elim rest [ none ↦ none | some q ↦ some (suc q) ] else some 0
  first_mismatch _ _ = none

  unfoldable pub bind_at : ℕ → Predicate → Values → Option Values
  unfolding bind_terms
  bind_at i p m = elim (get_elem? facts i) [
    | none ↦ none
    | some f ↦ bind_terms (elements p.terms) (elements (f.fact.terms)) m
  ]

  -- The second loop of `matches`.
  unfoldable pub bind_all : List Predicate → List ℕ → Values → Bound
  unfolding bind_at
  bind_all (p ∷ ps) (i ∷ is) m = elim (bind_at i p m) [
    | none ↦ fails_at 0
    | some n ↦ later (bind_all ps is n)
  ]
  bind_all _ _ m = bound m

  -- The position for `failedAtIndex`, if the combination fails.
  unfoldable pub failed_position : List Predicate → List ℕ → Option ℕ
  unfolding first_mismatch bind_all new_matched_variables
  failed_position ps is =
      either (first_mismatch ps is) (bind_all ps is (new_matched_variables ps []))

  module _ (digest : Bytes → ℕ) where
    -- The union of the origins of the facts at the indexes.
    unfoldable pub join_origins : List ℕ → Origin → Origin
    join_origins [] o = o
    join_origins (i ∷ is) o = elim (get_elem? facts i) [
      | none ↦ join_origins is o
      | some f ↦ join_origins is (insert_origin digest (f.origin) o)
    ]

    unfoldable pub origin_of : List ℕ → Option Origin
    unfolding join_origins
    origin_of [] = none
    origin_of (i ∷ is) = elim (get_elem? facts i) [
      | none ↦ none
      | some f ↦ some (join_origins is (clone (f.origin)))
    ]

    -- What is yielded for a combination that does not fail.
    unfoldable pub yielded : List Predicate → List ℕ → Option (Option Origin × Values)
    unfolding bind_all new_matched_variables complete origin_of
    yielded ps is = elim (bind_all ps is (new_matched_variables ps [])) [
      | fails_at p ↦ none
      | bound m ↦ elim (complete m) [ none ↦ none | some n ↦ some (origin_of is, n) ]
    ]

    unfoldable pub yielded_all : List Predicate → List (List ℕ) → List (Option Origin × Values)
    unfolding yielded
    yielded_all ps [] = []
    yielded_all ps (is ∷ iss) =
        let rest = yielded_all ps iss in elim (yielded ps is) [ none ↦ rest | some m ↦ m ∷ rest ]

    -- `combineIt.matches`.
    unfoldable pub matches : List Predicate → List (Option Origin × Values)
    unfolding yielded_all failed_position
    matches ps = yielded_all ps (combinations (length facts) (failed_position ps) (length ps))

abbrev pub pair_facts : Origin → List Fact → List FactWithOrigin
pair_facts o [] = []
pair_facts o (f ∷ fs) = record { fact = f; origin = o } ∷ pair_facts o fs

abbrev pub pair_entries : List (Origin × HashSet Fact) → List FactWithOrigin
pair_entries [] = []
pair_entries ((o, facts) ∷ es) = pair_facts o (to_slice facts) ++ pair_entries es

-- `getFactWithOrigins`.
unfoldable pub facts_with_origins : (Bytes → ℕ) → FactSet → List FactWithOrigin
facts_with_origins digest fs = pair_entries (entries digest fs)
