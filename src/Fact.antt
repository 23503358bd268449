-- ===== src/Fact.antt =====
-- datalog/datalog.go: predicates and facts, and the sets of facts by the origin they come from.
use biscuit_go.Prelude.{
  ℕ, ◌+◌, ◌==◌, Bool, true, false, ◌||◌, not, List, [], ◌∷◌, ◌++◌, if◌then◌else◌, length, Bytes,
  Ordering, compare, then_compare, is_eq, Slice, elements, compared_slices, format_uint, bytes_eq,
  ok, err, panic,
}
use biscuit_go.HashSet.{Element, HashSet, new_hash_set, insert as insert_element, union}
use biscuit_go.Term.{Term, variable, compare_terms, equal, hashed}
use biscuit_go.Origin.{Origin, encode_to_string, decode_from_string, is_super_set}

pub record Predicate : Type 0 where
  pub name : ℕ
  pub terms : Slice Term

abbrev pub Fact : Type 0
Fact = Predicate

unfoldable pub compare_predicates : Predicate → Predicate → Ordering
compare_predicates p q =
    then_compare (compare p.name q.name) (compared_slices compare_terms p.terms q.terms)

unfoldable pub equal_predicates : Predicate → Predicate → Bool
unfolding compare_predicates
equal_predicates p q = is_eq (compare_predicates p q)

unfoldable pub hashed_terms : List Term → Bytes
hashed_terms [] = []
hashed_terms (t ∷ ts) = hashed t ++ hashed_terms ts

-- What `Hash` writes: `#` and the number of the name, then the terms.
unfoldable pub hashed_predicate : Predicate → Bytes
unfolding hashed_terms
hashed_predicate p = (35 ∷ format_uint 10 p.name) ++ hashed_terms (elements p.terms)

abbrev pub fact_element : (Bytes → ℕ) → Element Fact
fact_element digest = record { hash = λ f. digest (hashed_predicate f); equal = equal_predicates }

abbrev pub is_variable : Term → Bool
is_variable (variable v) = true
is_variable _ = false

-- The loop of `Match` over two slices of one length.
unfoldable pub match_terms : List Term → List Term → Bool
match_terms [] us = true
match_terms (t ∷ ts) [] = true
match_terms (t ∷ ts) (u ∷ us) =
    let rest = match_terms ts us in
    if is_variable t || is_variable u then rest else if equal t u then rest else false

unfoldable pub predicate_match : Predicate → Predicate → Bool
unfolding match_terms
predicate_match p q =
    if not (p.name == q.name) || not (length (elements p.terms) == length (elements q.terms))
    then false
    else match_terms (elements p.terms) (elements q.terms)

-- `FactSet`: the entries of the map, in an order in which the map yields them. The keys are encoded
-- origins.
abbrev pub FactSet : Type 0
FactSet = List (Bytes × HashSet Fact)

unfoldable pub count : FactSet → ℕ
count [] = 0
count ((key, facts) ∷ fs) = facts.size + count fs

module _ (digest : Bytes → ℕ) where
  unfoldable pub insert_at_key : Bytes → Fact → FactSet → FactSet
  insert_at_key key f [] = (key, new_hash_set ⦃e = fact_element digest⦄ (f ∷ [])) ∷ []
  insert_at_key key f ((k, facts) ∷ fs) =
      if bytes_eq k key
      then (k, (insert_element ⦃e = fact_element digest⦄ f facts).0) ∷ fs
      else (k, facts) ∷ insert_at_key key f fs

  unfoldable pub insert : Origin → Fact → FactSet → FactSet
  unfolding insert_at_key
  insert o f fs = insert_at_key (encode_to_string o) f fs

  unfoldable pub insert_multi_at_key : Bytes → List Fact → FactSet → FactSet
  insert_multi_at_key key new [] = (key, new_hash_set ⦃e = fact_element digest⦄ new) ∷ []
  insert_multi_at_key key new ((k, facts) ∷ fs) =
      if bytes_eq k key
      then (k, union ⦃e = fact_element digest⦄ facts (new_hash_set ⦃e = fact_element digest⦄ new))
        ∷ fs
      else (k, facts) ∷ insert_multi_at_key key new fs

  unfoldable pub insert_multi : Origin → List Fact → FactSet → FactSet
  unfolding insert_multi_at_key
  insert_multi o new fs = insert_multi_at_key (encode_to_string o) new fs

  -- `Iter`: the entries whose key can be decoded.
  unfoldable pub entries : FactSet → List (Origin × HashSet Fact)
  entries [] = []
  entries ((key, facts) ∷ fs) =
      let rest = entries fs in
      elim (decode_from_string digest key) [
        | ok o ↦ (o, facts) ∷ rest
        | err e ↦ rest
        | panic ↦ rest
      ]

  unfoldable pub filter_trusted :
      Origin → List (Origin × HashSet Fact) → List (Origin × HashSet Fact)
  filter_trusted trusted [] = []
  filter_trusted trusted ((o, facts) ∷ fs) =
      let rest = filter_trusted trusted fs in
      if is_super_set digest trusted o then (o, facts) ∷ rest else rest

  unfoldable pub filter_by_origin : Origin → FactSet → List (Origin × HashSet Fact)
  unfolding entries filter_trusted
  filter_by_origin trusted fs = filter_trusted trusted (entries fs)

  -- `result[key] = facts`.
  unfoldable pub put : Bytes → HashSet Fact → FactSet → FactSet
  put key facts [] = (key, facts) ∷ []
  put key facts ((k, old) ∷ fs) =
      if bytes_eq k key then (k, facts) ∷ fs else (k, old) ∷ put key facts fs

  unfoldable pub put_all : List (Origin × HashSet Fact) → FactSet → FactSet
  unfolding put
  put_all [] result = result
  put_all ((o, facts) ∷ es) result = put_all es (put (encode_to_string o) facts result)

  unfoldable pub with_origin : Origin → FactSet → FactSet
  unfolding filter_by_origin put_all
  with_origin trusted fs = put_all (filter_by_origin trusted fs) []
