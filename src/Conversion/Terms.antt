-- ===== src/Conversion/Terms.antt =====
-- converters_v2.go: terms, predicates and expressions, to and from their messages.
use biscuit_go.Prelude.{
  ℕ, ◌==◌, ◌||◌, some, List, [], ◌∷◌, Bytes, Slice, elements, if◌then◌else◌, sort, Run, ok, err,
  Error, ◌>>=◌, map_run,
}
use biscuit_go.HashSet.{HashSet, empty, union, new_hash_set}
use biscuit_go.Term.{
  Term, variable, integer, string, date, bytes, bool, set, list_of, term_type, compare_terms,
}
use biscuit_go.Fact.{Predicate}
use biscuit_go.Expression.{Op, value, unary, binary}
use biscuit_go.Expression.Binary.{term_element, set_of}
use biscuit_go.Conversion.{unary_to_proto, unary_from_proto, binary_to_proto, binary_from_proto}
use biscuit_go.Conversion.Schema.{
  TermV2, term_variable, term_integer, term_string, term_date, term_bytes, term_bool, term_set,
  term_unsupported, set_elements, set_of_elements, PredicateV2, OpV2, op_value, op_unary, op_binary,
  op_unsupported,
}

-- The cases of `tokenIDToProtoIDV2` for a term that is no set. No set is an element of a set here.
unfoldable pub flat_to_proto : Term → Run TermV2
flat_to_proto (variable v) = ok (term_variable v)
flat_to_proto (integer i) = ok (term_integer i)
flat_to_proto (string s) = ok (term_string s)
flat_to_proto (date d) = ok (term_date d)
flat_to_proto (bytes b) = ok (term_bytes b)
flat_to_proto (bool b) = ok (term_bool b)
flat_to_proto (set ts) = err Error.invalid_set

unfoldable pub element_to_proto : ℕ → Term → Run TermV2
unfolding flat_to_proto term_type
element_to_proto expected t =
    if term_type t == expected then flat_to_proto t else err Error.invalid_set

-- The elements in order, of one type that is neither that of a variable nor that of a set.
unfoldable pub elements_to_proto : List Term → Run (List TermV2)
unfolding element_to_proto
elements_to_proto [] = ok []
elements_to_proto (first ∷ ts) =
    let expected = term_type first in
    if (expected == 0) || (expected == 6)
    then err Error.invalid_set
    else map_run (element_to_proto expected) (first ∷ ts)

-- `tokenIDToProtoIDV2`.
unfoldable pub term_to_proto : Term → Run TermV2
unfolding flat_to_proto elements_to_proto sort
term_to_proto (set ts) = do
  es ← elements_to_proto (sort compare_terms (list_of ts))
  ok (term_set (set_of_elements es))
term_to_proto t = flat_to_proto t

-- The number of the content's type.
unfoldable pub content_kind : TermV2 → ℕ
content_kind (term_variable _) = 0
content_kind (term_integer _) = 1
content_kind (term_string _) = 2
content_kind (term_date _) = 3
content_kind (term_bytes _) = 4
content_kind (term_bool _) = 5
content_kind (term_set _) = 6
content_kind term_unsupported = 7

-- The cases of `protoIDToTokenIDV2` for a content that is no set.
unfoldable pub flat_from_proto : TermV2 → Run Term
flat_from_proto (term_variable v) = ok (variable v)
flat_from_proto (term_integer i) = ok (integer i)
flat_from_proto (term_string s) = ok (string s)
flat_from_proto (term_date d) = ok (date d)
flat_from_proto (term_bytes b) = ok (bytes b)
flat_from_proto (term_bool b) = ok (bool b)
flat_from_proto (term_set s) = err Error.invalid_set
flat_from_proto term_unsupported = err Error.unsupported_content

unfoldable pub element_from_proto : ℕ → TermV2 → Run Term
unfolding flat_from_proto content_kind
element_from_proto expected t =
    if content_kind t == expected then flat_from_proto t else err Error.invalid_set

unfoldable pub elements_from_proto : List TermV2 → Run (List Term)
unfolding element_from_proto
elements_from_proto [] = ok []
elements_from_proto (first ∷ ts) =
    let expected = content_kind first in
    if (expected == 0) || (expected == 6)
    then err Error.invalid_set
    else map_run (element_from_proto expected) (first ∷ ts)

unfoldable pub predicate_to_proto : Predicate → Run PredicateV2
unfolding term_to_proto
predicate_to_proto p = do
  ts ← map_run term_to_proto (elements p.terms)
  ok (record { name = p.name; terms = ts })

unfoldable pub op_to_proto : Op → Run OpV2
unfolding term_to_proto unary_to_proto binary_to_proto
op_to_proto (value t) = do p ← term_to_proto t; ok (op_value p)
op_to_proto (unary f) = ok (op_unary (unary_to_proto f))
op_to_proto (binary f) = ok (op_binary (binary_to_proto f))

-- `tokenExpressionToProtoExpressionV2`.
unfoldable pub expression_to_proto : Slice Op → Run (List OpV2)
unfolding op_to_proto
expression_to_proto e = map_run op_to_proto (elements e)

module _ (digest : Bytes → ℕ) where
  -- `datalogSet = datalogSet.Union(datalog.NewSet(elt))`, for each element.
  unfoldable pub union_each : List Term → HashSet Term → HashSet Term
  union_each [] s = s
  union_each (t ∷ ts) s =
      union_each ts
        (union ⦃e = term_element digest⦄ s (new_hash_set ⦃e = term_element digest⦄ (t ∷ [])))

  -- `protoIDToTokenIDV2`.
  unfoldable pub term_from_proto : TermV2 → Run Term
  unfolding flat_from_proto elements_from_proto union_each set_of
  term_from_proto (term_set s) = do
    ts ← elements_from_proto (set_elements s)
    ok (set_of (union_each ts empty))
  term_from_proto t = flat_from_proto t

  -- `protoPredicateToTokenPredicateV2`, and the conversion of a fact.
  unfoldable pub predicate_from_proto : PredicateV2 → Run Predicate
  unfolding term_from_proto
  predicate_from_proto p = do
    ts ← map_run term_from_proto p.terms
    ok (record { name = p.name; terms = some ts })

  unfoldable pub op_from_proto : OpV2 → Run Op
  unfolding term_from_proto unary_from_proto binary_from_proto
  op_from_proto (op_value p) = do t ← term_from_proto p; ok (value t)
  op_from_proto (op_unary k) = do f ← unary_from_proto k; ok (unary f)
  op_from_proto (op_binary k) = do f ← binary_from_proto k; ok (binary f)
  op_from_proto op_unsupported = err Error.unsupported_content

  unfoldable pub expression_from_proto : List OpV2 → Run (Slice Op)
  unfolding op_from_proto
  expression_from_proto ps = do os ← map_run op_from_proto ps; ok (some os)
