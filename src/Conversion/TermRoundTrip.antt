-- ===== src/Conversion/TermRoundTrip.antt =====
-- converters_v2.go: terms, predicates and expressions that are written and read back.
use biscuit_go.Prelude.{
  ℕ, ◌==◌, Bool, true, false, not, ◌&&◌, ◌||◌, some, List, [], ◌∷◌, ◌≡◌, refl, ap, every, All, sort,
  Bytes, Slice, elements, map, ok, map_run, arith,
}
use biscuit_go.HashSet.{HashSet, insert, insert_all, new_hash_set, union, empty, clone}
use biscuit_go.HashSet.Scattered.{scattered, to_slice-new_hash_set}
use biscuit_go.Term.{
  Term, variable, integer, string, date, bytes, bool, set, Terms, list_of, terms_of, term_type,
  compare_terms,
}
use biscuit_go.Fact.{Predicate}
use biscuit_go.Expression.{Op, value, unary, binary, UnaryOpFunc}
use biscuit_go.Expression.Binary.{term_element, set_of}
use biscuit_go.Conversion.{unary_to_proto, unary_from_proto, binary_to_proto}
use biscuit_go.Conversion.RoundTrip.{binary_from_proto_iff}
use biscuit_go.Conversion.Schema.{
  TermV2, term_variable, term_integer, term_string, term_date, term_bytes, term_bool, term_set,
  set_elements, set_of_elements, op_value, op_unary, op_binary,
}
use biscuit_go.Conversion.Terms.{
  flat_to_proto, element_to_proto, elements_to_proto, term_to_proto, content_kind, flat_from_proto,
  element_from_proto, elements_from_proto, union_each, term_from_proto, predicate_to_proto,
  predicate_from_proto, op_to_proto, op_from_proto, expression_to_proto, expression_from_proto,
}
use biscuit_go.Conversion.Written.{Written, map_run-Written}

-- The elements of a set as they are written.
abbrev pub in_order : Terms → List Term
in_order ts = sort compare_terms (list_of ts)

-- All elements are of one type, neither that of a variable nor that of a set.
unfoldable pub uniform : List Term → Bool
uniform [] = true
uniform (t ∷ ts) =
    not ((term_type t == 0) || (term_type t == 6))
    && every (λ u. term_type u == term_type t) (t ∷ ts)

-- The term with the elements of a set in order, as it is read back.
unfoldable pub sorted_term : Term → Term
sorted_term (set ts) = set (terms_of (in_order ts))
sorted_term t = t

unfoldable pub sorted_predicate : Predicate → Predicate
unfolding sorted_term
sorted_predicate p = record { name = p.name; terms = some (map sorted_term (elements p.terms)) }

unfoldable pub sorted_op : Op → Op
unfolding sorted_term
sorted_op (value t) = value (sorted_term t)
sorted_op (unary f) = unary f
sorted_op (binary f) = binary f

unfoldable pub sorted_expression : Slice Op → Slice Op
unfolding sorted_op
sorted_expression e = some (map sorted_op (elements e))

element_written :
    (k : ℕ) (t : Term)
    → (k == 6) ≡ false
    → (term_type t == k) ≡ true
    → (p : TermV2) × (element_to_proto k t ≡ ok p)
      × (content_kind p ≡ k)
      × (element_from_proto k p ≡ ok t)
unfolding element_to_proto element_from_proto flat_to_proto flat_from_proto content_kind term_type
element_written k (variable v) n h = (term_variable v, ground arith, ground arith, ground arith)
element_written k (integer i) n h = (term_integer i, ground arith, ground arith, ground arith)
element_written k (string s) n h = (term_string s, ground arith, ground arith, ground arith)
element_written k (date d) n h = (term_date d, ground arith, ground arith, ground arith)
element_written k (bytes b) n h = (term_bytes b, ground arith, ground arith, ground arith)
element_written k (bool b) n h = (term_bool b, ground arith, ground arith, ground arith)
element_written k (set ts) n h = absurd (ground arith)

elements_written :
    (k : ℕ) (ts : List Term)
    → (k == 6) ≡ false
    → every (λ u. term_type u == k) ts ≡ true
    → (ps : List TermV2) × (map_run (element_to_proto k) ts ≡ ok ps)
      × (map_run (element_from_proto k) ps ≡ ok ts)
unfolding map_run
elements_written k [] n h = ([], refl, refl)
elements_written k (t ∷ ts) n h =
    let (p, to, kind, from) = element_written k t n (ground arith) in
    let (ps, tos, froms) = elements_written k ts n (ground arith) in
    (p ∷ ps, rw (to, tos) refl, rw (from, froms) refl)

set_elements-of : (ps : List TermV2) → set_elements (set_of_elements ps) ≡ ps
set_elements-of [] = refl
set_elements-of (p ∷ ps) = ap (λ l. p ∷ l) (set_elements-of ps)

first_to_proto :
    (t : Term) (ts : List Term) (p : TermV2) (ps : List TermV2)
    → (term_type t == 0 || term_type t == 6) ≡ false
    → element_to_proto (term_type t) t ≡ ok p
    → map_run (element_to_proto (term_type t)) ts ≡ ok ps
    → elements_to_proto (t ∷ ts) ≡ ok (p ∷ ps)
unfolding elements_to_proto map_run
first_to_proto t ts p ps n to tos = rw (n, to, tos) refl

first_from_kind :
    (t : Term) (ts : List Term) (p : TermV2) (ps : List TermV2)
    → (content_kind p == 0 || content_kind p == 6) ≡ false
    → element_from_proto (content_kind p) p ≡ ok t
    → map_run (element_from_proto (content_kind p)) ps ≡ ok ts
    → elements_from_proto (p ∷ ps) ≡ ok (t ∷ ts)
unfolding elements_from_proto map_run
first_from_kind t ts p ps n from froms = rw (n, from, froms) refl

first_from_proto :
    (t : Term) (ts : List Term) (p : TermV2) (ps : List TermV2) (k : ℕ)
    → (k == 0 || k == 6) ≡ false
    → content_kind p ≡ k
    → element_from_proto k p ≡ ok t
    → map_run (element_from_proto k) ps ≡ ok ts
    → elements_from_proto (p ∷ ps) ≡ ok (t ∷ ts)
first_from_proto t ts p ps k n kind from froms =
    first_from_kind t ts p ps (rw kind n) (rw kind from) (rw kind froms)

list_written :
    (ts : List Term)
    → uniform ts ≡ true
    → (ps : List TermV2) × (elements_to_proto ts ≡ ok ps) × (elements_from_proto ps ≡ ok ts)
unfolding uniform elements_to_proto elements_from_proto
list_written [] h = ([], refl, refl)
list_written (t ∷ ts) h =
    let k = term_type t in
    let neither : (k == 0 || k == 6) ≡ false = ground arith in
    let set_free : (k == 6) ≡ false = ground arith in
    let alike : every (λ u. term_type u == k) ts ≡ true = ground arith in
    let (p, to, kind, from) = element_written k t set_free (ground arith) in
    let (ps, tos, froms) = elements_written k ts set_free alike in
    (
      p ∷ ps,
      first_to_proto t ts p ps neither to tos,
      first_from_proto t ts p ps k neither kind from froms,
    )

module _ (digest : Bytes → ℕ) where
  union_each-insert_all :
      (ts : List Term) (s : HashSet Term)
      → union_each digest ts s ≡ insert_all ⦃e = term_element digest⦄ ts s
  unfolding union_each union clone insert_all scattered
  union_each-insert_all [] s = refl
  union_each-insert_all (t ∷ ts) s =
      rw (to_slice-new_hash_set ⦃e = term_element digest⦄ (t ∷ []) refl)
        (union_each-insert_all ts (insert ⦃e = term_element digest⦄ t s).0)

  -- The elements of a set are of one type, neither variables nor sets, and no two hash alike.
  unfoldable pub IsWritableTerm : Term → Type 0
  unfolding uniform scattered
  IsWritableTerm (set ts) =
      (uniform (in_order ts) ≡ true) × (scattered ⦃e = term_element digest⦄ (in_order ts) ≡ true)
  IsWritableTerm _ = Unit

  term-Written :
      (t : Term) → IsWritableTerm t → Written term_to_proto (term_from_proto digest) sorted_term t
  unfolding term_to_proto term_from_proto sorted_term IsWritableTerm flat_to_proto flat_from_proto
      set_of
  term-Written (variable v) h = (term_variable v, refl, refl)
  term-Written (integer i) h = (term_integer i, refl, refl)
  term-Written (string s) h = (term_string s, refl, refl)
  term-Written (date d) h = (term_date d, refl, refl)
  term-Written (bytes b) h = (term_bytes b, refl, refl)
  term-Written (bool b) h = (term_bool b, refl, refl)
  term-Written (set ts) (u, s) =
      let (ps, to, from) = list_written (in_order ts) u in
      (
        term_set (set_of_elements ps),
        rw to refl,
        rw (set_elements-of ps, from, union_each-insert_all (in_order ts) empty)
            (unfold new_hash_set in
              ap (λ l. ok (set (terms_of l)))
                (to_slice-new_hash_set ⦃e = term_element digest⦄ (in_order ts) s)),
      )

  abbrev pub IsWritablePredicate : Predicate → Type 0
  IsWritablePredicate p = All IsWritableTerm (elements p.terms)

  pub predicate-Written :
      (p : Predicate)
      → IsWritablePredicate p
      → Written predicate_to_proto (predicate_from_proto digest) sorted_predicate p
  unfolding predicate_to_proto predicate_from_proto sorted_predicate
  predicate-Written p h =
      let (ts, to, from) =
        map_run-Written term_to_proto (term_from_proto digest) sorted_term IsWritableTerm
          term-Written (elements p.terms) h in
      (record { name = p.name; terms = ts }, rw to refl, rw from refl)

  abbrev pub IsWritableOp : Op → Type 0
  IsWritableOp (value t) = IsWritableTerm t
  IsWritableOp (unary f) = Unit
  IsWritableOp (binary f) = Unit

  unary_from-to : (f : UnaryOpFunc) → unary_from_proto (unary_to_proto f) ≡ ok f
  unfolding unary_from_proto unary_to_proto
  unary_from-to f = ground arith

  op-Written : (o : Op) → IsWritableOp o → Written op_to_proto (op_from_proto digest) sorted_op o
  unfolding op_to_proto op_from_proto sorted_op
  op-Written (value t) h =
      let (p, to, from) = term-Written t h in (op_value p, rw to refl, rw from refl)
  op-Written (unary f) h = (op_unary (unary_to_proto f), refl, rw (unary_from-to f) refl)
  op-Written (binary f) h = (
    op_binary (binary_to_proto f),
    refl,
    rw ((binary_from_proto_iff (binary_to_proto f) f).1 refl) refl,
  )

  pub expression-Written :
      (e : Slice Op)
      → All IsWritableOp (elements e)
      → Written expression_to_proto (expression_from_proto digest) sorted_expression e
  unfolding expression_to_proto expression_from_proto sorted_expression
  expression-Written e h =
      let (ps, to, from) =
        map_run-Written op_to_proto (op_from_proto digest) sorted_op IsWritableOp op-Written
          (elements e) h in
      (ps, to, rw from refl)
