-- ===== src/Term.antt =====
-- datalog/datalog.go, the terms: their types, their order and what is hashed of them. A set term is
-- the list of its elements in the order in which its hash set yields them.
pub mod Order
pub mod Equality
use biscuit_go.Prelude.{
  ℕ, zero, suc, ◌+◌, ◌*◌, ◌^◌, Bool, true, false, List, [], ◌∷◌, ◌++◌, Bytes, ℤ, to_uint64,
  compare_ℤ, compare_bytes, little_endian, compare, Ordering, is_eq, then_compare, compared,
  if◌then◌else◌, leb,
}

mutual
  pub data Term : Type 0 where
    variable : ℕ → Term
    integer : ℤ → Term
    string : ℕ → Term
    date : ℕ → Term
    bytes : Bytes → Term
    bool : Bool → Term
    set : Terms → Term

  pub data Terms : Type 0 where
    nil : Terms
    cons : Term → Terms → Terms

abbrev pub list_of : Terms → List Term
list_of nil = []
list_of (cons t ts) = t ∷ list_of ts

abbrev pub terms_of : List Term → Terms
terms_of [] = nil
terms_of (t ∷ ts) = cons t (terms_of ts)

-- `TermType`, in the order of its constants.
unfoldable pub term_type : Term → ℕ
term_type (variable _) = 0
term_type (integer _) = 1
term_type (string _) = 2
term_type (date _) = 3
term_type (bytes _) = 4
term_type (bool _) = 5
term_type (set _) = 6

-- `set.CompareBool`.
unfoldable pub compare_bool : Bool → Bool → Ordering
compare_bool true true = Ordering.eq
compare_bool true false = Ordering.gt
compare_bool false true = Ordering.lt
compare_bool false false = Ordering.eq

-- Two terms of one type: the `Compare` methods behind their tests of the type. `cmp` compares the
-- elements of sets.
unfoldable pub compare_same : (Term → Term → Ordering) → Term → Term → Ordering
unfolding compare_bool
compare_same cmp (variable v) (variable w) = compare v w
compare_same cmp (integer i) (integer j) = compare_ℤ i j
compare_same cmp (string s) (string t) = compare s t
compare_same cmp (date d) (date e) = compare d e
compare_same cmp (bytes a) (bytes b) = compare_bytes a b
compare_same cmp (bool a) (bool b) = compare_bool a b
compare_same cmp (set a) (set b) = compared cmp (list_of a) (list_of b)
compare_same cmp _ _ = Ordering.eq

-- `Compare`, to a depth of nested sets.
unfoldable pub compare_at : ℕ → Term → Term → Ordering
unfolding term_type compare_same
compare_at zero a b = Ordering.eq
compare_at (suc n) a b =
    then_compare (compare (term_type a) (term_type b)) (compare_same (compare_at n) a b)

unfoldable mutual
  pub depth : Term → ℕ
  depth (variable _) = 0
  depth (integer _) = 0
  depth (string _) = 0
  depth (date _) = 0
  depth (bytes _) = 0
  depth (bool _) = 0
  depth (set ts) = suc (depths ts)

  pub depths : Terms → ℕ
  depths nil = 0
  depths (cons t ts) = if leb (depth t) (depths ts) then depths ts else depth t

-- `Compare`: the depth of the deeper term is enough.
unfoldable pub compare_terms : Term → Term → Ordering
unfolding compare_at depth
compare_terms a b = compare_at (suc (depth a + depth b)) a b

-- `Equal`.
unfoldable pub equal : Term → Term → Bool
unfolding compare_terms
equal a b = is_eq (compare_terms a b)

-- What `Hash` writes.
unfoldable mutual
  pub hashed : Term → Bytes
  hashed (variable v) = 0 ∷ little_endian 8 v
  hashed (integer i) = 1 ∷ little_endian 8 (to_uint64 i)
  hashed (string s) = 2 ∷ little_endian 8 s
  hashed (date d) = 3 ∷ little_endian 8 d
  hashed (bytes b) = 4 ∷ b
  hashed (bool true) = 5 ∷ 1 ∷ []
  hashed (bool false) = 5 ∷ 0 ∷ []
  hashed (set ts) = 6 ∷ hashed_all ts

  pub hashed_all : Terms → Bytes
  hashed_all nil = []
  hashed_all (cons t ts) = hashed t ++ hashed_all ts
