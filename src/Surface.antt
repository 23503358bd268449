-- ===== src/Surface.antt =====
-- types.go: the types of the interface, which hold strings and public keys where those of the engine
-- hold symbols and indexes.
pub mod Compare
pub mod Each
pub mod Convert
pub mod Read
pub mod TermKept
pub mod Panics
pub mod OpKept
pub mod RoundTrip
use biscuit_go.Prelude.{ℕ, Bool, Option, List, [], ◌∷◌, Bytes, ℤ, Slice}

-- A date is a `time.Time`: seconds since 1970, and the nanoseconds within the second. A set term is
-- the list of its elements in the order in which its hash set yields them.
mutual
  pub data Term : Type 0 where
    variable : Bytes → Term
    integer : ℤ → Term
    string : Bytes → Term
    date : ℤ → ℕ → Term
    bytes : Bytes → Term
    bool : Bool → Term
    set : Terms → Term

  pub data Terms : Type 0 where
    nil : Terms
    cons : Term → Terms → Terms

abbrev pub list_of : Terms → List Term
list_of nil = []
list_of (cons t ts) = t ∷ list_of ts

abbrev pub terms_of : List Term → Terms
terms_of [] = nil
terms_of (t ∷ ts) = cons t (terms_of ts)

pub record Predicate : Type 0 where
  pub name : Bytes
  pub ids : Terms

pub data UnaryOp : Type 0 where
  unary_undefined unary_negate unary_parens unary_length : UnaryOp

pub data BinaryOp : Type 0 where
  binary_undefined binary_less_than binary_less_or_equal binary_greater_than : BinaryOp
  binary_greater_or_equal binary_equal binary_contains binary_prefix binary_suffix : BinaryOp
  binary_regex binary_add binary_sub binary_mul binary_div binary_and binary_or : BinaryOp
  binary_intersection binary_union : BinaryOp

pub data Op : Type 0 where
  value : Term → Op
  unary : UnaryOp → Op
  binary : BinaryOp → Op

abbrev pub Expression : Type 0
Expression = Slice Op

pub record PublicKey : Type 0 where
  pub algorithm : ℕ
  pub key_bytes : Bytes

pub data ScopeType : Type 0 where
  authority_scope_type previous_scope_type public_key_scope_type : ScopeType

-- `PublicKey` is a pointer, `none` for `nil`.
pub record Scope : Type 0 where
  pub scope_type : ScopeType
  pub key : Option PublicKey

pub record Rule : Type 0 where
  pub head : Predicate
  pub body : Slice Predicate
  pub expressions : Slice Expression
  pub scopes : Slice Scope

pub data CheckKind : Type 0 where
  check_one check_all check_reject : CheckKind

pub record Check : Type 0 where
  pub queries : Slice Rule
  pub kind : CheckKind
