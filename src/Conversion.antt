-- ===== src/Conversion.antt =====
-- converters_v2.go: the operations, the kinds of checks and the scopes, to and from their protobuf form.
-- The enumerations have the values of the schema, and the types of the schema have what is used of them.
pub mod Schema
pub mod Terms
pub mod Rules
pub mod Blocks
pub mod RoundTrip
pub mod Written
pub mod TermRoundTrip
pub mod BlockRoundTrip
use biscuit_go.Prelude.{Option, none, some, Run, ok, err, Error, ℤ, pos, to_uint64, wrap_int64}
use biscuit_go.Expression.{
  UnaryOpFunc, negate, parens, length, BinaryOpFunc, less_than, less_or_equal, greater_than,
  greater_or_equal, equal, contains, prefix, suffix, regex, add, sub, mul, div, and, or,
  intersection, union,
}
use biscuit_go.Origin.{Scope, ScopeType, authority, previous, public_key}
use biscuit_go.Evaluator.{CheckKind, check_one, check_all, check_reject}

-- `pb.OpUnary_Kind` and `pb.OpBinary_Kind`.
pub data OpUnaryKind : Type 0 where
  unary_kind_negate unary_kind_parens unary_kind_length unary_kind_type_of : OpUnaryKind
  unary_kind_ffi : OpUnaryKind

pub data OpBinaryKind : Type 0 where
  binary_kind_less_than binary_kind_greater_than binary_kind_less_or_equal : OpBinaryKind
  binary_kind_greater_or_equal binary_kind_equal binary_kind_contains binary_kind_prefix :
      OpBinaryKind
  binary_kind_suffix binary_kind_regex binary_kind_add binary_kind_sub binary_kind_mul :
      OpBinaryKind
  binary_kind_div binary_kind_and binary_kind_or binary_kind_intersection : OpBinaryKind
  binary_kind_union binary_kind_bitwise_and binary_kind_bitwise_or : OpBinaryKind
  binary_kind_bitwise_xor binary_kind_not_equal binary_kind_heterogeneous_equal : OpBinaryKind
  binary_kind_heterogeneous_not_equal binary_kind_lazy_and binary_kind_lazy_or : OpBinaryKind
  binary_kind_all binary_kind_any binary_kind_get binary_kind_ffi : OpBinaryKind

-- `pb.CheckV2_Kind`.
pub data CheckV2Kind : Type 0 where
  check_kind_one check_kind_all check_kind_reject : CheckV2Kind

unfoldable pub unary_to_proto : UnaryOpFunc → OpUnaryKind
unary_to_proto negate = unary_kind_negate
unary_to_proto parens = unary_kind_parens
unary_to_proto length = unary_kind_length

unfoldable pub unary_from_proto : OpUnaryKind → Run UnaryOpFunc
unary_from_proto unary_kind_negate = ok negate
unary_from_proto unary_kind_parens = ok parens
unary_from_proto unary_kind_length = ok length
unary_from_proto _ = err Error.unsupported_kind

unfoldable pub binary_to_proto : BinaryOpFunc → OpBinaryKind
binary_to_proto less_than = binary_kind_less_than
binary_to_proto greater_than = binary_kind_greater_than
binary_to_proto less_or_equal = binary_kind_less_or_equal
binary_to_proto greater_or_equal = binary_kind_greater_or_equal
binary_to_proto equal = binary_kind_equal
binary_to_proto contains = binary_kind_contains
binary_to_proto prefix = binary_kind_prefix
binary_to_proto suffix = binary_kind_suffix
binary_to_proto regex = binary_kind_regex
binary_to_proto add = binary_kind_add
binary_to_proto sub = binary_kind_sub
binary_to_proto mul = binary_kind_mul
binary_to_proto div = binary_kind_div
binary_to_proto and = binary_kind_and
binary_to_proto or = binary_kind_or
binary_to_proto intersection = binary_kind_intersection
binary_to_proto union = binary_kind_union

unfoldable pub binary_from_proto : OpBinaryKind → Run BinaryOpFunc
binary_from_proto binary_kind_less_than = ok less_than
binary_from_proto binary_kind_greater_than = ok greater_than
binary_from_proto binary_kind_less_or_equal = ok less_or_equal
binary_from_proto binary_kind_greater_or_equal = ok greater_or_equal
binary_from_proto binary_kind_equal = ok equal
binary_from_proto binary_kind_contains = ok contains
binary_from_proto binary_kind_prefix = ok prefix
binary_from_proto binary_kind_suffix = ok suffix
binary_from_proto binary_kind_regex = ok regex
binary_from_proto binary_kind_add = ok add
binary_from_proto binary_kind_sub = ok sub
binary_from_proto binary_kind_mul = ok mul
binary_from_proto binary_kind_div = ok div
binary_from_proto binary_kind_and = ok and
binary_from_proto binary_kind_or = ok or
binary_from_proto binary_kind_intersection = ok intersection
binary_from_proto binary_kind_union = ok union
binary_from_proto _ = err Error.unsupported_kind

-- A check without a kind is a `check if`, and is written as one.
unfoldable pub check_kind_to_proto : CheckKind → Option CheckV2Kind
check_kind_to_proto check_one = none
check_kind_to_proto check_all = some check_kind_all
check_kind_to_proto check_reject = some check_kind_reject

unfoldable pub check_kind_from_proto : Option CheckV2Kind → CheckKind
check_kind_from_proto none = check_one
check_kind_from_proto (some check_kind_one) = check_one
check_kind_from_proto (some check_kind_all) = check_all
check_kind_from_proto (some check_kind_reject) = check_reject

-- `pb.Scope_ScopeType`.
pub data ProtoScopeType : Type 0 where
  scope_authority scope_previous : ProtoScopeType

-- `pb.Scope`: its content is a type of scope, an `int64` for a key, or neither.
pub data ProtoScope : Type 0 where
  scope_type_content : ProtoScopeType → ProtoScope
  public_key_content : ℤ → ProtoScope
  no_content : ProtoScope

unfoldable pub scope_to_proto : Scope → ProtoScope
scope_to_proto s = elim (s.scope_type) [
  | authority ↦ scope_type_content scope_authority
  | previous ↦ scope_type_content scope_previous
  | public_key ↦ public_key_content (wrap_int64 (pos s.public_key_table_index))
]

unfoldable pub scope_from_proto : ProtoScope → Run Scope
scope_from_proto (scope_type_content scope_previous) =
    ok (record { scope_type = previous; public_key_table_index = 0 })
scope_from_proto (scope_type_content scope_authority) =
    ok (record { scope_type = authority; public_key_table_index = 0 })
scope_from_proto (public_key_content i) =
    ok (record { scope_type = public_key; public_key_table_index = to_uint64 i })
scope_from_proto no_content = err Error.unsupported_kind
