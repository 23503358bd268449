-- ===== src/Prelude.antt =====
-- The names that the other modules share: those of the libraries, passed on, and those of the
-- children, which know nothing of the program.
mod Tests
mod Lists
mod Order
mod Sorting
mod Outcome
mod Int
mod Strings
mod Digits
pub use Tests.*
pub use Lists.*
pub use Order.{
  is_eq, opposite, then_compare, IsOrder, compare-IsOrder, order_refl, order_symm, order_trans,
  eq_right, then-IsOrder, pullback-IsOrder, lists-IsOrder, Slice, elements, elements-slice_of,
  length-sort, compared-sort, compared-IsOrder, compared_congr,
}
unfoldable pub use Order.{
  compare_each, compare_lists, insert_sorted, sort, compared_slices, compared, slice_of,
}
pub use Outcome.{Error, Run, ok, err, panic, ◌>>=◌, ok->>=, ok-same, ok-pair}
unfoldable pub use Outcome.{map_run}
pub use Int.{
  ℤ, pos, negsuc, pos_part, neg_part, sub_ℕ, ◌≤ℤ◌, neg_ℕ, compare_ℤ, is_int64, IsInt64, to_uint64,
  +ℤ_parts, -ℤ_parts, +ℤ_comm, +ℤ_cancel, compare_ℤ-eq,
}
unfoldable pub use Int.{◌+ℤ◌, ◌-ℤ◌, ◌*ℤ◌, quot_ℤ, wrap_int64}
unfoldable pub use Strings.{
  compare_bytes, bytes_eq, has_prefix, has_suffix, contains_bytes, little_endian,
}
pub use Strings.{
  Bytes, codes, little_endian-injective, bytes_eq_refl, bytes_eq-eq, compare_bytes_refl,
  compare_bytes-eq, compare_bytes-opposite, has_prefix-append,
}
unfoldable pub use Digits.{digit, format_uint, parse_uint}
pub use Digits.{IsPlain, format_uint-IsPlain, format_uint-ne-nil, parse_uint-format_uint}
pub use Sorting.{compared-perm}
pub use Prim.Native.Nat.{
  ℕ, zero, suc, ◌+◌, ◌-◌, ◌*◌, ◌/◌, ◌%◌, ◌^◌, ◌≤◌, ◌<◌, compare, Ordering, min,
}
pub use mathlib.Core.Path.{◌≡◌, refl, sym, ap, ◌∙◌, subst}
pub use mathlib.Core.Logic.{◌≢◌, ◌↔◌, ◌⊎◌, inl, inr}
pub use mathlib.Core.Bool.{Bool, true, false, not, ◌&&◌, ◌||◌}
pub use mathlib.Core.Option.{Option, none, some}
pub use mathlib.Core.List.{List, [], ◌∷◌, ◌++◌, map}
pub use native.Mathlib.Omega.{arith}
