-- ===== src/Origin/Block.antt =====
-- datalog/datalog.go, `BlockID`: the order in which the authorizer's block comes first.
use biscuit_go.Prelude.{
  ℕ, ◌-◌, ◌^◌, ◌≡◌, ◌↔◌, ap, Bool, true, not, ◌&&◌, Bytes, little_endian, ◌==◌, if◌then◌else◌,
  arith, Ordering, compare, is_eq, IsOrder, order_refl, order_symm, order_trans,
}
use biscuit_go.HashSet.{Element}
use biscuit_go.HashSet.Laws.{IsLawful}

-- `math.MaxUint64`.
abbrev pub authorizer_block_id : ℕ
authorizer_block_id = 2 ^ 64 - 1

unfoldable pub is_authorizer : ℕ → Bool
is_authorizer i = i == authorizer_block_id

unfoldable pub compare_blocks : ℕ → ℕ → Ordering
unfolding is_authorizer
compare_blocks i j =
    if is_authorizer i && not (is_authorizer j)
    then Ordering.lt
    else if not (is_authorizer i) && is_authorizer j
    then Ordering.gt
    else compare i j

-- `Equal` and `Hash` of a block identifier.
abbrev pub block_element : (Bytes → ℕ) → Element ℕ
block_element digest = record {
  hash = λ i. digest (little_endian 8 i);
  equal = λ i j. is_eq (compare_blocks i j);
}

pub compare_blocks-IsOrder : IsOrder compare_blocks
unfolding compare_blocks
compare_blocks-IsOrder = record {
  opposite_lem = λ a b. ground arith;
  eq_left = λ a b c h. ground arith;
  lt_trans = λ a b c h k. ground arith;
}

-- Identifiers that compare equal are the same.
pub compare_blocks_iff : (i j : ℕ) → (is_eq (compare_blocks i j) ≡ true) ↔ (i ≡ j)
unfolding compare_blocks
compare_blocks_iff i j = ground arith

pub equal_blocks : (i j : ℕ) → is_eq (compare_blocks i j) ≡ i == j
unfolding compare_blocks
equal_blocks i j = ground arith

pub block_element-IsLawful : (digest : Bytes → ℕ) → IsLawful (block_element digest)
block_element-IsLawful digest = record {
  equal_refl = λ a. ground (arith, order_refl compare_blocks-IsOrder a);
  equal_symm = order_symm compare_blocks-IsOrder;
  equal_trans = order_trans compare_blocks-IsOrder;
  hash-equal = λ a b h. ap (λ k. digest (little_endian 8 k)) ((compare_blocks_iff a b).0 h);
}
