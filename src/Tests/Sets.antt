-- ===== src/Tests/Sets.antt =====
-- The theorems of the hash set on sets of block identifiers, which all have one hash here.
use biscuit_go.Prelude.{ℕ, ◌≡◌, ◌&&◌, not, [], ◌∷◌, any}
use biscuit_go.HashSet.{Element, HashSet, contains, insert, remove, new_hash_set, to_slice}
use biscuit_go.HashSet.Valid.{IsValid, contains-to_slice, insert-IsValid}
use biscuit_go.HashSet.Removal.{contains-remove}
use biscuit_go.HashSet.Algebra.{new_hash_set-IsValid}
use biscuit_go.Origin.Block.{block_element, block_element-IsLawful}
use biscuit_go.Tests.{test_digest}

abbrev el : Element ℕ
el = block_element test_digest

abbrev some_blocks : HashSet ℕ
some_blocks = new_hash_set ⦃e = el⦄ (3 ∷ 5 ∷ 7 ∷ [])

abbrev other_blocks : HashSet ℕ
other_blocks = new_hash_set ⦃e = el⦄ (5 ∷ 9 ∷ [])

some_blocks-IsValid : IsValid ⦃e = el⦄ some_blocks
some_blocks-IsValid =
    new_hash_set-IsValid ⦃e = el⦄ (block_element-IsLawful test_digest) (3 ∷ 5 ∷ 7 ∷ [])

other_blocks-IsValid : IsValid ⦃e = el⦄ other_blocks
other_blocks-IsValid =
    new_hash_set-IsValid ⦃e = el⦄ (block_element-IsLawful test_digest) (5 ∷ 9 ∷ [])

contains-to_slice_example :
    contains ⦃e = el⦄ 7 some_blocks ≡ any (λ z. el.equal z 7) (to_slice some_blocks)
contains-to_slice_example =
    contains-to_slice ⦃e = el⦄ (block_element-IsLawful test_digest) {s = some_blocks}
      some_blocks-IsValid 7

insert-IsValid_example : IsValid ⦃e = el⦄ (insert ⦃e = el⦄ 4 some_blocks).0
insert-IsValid_example =
    insert-IsValid ⦃e = el⦄ (block_element-IsLawful test_digest) {s = some_blocks}
      some_blocks-IsValid 4

contains-remove_example :
    contains ⦃e = el⦄ 7 (remove ⦃e = el⦄ 3 some_blocks).0
    ≡ (contains ⦃e = el⦄ 7 some_blocks && not (el.equal 3 7))
contains-remove_example =
    contains-remove ⦃e = el⦄ (block_element-IsLawful test_digest) {s = some_blocks}
      some_blocks-IsValid 3 7
