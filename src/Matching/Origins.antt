-- ===== src/Matching/Origins.antt =====
-- datalog/evaluator.go, `combineIt.matches`: the origin of a match, against the blocks of the facts.
use biscuit_go.Prelude.{
  ℕ, zero, suc, ◌≡◌, refl, ◌||◌, Bool, false, Option, none, some, List, [], ◌∷◌, length, arith,
  Bytes, All, get_elem?, inl, inr, subst,
}
use biscuit_go.HashSet.{clone}
use biscuit_go.HashSet.Valid.{IsValid}
use biscuit_go.HashSet.Algebra.{contains-union}
use biscuit_go.Origin.{Origin, has_block, insert_origin}
use biscuit_go.Origin.Block.{block_element, block_element-IsLawful}
use biscuit_go.Fact.{Predicate}
use biscuit_go.Expression.Machine.{Values}
use biscuit_go.Matching.{FactWithOrigin, join_origins, origin_of}
use biscuit_go.Matching.Facts.{Matched, fact_cases}

some_same {ℓ} : {A : Type ℓ} {a b : A} → some a ≡ some b → a ≡ b
some_same h = cc

All-get_elem? {ℓ κ} :
    {A : Type ℓ} (P : A → Type κ) (l : List A) (i : ℕ) (a : A)
    → All P l
    → get_elem? l i ≡ some a
    → P a
All-get_elem? P [] i a h e = cc
All-get_elem? P (x ∷ l) zero a h e = subst P (some_same e) h.0
All-get_elem? P (x ∷ l) (suc i) a h e = All-get_elem? P l i a h.1 e

module _ (facts : List FactWithOrigin) (digest : Bytes → ℕ) where
  -- The block is in the origin of the fact at one of the indexes.
  abbrev pub some_origin_has : ℕ → List ℕ → Bool
  some_origin_has j [] = false
  some_origin_has j (i ∷ is) =
      elim (get_elem? facts i) [ none ↦ false | some f ↦ has_block digest j (f.origin) ]
      || some_origin_has j is

  -- No origin for no facts, and otherwise the blocks of all their origins, and no others.
  abbrev pub IsUnion : Option Origin → List ℕ → Type 0
  IsUnion none is = is ≡ []
  IsUnion (some u) is = (j : ℕ) → has_block digest j u ≡ some_origin_has j is

  -- The origins of the facts are well-formed sets.
  abbrev pub OriginsAreValid : Type 0
  OriginsAreValid = All (λ f. IsValid ⦃e = block_element digest⦄ f.origin) facts

  module _ (valid : OriginsAreValid) where
    has_block-join_origins :
        (j : ℕ) (is : List ℕ) (o : Origin)
        → has_block digest j (join_origins facts digest is o)
          ≡ (has_block digest j o || some_origin_has j is)
    unfolding join_origins has_block insert_origin
    has_block-join_origins j [] o = ground arith
    has_block-join_origins j (i ∷ is) o = elim (fact_cases (get_elem? facts i)) [
      | inl e ↦ rw (e, join_origins) (ground (arith, has_block-join_origins j is o))
      | inr (f, e) ↦
          rw (e, join_origins)
            (ground (
              arith,
              has_block-join_origins j is (insert_origin digest (f.origin) o),
              contains-union ⦃e = block_element digest⦄ (block_element-IsLawful digest) o
                  (All-get_elem? _ facts i f valid e) j,
            ))
    ]

    pub origin_of-IsUnion :
        (m : Values) (qs : List Predicate) (is : List ℕ)
        → length is ≡ length qs
        → Matched facts m qs is
        → IsUnion (origin_of facts digest is) is
    unfolding origin_of clone has_block
    origin_of-IsUnion m qs [] len h = refl
    origin_of-IsUnion m [] (i ∷ is) len h = absurd (omega arith)
    origin_of-IsUnion m (q ∷ qs) (i ∷ is) len ((f, at, _, _), h) =
        rw (at, origin_of) (λ j. rw at (has_block-join_origins j is (clone (f.origin))))
