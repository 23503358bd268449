-- ===== src/World/Growth.antt =====
-- datalog/datalog.go: the facts of a world only grow when facts are merged into them, and are the same
-- facts if their number does not grow.
use biscuit_go.Prelude.{
  ℕ, ◌+◌, ◌≤◌, ◌≡◌, refl, sym, ap, ◌∙◌, subst, inl, inr, List, [], ◌∷◌, Bytes, All, Bool-cases,
  arith,
}
use biscuit_go.HashSet.{HashSet, empty, new_hash_set, union, to_slice}
use biscuit_go.HashSet.Growth.{insert_all-same, size-union, union-same}
use biscuit_go.Origin.{Origin, encode_to_string}
use biscuit_go.Fact.{Fact, FactSet, fact_element, count, entries, insert_multi_at_key, insert_multi}
use biscuit_go.World.{insert_entries, merge}

abbrev IsEmptyEntry : Bytes × HashSet Fact → Type 0
IsEmptyEntry entry = entry.1 ≡ empty

-- The second set has the entries of the first, and behind them only entries without facts.
pub data AddsNone : FactSet → FactSet → Type 0 where
  adds_end : {extra : FactSet} → All IsEmptyEntry extra → AddsNone [] extra
  adds_entry :
      {key : Bytes} {facts : HashSet Fact} {before after : FactSet}
      → AddsNone before after
      → AddsNone ((key, facts) ∷ before) ((key, facts) ∷ after)

same_facts : (fs : FactSet) → AddsNone fs fs
same_facts [] = adds_end tt
same_facts ((key, facts) ∷ fs) = adds_entry (same_facts fs)

AddsNone-empty :
    {extra after : FactSet} → All IsEmptyEntry extra → AddsNone extra after → All IsEmptyEntry after
AddsNone-empty h (adds_end h') = h'
AddsNone-empty h (adds_entry a) = (h.0, AddsNone-empty h.1 a)

AddsNone-trans : {a b c : FactSet} → AddsNone a b → AddsNone b c → AddsNone a c
AddsNone-trans (adds_end h) k = adds_end (AddsNone-empty h k)
AddsNone-trans (adds_entry h) (adds_entry k) = adds_entry (AddsNone-trans h k)

-- The number of facts does not fall, and if it stays, then no fact is added.
abbrev pub Grows : FactSet → FactSet → Type 0
Grows before after =
    (count before ≤ count after) × (count after ≡ count before → AddsNone before after)

Grows-trans : (a b c : FactSet) → Grows a b → Grows b c → Grows a c
Grows-trans a b c h k = (
  omega (arith, h.0, k.0),
  λ same.
      AddsNone-trans (h.1 (omega (arith, h.0, k.0, same))) (k.1 (omega (arith, h.0, k.0, same))),
)

module _ (digest : Bytes → ℕ) where
  insert_multi_at_key-Grows :
      (key : Bytes) (new : List Fact) (fs : FactSet)
      → Grows fs (insert_multi_at_key digest key new fs)
  unfolding insert_multi_at_key count new_hash_set
  insert_multi_at_key-Grows key new [] = (
    omega arith,
    λ same.
        adds_end (insert_all-same ⦃e = fact_element digest⦄ new empty (omega (arith, same)), tt),
  )
  insert_multi_at_key-Grows key new ((k, facts) ∷ fs) =
      elim (Bool-cases (biscuit_go.Prelude.bytes_eq k key)) [
        | inl here ↦
            let others = new_hash_set ⦃e = fact_element digest⦄ new in
            let joined = union ⦃e = fact_element digest⦄ facts others in
            let at_key : insert_multi_at_key digest key new ((k, facts) ∷ fs) ≡ (k, joined) ∷ fs =
              rw (here, insert_multi_at_key) refl in
            subst (Grows ((k, facts) ∷ fs)) (sym at_key) (
              omega (arith, size-union ⦃e = fact_element digest⦄ facts others),
              λ same.
                  subst (λ x. AddsNone ((k, facts) ∷ fs) ((k, x) ∷ fs))
                    (sym (union-same ⦃e = fact_element digest⦄ facts others (omega (arith, same))))
                    (same_facts ((k, facts) ∷ fs)),
            )
        | inr elsewhere ↦
            let rest = insert_multi_at_key-Grows key new fs in
            let behind : insert_multi_at_key digest key new ((k, facts) ∷ fs)
                ≡ (k, facts) ∷ insert_multi_at_key digest key new fs =
              rw (elsewhere, insert_multi_at_key) refl in
            subst (Grows ((k, facts) ∷ fs)) (sym behind)
              (omega (arith, rest.0), λ same. adds_entry (rest.1 (omega (arith, same))))
      ]

  insert_entries-Grows :
      (es : List (Origin × HashSet Fact)) (all : FactSet) → Grows all (insert_entries digest es all)
  unfolding insert_entries insert_multi
  insert_entries-Grows [] all = (omega arith, λ same. same_facts all)
  insert_entries-Grows ((o, facts) ∷ es) all =
      Grows-trans all (insert_multi digest o (to_slice facts) all) _
        (insert_multi_at_key-Grows (encode_to_string o) (to_slice facts) all)
        (insert_entries-Grows es (insert_multi digest o (to_slice facts) all))

  pub merge-Grows : (new all : FactSet) → Grows all (merge digest new all)
  unfolding merge
  merge-Grows new all = insert_entries-Grows (entries digest new) all
