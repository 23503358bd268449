-- ===== src/Combinations.antt =====
-- datalog/evaluator.go, `combinations`: the odometer that runs through the fact indexes, one for each
-- predicate, and skips those that share a failed beginning.
pub mod Order
pub mod Tuples
pub mod Search
pub mod Odometer
use biscuit_go.Prelude.{
  ℕ, zero, suc, ◌-◌, ◌^◌, ◌≡◌, Bool, Option, none, some, List, [], ◌∷◌, leb, ltb, ◌==◌,
  if◌then◌else◌, length,
}

unfoldable pub get_at : List ℕ → ℕ → ℕ
get_at [] p = 0
get_at (i ∷ is) zero = i
get_at (i ∷ is) (suc p) = get_at is p

unfoldable pub set_at : ℕ → ℕ → List ℕ → List ℕ
set_at p v [] = []
set_at zero v (i ∷ is) = v ∷ is
set_at (suc p) v (i ∷ is) = i ∷ set_at p v is

unfoldable pub zeros : ℕ → List ℕ
zeros zero = []
zeros (suc n) = 0 ∷ zeros n

-- The inner loop of `newIncrementAt`: all positions after `p` become 0.
unfoldable pub reset_after : ℕ → List ℕ → List ℕ
unfolding zeros
reset_after p [] = []
reset_after zero (i ∷ is) = i ∷ zeros (length is)
reset_after (suc p) (i ∷ is) = i ∷ reset_after p is

-- The loop of `newIncrement`, from `position` = `n` - 1 down. Nothing is `done`.
unfoldable pub increment_from : ℕ → ℕ → List ℕ → Option (List ℕ)
unfolding get_at set_at
increment_from facts zero is = none
increment_from facts (suc p) is =
    let rest = increment_from facts p (set_at p 0 is) in
    if ltb (get_at is p) (facts - 1) then some (set_at p (suc (get_at is p)) is) else rest

unfoldable pub increment : ℕ → List ℕ → Option (List ℕ)
unfolding increment_from
increment facts is = increment_from facts (length is) is

-- The loop of `newIncrementAt`, from `position` = `n` - 1 down.
unfoldable pub increment_at_from : ℕ → ℕ → List ℕ → Option (List ℕ)
unfolding get_at set_at reset_after
increment_at_from facts zero is = none
increment_at_from facts (suc p) is =
    let rest = increment_at_from facts p (set_at p 0 is) in
    if ltb (get_at is p) (facts - 1)
    then some (reset_after p (set_at p (suc (get_at is p)) is))
    else rest

unfoldable pub increment_at : ℕ → ℕ → List ℕ → Option (List ℕ)
unfolding increment_at_from
increment_at facts failed is = increment_at_from facts (suc failed) is

module _ (facts : ℕ) (visit : List ℕ → Option ℕ) where
  -- The iterator and the loop of its caller, who calls `failedAtIndex p` where `visit` gives `some p`:
  -- the indexes that do not fail, in the order in which they are yielded.
  unfoldable pub search : ℕ → List ℕ → List (List ℕ)
  unfolding increment increment_at
  search zero is = []
  search (suc fuel) is = elim (visit is) [
    | none ↦ is ∷ elim (increment facts is) [ none ↦ [] | some next ↦ search fuel next ]
    | some p ↦ elim (increment_at facts p is) [ none ↦ [] | some next ↦ search fuel next ]
  ]

  -- `combinations.iter`. As many rounds as there are combinations are enough.
  unfoldable pub combinations : ℕ → List (List ℕ)
  unfolding search zeros
  combinations zero = elim (visit []) [ none ↦ [] ∷ [] | some p ↦ [] ]
  combinations (suc n) = if facts == 0 then [] else search (facts ^ suc n) (zeros (suc n))
