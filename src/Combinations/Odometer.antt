-- ===== src/Combinations/Odometer.antt =====
-- The odometer of datalog/evaluator.go from its first combination on.
use native.Mathlib.Nat.{pow-zero, pow-suc, mul_comm}
use biscuit_go.Prelude.{
  ℕ, zero, suc, ◌*◌, ◌^◌, ◌≡◌, refl, sym, ap, ◌∙◌, inl, inr, false, Option, List, [], ◌∷◌, map,
  ◌==◌, if◌then◌else◌, length, length-append, arith,
}
use biscuit_go.Combinations.{zeros, search, combinations}
use biscuit_go.Combinations.Tuples.{range, prefixed, tuples, from, from-zeros}
use biscuit_go.Combinations.Search.{IsPruning, keep, visit_cases, search-keep, length-map}

length-range : (s c : ℕ) → length (range s c) ≡ c
unfolding range
length-range s zero = refl
length-range s (suc c) = ap suc (length-range (suc s) c)

length-prefixed :
    (ds : List ℕ) (ts : List (List ℕ)) → length (prefixed ds ts) ≡ length ds * length ts
unfolding prefixed
length-prefixed [] ts = omega arith
length-prefixed (d ∷ ds) ts = omega (
  arith,
  length-append (map (λ t. d ∷ t) ts) (prefixed ds ts),
  length-map (λ t. d ∷ t) ts,
  length-prefixed ds ts,
)

length-tuples : (k n : ℕ) → length (tuples k n) ≡ k ^ n
unfolding tuples
length-tuples k zero = sym (pow-zero k)
length-tuples k (suc n) =
    length-prefixed (range 0 k) (tuples k n)
    ∙ omega (
      arith,
      length-range 0 k,
      length-tuples k n,
      pow-suc k n,
      ap (λ m. m * length (tuples k n)) (length-range 0 k),
      ap (λ m. k * m) (length-tuples k n),
      mul_comm k (k ^ n),
    )

-- For a test whose failure at a position depends on the indexes up to that position only, the
-- odometer yields exactly the combinations that do not fail, in lexicographic order, each once.
pub combinations-keep :
    (k n : ℕ) (visit : List ℕ → Option ℕ)
    → IsPruning visit
    → combinations k visit n ≡ keep visit (tuples k n)
unfolding combinations tuples
combinations-keep k zero visit v = elim (visit_cases (visit [])) [
  | inl e ↦ rw (e, keep, combinations) refl
  | inr (p, e) ↦ rw (e, keep, combinations) refl
]
combinations-keep zero (suc n) visit v = refl
combinations-keep (suc k) (suc n) visit v =
    nonzero
    ∙ search-keep visit (suc k) v (omega arith) (suc k ^ suc n) (zeros (suc n))
        (omega (arith, ap length first, length-tuples (suc k) (suc n)))
    ∙ ap (keep visit) first
  where
    first : from (suc k) (zeros (suc n)) ≡ tuples (suc k) (suc n)
    first = from-zeros (suc k) (suc n) (omega arith)

    is_nonzero : (suc k == 0) ≡ false
    is_nonzero = ground arith

    nonzero :
        combinations (suc k) visit (suc n) ≡ search (suc k) visit (suc k ^ suc n) (zeros (suc n))
    nonzero =
        ap (λ b. if b then [] else search (suc k) visit (suc k ^ suc n) (zeros (suc n))) is_nonzero
