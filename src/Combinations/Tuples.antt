-- ===== src/Combinations/Tuples.antt =====
-- All combinations in lexicographic order, and where the increments of the odometer lead in it.
use mathlib.Core.Path.{subst}
use biscuit_go.Prelude.{
  ℕ, zero, suc, ◌-◌, ◌<◌, ◌≡◌, refl, sym, ap, ◌∙◌, ◌⊎◌, inl, inr, Option, none, some, List, [], ◌∷◌,
  ◌++◌, map, length, arith,
}
use biscuit_go.Combinations.{zeros, increment_from, increment, increment_at}
use biscuit_go.Combinations.Order.{carry, over, increment-cons, increment_at-zero, increment_at-suc}

-- `count` digits from `start` on.
unfoldable pub range : ℕ → ℕ → List ℕ
range start zero = []
range start (suc count) = start ∷ range (suc start) count

unfoldable pub prefixed : List ℕ → List (List ℕ) → List (List ℕ)
prefixed [] ts = []
prefixed (d ∷ ds) ts = map (λ t. d ∷ t) ts ++ prefixed ds ts

-- All lists of `n` digits below `k`, in lexicographic order.
unfoldable pub tuples : ℕ → ℕ → List (List ℕ)
unfolding prefixed range
tuples k zero = [] ∷ []
tuples k (suc n) = prefixed (range 0 k) (tuples k n)

-- Those that are not before the given one.
abbrev pub from : ℕ → List ℕ → List (List ℕ)
from k [] = [] ∷ []
from k (i ∷ is) =
    map (λ t. i ∷ t) (from k is) ++ prefixed (range (suc i) (k - suc i)) (tuples k (length is))

abbrev pub from_next : ℕ → Option (List ℕ) → List (List ℕ)
from_next k none = []
from_next k (some is) = from k is

-- The two lists share the digits up to the place `p`.
pub data Agree : ℕ → List ℕ → List ℕ → Type 0 where
  agree_here : {i : ℕ} {is js : List ℕ} → Agree 0 (i ∷ is) (i ∷ js)
  agree_next : {p i : ℕ} {is js : List ℕ} → Agree p is js → Agree (suc p) (i ∷ is) (i ∷ js)

length-zeros : (n : ℕ) → length (zeros n) ≡ n
unfolding zeros
length-zeros zero = refl
length-zeros (suc n) = ap suc (length-zeros n)

pub from-zeros : (k n : ℕ) → 0 < k → from k (zeros n) ≡ tuples k n
unfolding zeros tuples
from-zeros k zero h = refl
from-zeros zero (suc n) h = absurd (omega arith)
from-zeros (suc k) (suc n) h =
    rw (from-zeros (suc k) n h, length-zeros n, prefixed, range)
      (unfold prefixed in
        unfold range in
        ap (λ m. map (λ t. 0 ∷ t) (tuples (suc k) n) ++ prefixed (range 1 m) (tuples (suc k) n))
          (omega arith))

-- The lists that begin with a greater digit are those from the next digit on.
range-step :
    (k i : ℕ)
    → i < k - 1
    → range (suc i) (k - suc i) ≡ suc i ∷ range (suc (suc i)) (k - suc (suc i))
unfolding range
range-step k i h = ap (range (suc i)) less
  where
    less : k - suc i ≡ suc (k - suc (suc i))
    less = omega arith

carry_cases :
    (k i : ℕ) (rest : List ℕ)
    → ((i < k - 1) × (carry k i rest ≡ some (suc i ∷ rest)))
      ⊎ ((k - suc i ≡ 0) × (carry k i rest ≡ none))
carry_cases k i rest = ground arith

pub from_next-carry :
    (k i n : ℕ)
    → 0 < k
    → from_next k (carry k i (zeros n)) ≡ prefixed (range (suc i) (k - suc i)) (tuples k n)
unfolding prefixed range
from_next-carry k i n h = elim (carry_cases k i (zeros n)) [
  | inl (lt, e) ↦ rw (e, range-step k i lt) (rw (from-zeros k n h, length-zeros n) refl)
  | inr (none_left, e) ↦ rw (e) (ap (λ m. prefixed (range (suc i) m) (tuples k n)) (sym none_left))
]

-- A result of the increments has the length of the list incremented.
abbrev pub HasLength : ℕ → Option (List ℕ) → Type 0
HasLength n none = Unit
HasLength n (some js) = length js ≡ n

over-HasLength :
    (k i n : ℕ) (o : Option (List ℕ)) → HasLength n o → HasLength (suc n) (over k i (zeros n) o)
over-HasLength k i n (some js) h = ap suc h
over-HasLength k i n none h = elim (carry_cases k i (zeros n)) [
  | inl (lt, e) ↦ subst (HasLength (suc n)) (sym e) (ap suc (length-zeros n))
  | inr (none_left, e) ↦ subst (HasLength (suc n)) (sym e) tt
]

pub increment-HasLength : (k : ℕ) (is : List ℕ) → HasLength (length is) (increment k is)
increment-HasLength k [] = unfold increment in unfold increment_from in tt
increment-HasLength k (i ∷ is) =
    subst (HasLength (suc (length is))) (sym (increment-cons k i is))
      (over-HasLength k i (length is) (increment k is) (increment-HasLength k is))

pub increment_at-HasLength :
    (k p : ℕ) (is : List ℕ) → p < length is → HasLength (length is) (increment_at k p is)
increment_at-HasLength k p [] h = absurd (omega arith)
increment_at-HasLength k zero (i ∷ is) h =
    subst (HasLength (suc (length is))) (sym (increment_at-zero k i is))
      (over-HasLength k i (length is) none tt)
increment_at-HasLength k (suc p) (i ∷ is) h =
    subst (HasLength (suc (length is))) (sym (increment_at-suc k p i is)) (
      over-HasLength k i (length is) (increment_at k p is)
        (increment_at-HasLength k p is (omega arith)))

-- What follows after a digit `i` and a rest is what follows after the rest, behind `i`, and then the
-- lists that begin with a greater digit.
pub from_next-over :
    (k i n : ℕ) (o : Option (List ℕ))
    → 0 < k
    → HasLength n o
    → from_next k (over k i (zeros n) o)
      ≡ map (λ t. i ∷ t) (from_next k o) ++ prefixed (range (suc i) (k - suc i)) (tuples k n)
from_next-over k i n (some js) h len =
    ap (λ m. map (λ t. i ∷ t) (from k js) ++ prefixed (range (suc i) (k - suc i)) (tuples k m)) len
from_next-over k i n none h len = from_next-carry k i n h

-- The next list in the order.
pub from-increment : (k : ℕ) (is : List ℕ) → 0 < k → from k is ≡ is ∷ from_next k (increment k is)
from-increment k [] h = unfold increment in unfold increment_from in refl
from-increment k (i ∷ is) h =
    ap (λ ts. map (λ t. i ∷ t) ts ++ prefixed (range (suc i) (k - suc i)) (tuples k (length is)))
      (from-increment k is h)
    ∙ ap (λ ts. (i ∷ is) ∷ ts)
        (sym (
          ap (from_next k) (increment-cons k i is)
          ∙ from_next-over k i (length is) (increment k is) h (increment-HasLength k is)))
