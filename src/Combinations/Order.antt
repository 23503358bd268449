-- ===== src/Combinations/Order.antt =====
-- The combinations in lexicographic order, and where the increments of the odometer lead in it.
use biscuit_go.Prelude.{
  ℕ, zero, suc, ◌-◌, ◌≡◌, refl, ap, ◌∙◌, Bool, true, false, Option, none, some, List, [], ◌∷◌, ltb,
  if◌then◌else◌, length,
}
use biscuit_go.Combinations.{
  get_at, set_at, zeros, reset_after, increment_from, increment, increment_at_from, increment_at,
}

-- What a digit and the digits after it become when those have run over.
abbrev pub carry : ℕ → ℕ → List ℕ → Option (List ℕ)
carry k i rest = if ltb i (k - 1) then some (suc i ∷ rest) else none

abbrev pub over : ℕ → ℕ → List ℕ → Option (List ℕ) → Option (List ℕ)
over k i rest (some js) = some (i ∷ js)
over k i rest none = carry k i rest

over_if :
    (b : Bool) (k i : ℕ) (rest js : List ℕ) (o : Option (List ℕ))
    → (if b then some (i ∷ js) else over k i rest o) ≡ over k i rest (if b then some js else o)
over_if true k i rest js o = refl
over_if false k i rest js o = refl

-- The first `n` places set to 0.
abbrev cleared : ℕ → List ℕ → List ℕ
cleared zero is = is
cleared (suc n) is = cleared n (set_at n 0 is)

increment_from-cons :
    (k n i : ℕ) (is : List ℕ)
    → increment_from k (suc n) (i ∷ is) ≡ over k i (cleared n is) (increment_from k n is)
unfolding increment_from get_at set_at
increment_from-cons k zero i is = refl
increment_from-cons k (suc n) i is =
    ap (λ o. if b then some (i ∷ set_at n (suc (get_at is n)) is) else o)
      (increment_from-cons k n i (set_at n 0 is))
    ∙ over_if b k i _ _ _
  where
    b : Bool
    b = ltb (get_at is n) (k - 1)

length-set_at : (p v : ℕ) (is : List ℕ) → length (set_at p v is) ≡ length is
unfolding set_at
length-set_at p v [] = refl
length-set_at zero v (i ∷ is) = refl
length-set_at (suc p) v (i ∷ is) = ap suc (length-set_at p v is)

increment_at_from-cons :
    (k n i : ℕ) (is : List ℕ)
    → increment_at_from k (suc n) (i ∷ is) ≡ over k i (zeros (length is)) (increment_at_from k n is)
unfolding increment_at_from get_at set_at reset_after
increment_at_from-cons k zero i is = refl
increment_at_from-cons k (suc n) i is =
    ap (λ o. if b then some (i ∷ reset_after n (set_at n (suc (get_at is n)) is)) else o)
      (increment_at_from-cons k n i (set_at n 0 is)
        ∙ ap (λ m. over k i (zeros m) (increment_at_from k n (set_at n 0 is)))
            (length-set_at n 0 is))
    ∙ over_if b k i _ _ _
  where
    b : Bool
    b = ltb (get_at is n) (k - 1)

cleared-cons : (n i : ℕ) (is : List ℕ) → cleared (suc n) (i ∷ is) ≡ 0 ∷ cleared n is
unfolding set_at
cleared-cons zero i is = refl
cleared-cons (suc n) i is = cleared-cons n i (set_at n 0 is)

cleared-all : (is : List ℕ) → cleared (length is) is ≡ zeros (length is)
unfolding zeros
cleared-all [] = refl
cleared-all (i ∷ is) = cleared-cons (length is) i is ∙ ap (λ js. 0 ∷ js) (cleared-all is)

pub increment-cons :
    (k i : ℕ) (is : List ℕ) → increment k (i ∷ is) ≡ over k i (zeros (length is)) (increment k is)
unfolding increment
increment-cons k i is =
    increment_from-cons k (length is) i is
    ∙ ap (λ js. over k i js (increment_from k (length is) is)) (cleared-all is)

pub increment_at-zero :
    (k i : ℕ) (is : List ℕ) → increment_at k 0 (i ∷ is) ≡ carry k i (zeros (length is))
unfolding increment_at
increment_at-zero k i is = increment_at_from-cons k 0 i is

pub increment_at-suc :
    (k p i : ℕ) (is : List ℕ)
    → increment_at k (suc p) (i ∷ is) ≡ over k i (zeros (length is)) (increment_at k p is)
unfolding increment_at
increment_at-suc k p i is = increment_at_from-cons k (suc p) i is
