-- ===== src/Conversion/Written.antt =====
-- What is written by one function and read back by another, and the loops over both.
use biscuit_go.Prelude.{List, [], ◌∷◌, ◌≡◌, refl, map, Run, ok, All, map_run}

module _ {A B : Type 0} where
  -- The value is written, and what is written is read as what `n` makes of it.
  abbrev pub Written : (A → Run B) → (B → Run A) → (A → A) → A → Type 0
  Written to from n a = (b : B) × (to a ≡ ok b) × (from b ≡ ok (n a))

  pub map_run-Written :
      (to : A → Run B) (from : B → Run A) (n : A → A) (P : A → Type 0)
      → ((a : A) → P a → Written to from n a)
      → (as_ : List A) → All P as_
      → (bs : List B) × (map_run to as_ ≡ ok bs) × (map_run from bs ≡ ok (map n as_))
  unfolding map_run
  map_run-Written to from n P w [] h = ([], refl, refl)
  map_run-Written to from n P w (a ∷ as_) (h, hs) =
      let (b, t, f) = w a h in
      let (bs, ts, fs) = map_run-Written to from n P w as_ hs in
      (b ∷ bs, rw (t, ts) refl, rw (f, fs) refl)

pub map_identity : {A : Type 0} (l : List A) → map (λ a. a) l ≡ l
map_identity [] = refl
map_identity (a ∷ l) = rw (map_identity l) refl
