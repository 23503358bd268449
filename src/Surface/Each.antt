-- ===== src/Surface/Each.antt =====
-- types.go: the loops that convert the elements of a slice one after the other.
use biscuit_go.Prelude.{List, [], ◌∷◌, ◌≡◌, refl, map, Run, ok, err, panic, ◌>>=◌, map_run}

module _ {A B S : Type 0} where
  unfoldable pub convert_each : (A → S → Run (B × S)) → List A → S → Run (List B × S)
  convert_each c [] t = ok ([], t)
  convert_each c (a ∷ as_) t = do (b, t1) ← c a t; (bs, t2) ← convert_each c as_ t1; ok (b ∷ bs, t2)

-- A conversion, the reading of what it gives, and what is to be read. `Grows` is how tables change.
module _ {A B S : Type 0} (Grows : S → S → Type 0) (Fits : S → Type 0) where
  pub record Kept (c : A → S → Run (B × S)) (r : S → B → Run A) (n : A → A) (a : A) (t : S)
      : Type 0 where
    pub converted : B
    pub after : S
    pub runs : c a t ≡ ok (converted, after)
    pub grown : Grows t after
    pub reads : (T : S) → Grows after T → Fits T → r T converted ≡ ok (n a)

-- A predicate of the table that a conversion leaves.
abbrev pub After : {A S : Type 0} → Run (A × S) → (S → Type 0) → Type 0
After (ok (b, t)) P = P t
After (err e) P = Unit
After panic P = Unit

-- Every element meets `P` at the table at which it is converted.
abbrev pub Each : {A B S : Type 0} → (A → S → Run (B × S)) → (A → S → Type 0) → List A → S → Type 0
Each c P [] t = Unit
Each c P (a ∷ as_) t = P a t × After (c a t) (Each c P as_)

module _ {A B S : Type 0} {Grows : S → S → Type 0} {Fits : S → Type 0}
    (grows_refl : (t : S) → Grows t t)
    (grows_trans : (t u v : S) → Grows t u → Grows u v → Grows t v) (c : A → S → Run (B × S))
    (r : S → B → Run A) (n : A → A) (P : A → S → Type 0)
    (kept : (a : A) (t : S) → P a t → Kept Grows Fits c r n a t) where
  -- If each element is kept then the list is.
  pub convert_each-Kept :
      (as_ : List A) (t : S)
      → Each c P as_ t
      → Kept Grows Fits (convert_each c) (λ T. map_run (r T)) (map n) as_ t
  unfolding convert_each map_run
  convert_each-Kept [] t h = record {
    converted = [];
    after = t;
    runs = refl;
    grown = grows_refl t;
    reads = λ T g f. refl;
  }
  convert_each-Kept (a ∷ as_) t (h, hs) =
      let k = kept a t h in
      let ks = convert_each-Kept as_ k.after (rw k.runs at hs) in
      record {
        converted = k.converted ∷ ks.converted;
        after = ks.after;
        runs = rw (k.runs, ks.runs) refl;
        grown = grows_trans t k.after ks.after k.grown ks.grown;
        reads = λ T g f.
            rw (k.reads T (grows_trans k.after ks.after T ks.grown g) f, ks.reads T g f) refl;
      }
