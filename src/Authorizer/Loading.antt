-- ===== src/Authorizer/Loading.antt =====
-- authorizer.go: what the loops that load policies have read when they do not fail.
use biscuit_go.Prelude.{
  ◌⊎◌, inl, inr, Error, List, [], ◌∷◌, ◌≡◌, refl, any, Bool, false, Run, ok, err, ok->>=, panic,
  map_run, ok-pair,
}
use biscuit_go.Surface.Each.{convert_each}
use biscuit_go.Authorizer.Builder.{AuthorizerBuilder}
use biscuit_go.Authorizer.Policies.{load_each, and_then, Loading}

pub Run-cases :
    {A : Type 0} (r : Run A) → ((a : A) × (r ≡ ok a)) ⊎ (((e : Error) × (r ≡ err e)) ⊎ (r ≡ panic))
Run-cases (ok a) = inl (a, refl)
Run-cases (err e) = inr (inl (e, refl))
Run-cases panic = inr (inr refl)

pub err-ok : {A : Type 0} {B : Type 0} {e : Error} {a : A} → ◌≡◌ {A = Run A} (err e) (ok a) → B
err-ok h = cc

pub panic-ok : {A : Type 0} {B : Type 0} {a : A} → ◌≡◌ {A = Run A} panic (ok a) → B
panic-ok h = cc

pub load_each-cons :
    {B C : Type 0} (read : B → Run C) (add : C → AuthorizerBuilder → AuthorizerBuilder) (b : B)
    (bs : List B) (ab : AuthorizerBuilder)
    → (load_each read add (b ∷ bs) ab).0 ≡ ok tt
    → (c : C) × (read b ≡ ok c) × ((load_each read add bs (add c ab)).0 ≡ ok tt)
unfolding load_each
load_each-cons read add b bs ab l = elim (Run-cases (read b)) [
  | inl (c, h) ↦ (c, h, rw (h, load_each) at l)
  | inr (inl (e, h)) ↦ err-ok (rw (h, load_each) at l)
  | inr (inr h) ↦ panic-ok (rw (h, load_each) at l)
]

pub and_then-ok :
    (l : Loading) (next : AuthorizerBuilder → Loading)
    → (and_then l next).0 ≡ ok tt
    → (l.0 ≡ ok tt) × ((next l.1).0 ≡ ok tt)
and_then-ok (ok u, ab) next h = (refl, h)
and_then-ok (err e, ab) next h = err-ok h
and_then-ok (panic, ab) next h = panic-ok h

-- Elements that are written and read back, where whatever is read back did not ask for something.
module _ {A B C S : Type 0} (write : A → S → Run (B × S)) (read : B → Run C) (asks : A → Bool)
    (none_asks : (a : A) (c : C) (s t : S) (b : B)
      → write a s ≡ ok (b, t)
      → read b ≡ ok c
      → asks a ≡ false) where
  pub read_all-none :
      (as_ : List A) (s t : S) (bs : List B) (cs : List C)
      → convert_each write as_ s ≡ ok (bs, t)
      → map_run read bs ≡ ok cs
      → any asks as_ ≡ false
  unfolding convert_each map_run
  read_all-none [] s t bs cs w r = refl
  read_all-none (a ∷ as_) s t bs cs w r =
      let ((b, s1), one, w1) = ok->>= (write a s) _ _ w in
      let ((bs1, s2), more, w2) = ok->>= (convert_each write as_ s1) _ _ w1 in
      let (c, head, r1) = ok->>= (read b) _ _ (rw (← (ok-pair w2).0) at r) in
      let (cs1, tail, r2) = ok->>= (map_run read bs1) _ _ r1 in
      rw (none_asks a c s s1 b one head, read_all-none as_ s1 s2 bs1 cs1 more tail) refl

  pub load_each-none :
      (add : C → AuthorizerBuilder → AuthorizerBuilder) (as_ : List A) (s t : S) (bs : List B)
      (ab : AuthorizerBuilder)
      → convert_each write as_ s ≡ ok (bs, t)
      → (load_each read add bs ab).0 ≡ ok tt
      → any asks as_ ≡ false
  unfolding convert_each load_each
  load_each-none add [] s t bs ab w l = refl
  load_each-none add (a ∷ as_) s t bs ab w l =
      let ((b, s1), one, w1) = ok->>= (write a s) _ _ w in
      let ((bs1, s2), more, w2) = ok->>= (convert_each write as_ s1) _ _ w1 in
      let (c, head, tail) = load_each-cons read add b bs1 ab (rw (← (ok-pair w2).0) at l) in
      rw (none_asks a c s s1 b one head, load_each-none add as_ s1 s2 bs1 (add c ab) more tail) refl
