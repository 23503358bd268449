-- ===== src/Matching/Sound.antt =====
-- What `matchedVariables` and `combineIt.matches` bind variables to (datalog/evaluator.go).
use mathlib.Core.Path.{subst}
use biscuit_go.Prelude.{
  ℕ, ◌≡◌, refl, sym, ◌∙◌, ◌≢◌, ◌⊎◌, inl, inr, true, Option, none, some, List, [], ◌∷◌, arith,
}
use biscuit_go.Term.{Term, variable, integer, string, date, bytes, bool, set, equal}
use biscuit_go.Term.Order.{equal-equivalence}
use biscuit_go.Expression.Machine.{Values, lookup_value}
use biscuit_go.Matching.{assign, insert_variable, bind_terms}

-- The variable has the term.
abbrev pub Has : Values → ℕ → Term → Type 0
Has m v t = lookup_value v m ≡ some (some t)

-- What has a term in the first map has it in the second.
abbrev pub Keeps : Values → Values → Type 0
Keeps m n = (v : ℕ) (t : Term) → Has m v t → Has n v t

-- The variables among the terms of a predicate have the terms of a fact.
abbrev pub Binds : Values → List Term → List Term → Type 0
Binds m [] us = Unit
Binds m (t ∷ ts) [] = Unit
Binds m (variable v ∷ ts) (u ∷ us) = ((t : Term) × Has m v t × (equal u t ≡ true)) × Binds m ts us
Binds m (_ ∷ ts) (u ∷ us) = Binds m ts us

lookup-assign : (v : ℕ) (t : Term) (m : Values) → Has (assign v (some t) m) v t
unfolding assign lookup_value
lookup-assign v t [] = ground arith
lookup-assign v t ((w, u) ∷ m) = ground (arith, lookup-assign v t m)

lookup-assign_other :
    (v w : ℕ) (o : Option Term) (m : Values)
    → v ≢ w
    → lookup_value w (assign v o m) ≡ lookup_value w m
unfolding assign lookup_value
lookup-assign_other v w o [] h = ground (arith, h)
lookup-assign_other v w o ((x, u) ∷ m) h = ground (arith, h, lookup-assign_other v w o m h)

assign-Keeps :
    (v : ℕ) (t : Term) (m : Values) → ((u : Term) → ¬ Has m v u) → Keeps m (assign v (some t) m)
assign-Keeps v t m h w u has = lookup-assign_other v w (some t) m other ∙ has
  where
    other : v ≢ w
    other e = h u (subst (λ x. Has m x u) (sym e) has)

-- The map has no entry for the variable, one without a term, or one with a term.
nil_cases :
    (o : Option (Option Term)) → (o ≡ none) ⊎ ((o ≡ some none) ⊎ ((t : Term) × (o ≡ some (some t))))
nil_cases none = inl refl
nil_cases (some none) = inr (inl refl)
nil_cases (some (some t)) = inr (inr (t, refl))

lookup_cases :
    (o : Option (Option Term))
    → ((t : Term) → o ≢ some (some t)) ⊎ ((t : Term) × (o ≡ some (some t)))
lookup_cases none = inl (λ t e. ground arith)
lookup_cases (some none) = inl (λ t e. ground arith)
lookup_cases (some (some t)) = inr (t, refl)

insert_variable-new :
    (v : ℕ) (u : Term) (m : Values)
    → ((t : Term) → ¬ Has m v t)
    → insert_variable v u m ≡ some (assign v (some u) m)
unfolding insert_variable
insert_variable-new v u m h = elim (nil_cases (lookup_value v m)) [
  | inl e ↦ rw (e, insert_variable) refl
  | inr (inl e) ↦ rw (e, insert_variable) refl
  | inr (inr (t, e)) ↦ absurd (h t e)
]

insert_variable-old :
    (v : ℕ) (u t : Term) (m n : Values)
    → Has m v t
    → insert_variable v u m ≡ some n
    → (m ≡ n) × (equal u t ≡ true)
unfolding insert_variable
insert_variable-old v u t m n h e = ground (arith, h)

insert_variable-Has :
    (v : ℕ) (u : Term) (m n : Values)
    → insert_variable v u m ≡ some n
    → Keeps m n × ((t : Term) × Has n v t × (equal u t ≡ true))
insert_variable-Has v u m n e = elim (lookup_cases (lookup_value v m)) [
  | inl fresh ↦
      subst (λ n. Keeps m n × ((t : Term) × Has n v t × (equal u t ≡ true)))
        (ground (arith, insert_variable-new v u m fresh))
        (assign-Keeps v u m fresh, (u, lookup-assign v u m, equal-equivalence.0 u))
  | inr (t, has) ↦
      let (same, eq) = insert_variable-old v u t m n has e in
      subst (λ n. Keeps m n × ((t : Term) × Has n v t × (equal u t ≡ true))) same
        ((λ w s h. h), (t, has, eq))
]

pub Binds-Keeps : (m n : Values) (ts us : List Term) → Keeps m n → Binds m ts us → Binds n ts us
Binds-Keeps m n [] us k h = tt
Binds-Keeps m n (t ∷ ts) [] k h = tt
Binds-Keeps m n (variable v ∷ ts) (u ∷ us) k h =
    let (t, has, eq) = h.0 in ((t, k v t has, eq), Binds-Keeps m n ts us k h.1)
Binds-Keeps m n (integer _ ∷ ts) (u ∷ us) k h = Binds-Keeps m n ts us k h
Binds-Keeps m n (string _ ∷ ts) (u ∷ us) k h = Binds-Keeps m n ts us k h
Binds-Keeps m n (date _ ∷ ts) (u ∷ us) k h = Binds-Keeps m n ts us k h
Binds-Keeps m n (bytes _ ∷ ts) (u ∷ us) k h = Binds-Keeps m n ts us k h
Binds-Keeps m n (bool _ ∷ ts) (u ∷ us) k h = Binds-Keeps m n ts us k h
Binds-Keeps m n (set _ ∷ ts) (u ∷ us) k h = Binds-Keeps m n ts us k h

pub insert_cases : (o : Option Values) → (o ≡ none) ⊎ ((n : Values) × (o ≡ some n))
insert_cases none = inl refl
insert_cases (some n) = inr (n, refl)

bind_terms-none :
    (v : ℕ) (ts : List Term) (u : Term) (us : List Term) (m : Values)
    → insert_variable v u m ≡ none
    → bind_terms (variable v ∷ ts) (u ∷ us) m ≡ none
unfolding bind_terms
bind_terms-none v ts u us m h = rw (h, bind_terms) refl

bind_terms-some :
    (v : ℕ) (ts : List Term) (u : Term) (us : List Term) (m n : Values)
    → insert_variable v u m ≡ some n
    → bind_terms (variable v ∷ ts) (u ∷ us) m ≡ bind_terms ts us n
unfolding bind_terms
bind_terms-some v ts u us m n h = rw (h, bind_terms) refl

pub bind_terms-Binds :
    (ts us : List Term) (m n : Values) → bind_terms ts us m ≡ some n → Keeps m n × Binds n ts us
unfolding bind_terms
bind_terms-Binds [] us m n e = (subst (Keeps m) (ground arith) (λ v t h. h), tt)
bind_terms-Binds (t ∷ ts) [] m n e = (subst (Keeps m) (ground arith) (λ v t h. h), tt)
bind_terms-Binds (variable v ∷ ts) (u ∷ us) m n e = elim (insert_cases (insert_variable v u m)) [
  | inl h ↦ absurd (ground (arith, bind_terms-none v ts u us m h))
  | inr (o, h) ↦
      let (keeps, binds) = bind_terms-Binds ts us o n (sym (bind_terms-some v ts u us m o h) ∙ e) in
      let (before, found) = insert_variable-Has v u m o h in
      ((λ w s k. keeps w s (before w s k)), ((found.0, keeps v found.0 found.1, found.2), binds))
]
bind_terms-Binds (integer _ ∷ ts) (u ∷ us) m n e = bind_terms-Binds ts us m n e
bind_terms-Binds (string _ ∷ ts) (u ∷ us) m n e = bind_terms-Binds ts us m n e
bind_terms-Binds (date _ ∷ ts) (u ∷ us) m n e = bind_terms-Binds ts us m n e
bind_terms-Binds (bytes _ ∷ ts) (u ∷ us) m n e = bind_terms-Binds ts us m n e
bind_terms-Binds (bool _ ∷ ts) (u ∷ us) m n e = bind_terms-Binds ts us m n e
bind_terms-Binds (set _ ∷ ts) (u ∷ us) m n e = bind_terms-Binds ts us m n e
