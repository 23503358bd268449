-- ===== src/Symbol/Known.antt =====
-- `Insert` and `Extend` of strings that the symbol table has already (datalog/symbol.go).
use biscuit_go.Prelude.{
  ℕ, ◌+◌, ◌≡◌, refl, sym, subst, ap, ◌∙◌, some, [], ◌∷◌, ◌++◌, Bytes, bytes_eq, bytes_eq_refl,
  length, length-append, Extends, Extends-refl, Extends-trans, All, arith, Bool-cases, Option-cases,
  inl, inr,
}
use mathlib.Core.List.{append_assoc}
use biscuit_go.Symbol.{SymbolTable, default_symbols, position, insert, extend}
use biscuit_go.Symbol.Laws.{
  insert_default, insert_known, insert_new, insert-insert_self, insert-prefix, position-append,
}

-- Inserting the string leaves the table as it is.
abbrev pub Known : SymbolTable → Bytes → Type 0
Known t s = (insert s t).1 ≡ t

Known-append : (t u : SymbolTable) (s : Bytes) → Known t s → Known (t ++ u) s
Known-append t u s k = elim (Option-cases (position s default_symbols)) [
  | inr default ↦ rw (insert_default s (t ++ u) default.0 default.1) refl
  | inl fresh ↦ elim (Option-cases (position s t)) [
    | inr here ↦
        rw (insert_known s (t ++ u) here.0 fresh (position-append s t u here.0 here.1)) refl
    | inl new ↦ absurd (
        let grown = ap (λ r. r.1) (sym (insert_new s t fresh new)) ∙ k in
        omega (arith, ap length grown, length-append t (s ∷ [])))
  ]
]

pub extend-Extends : (t other : SymbolTable) → Extends t (extend t other)
unfolding extend
extend-Extends t [] = Extends-refl t
extend-Extends t (s ∷ other) =
    let t1 = (insert s t).1 in
    let (u, e, short) = insert-prefix s t in
    Extends-trans t t1 (extend t1 other) (u, e) (extend-Extends t1 other)

Known-Extends : (t T : SymbolTable) (s : Bytes) → Extends t T → Known t s → Known T s
Known-Extends t T s (u, e) k = rw e (Known-append t u s k)

extend-Known : (t other : SymbolTable) → All (Known (extend t other)) other
unfolding extend
extend-Known t [] = tt
extend-Known t (s ∷ other) =
    let t1 = (insert s t).1 in
    (
      Known-Extends t1 (extend t1 other) s (extend-Extends t1 other)
          (ap (λ r. r.1) (insert-insert_self s t)),
      extend-Known t1 other,
    )

extend_unchanged : (t other : SymbolTable) → All (Known t) other → extend t other ≡ t
unfolding extend
extend_unchanged t [] k = refl
extend_unchanged t (s ∷ other) (k, ks) = rw k (extend_unchanged t other ks)

-- A table that is extended by the same table a second time stays as it is.
pub extend-extend : (t other : SymbolTable) → extend (extend t other) other ≡ extend t other
extend-extend t other = extend_unchanged (extend t other) other (extend-Known t other)

position-middle : (p u : SymbolTable) (s : Bytes) → (i : ℕ) × (position s (p ++ s ∷ u) ≡ some i)
unfolding position
position-middle [] u s = (0, rw (bytes_eq_refl s) refl)
position-middle (v ∷ p) u s =
    let (i, h) = position-middle p u s in
    elim (Bool-cases (bytes_eq v s)) [
      | inl same ↦ (0, rw same refl)
      | inr other ↦ (i + 1, rw (other, h) refl)
    ]

Known-middle : (p u : SymbolTable) (s : Bytes) → Known (p ++ s ∷ u) s
Known-middle p u s = elim (Option-cases (position s default_symbols)) [
  | inr default ↦ rw (insert_default s (p ++ s ∷ u) default.0 default.1) refl
  | inl fresh ↦
      let (i, h) = position-middle p u s in rw (insert_known s (p ++ s ∷ u) i fresh h) refl
]

own-Known : (p u : SymbolTable) → All (Known (p ++ u)) u
own-Known p [] = tt
own-Known p (s ∷ u) = (
  Known-middle p u s,
  subst (λ t. All (Known t) u) (append_assoc p (s ∷ []) u) (own-Known (p ++ s ∷ []) u),
)

-- A table that is extended by itself stays as it is.
pub extend_self : (t : SymbolTable) → extend t t ≡ t
extend_self t = extend_unchanged t t (own-Known [] t)
