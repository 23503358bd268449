-- ===== src/Symbol/Splitting.antt =====
-- Splitting a table and joining tables.
use biscuit_go.Prelude.{
  ℕ, ◌<◌, ◌≤◌, ◌≡◌, refl, ap, sym, ◌∙◌, Bool, true, false, ◌||◌, ◌↔◌, none, some, [], ◌∷◌, ◌++◌, ok,
  panic, Bytes, bytes_eq, bytes_eq_refl, bytes_eq-eq, any, length, get_elem?, take, drop,
  take-append-drop, length-take, get_elem?-snoc, arith, Bool-cases, inl, inr, Option-cases,
}
use mathlib.Core.List.{append-nil, append_assoc}
use biscuit_go.Symbol.{
  SymbolTable, default_symbols, position, insert, split_off, holds, is_disjoint, extend,
}
use biscuit_go.Symbol.Laws.{
  insert_default, insert_known, insert_new, insert-prefix, position-append, position-append_self,
}

-- Both parts of a split, one after the other, are the table again, and the first has `at` entries.
pub split_off-append :
    (at : ℕ) (t : SymbolTable)
    → at ≤ length t
    → (kept split : SymbolTable) × (split_off at t ≡ ok (kept, split))
      × (kept ++ split ≡ t)
      × (length kept ≡ at)
unfolding split_off
split_off-append at t h =
    (take at t, drop at t, ground arith, take-append-drop at t, length-take at t h)

-- Past the end it panics.
pub split_off_panics : (at : ℕ) (t : SymbolTable) → length t < at → split_off at t ≡ panic
unfolding split_off
split_off_panics at t h = ground arith

not-holds_of_any :
    (t other : SymbolTable) (s : Bytes)
    → any (holds t) other ≡ false
    → holds other s ≡ true
    → holds t s ≡ false
not-holds_of_any t [] s h m = unfold holds in cc
not-holds_of_any t (v ∷ other) s h m = elim (Bool-cases (bytes_eq v s)) [
  | inl same ↦ rw (← bytes_eq-eq v s same) (or-false_left _ _ h)
  | inr differ ↦
      not-holds_of_any t other s (or-false_right (holds t v) _ h) (holds-cons other v s differ m)
]
  where
    or-false_left : (a b : Bool) → (a || b) ≡ false → a ≡ false
    or-false_left a b k = ground arith

    or-false_right : (a b : Bool) → (a || b) ≡ false → b ≡ false
    or-false_right a b k = ground arith

    holds-cons :
        (l : SymbolTable) (w r : Bytes)
        → bytes_eq w r ≡ false
        → holds (w ∷ l) r ≡ true
        → holds l r ≡ true
    holds-cons l w r d k = unfold holds in ground arith

any-holds_of :
    (t other : SymbolTable)
    → ((s : Bytes) → holds other s ≡ true → holds t s ≡ false)
    → any (holds t) other ≡ false
any-holds_of t [] h = refl
any-holds_of t (v ∷ other) h = ground (
  arith,
  h v (unfold holds in ground (arith, bytes_eq_refl v)),
  any-holds_of t other (λ s m. h s (unfold holds in ground arith)),
)

-- `IsDisjoint` answers true exactly when no string of the other table stands in the table.
pub is_disjoint_iff :
    (t other : SymbolTable)
    → (is_disjoint t other ≡ true) ↔ ((s : Bytes) → holds other s ≡ true → holds t s ≡ false)
is_disjoint_iff t other = (
  λ h s m. not-holds_of_any t other s (unfold is_disjoint in ground arith) m,
  λ h. unfold is_disjoint in ground (arith, any-holds_of t other h),
)

-- No string of the table is a default symbol, and each is found at its own index: none stands in it
-- twice.
abbrev pub Distinct : SymbolTable → Type 0
Distinct t =
    (i : ℕ) (s : Bytes)
    → get_elem? t i ≡ some s
    → (position s default_symbols ≡ none) × (position s t ≡ some i)

snoc-Distinct :
    (s : Bytes) (t : SymbolTable)
    → position s default_symbols ≡ none
    → position s t ≡ none
    → Distinct t
    → Distinct (t ++ s ∷ [])
snoc-Distinct s t fresh new d i r h = elim (get_elem?-snoc t s i h) [
  | inl old ↦ let (q, p) = d i r old in (q, position-append r t (s ∷ []) i p)
  | inr last ↦ rw (last.0, ← last.1) (fresh, position-append_self s t new)
]

-- `Insert` adds no string that the table or the defaults have.
pub insert-Distinct : (s : Bytes) (t : SymbolTable) → Distinct t → Distinct (insert s t).1
insert-Distinct s t d = elim (Option-cases (position s default_symbols)) [
  | inl fresh ↦ elim (Option-cases (position s t)) [
    | inl new ↦ rw (insert_new s t fresh new) (snoc-Distinct s t fresh new d)
    | inr known ↦ rw (insert_known s t known.0 fresh known.1) d
  ]
  | inr default ↦ rw (insert_default s t default.0 default.1) d
]

-- `Extend` of a table whose strings are distinct, and no default symbols, leaves it as a prefix of
-- the result, whose strings are distinct, and no default symbols.
pub extend_lem :
    (t other : SymbolTable)
    → Distinct t
    → Distinct (extend t other) × ((u : SymbolTable) × (extend t other ≡ t ++ u))
unfolding extend
extend_lem t [] d = (d, ([], sym (append-nil t)))
extend_lem t (s ∷ other) d =
    let (u, grown, _) = insert-prefix s t in
    let (distinct, (w, rest)) = extend_lem (insert s t).1 other (insert-Distinct s t d) in
    (distinct, (u ++ w, rest ∙ ap (λ l. l ++ w) grown ∙ append_assoc t u w))
