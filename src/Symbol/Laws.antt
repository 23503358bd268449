-- ===== src/Symbol/Laws.antt =====
-- `Insert` and `Str` of the symbol table (datalog/symbol.go).
use biscuit_go.Prelude.{
  ℕ, suc, ◌+◌, ◌-◌, ◌^◌, ◌<◌, ◌≤◌, ◌%◌, ◌≡◌, refl, Extends, ap, sym, ◌∙◌, true, false, none, some,
  [], ◌∷◌, ◌++◌, ok, panic, Bytes, codes, bytes_eq, bytes_eq_refl, bytes_eq-eq, wrap_int64, pos,
  ltb, lt→ltb, get_elem?-lt, length, length-append, get_elem?, get_elem?-append_left,
  get_elem?-append_length, arith, Bool-cases, inl, inr, Option-cases,
}
use biscuit_go.Symbol.{
  SymbolTable, default_symbols, offset, position, insert, element_at, resolve, str,
}
use mathlib.Core.List.{append-nil}

-- A table whose symbols all fit a Go `int`.
abbrev pub Fits : SymbolTable → Type 0
Fits t = offset + length t < 2 ^ 63

-- The first index of a string, one step down the list.
position-cons-same :
    (s v : Bytes) (t : SymbolTable) → bytes_eq v s ≡ true → position s (v ∷ t) ≡ some 0
unfolding position
position-cons-same s v t h = rw h

position-cons-other :
    (s v : Bytes) (t : SymbolTable) (i : ℕ)
    → position s (v ∷ t) ≡ some i
    → bytes_eq v s ≡ false
    → (j : ℕ) × (position s t ≡ some j) × (i ≡ suc j)
unfolding position
position-cons-other s v t i h e = elim (Option-cases (position s t)) [
  | inl absent ↦ ground (arith, absent)
  | inr found ↦ (found.0, found.1, ground (arith, found.1))
]

position-cons-next :
    (s v : Bytes) (t : SymbolTable) (j : ℕ)
    → bytes_eq v s ≡ false
    → position s t ≡ some j
    → position s (v ∷ t) ≡ some (suc j)
unfolding position
position-cons-next s v t j e h = rw (e, h) (ap some (omega arith))

length-default_symbols : length default_symbols ≡ 28
unfolding default_symbols
length-default_symbols = refl

position-some :
    (s : Bytes) (t : SymbolTable) (i : ℕ)
    → position s t ≡ some i
    → (get_elem? t i ≡ some s) × (i < length t)
position-some s [] i h = unfold position in cc
position-some s (v ∷ t) i h = elim (Bool-cases (bytes_eq v s)) [
  | inl same ↦
      let first : i ≡ 0 = ground (arith, position-cons-same s v t same) in
      rw first (ap some (bytes_eq-eq v s same), omega arith)
  | inr other ↦
      let (j, found, next) = position-cons-other s v t i h other in
      rw next (let (here, below) = position-some s t j found in (here, omega arith))
]

pub position-append :
    (s : Bytes) (t u : SymbolTable) (i : ℕ) → position s t ≡ some i → position s (t ++ u) ≡ some i
position-append s [] u i h = unfold position in cc
position-append s (v ∷ t) u i h = elim (Bool-cases (bytes_eq v s)) [
  | inl same ↦ position-cons-same s v (t ++ u) same ∙ sym (position-cons-same s v t same) ∙ h
  | inr other ↦
      let (j, found, next) = position-cons-other s v t i h other in
      position-cons-next s v (t ++ u) j other (position-append s t u j found) ∙ ap some (sym next)
]

pub position-append_self :
    (s : Bytes) (t : SymbolTable) → position s t ≡ none → position s (t ++ s ∷ []) ≡ some (length t)
unfolding position
position-append_self s [] h = ground (arith, bytes_eq_refl s)
position-append_self s (v ∷ t) h = ground (arith, position-append_self s t)

-- A symbol that a Go `int` can hold, at its own value.
str_small : (t : SymbolTable) (i : ℕ) → i < 2 ^ 63 → str t i ≡ resolve (codes "symbol") t i (pos i)
unfolding str wrap_int64
str_small t i h = rw (lt→ltb i (2 ^ 63) h)

-- A symbol of the table is read at its distance from `offset`, and one below at the defaults.
pub str_table :
    (t : SymbolTable) (i : ℕ) (s : Bytes)
    → offset + i < 2 ^ 63
    → i < length t
    → get_elem? t i ≡ some s
    → str t (offset + i) ≡ ok s
str_table t i s f below h = str_small t (offset + i) f ∙ go (omega arith) (ground arith)
  where
    go :
        offset + i - offset ≡ i
        → ltb (offset + i) offset ≡ false
        → resolve (codes "symbol") t (offset + i) (pos (offset + i)) ≡ ok s
    go e n = unfold resolve in rw (n, e, lt→ltb i (length t) below, h, element_at)

pub str_default :
    (t : SymbolTable) (i : ℕ) (s : Bytes)
    → i < 28
    → get_elem? default_symbols i ≡ some s
    → str t i ≡ ok s
str_default t i s below h =
    str_small t i (omega arith)
    ∙ go (lt→ltb i offset (omega arith))
        (lt→ltb i (length default_symbols) (omega (arith, length-default_symbols)))
  where
    go :
        ltb i offset ≡ true
        → ltb i (length default_symbols) ≡ true
        → resolve (codes "symbol") t i (pos i) ≡ ok s
    go e n = unfold resolve in rw (e, n, h, element_at)

-- What `insert` does, by what the two loops find.
pub insert_default :
    (s : Bytes) (t : SymbolTable) (i : ℕ)
    → position s default_symbols ≡ some i
    → insert s t ≡ (i, t)
unfolding insert
insert_default s t i h = rw (h, insert)

pub insert_known :
    (s : Bytes) (t : SymbolTable) (i : ℕ)
    → position s default_symbols ≡ none
    → position s t ≡ some i
    → insert s t ≡ (offset + i, t)
unfolding insert
insert_known s t i d h = rw (d, h, insert)

pub insert_new :
    (s : Bytes) (t : SymbolTable)
    → position s default_symbols ≡ none
    → position s t ≡ none
    → insert s t ≡ (offset + length t, t ++ s ∷ [])
unfolding insert
insert_new s t d h = rw (d, h, insert)

-- The symbol resolves in the new table, and in any table that grows out of it.
str-insert-append :
    (s : Bytes) (t u : SymbolTable)
    → offset + length (s ∷ t) + length u < 2 ^ 63
    → str ((insert s t).1 ++ u) (insert s t).0 ≡ ok s
str-insert-append s t u f = elim (Option-cases (position s default_symbols)) [
  | inl fresh ↦ elim (Option-cases (position s t)) [
    | inl new ↦ rw (insert_new s t fresh new) (
        str_table ((t ++ s ∷ []) ++ u) (length t) s (omega arith)
          (omega (arith, length-append (t ++ s ∷ []) u, length-append t (s ∷ [])))
          (get_elem?-append_left (t ++ s ∷ []) u (length t) (get_elem?-append_length t [] s)))
    | inr known ↦
        let (here, below) = position-some s t known.0 known.1 in
        rw (insert_known s t known.0 fresh known.1) (
          str_table (t ++ u) known.0 s (omega arith) (omega (arith, length-append t u))
            (get_elem?-append_left t u known.0 here))
  ]
  | inr default ↦
      let (here, below) = position-some s default_symbols default.0 default.1 in
      rw (insert_default s t default.0 default.1)
        (str_default (t ++ u) default.0 s (omega (arith, length-default_symbols)) here)
]

-- In a table that with the string fits below 2^63, inserting a string gives a symbol that the new
-- table resolves to that string.
pub str-insert :
    (s : Bytes) (t : SymbolTable) → Fits (s ∷ t) → str (insert s t).1 (insert s t).0 ≡ ok s
str-insert s t f = rw append-nil at (str-insert-append s t [] (omega arith))

-- A second insertion of a string finds the first: it gives the same symbol and the same table.
pub insert-insert_self : (s : Bytes) (t : SymbolTable) → insert s (insert s t).1 ≡ insert s t
insert-insert_self s t = elim (Option-cases (position s default_symbols)) [
  | inl fresh ↦ elim (Option-cases (position s t)) [
    | inl new ↦
        rw (insert_new s t fresh new)
          (insert_known s (t ++ s ∷ []) (length t) fresh (position-append_self s t new))
    | inr known ↦
        rw (insert_known s t known.0 fresh known.1) (insert_known s t known.0 fresh known.1)
  ]
  | inr default ↦
      rw (insert_default s t default.0 default.1) (insert_default s t default.0 default.1)
]

-- Insertion only ever appends: the table before it is a prefix of the table after it.
pub insert-prefix :
    (s : Bytes) (t : SymbolTable) → (u : SymbolTable) × ((insert s t).1 ≡ t ++ u) × (length u ≤ 1)
insert-prefix s t = elim (Option-cases (position s default_symbols)) [
  | inl fresh ↦ elim (Option-cases (position s t)) [
    | inl new ↦ (s ∷ [], rw (insert_new s t fresh new), omega arith)
    | inr known ↦
        ([], rw (insert_known s t known.0 fresh known.1) (sym (append-nil t)), omega arith)
  ]
  | inr default ↦
      ([], rw (insert_default s t default.0 default.1) (sym (append-nil t)), omega arith)
]

-- A symbol below 2^63 that the table resolves is resolved to the same string before and after an
-- insertion.
pub str-insert_stable :
    (s : Bytes) (t : SymbolTable) (i : ℕ) (r : Bytes)
    → offset + i < 2 ^ 63
    → get_elem? t i ≡ some r
    → (str t (offset + i) ≡ ok r) × (str (insert s t).1 (offset + i) ≡ ok r)
str-insert_stable s t i r f h =
    let (u, grown, short) = insert-prefix s t in
    let below = get_elem?-lt t i h in
    (
      str_table t i r f below h,
      rw grown (
          str_table (t ++ u) i r f (omega (arith, length-append t u))
            (get_elem?-append_left t u i h)),
    )

ok-injective : {a b : Bytes} → ok a ≡ ok b → a ≡ b
ok-injective h = cc

-- Reading a 64-bit symbol at or above 2^63, which becomes a negative index, panics.
pub str-panics : (t : SymbolTable) (i : ℕ) → 2 ^ 63 ≤ i → i < 2 ^ 64 → str t i ≡ panic
unfolding str wrap_int64 resolve element_at
str-panics t i h k = ground arith

-- In a table that with both strings fits below 2^63, two strings that get the same symbol, one
-- after the other, are the same string.
pub insert-injective :
    (a b : Bytes) (t : SymbolTable)
    → Fits (a ∷ b ∷ t)
    → (insert a t).0 ≡ (insert b (insert a t).1).0
    → a ≡ b
insert-injective a b t f e =
    let t' = (insert a t).1 in
    let (u', grown', short') = insert-prefix a t in
    let (u, grown, short) = insert-prefix b t' in
    let first : str (insert b t').1 (insert a t).0 ≡ ok a =
      rw grown (str-insert-append a t u (omega arith)) in
    let second : str (insert b t').1 (insert b t').0 ≡ ok b =
      str-insert b t' (omega (arith, ap length grown', length-append t u')) in
    ok-injective (sym first ∙ ap (str (insert b t').1) e ∙ second)

-- A table whose symbols all fit a `uint32`, as variables have to.
abbrev pub FitsVariables : SymbolTable → Type 0
FitsVariables t = offset + length t < 2 ^ 32

-- A table that has grown out of an insertion resolves the symbol, which is within the table.
pub str-insert-Extends :
    (s : Bytes) (t T : SymbolTable)
    → Extends (insert s t).1 T
    → FitsVariables T
    → str T (insert s t).0 ≡ ok s
str-insert-Extends s t T (u, e) f =
    let (v, grown, short) = insert-prefix s t in
    rw e (
      str-insert-append s t u (
        omega
          (arith, ap length e, length-append (insert s t).1 u, ap length grown, length-append t v)))

insert-lt : (s : Bytes) (t : SymbolTable) → (insert s t).0 < offset + length (insert s t).1
insert-lt s t = elim (Option-cases (position s default_symbols)) [
  | inl fresh ↦ elim (Option-cases (position s t)) [
    | inl new ↦ rw (insert_new s t fresh new) (omega (arith, length-append t (s ∷ [])))
    | inr known ↦
        let (here, below) = position-some s t known.0 known.1 in
        rw (insert_known s t known.0 fresh known.1) (omega arith)
  ]
  | inr default ↦
      let (here, below) = position-some s default_symbols default.0 default.1 in
      rw (insert_default s t default.0 default.1) (omega (arith, length-default_symbols))
]

-- So the symbol of a variable is not cut off.
pub insert-mod :
    (s : Bytes) (t T : SymbolTable)
    → Extends (insert s t).1 T
    → FitsVariables T
    → (insert s t).0 % 2 ^ 32 ≡ (insert s t).0
insert-mod s t T (u, e) f =
    omega (arith, insert-lt s t, ap length e, length-append (insert s t).1 u)
