-- ===== src/PublicKey/Lookup.antt =====
-- `Insert`, `Index` and `Extend` of the table of public keys (datalog/publickeys.go).
use mathlib.Core.List.{append-nil, append_assoc}
use biscuit_go.Prelude.{
  ℕ, zero, suc, ◌≤◌, ◌≡◌, refl, sym, ap, ◌∙◌, inl, inr, true, none, some, [], ◌∷◌, ◌++◌, length,
  bytes_eq_refl, bytes_eq-eq, get_elem?, get_elem?-append_left, Extends, arith, Option-cases,
}
use biscuit_go.PublicKey.{PublicKey, PublicKeyTable, equal_keys, index_key, insert_key, extend_keys}

equal_keys_refl : (pk : PublicKey) → equal_keys pk pk ≡ true
unfolding equal_keys
equal_keys_refl pk = ground (arith, bytes_eq_refl pk.key)

index_key-append_self :
    (pk : PublicKey) (t : PublicKeyTable)
    → index_key pk t ≡ none
    → index_key pk (t ++ pk ∷ []) ≡ some (length t)
unfolding index_key
index_key-append_self pk [] h = ground (arith, equal_keys_refl pk)
index_key-append_self pk (k ∷ t) h = ground (arith, index_key-append_self pk t)

index_key-append :
    (pk : PublicKey) (t u : PublicKeyTable) (i : ℕ)
    → index_key pk t ≡ some i
    → index_key pk (t ++ u) ≡ some i
unfolding index_key
index_key-append pk [] u i h = ground arith
index_key-append pk (k ∷ t) u zero h = ground arith
index_key-append pk (k ∷ t) u (suc i) h = ground (arith, index_key-append pk t u i)

insert_known :
    (pk : PublicKey) (t : PublicKeyTable) (i : ℕ)
    → index_key pk t ≡ some i
    → insert_key pk t ≡ (i, t)
unfolding insert_key
insert_known pk t i h = rw (h, insert_key) refl

pub insert_unknown :
    (pk : PublicKey) (t : PublicKeyTable)
    → index_key pk t ≡ none
    → insert_key pk t ≡ (length t, t ++ pk ∷ [])
unfolding insert_key
insert_unknown pk t h = rw (h, insert_key) refl

-- After inserting a key, looking it up gives the index that the insertion gave, and the table
-- before it is a prefix of the table after it, which has at most one key more.
pub index_key-insert_key :
    (pk : PublicKey) (t : PublicKeyTable)
    → (index_key pk (insert_key pk t).1 ≡ some (insert_key pk t).0)
      × ((u : PublicKeyTable) × ((insert_key pk t).1 ≡ t ++ u) × (length u ≤ 1))
index_key-insert_key pk t = elim (Option-cases (index_key pk t)) [
  | inl h ↦ rw (insert_unknown pk t h) (index_key-append_self pk t h, (pk ∷ [], refl, omega arith))
  | inr (i, h) ↦ rw (insert_known pk t i h) (h, ([], sym (append-nil t), omega arith))
]

-- The table is a prefix of the extended one.
extend_keys-prefix :
    (t other : PublicKeyTable) → (u : PublicKeyTable) × (extend_keys t other ≡ t ++ u)
unfolding extend_keys
extend_keys-prefix t [] = ([], sym (append-nil t))
extend_keys-prefix t (pk ∷ other) =
    let (u, e, short) = (index_key-insert_key pk t).1 in
    let (v, f) = extend_keys-prefix (insert_key pk t).1 other in
    (u ++ v, f ∙ ap (λ l. l ++ v) e ∙ append_assoc t u v)

-- A key that a table has is found at the same index after the table is extended by another.
pub index_key-extend_keys :
    (t other : PublicKeyTable) (pk : PublicKey) (i : ℕ)
    → index_key pk t ≡ some i
    → index_key pk (extend_keys t other) ≡ some i
index_key-extend_keys t other pk i h =
    let (u, e) = extend_keys-prefix t other in ap (index_key pk) e ∙ index_key-append pk t u i h

equal_keys-eq : (k pk : PublicKey) → equal_keys k pk ≡ true → k ≡ pk
unfolding equal_keys
equal_keys-eq k pk h = ground (arith, bytes_eq-eq k.key pk.key)

index_key-get_elem? :
    (pk : PublicKey) (t : PublicKeyTable) (i : ℕ)
    → index_key pk t ≡ some i
    → get_elem? t i ≡ some pk
unfolding index_key
index_key-get_elem? pk [] i h = ground arith
index_key-get_elem? pk (k ∷ t) zero h = ground (arith, equal_keys-eq k pk)
index_key-get_elem? pk (k ∷ t) (suc i) h = ground (arith, index_key-get_elem? pk t i)

-- The index of an inserted key names that key in every table that grows out of the insertion.
pub get_elem?-insert_key :
    (pk : PublicKey) (t T : PublicKeyTable)
    → Extends (insert_key pk t).1 T
    → get_elem? T (insert_key pk t).0 ≡ some pk
get_elem?-insert_key pk t T (u, e) =
    let t' = (insert_key pk t).1 in
    let i = (insert_key pk t).0 in
    rw e (get_elem?-append_left t' u i (index_key-get_elem? pk t' i (index_key-insert_key pk t).0))

pub insert_key-Extends : (pk : PublicKey) (t : PublicKeyTable) → Extends t (insert_key pk t).1
insert_key-Extends pk t = let (u, e, short) = (index_key-insert_key pk t).1 in (u, e)
