-- ===== src/PublicKey.antt =====
-- datalog/publickeys.go: the table of the public keys that scopes name by their index.
pub mod Lookup
use biscuit_go.Prelude.{
  ℕ, ◌+◌, ◌==◌, Bool, ◌&&◌, Option, none, some, List, [], ◌∷◌, ◌++◌, Bytes, bytes_eq, length, take,
  drop, leb, if◌then◌else◌, Run, ok, panic,
}

-- `Algorithm` is the number of an enumeration of the protobuf schema.
pub record PublicKey : Type 0 where
  pub key : Bytes
  pub algorithm : ℕ

unfoldable pub equal_keys : PublicKey → PublicKey → Bool
equal_keys pk other = (pk.algorithm == other.algorithm) && bytes_eq pk.key other.key

abbrev pub PublicKeyTable : Type 0
PublicKeyTable = List PublicKey

-- The loop of `Index`, and of `Insert`: the first index of an equal key.
unfoldable pub index_key : PublicKey → PublicKeyTable → Option ℕ
unfolding equal_keys
index_key pk [] = none
index_key pk (existing ∷ t) =
    let rest = index_key pk t in
    if equal_keys existing pk then some 0 else elim rest [ none ↦ none | some i ↦ some (i + 1) ]

-- The index of the key, and the table afterwards.
unfoldable pub insert_key : PublicKey → PublicKeyTable → ℕ × PublicKeyTable
unfolding index_key
insert_key pk t = elim (index_key pk t) [ some i ↦ (i, t) | none ↦ (length t, t ++ pk ∷ []) ]

unfoldable pub extend_keys : PublicKeyTable → PublicKeyTable → PublicKeyTable
unfolding insert_key
extend_keys t [] = t
extend_keys t (pk ∷ other) = extend_keys (insert_key pk t).1 other

-- The receiver afterwards, and the new table.
unfoldable pub split_off_keys : ℕ → PublicKeyTable → Run (PublicKeyTable × PublicKeyTable)
split_off_keys at t = if leb at (length t) then ok (take at t, drop at t) else panic
