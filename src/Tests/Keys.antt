-- ===== src/Tests/Keys.antt =====
-- The look-up in a table of public keys, on keys of one text and different algorithms.
use biscuit_go.Prelude.{ℕ, ◌≡◌, ◌≤◌, refl, some, List, [], ◌∷◌, ◌++◌, length}
use biscuit_go.PublicKey.{PublicKey, index_key}

-- Two keys of the same bytes and different algorithms.
abbrev first_key : PublicKey
first_key = record { key = 7 ∷ 8 ∷ []; algorithm = 0 }

abbrev second_key : PublicKey
second_key = record { key = 7 ∷ 8 ∷ []; algorithm = 1 }

found_second : index_key second_key (first_key ∷ second_key ∷ []) ≡ some 1
unfolding index_key biscuit_go.Prelude.bytes_eq
found_second = refl
