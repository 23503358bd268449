-- ===== src/Prelude/Outcome.antt =====
-- What a Go call ends in: a value, an error value, or a panic.
use Prim.Native.Nat.{ℕ}
use mathlib.Core.Path.{◌≡◌, refl}
use mathlib.Core.List.{List, [], ◌∷◌}

-- The error values that the modelled functions return, without their texts.
pub data Error : Type 0 where
  unknown_variable stack_overflow empty_stack type_mismatch unexpected_type : Error
  invalid_stack div_by_zero int64_overflow invalid_regex : Error
  invalid_rule : ℕ → Error
  max_facts max_iterations timeout : Error
  empty_origin invalid_number number_range : Error
  unsupported_kind missing_key invalid_key_index : Error
  nil_public_key nil_external_signature invalid_set unsupported_version : Error
  unsupported_algorithm invalid_key_size invalid_signature_size invalid_signature : Error
  key_mismatch sealed missing_proof symbol_overlap unsupported_content : Error
  no_public_key fact_not_found duplicate_fact empty_field legacy_field : Error
  policy_denied no_matching_policy checks_failed : Error

pub data Run {ℓ} (A : Type ℓ) : Type ℓ where
  ok : A → Run A
  err : Error → Run A
  panic : Run A

module _ {ℓ κ} {A : Type ℓ} {B : Type κ} where
  infixl 5 ◌>>=◌
  -- The next call is made only on a value.
  abbrev pub ◌>>=◌ : Run A → (A → Run B) → Run B
  panic >>= next = panic
  err e >>= next = err e
  ok a >>= next = next a

-- A loop that calls for each element, and stops at the first that gives no value.
unfoldable pub map_run {ℓ κ} : {A : Type ℓ} {B : Type κ} → (A → Run B) → List A → Run (List B)
map_run f [] = ok []
map_run f (a ∷ as_) = do b ← f a; bs ← map_run f as_; ok (b ∷ bs)

-- A chain of two calls that ends in a value: the first gives one, and so does the second on it.
pub ok->>= {ℓ κ} :
    {A : Type ℓ} {B : Type κ} (r : Run A) (next : A → Run B) (b : B)
    → (r >>= next) ≡ ok b
    → (a : A) × (r ≡ ok a) × (next a ≡ ok b)
ok->>= (ok a) next b h = (a, refl, h)
ok->>= (err e) next b h = cc
ok->>= panic next b h = cc

-- What a value is made of.
pub ok-same : {A : Type 0} {a b : A} → ok a ≡ ok b → a ≡ b
ok-same h = cc

pub ok-pair :
    {A B : Type 0} {a c : A} {b d : B}
    → ◌≡◌ {A = Run (A × B)} (ok (a, b)) (ok (c, d))
    → (a ≡ c) × (b ≡ d)
ok-pair h = (cc, cc)
