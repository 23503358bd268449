-- ===== src/Expression/Effect.antt =====
-- Evaluation shares one symbol table, which `Add` extends: a call takes the table and gives its result
-- and the table afterwards, also where it fails. What the program takes from the standard library's
-- `hash/maphash` and `regexp` is a parameter.
use biscuit_go.Prelude.{ℕ, ◌≡◌, refl, Bool, Option, Bytes, Run, ok, err, panic, Error}
use biscuit_go.Symbol.{SymbolTable, str, insert}

-- `digest` is the seeded hash of the bytes written; `compile` is `regexp.Compile`, with the test that
-- the compiled expression makes.
pub record Runtime : Type 0 where
  pub digest : Bytes → ℕ
  pub compile : Bytes → Option (Bytes → Bool)

abbrev pub M {ℓ} : Type ℓ → Type ℓ
M A = SymbolTable → Run A × SymbolTable

abbrev pub continue {ℓ κ} :
    {A : Type ℓ} {B : Type κ} → Run A × SymbolTable → (A → M B) → Run B × SymbolTable
continue (ok a, t) f = f a t
continue (err e, t) f = (err e, t)
continue (panic, t) f = (panic, t)

infixl 5 ◌>>=◌
abbrev pub ◌>>=◌ {ℓ κ} : {A : Type ℓ} {B : Type κ} → M A → (A → M B) → M B
◌>>=◌ m f t = continue (m t) f

abbrev pub return {ℓ} : {A : Type ℓ} → A → M A
return a t = (ok a, t)

abbrev pub fail {ℓ} : {A : Type ℓ} → Error → M A
fail e t = (err e, t)

-- A call that does not touch the symbol table.
abbrev pub lift {ℓ} : {A : Type ℓ} → Run A → M A
lift r t = (r, t)

abbrev pub read_str : ℕ → M Bytes
read_str s t = (str t s, t)

abbrev pub intern : Bytes → M ℕ
intern s t = (ok (insert s t).0, (insert s t).1)

pub continue_assoc {ℓ} :
    {A B C : Type ℓ} (r : Run A × SymbolTable) (f : A → M B) (g : B → M C)
    → continue (continue r f) g ≡ continue r (λ a. f a >>= g)
continue_assoc (ok a, t) f g = refl
continue_assoc (err e, t) f g = refl
continue_assoc (panic, t) f g = refl
