-- ===== src/Tests.antt =====
-- Runs of the model on small inputs, and the theorems applied to them.
mod Sets
mod Symbols
mod Origins
mod Terms
mod Expressions
mod Engine
mod Keys
mod Tokens
mod Authorizers
mod Surfaces
use biscuit_go.Prelude.{ℕ, List, [], ◌∷◌, Bytes, length, Option, none}
use biscuit_go.Expression.Effect.{Runtime}

-- A hash that sends equal bytes to equal numbers, as the model asks of it, and that has collisions.
abbrev pub test_digest : Bytes → ℕ
test_digest bytes = length bytes

abbrev pub test_runtime : Runtime
test_runtime = record { digest = test_digest; compile = λ pattern_text. none }
