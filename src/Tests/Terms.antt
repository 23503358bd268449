-- ===== src/Tests/Terms.antt =====
-- The theorem of the terms on sets of two symbols.
use biscuit_go.Prelude.{◌≡◌, ◌≢◌, true, arith}
use biscuit_go.Term.{equal, hashed}
use biscuit_go.Term.Equality.{hashed-set_order, pair}

hashed-set_order_example :
    (equal (pair 1 2) (pair 2 1) ≡ true) × (hashed (pair 1 2) ≢ hashed (pair 2 1))
hashed-set_order_example = hashed-set_order 1 2 (omega arith) (omega arith) (λ e. ground arith)
