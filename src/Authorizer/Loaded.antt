-- ===== src/Authorizer/Loaded.antt =====
-- authorizer.go, `Build`: the checks and policies that an authorizer has of its token and its builder.
use biscuit_go.Origin
use biscuit_go.Evaluator.{Check as DatalogCheck}
use biscuit_go.Block.{Block}
