-- ===== src/Expression/Unary.antt =====
-- The `Eval` methods of the unary operations.
use biscuit_go.Prelude.{not, length as count, pos, Error}
use biscuit_go.Term.{Term, integer, string, bytes, bool, set, list_of}
use biscuit_go.Expression.{UnaryOpFunc, negate, parens, length}
use biscuit_go.Expression.Effect.{M, return, fail, read_str, ◌>>=◌}

unfoldable pub eval_negate : Term → M Term
eval_negate (bool b) = return (bool (not b))
eval_negate _ = fail Error.unexpected_type

unfoldable pub eval_length : Term → M Term
eval_length (string s) = do text ← read_str s; return (integer (pos (count text)))
eval_length (bytes b) = return (integer (pos (count b)))
eval_length (set ts) = return (integer (pos (count (list_of ts))))
eval_length _ = fail Error.unexpected_type

unfoldable pub eval_unary : UnaryOpFunc → Term → M Term
unfolding eval_negate eval_length
eval_unary negate v = eval_negate v
eval_unary parens v = return v
eval_unary length v = eval_length v
