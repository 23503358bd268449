-- ===== src/Expression/Tree.antt =====
-- The stack machine of datalog/expressions.go against expression trees.
use mathlib.Core.Path.{◌≡⟨◌⟩◌, ◌∎, fun_ext}
use mathlib.Core.List.{append_assoc, append-nil}
use biscuit_go.Prelude.{
  ℕ, ◌+◌, ◌≤◌, ◌<◌, ◌≡◌, refl, ap, sym, ◌∙◌, List, [], ◌∷◌, ◌++◌, Run, ok, err, panic, leb,
  if◌then◌else◌, length, arith,
}
use biscuit_go.Symbol.{SymbolTable}
use biscuit_go.Term.{Term}
use biscuit_go.Expression.{UnaryOpFunc, BinaryOpFunc, Op, value, unary, binary}
use biscuit_go.Expression.Effect.{Runtime, M, lift, ◌>>=◌, continue, continue_assoc}
use biscuit_go.Expression.Unary.{eval_unary}
use biscuit_go.Expression.Binary.{eval_binary}
use biscuit_go.Expression.Machine.{
  Values, max_stack_size, push, pop, resolve, step, run_ops, result_of, evaluate,
}

-- What the parser reads, before it writes the operations down in postfix order.
pub data Tree : Type 0 where
  leaf : Term → Tree
  unary_node : UnaryOpFunc → Tree → Tree
  binary_node : BinaryOpFunc → Tree → Tree → Tree

abbrev pub postfix : Tree → List Op
postfix (leaf t) = value t ∷ []
postfix (unary_node f t) = postfix t ++ unary f ∷ []
postfix (binary_node f l r) = postfix l ++ (postfix r ++ binary f ∷ [])

-- How many places of the stack a tree needs.
abbrev pub need : Tree → ℕ
need (leaf t) = 1
need (unary_node f t) = need t
need (binary_node f l r) = if leb (need l) (need r) then need r + 1 else need l

module _ (rt : Runtime) (values : Values) where
  -- The value of a tree: operands from left to right, then the operation.
  abbrev pub eval_tree : Tree → M Term
  eval_tree (leaf t) = lift (resolve values t)
  eval_tree (unary_node f t) = eval_tree t >>= eval_unary f
  eval_tree (binary_node f l r) = eval_tree l >>= λ a. eval_tree r >>= λ b. eval_binary rt f a b

  need-pos : (t : Tree) → 0 < need t
  need-pos (leaf t) = omega arith
  need-pos (unary_node f t) = need-pos t
  need-pos (binary_node f l r) = ground (arith, need-pos l, need-pos r)

  push_room : (v : Term) (s : List Term) → length s < max_stack_size → push v s ≡ ok (v ∷ s)
  unfolding push
  push_room v s h = ground arith

  then_push :
      (r : Run Term × SymbolTable) (s : List Term) (next : List Term → M (List Term))
      → length s < max_stack_size
      → continue (continue r (λ v. lift (push v s))) next ≡ continue r (λ v. next (v ∷ s))
  then_push (ok v, u) s next room = rw (push_room v s room)
  then_push (err e, u) s next room = refl
  then_push (panic, u) s next room = refl

  -- What one operation does to a stack that has its operands and room for its result.
  run_value :
      (t : Term) (rest : List Op) (s : List Term) (table : SymbolTable)
      → length s < max_stack_size
      → run_ops rt values (value t ∷ rest) s table
        ≡ continue (lift (resolve values t) table) (λ v. run_ops rt values rest (v ∷ s))
  unfolding run_ops step
  run_value t rest s table room =
      then_push (lift (resolve values t) table) s (run_ops rt values rest) room

  run_unary :
      (f : UnaryOpFunc) (rest : List Op) (v : Term) (s : List Term) (table : SymbolTable)
      → length s < max_stack_size
      → run_ops rt values (unary f ∷ rest) (v ∷ s) table
        ≡ continue (eval_unary f v table) (λ r. run_ops rt values rest (r ∷ s))
  unfolding run_ops step pop
  run_unary f rest v s table room = then_push (eval_unary f v table) s (run_ops rt values rest) room

  run_binary :
      (f : BinaryOpFunc) (rest : List Op) (a b : Term) (s : List Term) (table : SymbolTable)
      → length s < max_stack_size
      → run_ops rt values (binary f ∷ rest) (b ∷ a ∷ s) table
        ≡ continue (eval_binary rt f a b table) (λ r. run_ops rt values rest (r ∷ s))
  unfolding run_ops step pop
  run_binary f rest a b s table room =
      then_push (eval_binary rt f a b table) s (run_ops rt values rest) room

  -- The code of a tree pushes its value, whatever code follows and whatever lies below, where the
  -- stack has room for it.
  pub run_ops-postfix :
      (t : Tree) (rest : List Op) (s : List Term) (table : SymbolTable)
      → length s + need t ≤ max_stack_size
      → run_ops rt values (postfix t ++ rest) s table
        ≡ continue (eval_tree t table) (λ v. run_ops rt values rest (v ∷ s))
  run_ops-postfix (leaf t) rest s table room = run_value t rest s table omega arith
  run_ops-postfix (unary_node f t) rest s table room =
      run_ops rt values ((postfix t ++ unary f ∷ []) ++ rest) s table
      ≡⟨ ap (λ ops. run_ops rt values ops s table) (append_assoc (postfix t) (unary f ∷ []) rest) ⟩
        run_ops rt values (postfix t ++ unary f ∷ rest) s table
      ≡⟨ run_ops-postfix t (unary f ∷ rest) s table room ⟩
        continue (eval_tree t table) (λ v. run_ops rt values (unary f ∷ rest) (v ∷ s))
      ≡⟨ ap (continue (eval_tree t table))
          (fun_ext (λ v. fun_ext (λ u. run_unary f rest v s u (ground (arith, need-pos t))))) ⟩
        continue (eval_tree t table) (λ v. eval_unary f v >>= λ r. run_ops rt values rest (r ∷ s))
      ≡⟨ sym (continue_assoc (eval_tree t table) _ _) ⟩
        continue (eval_tree (unary_node f t) table) (λ v. run_ops rt values rest (v ∷ s)) ∎
  run_ops-postfix (binary_node f l r) rest s table room =
      run_ops rt values ((postfix l ++ (postfix r ++ binary f ∷ [])) ++ rest) s table
      ≡⟨ ap (λ ops. run_ops rt values ops s table)
          (append_assoc (postfix l) _ rest
            ∙ ap (λ ops. postfix l ++ ops) (append_assoc (postfix r) _ rest)) ⟩
        run_ops rt values (postfix l ++ (postfix r ++ binary f ∷ rest)) s table
      ≡⟨ run_ops-postfix l _ s table (ground arith) ⟩
        continue (eval_tree l table) (λ a. run_ops rt values (postfix r ++ binary f ∷ rest) (a ∷ s))
      ≡⟨ ap (continue (eval_tree l table)) (
          fun_ext
            (λ a. fun_ext (λ u. run_ops-postfix r _ (a ∷ s) u (ground (arith, need-pos l))))) ⟩
        continue (eval_tree l table)
          (λ a. eval_tree r >>= λ b. run_ops rt values (binary f ∷ rest) (b ∷ a ∷ s))
      ≡⟨ ap (continue (eval_tree l table)) (
          fun_ext (λ a. fun_ext (λ u.
            ap (continue (eval_tree r u))
              (fun_ext (λ b. fun_ext (λ w. run_binary f rest a b s w (ground (arith, need-pos l)))))
            ∙ sym (continue_assoc (eval_tree r u) _ _)))) ⟩
        continue (eval_tree l table)
          (λ a. (eval_tree r >>= λ b. eval_binary rt f a b) >>= λ v. run_ops rt values rest (v ∷ s))
      ≡⟨ sym (continue_assoc (eval_tree l table) _ _) ⟩
        continue (eval_tree (binary_node f l r) table) (λ v. run_ops rt values rest (v ∷ s)) ∎

  -- `Evaluate`, on the postfix code of an expression tree that needs at most 1,000 places of the
  -- stack, gives the value of the tree, or its error, and the symbol table that evaluating the tree
  -- leaves.
  pub evaluate-postfix :
      (t : Tree) (table : SymbolTable)
      → need t ≤ max_stack_size
      → evaluate rt values (postfix t) table ≡ eval_tree t table
  unfolding evaluate
  evaluate-postfix t table room =
      evaluate rt values (postfix t) table
      ≡⟨ ap (λ ops. continue (run_ops rt values ops [] table) (result_of rt values))
          (sym (append-nil (postfix t))) ⟩
        continue (run_ops rt values (postfix t ++ []) [] table) (result_of rt values)
      ≡⟨ ap (λ r. continue r (result_of rt values)) (run_ops-postfix t [] [] table (omega arith)) ⟩
        continue (continue (eval_tree t table) (λ v. run_ops rt values [] (v ∷ [])))
          (result_of rt values)
      ≡⟨ only_value (eval_tree t table) ⟩ eval_tree t table ∎
    where
      only_value :
          (r : Run Term × SymbolTable)
          → continue (continue r (λ v. run_ops rt values [] (v ∷ []))) (result_of rt values) ≡ r
      only_value (ok v, u) = unfold run_ops in unfold result_of in refl
      only_value (err e, u) = refl
      only_value (panic, u) = refl
