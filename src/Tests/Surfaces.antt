-- ===== src/Tests/Surfaces.antt =====
-- The theorems of the surface types and of the messages of blocks, at rules, a check and a block that
-- use every kind of term and of scope.
use biscuit_go.Prelude.{
  ℕ, ◌<◌, ◌^◌, none, some, List, [], ◌∷◌, ◌≡◌, refl, Bytes, codes, pos, negsuc, true, false, length,
  ◌++◌, Run, ok, panic, Extends, Extends-refl, All, arith,
}
use biscuit_go.Symbol.{SymbolTable}
use biscuit_go.PublicKey.{PublicKeyTable}
use biscuit_go.Surface.{
  Term, variable, integer, string, date, bytes, bool, set, nil, cons, Predicate, unary_negate,
  binary_equal, Op, value, unary, binary, PublicKey, authority_scope_type, public_key_scope_type,
  Scope, Expression, Rule, check_all, Check,
}
use biscuit_go.Surface.Compare.{compare_rules}
use biscuit_go.Surface.Convert.{convert_rule, convert_check}
use biscuit_go.Surface.Read.{read_rule, read_check}
use biscuit_go.Surface.OpKept.{rule_to_seconds, check_to_seconds, authority_scope, key_scope}
use biscuit_go.Surface.RoundTrip.{
  convert_rule-ok, read_rule-convert_rule, read_check-convert_check, IsStorableRule,
  IsStorableCheck,
}
use biscuit_go.Surface.Panics.{compare_rules-panics}
use biscuit_go.Term
use biscuit_go.Fact
use biscuit_go.Expression
use biscuit_go.Origin
use biscuit_go.Evaluator
use biscuit_go.Block.{Block}
use biscuit_go.Conversion.Schema.{ProtoBlock}
use biscuit_go.Conversion.Blocks.{block_to_proto, block_from_proto}
use biscuit_go.Conversion.BlockRoundTrip.{
  IsWritableRule, IsWritableBlock, sorted_block, block_from_proto-block_to_proto,
}
use biscuit_go.Conversion.TermRoundTrip.{IsWritablePredicate}
use biscuit_go.Conversion.RoundTrip.{key_scope as key_scope_writable}

abbrev digest : Bytes → ℕ
digest = length

-- `right($x, "a", 2) <- user($x, {"a", "bc"}, time, hex, true), !($x == -1)
-- trusting authority, a key`, with a date that has nanoseconds.
abbrev rule_body : List Predicate
rule_body =
    record {
      name = codes "user";
      ids = cons (variable (codes "x")) (
          cons (set (cons (string (codes "a")) (cons (bytes (1 ∷ 2 ∷ [])) nil)))
            (cons (date (pos 100) 5) (cons (bytes (1 ∷ [])) (cons (bool true) nil))));
    }
    ∷ []

abbrev rule_expressions : List Expression
rule_expressions =
    some (
      value (variable (codes "x"))
      ∷ value (integer (negsuc 0))
      ∷ binary binary_equal
      ∷ unary unary_negate
      ∷ [])
    ∷ []

abbrev no_key : Scope
no_key = record { scope_type = authority_scope_type; key = none }

abbrev with_key : Scope
with_key = record {
  scope_type = public_key_scope_type;
  key = some (record { algorithm = 0; key_bytes = 5 ∷ [] });
}

abbrev rule : Rule
rule = record {
  head = record {
    name = codes "right";
    ids = cons (variable (codes "x")) (cons (string (codes "a")) (cons (integer (pos 2)) nil));
  };
  body = some rule_body;
  expressions = some rule_expressions;
  scopes = some (no_key ∷ with_key ∷ []);
}

rule-IsStorable : IsStorableRule digest rule ([], [])
unfolding biscuit_go.Surface.TermKept.AreStorable Term.hashed biscuit_go.Prelude.little_endian
    biscuit_go.Surface.Compare.hashed biscuit_go.Surface.Convert.convert_predicates
    biscuit_go.Surface.Each.convert_each biscuit_go.Surface.Convert.convert_op
    biscuit_go.Surface.Convert.convert_expression biscuit_go.Surface.Convert.convert_expressions
rule-IsStorable = (
  ((tt, (((tt, (tt, tt)), refl, refl), (refl, (tt, (tt, tt))))), tt),
  (((tt, (tt, (tt, (tt, tt)))), tt), (tt, (tt, (tt, tt)))),
  (authority_scope, (key_scope (record { algorithm = 0; key_bytes = 5 ∷ [] }), tt)),
)

compare_rules-panics_example : compare_rules rule rule ≡ panic
compare_rules-panics_example =
    compare_rules-panics rule rule_body rule_expressions no_key (with_key ∷ []) refl refl (tt, tt)
      refl refl

convert_rule-ok_example :
    (d : biscuit_go.Evaluator.Rule) × (t' : SymbolTable) × (keys' : PublicKeyTable) × (convert_rule
        digest rule
        ([], [])
      ≡ ok (d, (t', keys')))
    × Extends [] t'
    × Extends [] keys'
convert_rule-ok_example = convert_rule-ok digest rule [] [] rule-IsStorable

-- The symbols of `rule`; `right` and `user` are default symbols.
abbrev symbols : SymbolTable
symbols = codes "x" ∷ codes "a" ∷ []

abbrev keys : PublicKeyTable
keys = record { key = 5 ∷ []; algorithm = 0 } ∷ []

abbrev converted : biscuit_go.Evaluator.Rule
converted = record {
  head = record {
    name = 4;
    terms = some (
        biscuit_go.Term.variable 1024
        ∷ biscuit_go.Term.string 1025
        ∷ biscuit_go.Term.integer (pos 2)
        ∷ []);
  };
  body = some (
      record {
        name = 10;
        terms = some (
            biscuit_go.Term.variable 1024
            ∷ biscuit_go.Term.set (
                biscuit_go.Term.cons (biscuit_go.Term.string 1025)
                  (biscuit_go.Term.cons (biscuit_go.Term.bytes (1 ∷ 2 ∷ [])) biscuit_go.Term.nil))
            ∷ biscuit_go.Term.date 100
            ∷ biscuit_go.Term.bytes (1 ∷ [])
            ∷ biscuit_go.Term.bool true
            ∷ []);
      }
      ∷ []);
  expressions = some (
      some (
        biscuit_go.Expression.value (biscuit_go.Term.variable 1024)
        ∷ biscuit_go.Expression.value (biscuit_go.Term.integer (negsuc 0))
        ∷ biscuit_go.Expression.binary biscuit_go.Expression.equal
        ∷ biscuit_go.Expression.unary biscuit_go.Expression.negate
        ∷ [])
      ∷ []);
  scopes = some (
      record { scope_type = biscuit_go.Origin.authority; public_key_table_index = 0 }
      ∷ record { scope_type = biscuit_go.Origin.public_key; public_key_table_index = 0 }
      ∷ []);
}

runs : convert_rule digest rule ([], []) ≡ ok (converted, (symbols, keys))
unfolding convert_rule biscuit_go.Surface.Each.convert_each biscuit_go.Symbol.insert
    biscuit_go.HashSet.to_slice biscuit_go.PublicKey.insert_key biscuit_go.Symbol.position
    biscuit_go.Symbol.default_symbols biscuit_go.Prelude.bytes_eq biscuit_go.HashSet.new_hash_set
    biscuit_go.HashSet.insert_all biscuit_go.HashSet.insert Term.hashed
    biscuit_go.Prelude.little_endian
runs = refl

read_rule-convert_rule_example :
    read_rule digest (symbols ++ codes "later" ∷ []) keys converted ≡ ok (rule_to_seconds rule)
read_rule-convert_rule_example =
    read_rule-convert_rule digest rule [] symbols (symbols ++ codes "later" ∷ []) [] keys keys
      converted rule-IsStorable runs (codes "later" ∷ [], refl) ([], refl) (omega arith)

abbrev check : Check
check = record { queries = some (rule ∷ []); kind = check_all }

check_runs :
    convert_check digest check ([], [])
    ≡ ok (
      record { queries = converted ∷ []; kind = biscuit_go.Evaluator.check_all },
      (symbols, keys),
    )
unfolding convert_check biscuit_go.Surface.Each.convert_each biscuit_go.Symbol.insert
    biscuit_go.HashSet.to_slice biscuit_go.PublicKey.insert_key biscuit_go.Symbol.position
    biscuit_go.Symbol.default_symbols biscuit_go.Prelude.bytes_eq biscuit_go.HashSet.new_hash_set
    biscuit_go.HashSet.insert_all biscuit_go.HashSet.insert Term.hashed
    biscuit_go.Prelude.little_endian
check_runs = refl

check-IsStorable : IsStorableCheck digest check ([], [])
unfolding convert_rule biscuit_go.Surface.Each.convert_each
check-IsStorable = (rule-IsStorable, tt)

read_check-convert_check_example :
    read_check digest symbols keys
      (record { queries = converted ∷ []; kind = biscuit_go.Evaluator.check_all })
    ≡ ok (check_to_seconds check)
read_check-convert_check_example =
    read_check-convert_check digest check [] symbols symbols [] keys keys
      (record { queries = converted ∷ []; kind = biscuit_go.Evaluator.check_all }) check-IsStorable
      check_runs ([], refl) ([], refl) (omega arith)

-- A block with a fact of a set that is not in order, a check, a scope and a key.
abbrev fact : biscuit_go.Fact.Predicate
fact = record {
  name = 10;
  terms = some (
      biscuit_go.Term.set (
        biscuit_go.Term.cons (biscuit_go.Term.bytes (2 ∷ []))
          (biscuit_go.Term.cons (biscuit_go.Term.bytes (1 ∷ 3 ∷ [])) biscuit_go.Term.nil))
      ∷ biscuit_go.Term.string 1025
      ∷ []);
}

abbrev query : biscuit_go.Evaluator.Rule
query = record {
  head = fact;
  body = some (fact ∷ []);
  expressions = some (some (biscuit_go.Expression.value (biscuit_go.Term.bool true) ∷ []) ∷ []);
  scopes = none;
}

abbrev block : Block
block = record {
  symbols = symbols;
  public_keys = some keys;
  facts = fact ∷ [];
  scopes = record { scope_type = biscuit_go.Origin.public_key; public_key_table_index = 0 } ∷ [];
  rules = query ∷ [];
  checks = record { queries = query ∷ []; kind = biscuit_go.Evaluator.check_reject } ∷ [];
  context = codes "context";
  version = 5;
  external_signature = none;
}

fact-IsWritable : IsWritablePredicate digest fact
unfolding biscuit_go.Conversion.TermRoundTrip.IsWritableTerm biscuit_go.Prelude.sort
    Term.compare_terms biscuit_go.Prelude.compare_bytes Term.hashed
fact-IsWritable = ((refl, refl), (tt, tt))

query-IsWritable : IsWritableRule digest query
unfolding biscuit_go.Conversion.TermRoundTrip.IsWritableTerm
query-IsWritable = (fact-IsWritable, (fact-IsWritable, tt), ((tt, tt), tt), tt)

block-IsWritable : IsWritableBlock digest block
unfolding biscuit_go.PublicKey.index_key
block-IsWritable = record {
  facts = (fact-IsWritable, tt);
  rules = (query-IsWritable, tt);
  checks = ((query-IsWritable, tt), tt);
  scopes = (key_scope_writable 0 (omega arith), tt);
  low = omega arith;
  high = omega arith;
  fresh = (refl, tt);
}

block_from_proto-block_to_proto_example :
    (p : ProtoBlock) × (block_to_proto block ≡ ok p)
    × (block_from_proto digest p none ≡ ok (sorted_block block))
unfolding biscuit_go.Conversion.BlockRoundTrip.external_of
block_from_proto-block_to_proto_example =
    block_from_proto-block_to_proto digest block block-IsWritable
