-- ===== src/Conversion/BlockRoundTrip.antt =====
-- converters.go and converters_v2.go: rules, checks and blocks that are written and read back.
use biscuit_go.Prelude.{
  ℕ, ◌≤◌, none, some, Option, List, [], ◌∷◌, ◌++◌, ◌≡◌, refl, sym, ap, ◌∙◌, All, Bytes, elements,
  slice_of, map, ok, map_run, arith,
}
use mathlib.Core.List.{append-nil, append_assoc}
use biscuit_go.PublicKey.{PublicKeyTable, index_key}
use biscuit_go.PublicKey.Lookup.{insert_unknown}
use biscuit_go.Origin.{Scope}
use biscuit_go.Evaluator.{Rule, Check, CheckKind, check_one, check_all, check_reject}
use biscuit_go.Block.{Block, ExternalSignature, get_datalog_version}
use biscuit_go.Conversion.{scope_from_proto, check_kind_to_proto, check_kind_from_proto}
use biscuit_go.Conversion.RoundTrip.{IsWritable, scope_from_proto-scope_to_proto}
use biscuit_go.Conversion.Schema.{ProtoBlock, ProtoExternalSignature}
use biscuit_go.Conversion.Terms.{
  predicate_to_proto, predicate_from_proto, expression_to_proto, expression_from_proto,
}
use biscuit_go.Conversion.Rules.{
  scopes_to_proto, rule_to_proto, check_to_proto, rule_from_proto, check_from_proto,
}
use biscuit_go.Conversion.Blocks.{
  key_to_proto, insert_keys, table_from_proto, keys_of, block_to_proto, block_from_proto,
  external_signature_to_proto, read_external_signature,
}
use biscuit_go.Conversion.Written.{Written, map_run-Written}
use biscuit_go.Conversion.TermRoundTrip.{
  sorted_predicate, sorted_expression, IsWritablePredicate, IsWritableOp, predicate-Written,
  expression-Written,
}

-- What is read back: sets are in order, and slices are made, `nil` for no scopes.
unfoldable pub sorted_rule : Rule → Rule
unfolding sorted_predicate sorted_expression
sorted_rule r = record {
  head = sorted_predicate r.head;
  body = some (map sorted_predicate (elements r.body));
  expressions = some (map sorted_expression (elements r.expressions));
  scopes = slice_of (elements r.scopes);
}

unfoldable pub sorted_check : Check → Check
unfolding sorted_rule
sorted_check c = record { queries = map sorted_rule c.queries; kind = c.kind }

scopes_written :
    (ss : List Scope) → All IsWritable ss → map_run scope_from_proto (scopes_to_proto ss) ≡ ok ss
unfolding map_run scopes_to_proto
scopes_written [] h = refl
scopes_written (s ∷ ss) (h, hs) =
    rw (scope_from_proto-scope_to_proto s h, scopes_written ss hs) refl

check_kind_from-to : (k : CheckKind) → check_kind_from_proto (check_kind_to_proto k) ≡ k
unfolding check_kind_from_proto check_kind_to_proto
check_kind_from-to check_one = refl
check_kind_from-to check_all = refl
check_kind_from-to check_reject = refl

-- No key of the list is in the table, or in the list before it.
abbrev pub Fresh : PublicKeyTable → PublicKeyTable → Type 0
Fresh [] t = Unit
Fresh (pk ∷ pks) t = (index_key pk t ≡ none) × Fresh pks (t ++ pk ∷ [])

insert_keys-Fresh :
    (pks t : PublicKeyTable) → Fresh pks t → insert_keys (map key_to_proto pks) t ≡ t ++ pks
unfolding insert_keys key_to_proto
insert_keys-Fresh [] t h = sym (append-nil t)
insert_keys-Fresh (pk ∷ pks) t (new, h) =
    ap (λ r. insert_keys (map key_to_proto pks) r.1) (insert_unknown pk t new)
    ∙ insert_keys-Fresh pks (t ++ pk ∷ []) h
    ∙ append_assoc t (pk ∷ []) pks

table_from-to :
    (pks : PublicKeyTable) → Fresh pks [] → table_from_proto (map key_to_proto pks) ≡ slice_of pks
unfolding table_from_proto slice_of
table_from-to [] h = refl
table_from-to (pk ∷ pks) h = ap some (insert_keys-Fresh (pk ∷ pks) [] h)

-- The message of the external signature that a signed block carries beside the block.
unfoldable pub external_of : Option ExternalSignature → Option ProtoExternalSignature
external_of none = none
external_of (some s) = some (external_signature_to_proto s)

external_from-to : (s : Option ExternalSignature) → read_external_signature (external_of s) ≡ ok s
unfolding external_of external_signature_to_proto read_external_signature
external_from-to none = refl
external_from-to (some s) = refl

version_from-to : (v : ℕ) → 3 ≤ v → v ≤ 6 → get_datalog_version (some v) ≡ ok v
unfolding get_datalog_version
version_from-to v low high = ground arith

unfoldable pub sorted_block : Block → Block
unfolding sorted_rule sorted_check sorted_predicate
sorted_block b = record {
  symbols = b.symbols;
  public_keys = slice_of (keys_of b.public_keys);
  facts = map sorted_predicate b.facts;
  scopes = b.scopes;
  rules = map sorted_rule b.rules;
  checks = map sorted_check b.checks;
  context = b.context;
  version = b.version;
  external_signature = b.external_signature;
}

module _ (digest : Bytes → ℕ) where
  -- The terms, operations and scopes of a rule can all be written.
  abbrev pub IsWritableRule : Rule → Type 0
  IsWritableRule r =
      IsWritablePredicate digest r.head
      × All (IsWritablePredicate digest) (elements r.body)
      × All (λ e. All (IsWritableOp digest) (elements e)) (elements r.expressions)
      × All IsWritable (elements r.scopes)

  rule-Written :
      (r : Rule) → IsWritableRule r → Written rule_to_proto (rule_from_proto digest) sorted_rule r
  unfolding rule_to_proto rule_from_proto sorted_rule
  rule-Written r (head, body, expressions, scopes) =
      let (h, to_h, from_h) = predicate-Written digest r.head head in
      let (b, to_b, from_b) =
        map_run-Written predicate_to_proto (predicate_from_proto digest) sorted_predicate
          (IsWritablePredicate digest) (predicate-Written digest) (elements r.body) body in
      let (e, to_e, from_e) =
        map_run-Written expression_to_proto (expression_from_proto digest) sorted_expression
          (λ x. All (IsWritableOp digest) (elements x)) (expression-Written digest)
          (elements r.expressions) expressions in
      (
        record { head = h; body = b; expressions = e; scope = scopes_to_proto (elements r.scopes) },
        rw (to_b, to_e, to_h) refl,
        rw (from_b, from_e, scopes_written (elements r.scopes) scopes, from_h) refl,
      )

  check-Written :
      (c : Check)
      → All IsWritableRule c.queries
      → Written check_to_proto (check_from_proto digest) sorted_check c
  unfolding check_to_proto check_from_proto sorted_check
  check-Written c h =
      let (q, to, from) =
        map_run-Written rule_to_proto (rule_from_proto digest) sorted_rule IsWritableRule
          rule-Written c.queries h in
      (
        record { queries = q; kind = check_kind_to_proto c.kind },
        rw to refl,
        rw (from, check_kind_from-to c.kind) refl,
      )

  -- All facts, rules, checks and scopes of the block can be written, its version is supported, and
  -- its table holds no key twice.
  pub record IsWritableBlock (b : Block) : Type 0 where
    pub facts : All (IsWritablePredicate digest) b.facts
    pub rules : All IsWritableRule b.rules
    pub checks : All (λ c. All IsWritableRule c.queries) b.checks
    pub scopes : All IsWritable b.scopes
    pub low : 3 ≤ b.version
    pub high : b.version ≤ 6
    pub fresh : Fresh (keys_of b.public_keys) []

  -- A block that can be written is written without an error, and what is written is read back, with
  -- the message of its external signature, as that block, with the elements of its sets in order,
  -- with its slices nil or empty as the reader makes them, and with no table of keys if it has no
  -- keys.
  pub block_from_proto-block_to_proto :
      (b : Block)
      → IsWritableBlock b
      → (p : ProtoBlock) × (block_to_proto b ≡ ok p)
        × (block_from_proto digest p (external_of b.external_signature) ≡ ok (sorted_block b))
  unfolding block_to_proto block_from_proto sorted_block
  block_from_proto-block_to_proto b h =
      let (f, to_f, from_f) =
        map_run-Written predicate_to_proto (predicate_from_proto digest) sorted_predicate
          (IsWritablePredicate digest) (predicate-Written digest) b.facts h.facts in
      let (r, to_r, from_r) =
        map_run-Written rule_to_proto (rule_from_proto digest) sorted_rule IsWritableRule
          rule-Written b.rules h.rules in
      let (c, to_c, from_c) =
        map_run-Written check_to_proto (check_from_proto digest) sorted_check
          (λ x. All IsWritableRule x.queries) check-Written b.checks h.checks in
      (
        record {
          symbols = b.symbols;
          context = some b.context;
          version = some b.version;
          facts_v2 = f;
          rules_v2 = r;
          checks_v2 = c;
          scope = scopes_to_proto b.scopes;
          public_keys = map key_to_proto (keys_of b.public_keys);
        },
        rw (to_f, to_r, to_c) refl,
        rw
            (
              version_from-to b.version h.low h.high,
              from_f,
              from_r,
              from_c,
              scopes_written b.scopes h.scopes,
              external_from-to b.external_signature,
              table_from-to (keys_of b.public_keys) h.fresh,
            )
            refl,
      )
