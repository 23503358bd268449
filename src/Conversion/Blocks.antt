-- ===== src/Conversion/Blocks.antt =====
-- converters.go: keys, external signatures and blocks, to and from their messages.
use biscuit_go.Prelude.{
  ℕ, Option, none, some, List, [], ◌∷◌, Bytes, map, Run, ok, err, Error, ◌>>=◌, map_run,
}
use biscuit_go.PublicKey.{PublicKey, PublicKeyTable, insert_key}
use biscuit_go.Block.{Block, ExternalSignature, get_datalog_version}
use biscuit_go.Conversion.{scope_from_proto}
use biscuit_go.Conversion.Schema.{ProtoPublicKey, ProtoExternalSignature, ProtoBlock}
use biscuit_go.Conversion.Terms.{predicate_to_proto, predicate_from_proto}
use biscuit_go.Conversion.Rules.{
  scopes_to_proto, rule_to_proto, check_to_proto, rule_from_proto, check_from_proto,
}

unfoldable pub key_to_proto : PublicKey → ProtoPublicKey
key_to_proto pk = record { algorithm = pk.algorithm; key = pk.key }

unfoldable pub key_from_proto : ProtoPublicKey → PublicKey
key_from_proto pk = record { key = pk.key; algorithm = pk.algorithm }

-- `protoPublicKeyToTokenPublicKey`, of a field that can be absent.
unfoldable pub read_key : Option ProtoPublicKey → Run PublicKey
unfolding key_from_proto
read_key none = err Error.nil_public_key
read_key (some pk) = ok (key_from_proto pk)

unfoldable pub external_signature_to_proto : ExternalSignature → ProtoExternalSignature
unfolding key_to_proto
external_signature_to_proto s = record {
  signature = s.signature;
  public_key = some (key_to_proto s.public_key);
}

-- `protoExternalSignatureToTokenExternalSignature`.
unfoldable pub external_signature_from_proto : Option ProtoExternalSignature → Run ExternalSignature
unfolding read_key
external_signature_from_proto none = err Error.nil_external_signature
external_signature_from_proto (some s) = do
  pk ← read_key s.public_key
  ok (record { public_key = pk; signature = s.signature })

abbrev pub keys_of : Option PublicKeyTable → PublicKeyTable
keys_of none = []
keys_of (some keys) = keys

-- `tokenBlockToProtoBlock`.
unfoldable pub block_to_proto : Block → Run ProtoBlock
unfolding predicate_to_proto rule_to_proto check_to_proto scopes_to_proto key_to_proto
block_to_proto b = do
  facts ← map_run predicate_to_proto b.facts
  rules ← map_run rule_to_proto b.rules
  checks ← map_run check_to_proto b.checks
  ok (record {
    symbols = b.symbols;
    context = some b.context;
    version = some b.version;
    facts_v2 = facts;
    rules_v2 = rules;
    checks_v2 = checks;
    scope = scopes_to_proto b.scopes;
    public_keys = map key_to_proto (keys_of b.public_keys);
  })

-- The table that `Insert` builds of the keys, one after the other.
unfoldable pub insert_keys : List ProtoPublicKey → PublicKeyTable → PublicKeyTable
unfolding insert_key key_from_proto
insert_keys [] t = t
insert_keys (pk ∷ pks) t = insert_keys pks (insert_key (key_from_proto pk) t).1

unfoldable pub table_from_proto : List ProtoPublicKey → Option PublicKeyTable
unfolding insert_keys
table_from_proto [] = none
table_from_proto (pk ∷ pks) = some (insert_keys (pk ∷ pks) [])

unfoldable pub read_external_signature :
    Option ProtoExternalSignature → Run (Option ExternalSignature)
unfolding external_signature_from_proto
read_external_signature none = ok none
read_external_signature (some s) = do t ← external_signature_from_proto (some s); ok (some t)

abbrev pub get_context : Option Bytes → Bytes
get_context none = []
get_context (some c) = c

-- `protoBlockToTokenBlock`.
unfoldable pub block_from_proto :
    (Bytes → ℕ) → ProtoBlock → Option ProtoExternalSignature → Run Block
unfolding get_datalog_version predicate_from_proto rule_from_proto check_from_proto scope_from_proto
    read_external_signature table_from_proto
block_from_proto digest p s = do
  version ← get_datalog_version p.version
  facts ← map_run (predicate_from_proto digest) p.facts_v2
  rules ← map_run (rule_from_proto digest) p.rules_v2
  checks ← map_run (check_from_proto digest) p.checks_v2
  scopes ← map_run scope_from_proto p.scope
  external ← read_external_signature s
  ok (record {
    symbols = p.symbols;
    public_keys = table_from_proto p.public_keys;
    facts = facts;
    scopes = scopes;
    rules = rules;
    checks = checks;
    context = get_context p.context;
    version = version;
    external_signature = external;
  })
