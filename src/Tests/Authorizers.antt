-- ===== src/Tests/Authorizers.antt =====
-- The theorems of the builder of authorizers, on a token with a block of a third party.
use biscuit_go.Prelude.{
  ℕ, ◌+◌, ◌≡◌, ◌↔◌, refl, none, some, List, [], ◌∷◌, any, map, false, Bytes, length, Run, ok, panic,
  codes,
}
use biscuit_go.Symbol.{SymbolTable}
use biscuit_go.PublicKey.{PublicKey}
use biscuit_go.Origin.{register, new_origin, new_trusted_origin, Scope}
use biscuit_go.Evaluator.{Rule, check_one, check_all, check_reject}
use biscuit_go.World.Rules.{new_world, add_fact, add_rule, num_rules, num_rules-add_rule}
use biscuit_go.Block.{Block}
use biscuit_go.Surface
use biscuit_go.Surface.{nil}
use biscuit_go.Surface.Convert.{convert_predicate}
use biscuit_go.Authorizer.{allow}
use biscuit_go.Authorizer.Builder.{AuthorizerBuilder}
use biscuit_go.Authorizer.Build.{Built}
use biscuit_go.Authorizer.Policies.{AuthorizerPolicies, serialize_policies, load_policies}
use biscuit_go.Authorizer.Forgotten.{rule_asks_key, load_policies-serialize_policies}
use biscuit_go.Token.{Biscuit, SignedBlock, no_proof}
use biscuit_go.Token.Facts.{IsFirst, get_block_id, get_block_id_iff}

abbrev digest : Bytes → ℕ
digest = length

-- `right() <- …`, with an empty body.
abbrev query : Rule
query = record {
  head = record { name = 4; terms = some [] };
  body = some [];
  expressions = some [];
  scopes = none;
}

abbrev surface_query : biscuit_go.Surface.Rule
surface_query = record {
  head = record { name = codes "right"; ids = nil };
  body = some [];
  expressions = some [];
  scopes = none;
}

abbrev key : PublicKey
key = record { key = 5 ∷ []; algorithm = 0 }

abbrev signed : SignedBlock
signed = record {
  block = [];
  next_key = none;
  signature = [];
  external_signature = none;
  version = none;
}

abbrev first_block : List Scope → Block
first_block scopes = record {
  symbols = [];
  public_keys = none;
  facts = [];
  scopes = scopes;
  rules = [];
  checks = record { queries = query ∷ []; kind = check_reject } ∷ [];
  context = [];
  version = 5;
  external_signature = none;
}

abbrev third_party : Block
third_party = record {
  symbols = [];
  public_keys = none;
  facts = record { name = 4; terms = some [] } ∷ [];
  scopes = [];
  rules = [];
  checks = record { queries = query ∷ query ∷ []; kind = check_one } ∷ [];
  context = [];
  version = 5;
  external_signature = some (record { public_key = key; signature = some [] });
}

abbrev token : List Scope → Biscuit
token scopes = record {
  authority = first_block scopes;
  blocks = third_party ∷ [];
  symbols = [];
  public_keys = [];
  container = record {
    root_key_id = none;
    authority = signed;
    blocks = signed ∷ [];
    proof = no_proof;
  };
  signature_registry = [];
}

abbrev builder : List Scope → AuthorizerBuilder
builder scopes = record {
  biscuit = some (token scopes);
  facts = [];
  rules = [];
  scopes = [];
  checks = record { queries = some (surface_query ∷ []); kind = biscuit_go.Surface.check_all } ∷ [];
  policies = record { queries = surface_query ∷ []; kind = allow } ∷ [];
}

abbrev built : Built
built = record {
  biscuit = token [];
  state = record {
    world =
        add_fact digest (new_origin digest 1 []) (record { name = 4; terms = some [] }) new_world;
    symbols = [];
    public_keys = key ∷ [];
    registry = register digest 0 (1 ∷ []) [];
  };
  authorizer_scopes = [];
  authorizer_checks = record { queries = query ∷ []; kind = check_all } ∷ [];
  authorizer_policies = record { queries = surface_query ∷ []; kind = allow } ∷ [];
  biscuit_blocks =
      record {
        block_scopes = [];
        block_checks = record { queries = query ∷ []; kind = check_reject } ∷ [];
      }
      ∷ record {
        block_scopes = [];
        block_checks = record { queries = query ∷ query ∷ []; kind = check_one } ∷ [];
      }
      ∷ [];
}

-- The rule is there already.
num_rules-add_rule_example :
    num_rules (
      add_rule digest
        (new_trusted_origin digest)
        0
        query
        (add_rule digest (new_trusted_origin digest) 0 query new_world))
    ≡ num_rules (add_rule digest (new_trusted_origin digest) 0 query new_world) + 1
num_rules-add_rule_example =
    num_rules-add_rule digest (new_trusted_origin digest) 0 query
      (add_rule digest (new_trusted_origin digest) 0 query new_world) refl

abbrev message : AuthorizerPolicies
message = record {
  symbols = [];
  version = some 6;
  facts = [];
  rules = [];
  checks =
      record {
        queries =
            record {
              head = record { name = 4; terms = [] };
              body = [];
              expressions = [];
              scope = [];
            }
            ∷ [];
        kind = some biscuit_go.Conversion.check_kind_all;
      }
      ∷ [];
  policies =
      record {
        queries =
            record {
              head = record { name = 4; terms = [] };
              body = [];
              expressions = [];
              scope = [];
            }
            ∷ [];
        kind = some 0;
      }
      ∷ [];
}

serializes : serialize_policies digest (builder []) ≡ ok message
unfolding serialize_policies biscuit_go.Surface.Each.convert_each biscuit_go.Prelude.map_run
    biscuit_go.Symbol.insert biscuit_go.Symbol.position biscuit_go.Symbol.default_symbols
    biscuit_go.Prelude.bytes_eq
serializes = refl

loads : (load_policies digest message (builder [])).0 ≡ ok tt
unfolding load_policies biscuit_go.Prelude.map_run biscuit_go.Symbol.str
    biscuit_go.Prelude.wrap_int64 biscuit_go.Symbol.default_symbols
loads = refl

load_policies-serialize_policies_example :
    (any rule_asks_key (builder []).rules ≡ false)
    × (any (λ p. any rule_asks_key p.queries) (builder []).policies ≡ false)
load_policies-serialize_policies_example =
    load_policies-serialize_policies digest (builder []) (builder []) message serializes loads

abbrev wanted : biscuit_go.Surface.Predicate
wanted = record { name = codes "right"; ids = nil }

get_block_id_iff_example :
    (get_block_id digest wanted (token []) ≡ ok 1)
    ↔ IsFirst (convert_predicate digest wanted []).0 (first_block [] ∷ third_party ∷ []) 1
get_block_id_iff_example = get_block_id_iff digest wanted (token []) 1
