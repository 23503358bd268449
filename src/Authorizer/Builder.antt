-- ===== src/Authorizer/Builder.antt =====
-- authorizer.go, `authorizerBuilder`: what is added to it.
use biscuit_go.Prelude.{Option, List, [], ◌∷◌, ◌++◌}
use biscuit_go.HashSet.{to_slice}
use biscuit_go.Surface.{Predicate, Scope, Rule, Check}
use biscuit_go.Builder.{ParsedBlock}
use biscuit_go.Authorizer.{Policy}
use biscuit_go.Token.{Biscuit}

pub record ParsedAuthorizer : Type 0 where
  pub policies : List Policy
  pub block : ParsedBlock

-- The token is behind a pointer, `none` for `nil`.
pub record AuthorizerBuilder : Type 0 where
  pub biscuit : Option Biscuit
  pub facts : List Predicate
  pub rules : List Rule
  pub scopes : List Scope
  pub checks : List Check
  pub policies : List Policy

unfoldable pub new_authorizer_builder : Option Biscuit → AuthorizerBuilder
new_authorizer_builder b = record {
  biscuit = b;
  facts = [];
  rules = [];
  scopes = [];
  checks = [];
  policies = [];
}

unfoldable pub add_fact : Predicate → AuthorizerBuilder → AuthorizerBuilder
add_fact f ab = record {
  biscuit = ab.biscuit;
  facts = ab.facts ++ f ∷ [];
  rules = ab.rules;
  scopes = ab.scopes;
  checks = ab.checks;
  policies = ab.policies;
}

unfoldable pub add_rule : Rule → AuthorizerBuilder → AuthorizerBuilder
add_rule r ab = record {
  biscuit = ab.biscuit;
  facts = ab.facts;
  rules = ab.rules ++ r ∷ [];
  scopes = ab.scopes;
  checks = ab.checks;
  policies = ab.policies;
}

unfoldable pub add_scope : Scope → AuthorizerBuilder → AuthorizerBuilder
add_scope s ab = record {
  biscuit = ab.biscuit;
  facts = ab.facts;
  rules = ab.rules;
  scopes = ab.scopes ++ s ∷ [];
  checks = ab.checks;
  policies = ab.policies;
}

unfoldable pub add_check : Check → AuthorizerBuilder → AuthorizerBuilder
add_check c ab = record {
  biscuit = ab.biscuit;
  facts = ab.facts;
  rules = ab.rules;
  scopes = ab.scopes;
  checks = ab.checks ++ c ∷ [];
  policies = ab.policies;
}

unfoldable pub add_policy : Policy → AuthorizerBuilder → AuthorizerBuilder
add_policy p ab = record {
  biscuit = ab.biscuit;
  facts = ab.facts;
  rules = ab.rules;
  scopes = ab.scopes;
  checks = ab.checks;
  policies = ab.policies ++ p ∷ [];
}

-- A loop that adds the elements of a slice.
unfoldable pub add_each {ℓ} :
    {A : Type ℓ}
    → (A → AuthorizerBuilder → AuthorizerBuilder)
    → List A
    → AuthorizerBuilder
    → AuthorizerBuilder
add_each add [] ab = ab
add_each add (a ∷ as_) ab = add_each add as_ (add a ab)

-- `AddBlock`: the facts come in the order in which their set yields them.
unfoldable pub add_block : ParsedBlock → AuthorizerBuilder → AuthorizerBuilder
unfolding to_slice add_fact add_rule add_scope add_check add_each
add_block p ab = add_each add_scope p.scope (
    add_each add_check p.checks
      (add_each add_rule p.rules (add_each add_fact (to_slice p.facts) ab)))

unfoldable pub add_authorizer : ParsedAuthorizer → AuthorizerBuilder → AuthorizerBuilder
unfolding add_block add_policy add_each
add_authorizer a ab = add_each add_policy a.policies (add_block a.block ab)
