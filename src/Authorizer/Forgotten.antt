-- ===== src/Authorizer/Forgotten.antt =====
-- authorizer.go: serialized policies have no table of keys, so that no scope that names a key can be
-- loaded.
use biscuit_go.Prelude.{
  inl, inr, ℕ, List, [], ◌∷◌, ◌≡◌, refl, sym, ap, ◌∙◌, any, Bool, true, false, Bytes, elements, ok,
  ok->>=, map_run, elements-slice_of, arith, subst, ok-pair, ok-same,
}
use biscuit_go.PublicKey.{PublicKeyTable}
use biscuit_go.Origin.{Scope as DatalogScope}
use biscuit_go.Origin.Trust.{names_key}
use biscuit_go.Conversion.{scope_to_proto, scope_from_proto}
use biscuit_go.Block.{get_datalog_version}
use biscuit_go.Conversion.Schema.{RuleV2}
use biscuit_go.Conversion.Terms.{
  predicate_to_proto, predicate_from_proto, expression_to_proto, expression_from_proto,
}
use biscuit_go.Conversion.Rules.{scopes_to_proto, rule_to_proto, rule_from_proto}
use biscuit_go.Surface.{Rule, Scope, public_key_scope_type}
use biscuit_go.Surface.Each.{convert_each}
use biscuit_go.Surface.Convert.{
  convert_scope, convert_scopes, convert_scope_type, convert_rule, Tables, convert_predicates,
  convert_expressions,
}
use biscuit_go.Surface.Read.{read_scope, read_rule, read_predicate, read_expression}
use biscuit_go.Authorizer.{Policy}
use biscuit_go.Authorizer.Builder.{AuthorizerBuilder, add_fact, add_rule, add_check, add_policy}
use biscuit_go.Authorizer.Policies.{
  ProtoPolicy, policy_kind_to_proto, policy_kind_from_proto, AuthorizerPolicies, write_rule,
  load_rule, load_each, serialize_policies, load_policies, load_policies_v2, and_then, load_fact,
  load_check, load_policy, write_fact, write_check, write_policy,
}
use biscuit_go.Authorizer.Loading.{
  Run-cases, err-ok, panic-ok, and_then-ok, read_all-none, load_each-none,
}

-- The scope names a public key.
abbrev pub asks_key : Scope → Bool
asks_key s = elim (s.scope_type) [ public_key_scope_type ↦ true | _ ↦ false ]

-- One of the rule's scopes does.
abbrev pub rule_asks_key : Rule → Bool
rule_asks_key r = any asks_key (elements r.scopes)

names_key-convert_scope :
    (s : Scope) (keys : PublicKeyTable) → names_key (convert_scope s keys).0 ≡ asks_key s
unfolding convert_scope convert_scope_type
names_key-convert_scope s keys = ground arith

names_key-convert_scopes :
    (ss : List Scope) (keys keys' : PublicKeyTable) (ds : List DatalogScope)
    → convert_scopes ss keys ≡ ok (ds, keys')
    → any names_key ds ≡ any asks_key ss
unfolding convert_scopes convert_each
names_key-convert_scopes [] keys keys' ds h = ap (any names_key) (sym (ok-pair h).0)
names_key-convert_scopes (s ∷ ss) keys keys' ds h =
    let ((cs, k), more, h1) = ok->>= (convert_scopes ss (convert_scope s keys).1) _ _ h in
    ap (any names_key) (sym (ok-pair h1).0)
    ∙ (rw
        (
          names_key-convert_scope s keys,
          names_key-convert_scopes ss (convert_scope s keys).1 k cs more,
        )
        refl)

names_key-from-to :
    (s t : DatalogScope) → scope_from_proto (scope_to_proto s) ≡ ok t → names_key t ≡ names_key s
unfolding scope_from_proto scope_to_proto
names_key-from-to s t h = ground arith

names_keys-from-to :
    (ss ts : List DatalogScope)
    → map_run scope_from_proto (scopes_to_proto ss) ≡ ok ts
    → any names_key ts ≡ any names_key ss
unfolding map_run scopes_to_proto
names_keys-from-to [] ts h = ap (any names_key) (sym (ok-same h))
names_keys-from-to (s ∷ ss) ts h =
    let (t, one, h1) = ok->>= (scope_from_proto (scope_to_proto s)) _ _ h in
    let (us, more, h2) = ok->>= (map_run scope_from_proto (scopes_to_proto ss)) _ _ h1 in
    ap (any names_key) (sym (ok-same h2))
    ∙ (rw (names_key-from-to s t one, names_keys-from-to ss us more) refl)

-- Without keys only scopes that name none are read.
read_scope-no_keys : (s : DatalogScope) (t : Scope) → read_scope [] s ≡ ok t → names_key s ≡ false
unfolding read_scope
read_scope-no_keys s t h = ground arith

read_scopes-no_keys :
    (ss : List DatalogScope) (ts : List Scope)
    → map_run (read_scope []) ss ≡ ok ts
    → any names_key ss ≡ false
unfolding map_run
read_scopes-no_keys [] ts h = refl
read_scopes-no_keys (s ∷ ss) ts h =
    let (t, one, h1) = ok->>= (read_scope [] s) _ _ h in
    let (us, more, h2) = ok->>= (map_run (read_scope []) ss) _ _ h1 in
    rw (read_scope-no_keys s t one, read_scopes-no_keys ss us more) refl

module _ (digest : Bytes → ℕ) where
  -- A rule that is written names the same scopes in its message.
  write_rule-scopes :
      (r : Rule) (t u : Tables) (p : RuleV2)
      → write_rule digest r t ≡ ok (p, u)
      → (ds : List DatalogScope) × (p.scope ≡ scopes_to_proto ds)
        × (any names_key ds ≡ rule_asks_key r)
  unfolding write_rule convert_rule rule_to_proto
  write_rule-scopes r (t, keys) u p h =
      let ((rule, t1), made, h1) = ok->>= (convert_rule digest r (t, keys)) _ _ h in
      let (q, written, h2) = ok->>= (rule_to_proto rule) _ _ h1 in
      let ((body, s1), _, e1) = ok->>= (convert_predicates digest (elements r.body) t) _ _ made in
      let ((expressions, s2), _, e2) =
        ok->>= (convert_expressions digest (elements r.expressions) s1) _ _ e1 in
      let ((scopes, keys1), converted, e3) =
        ok->>= (convert_scopes (elements r.scopes) keys) _ _ e2 in
      let (b, _, w1) = ok->>= (map_run predicate_to_proto (elements rule.body)) _ _ written in
      let (e, _, w2) = ok->>= (map_run expression_to_proto (elements rule.expressions)) _ _ w1 in
      let (hd, _, w3) = ok->>= (predicate_to_proto rule.head) _ _ w2 in
      (
        elements rule.scopes,
        ap (λ x. x.scope) (sym (ok-pair h2).0) ∙ ap (λ x. x.scope) (sym (ok-same w3)),
        ap (λ x. any names_key (elements x.scopes)) (sym (ok-pair e3).0)
            ∙ ap (any names_key) (elements-slice_of scopes)
            ∙ names_key-convert_scopes (elements r.scopes) keys keys1 scopes converted,
      )

  load_rule-no_keys :
      (symbols : List Bytes) (p : RuleV2) (r : Rule) (ds : List DatalogScope)
      → p.scope ≡ scopes_to_proto ds
      → load_rule digest symbols p ≡ ok r
      → any names_key ds ≡ false
  unfolding load_rule rule_from_proto read_rule
  load_rule-no_keys symbols p r ds scope h =
      let (rule, made, h1) = ok->>= (rule_from_proto digest p) _ _ h in
      let (b, _, w1) = ok->>= (map_run (predicate_from_proto digest) p.body) _ _ made in
      let (e, _, w2) = ok->>= (map_run (expression_from_proto digest) p.expressions) _ _ w1 in
      let (ss, from, w3) = ok->>= (map_run scope_from_proto p.scope) _ _ w2 in
      let (hd, _, w4) = ok->>= (predicate_from_proto digest p.head) _ _ w3 in
      let (x1, _, r1) = ok->>= (read_predicate digest symbols rule.head) _ _ h1 in
      let (x2, _, r2) =
        ok->>= (map_run (read_predicate digest symbols) (elements rule.body)) _ _ r1 in
      let (x3, _, r3) =
        ok->>= (map_run (read_expression digest symbols) (elements rule.expressions)) _ _ r2 in
      let (x4, read, r4) = ok->>= (map_run (read_scope []) (elements rule.scopes)) _ _ r3 in
      let same : elements rule.scopes ≡ ss =
        ap (λ x. elements x.scopes) (sym (ok-same w4)) ∙ elements-slice_of ss in
      sym (names_keys-from-to ds ss (rw (← scope) from))
      ∙ read_scopes-no_keys ss x4 (rw (← same) read)

  write_rule-no_keys :
      (symbols : List Bytes) (r r2 : Rule) (t u : Tables) (p : RuleV2)
      → write_rule digest r t ≡ ok (p, u)
      → load_rule digest symbols p ≡ ok r2
      → rule_asks_key r ≡ false
  write_rule-no_keys symbols r r2 t u p written read =
      let (ds, scope, asks) = write_rule-scopes r t u p written in
      sym asks ∙ load_rule-no_keys symbols p r2 ds scope read

  write_policy-no_keys :
      (symbols : List Bytes) (p p2 : Policy) (t u : Tables) (m : ProtoPolicy)
      → write_policy digest p t ≡ ok (m, u)
      → load_policy digest symbols m ≡ ok p2
      → any rule_asks_key p.queries ≡ false
  unfolding write_policy load_policy
  write_policy-no_keys symbols p p2 t u m written read =
      let (code, _, w1) = ok->>= (policy_kind_to_proto p.kind) _ _ written in
      let ((qs, t1), made, w2) = ok->>= (convert_each (write_rule digest) p.queries t) _ _ w1 in
      let (kind, _, r1) = ok->>= (policy_kind_from_proto m.kind) _ _ read in
      let (rs, loaded, r2) = ok->>= (map_run (load_rule digest symbols) m.queries) _ _ r1 in
      let same : m.queries ≡ qs = ap (λ x. x.queries) (sym (ok-pair w2).0) in
      read_all-none (write_rule digest) (load_rule digest symbols) rule_asks_key
        (λ a b v w c. write_rule-no_keys symbols a b v w c) p.queries t t1 qs rs made
        (rw (← same) loaded)

  load_policies-v2 :
      (p : AuthorizerPolicies) (ab : AuthorizerBuilder)
      → (load_policies digest p ab).0 ≡ ok tt
      → (load_policies_v2 digest p ab).0 ≡ ok tt
  unfolding load_policies
  load_policies-v2 p ab l = elim (Run-cases (get_datalog_version p.version)) [
    | inl (v, h) ↦ rw (h, load_policies) at l
    | inr (inl (e, h)) ↦ err-ok (rw (h, load_policies) at l)
    | inr (inr h) ↦ panic-ok (rw (h, load_policies) at l)
  ]

  -- If what `SerializePolicies` writes of a builder is loaded without an error, then none of the
  -- builder's rules and of its policies' queries has a scope that names a key.
  pub load_policies-serialize_policies :
      (ab ab2 : AuthorizerBuilder) (p : AuthorizerPolicies)
      → serialize_policies digest ab ≡ ok p
      → (load_policies digest p ab2).0 ≡ ok tt
      → (any rule_asks_key ab.rules ≡ false)
        × (any (λ x. any rule_asks_key x.queries) ab.policies ≡ false)
  unfolding serialize_policies load_policies load_policies_v2
  load_policies-serialize_policies ab ab2 p written loaded =
      let ((facts, t1), _, w1) =
        ok->>= (convert_each (write_fact digest) ab.facts []) _ _ written in
      let ((rules, t2), made, w2) =
        ok->>= (convert_each (write_rule digest) ab.rules (t1, [])) _ _ w1 in
      let ((checks, t3), _, w3) = ok->>= (convert_each (write_check digest) ab.checks t2) _ _ w2 in
      let ((policies, t4), formed, w4) =
        ok->>= (convert_each (write_policy digest) ab.policies t3) _ _ w3 in
      let first = load_each (load_fact digest p.symbols) add_fact p.facts ab2 in
      let second = and_then first (load_each (load_rule digest p.symbols) add_rule p.rules) in
      let third = and_then second (load_each (load_check digest p.symbols) add_check p.checks) in
      let (l1, l2) =
        and_then-ok third (load_each (load_policy digest p.symbols) add_policy p.policies)
          (load_policies-v2 p ab2 loaded) in
      let (l3, l4) =
        and_then-ok second (load_each (load_check digest p.symbols) add_check p.checks) l1 in
      let (l5, l6) =
        and_then-ok first (load_each (load_rule digest p.symbols) add_rule p.rules) l3 in
      let same = ok-same w4 in
      (
        load_each-none (write_rule digest) (load_rule digest p.symbols) rule_asks_key
            (λ a b v w c. write_rule-no_keys p.symbols a b v w c) add_rule ab.rules (t1, []) t2
            p.rules first.1
            (subst (λ x. convert_each (write_rule digest) ab.rules (t1, []) ≡ ok (x, t2))
              (ap (λ x. x.rules) same) made)
            l6,
        load_each-none (write_policy digest) (load_policy digest p.symbols)
            (λ x. any rule_asks_key x.queries)
            (λ a b v w c. write_policy-no_keys p.symbols a b v w c) add_policy ab.policies t3 t4
            p.policies third.1
            (subst (λ x. convert_each (write_policy digest) ab.policies t3 ≡ ok (x, t4))
              (ap (λ x. x.policies) same) formed)
            l2,
      )
