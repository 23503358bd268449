-- ===== src/Authorizer/Query.antt =====
-- authorizer.go, `Query` of an authorizer: the facts that a rule derives, with their strings.
use biscuit_go.Prelude.{
  ℕ, List, [], ◌∷◌, ◌++◌, Bytes, bytes_eq, elements, if◌then◌else◌, Run, ok, map_run, ◌>>=◌,
}
use biscuit_go.HashSet.{HashSet, new_hash_set, to_slice}
use biscuit_go.Symbol.{SymbolTable}
use biscuit_go.Origin.{Origin, encode_to_string, new_trusted_origin_from_scopes}
use biscuit_go.Origin.Block.{authorizer_block_id}
use biscuit_go.Fact.{Fact, FactSet, entries}
use biscuit_go.Expression.Effect.{Runtime}
use biscuit_go.World.{World, Clock, run, query_rule}
use biscuit_go.Surface.{Predicate, Rule}
use biscuit_go.Surface.Convert.{convert_rule}
use biscuit_go.Surface.Read.{read_predicate}
use biscuit_go.Builder.{fact_element}
use biscuit_go.Authorizer.Build.{Built, State}

-- `FactSet.Facts`: the facts under the encoding of an origin.
unfoldable pub facts_at : Bytes → FactSet → List Fact
unfolding to_slice
facts_at key [] = []
facts_at key ((k, facts) ∷ fs) = if bytes_eq k key then to_slice facts else facts_at key fs

-- `FactSet.AllFacts`: those under each origin that can be decoded.
unfoldable pub facts_of : FactSet → List (Origin × HashSet Fact) → List Fact
unfolding facts_at encode_to_string
facts_of fs [] = []
facts_of fs ((o, facts) ∷ es) = facts_at (encode_to_string o) fs ++ facts_of fs es

unfoldable pub all_facts : (Bytes → ℕ) → FactSet → List Fact
unfolding facts_of entries
all_facts digest fs = facts_of fs (entries digest fs)

-- What a query leaves: its result, with the world and the tables of the authorizer.
pub record Queried : Type 0 where
  pub result : HashSet Predicate
  pub state : State

module _ (rt : Runtime) (expired : Clock) where
  -- The conversion of the rule and its query, on the world that has run.
  unfoldable pub query_world : World → SymbolTable → Rule → Built → Run Queried
  unfolding convert_rule query_rule all_facts read_predicate new_hash_set
  query_world world t r b = do
    (rule, (t1, keys)) ← convert_rule rt.digest r (t, b.state.public_keys)
    let (found, t2) =
        query_rule rt world rule
          (new_trusted_origin_from_scopes rt.digest [] (elements rule.scopes) authorizer_block_id
            b.state.registry)
          t1
    facts ← found
    surface ← map_run (read_predicate rt.digest t2) (all_facts rt.digest facts)
    ok (record {
      result = new_hash_set ⦃e = fact_element rt.digest⦄ surface;
      state = record {
        world = world;
        symbols = t2;
        public_keys = keys;
        registry = b.state.registry;
      };
    })

  -- `Query`. The state after a call that fails is not kept.
  unfoldable pub query : Rule → Built → Run Queried
  unfolding run query_world
  query r b =
      let (ran, t) = run rt expired b.state.world b.state.symbols in
      do world ← ran; query_world world t r b
