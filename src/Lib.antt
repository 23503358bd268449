-- ===== src/Lib.antt =====
-- This library models the tokens and the Datalog engine of biscuit-go, the Go implementation of Biscuit
-- tokens, and proves what makes its parts correct.
--
-- The program's parts and how they interact. A token is a list of blocks of facts, rules and checks,
-- each signed by the key that the block before it names (biscuit.go, over internal/crypto). A block is
-- made by a builder (builder.go) from the types of the interface (types.go), which are converted to those
-- of the engine, and it is written as a protobuf message (converters.go, converters_v2.go); a third party
-- may make one for the request of a token (third_party.go). The strings of a block are symbols of a table
-- (datalog/symbol.go). Facts are predicates over terms (datalog/datalog.go) and lie in sets by the origin that they were derived from, the blocks that had a
-- part in them (datalog/origin.go); the sets are hash sets (internal/set/hashset.go). A rule or a check
-- sees the facts whose origin lies in the blocks that its scopes trust (datalog/scope.go). Its body is
-- matched against them by an odometer over the combinations of facts (datalog/evaluator.go), and its
-- expressions are run on a stack machine (datalog/expressions.go). The world applies the rules until
-- there are no new facts, and the authorizer then runs the checks and the policies (authorizer.go).
--
-- Which file models which part, each with children for the proofs:
--   Prelude: names shared by all, with lists, orders, sorting, integers, byte strings and numerals.
--     `Run` is what a Go call ends in: a value, an error or a panic. Prelude/Order has what
--     internal/set/helpers.go compares.
--   HashSet: internal/set/hashset.go. The map of buckets is an association list, and the methods give
--     the set afterwards. Equality and hash are an instance argument, with laws that the theorems take.
--   Symbol: datalog/symbol.go, `SymbolTable`. A string is the list of its bytes.
--   Term: datalog/datalog.go, `Term` and its seven implementations.
--   Origin: datalog/origin.go and datalog/scope.go. The seeded hash is the parameter `digest`.
--   Fact: datalog/datalog.go, `Predicate`, `Fact` and `FactSet`.
--   Expression: datalog/expressions.go. Expression/Effect has the state: the symbol table, which `Add`
--     extends, is passed through every call, also through one that fails. `regexp.Compile` is a
--     parameter.
--   PublicKey: datalog/publickeys.go.
--   Combinations and Matching: datalog/evaluator.go, `combinations`, `matchedVariables`, `combineIt`.
--   Evaluator: datalog/evaluator.go, `evaluator`, and `Rule.Apply` and `Check.Verify`. Evaluator/Compare
--     has `Compare` and `Hash` of rules.
--   Conversion: converters.go and converters_v2.go. Conversion/Schema has the messages of pb/ as records
--     of the fields that are used, Terms, Rules and Blocks the conversions.
--   Surface: types.go. Surface/Compare has the `Compare` methods, Convert the conversions to the types of
--     the engine and Read those back, Each the loops of both.
--   Block: `Block` of types.go and `UpdatePublicKeys`, with the versions of blocks and of signatures.
--   Builder: builder.go, `blockBuilder`.
--   Crypto: internal/crypto. `Library` is what the code calls of the standard library: Ed25519, ECDSA and
--     the encodings of keys. What the theorems need of it, that a signature verifies under the public key
--     of the key that made it, is the hypothesis `IsSound`.
--   Token: biscuit.go, builder.go and third_party.go. Token/Payload has what is signed, Verify
--     `authorizerFor`, Build new tokens and `Unmarshal`, Extend `append` and `Seal`, ThirdParty the
--     requests and contents, Facts `GetBlockID` and `generateWorld`. Covered and Proved state what a
--     signature covers and what a proof shows, apart from how the code puts it together. `marshal` and
--     `parse` are proto.Marshal and proto.Unmarshal of a block, and the random bytes of a new key are an
--     argument.
--   World: datalog/datalog.go, `World.Run` and `QueryRule`. World/Rules has `RuleSet` and the operations
--     that fill a world.
--   Authorizer: authorizer.go, `Authorize`. Authorizer/Builder and Build have `authorizerBuilder`, Policies
--     the serialization of policies, and Query `Query`. `Build` gives its authorizer as `Built`, and
--     `authorizer_of` is what `Authorize` reads of it.
--   Tests: runs on small inputs, and the theorems applied to them.
--
-- Maps and the order of iteration: a Go map is an association list, and its list order stands for the
-- order in which the map yields its entries, which is any order. A slice that may be nil where that
-- matters is an `Option` of a list.
--
-- Bounds and fuel: the numbers are unbounded naturals, with the wrap of a 64-bit integer written out
-- where the program converts or divides. The odometer runs on as much fuel as there are combinations,
-- since each round takes up at least one. The run of the world has the program's own bound on rounds, and
-- the deadline is a clock that may say at every test that the time is over. The comparison of terms goes
-- down as deep as the deeper term is nested. The stack of expressions has the program's limit of 1,000.
--
-- Not modelled: printing; the parser, whose grammar is struct tags for a generator outside the
-- repository; the encoding of messages as bytes, which protobuf does; the inspection of an authorizer,
-- which is for tests and printing; the listings of facts and rules in order, which it uses; and
-- `World.Query`, which only tests use. The error values are
-- modelled without their texts.
pub mod Prelude
pub mod HashSet
pub mod Symbol
pub mod Term
pub mod Origin
pub mod Fact
pub mod Expression
pub mod PublicKey
pub mod Combinations
pub mod Matching
pub mod Evaluator
pub mod Block
pub mod Conversion
pub mod World
pub mod Authorizer
pub mod Surface
pub mod Crypto
pub mod Builder
pub mod Token
pub mod Tests
