-- ===== src/Lib.antt =====
-- Verification library of hunsu: the Project engine and the domain model that it works on.
--
-- A client sends a `ProjectCommand` (packages/protocol/src/model.ts). The engine
-- (packages/core/src/engine.ts) decides it against a `ProjectState`: it refuses the command, returns
-- the event ids of an earlier application of the same command, or accepts it with a batch of
-- `DomainEvent`s. Events are applied one by one, each after its own tests, and a history of events is
-- replayed from the empty state. The rest of the repository stands around that: stores keep the
-- history (packages/github-store), projections and the API read states, the web application shows
-- them.
--
-- Parts and files:
--   Base, Lists        library names and the Array methods of the source (`some`, `every`, `find`,
--                      `filter`, spread with a new item), on strings with a shut `===`.
--   Protocol           packages/protocol/src/{model,result,primitives}.ts: entities, commands, events
--                      and the state as records and data types; `Result` with its `flatMap`;
--                      `Protocol/Hashing` is the interface of the digest functions.
--   Engine             packages/core/src/engine.ts: Journal (processed commands, `finish`), Lookup,
--                      Nodes (`validateNewNode`, `validatePlan`), Projects, Runs, Coaching,
--                      Comparisons, Decisions, Apply (`applyDomainEvent`), Decide
--                      (`decideProjectCommand`, `applyProjectCommand`), Replay (batches of a history,
--                      `replayDomainEvents`), Graph (`validateNodeGraph`),
--                      Divergence (`unresolvedDivergenceCount`).
--   Acceptance         commands that the decision accepts, and the application of their events.
--   History            the effect of an event, the journal, the events that a command emits, the
--                      journal entry of a key while other commands follow (Kept), retries, the growth
--                      of a state.
--   Invariant          invariants of the states that a history replays to: the tests that an event
--                      has passed, induction on a history, the forest of Nodes, distinct ids, the
--                      evidence of completed Runs, selections and rejections.
--   Coherence          the scan of a history's batches beside its application: a history and the
--                      batch of one more command.
--   Graph              `validateNodeGraph` on replayed states: the climb from a Node to its root, the
--                      Nodes of one Project, all Projects.
--   Auth               apps/api/src/auth/{in-memory-ephemeral-store,ephemeral-store}.ts and the session
--                      types of apps/api/src/types.ts: Contexts, Grants (the records and their
--                      tests), Memory (the store's operations), Bounds, Within and Steps (the sizes
--                      of its maps over any calls), Room (maps below their limit), Claims (a delivery
--                      over any calls), Reuse, Families and Tokens (a family of grants over any
--                      calls), Security (single use).
--   Codec              packages/protocol/src/{serialization,primitives}.ts: Values (`unknown` and the
--                      helpers), Makers (the constructors of the primitives), Fields, Canonical
--                      (canonical JSON), the decoders by entity in Plans, Records, Nodes, Runs,
--                      Coaching, Alternatives, Events and States; Objects (the JSON value of each
--                      record, `encodeDomainEvent` and `encodeProjectState`), Grammar (what value a
--                      JSON text denotes), Written and Order (the texts of `stringifyCanonical`),
--                      Valid (which records are well formed), RoundTrip (what is written and decoded),
--                      Sound (values that decoders return).
--   Regex              regular expressions, for the constructors of the primitives.
--   Maps, Text         the `Map` of the source as entries in insertion order; tests of characters.
--   Tests              a sample Project, its commands run through the engine, and the theorems
--                      applied there.
--
-- Reading guide. Function names are those of the source in snake case. `Outcome` is
-- `Result<_, ProjectDomainError>`; an early `return` of an error is the `err` of the monad, in the
-- order of the source. Branded strings are strings, since the brand has no value at run time.
-- `NonEmptyArray` fields are lists, because no test of the engine depends on the type; the emptiness
-- tests of the source stand where the source makes them. The engine never changes an object in place,
-- so a state is a value. Loops go over lists; the `while` loop of `validateNodeGraph` runs on fuel,
-- one turn more than the Project has Nodes, and gives `none` when the fuel is used up.
--
-- The functions that hash a canonical text (`computeGoalDigest`, `computeRunnerDigest`,
-- `computeNodePlanDigest`, `computeNodePayloadDigest`) and `canonicalUtf8ByteLength` of
-- packages/protocol/src/serialization.ts are operations of the `Digests` interface, which the engine
-- takes as an instance argument. `ProjectIntegrityBoundary`, the
-- record of functions that a host passes to the engine, is a record here and an argument of what
-- uses it.
--
-- The ephemeral store reads the clock through `#now()`; each reading is an argument of its operation.
-- Times and ids are natural numbers. `Auth.Grants.Platform` is the interface of the digest of a
-- context (`authContextDigest`, over the platform's `createHash`) and of the test of an address by the
-- platform's `URL` class (`isSafeAudience`).
--
-- A decoder of the codec works on a parsed value: `Unknown` is a JavaScript value of the type `unknown`
-- without functions, and `undefined` is what a missing property reads as. A finite number is kept
-- as a natural number when `JSON.stringify` writes it in decimal digits alone, and else as the text
-- that `JSON.stringify` gives it, since no decoder computes with one. `Dates` stands for
-- the platform's `Date.parse`, a `RunnerValueTypeRegistry` for the decoders that a host registers.
-- Texts are lists of code points; lengths and the order of keys go by UTF-16 units, as in the source.
--
-- `JSON.parse` stands before the decoders and is the platform's. `Codec.Grammar` says which values a
-- text may stand for, without regard to the order in which an object's properties are written, and
-- the theorems on `encodeDomainEvent` and `encodeProjectState` speak of such a value. The encoders
-- sort the keys; the objects of `Codec.Objects` have them in the order of the source's types.
--
-- A theorem about later commands or calls takes them as a list: commands by `after_commands`, where a
-- refused one leaves the state, and calls of the ephemeral store by `perform_all`.
--
-- Not modelled: `JSON.parse`, SHA-256, the protocol registry, the stores, the projections, the rest of
-- the API and the web application. The platform's crypto, network and user interface stand outside of
-- a model of the Project's logic.
pub mod Base
pub mod Lists
pub mod Maps
pub mod Text
pub mod Regex
pub mod Protocol
pub mod Engine
pub mod Acceptance
pub mod History
pub mod Invariant
pub mod Coherence
pub mod Graph
pub mod Auth
pub mod Codec
pub mod Tests
