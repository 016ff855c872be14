-- ===== src/Codec/Objects.antt =====
-- packages/protocol/src/model.ts: the records as the JSON values that `stringifyCanonical` of
-- packages/protocol/src/serialization.ts gets.
pub mod Records
pub mod Nodes
pub mod Runs
pub mod Coaching
pub mod Alternatives
pub mod Events
pub mod States
use hunsu.Base.{ℕ, String, Bool, map, List, [], ◌∷◌}
use hunsu.Protocol.{
  natural, CanonicalJsonValue, JsonItems, JsonFields, GoalValue, RunnerTypeLock, RunnerValue,
  NodePlan, NodePayload, NodePayloadEnvelope,
}

abbrev pub string : String → CanonicalJsonValue
string text = CanonicalJsonValue.string text

abbrev fields_of : List (String × CanonicalJsonValue) → JsonFields
fields_of [] = JsonFields.no_fields
fields_of ((key, value) ∷ entries) = JsonFields.field key value (fields_of entries)

abbrev pub object_of : List (String × CanonicalJsonValue) → CanonicalJsonValue
object_of entries = CanonicalJsonValue.object (fields_of entries)

abbrev pub items_of {ℓ} : {A : Type ℓ} → (A → CanonicalJsonValue) → List A → JsonItems
items_of print [] = JsonItems.no_items
items_of print (x ∷ xs) = JsonItems.item (print x) (items_of print xs)

abbrev pub array_of {ℓ} : {A : Type ℓ} → (A → CanonicalJsonValue) → List A → CanonicalJsonValue
array_of print xs = CanonicalJsonValue.array (items_of print xs)

abbrev pub number_of : ℕ → CanonicalJsonValue
number_of n = CanonicalJsonValue.number (natural n)

unfoldable pub goal_object : GoalValue → CanonicalJsonValue
goal_object g = object_of (
    ("key", string g.key)
    ∷ ("title", string g.title)
    ∷ ("desiredOutcome", string g.desired_outcome)
    ∷ ("acceptanceCriteria", array_of string g.acceptance_criteria)
    ∷ ("constraints", array_of string g.constraints)
    ∷ ("priority", number_of g.priority)
    ∷ [])

unfoldable pub lock_object : RunnerTypeLock → CanonicalJsonValue
lock_object l = object_of (
    ("origin", string l.origin)
    ∷ ("key", string l.key)
    ∷ ("schemaVersion", string l.schema_version)
    ∷ ("integrity", string l.integrity)
    ∷ [])

unfoldable pub runner_object : RunnerValue → CanonicalJsonValue
runner_object r = object_of (
    ("schema", string r.schema)
    ∷ ("type", lock_object r.lock)
    ∷ ("name", string r.name)
    ∷ ("value", r.value)
    ∷ [])

unfoldable pub plan_object : NodePlan → CanonicalJsonValue
plan_object p = object_of (
    ("schema", string p.schema)
    ∷ ("nextGoals", array_of goal_object p.next_goals)
    ∷ ("how", runner_object p.how)
    ∷ [])

unfoldable pub payload_object : NodePayload → CanonicalJsonValue
payload_object p = object_of (
    ("schema", string p.schema)
    ∷ ("projectId", string p.project_id)
    ∷ ("commitSha", string p.commit_sha)
    ∷ ("treeSha", string p.tree_sha)
    ∷ ("plan", plan_object p.plan)
    ∷ [])

unfoldable pub envelope_object : NodePayloadEnvelope → CanonicalJsonValue
envelope_object e = object_of (
    ("schema", string e.schema)
    ∷ ("codec", string e.codec)
    ∷ ("decodedSize", number_of e.decoded_size)
    ∷ ("encodedSize", number_of e.encoded_size)
    ∷ ("digest", string e.digest)
    ∷ ("data", string e.contents)
    ∷ [])
