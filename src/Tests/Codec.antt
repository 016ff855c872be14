-- ===== src/Tests/Codec.antt =====
-- A sample state and a sample event for packages/protocol/src/serialization.ts, and their documents.
use hunsu.Base.{arith, ◌≡◌, refl, String, true, [], ◌∷◌, ◌==◌, template}
use hunsu.Lists.{All, set_from, set_of, all_unique}
use hunsu.Text.{
  is_digit, is_lower, is_upper, is_alphanumeric, is_token, is_hex, is_space, is_blank, utf16,
  starts_with, ends_with, has_part, split, decimal,
}
use hunsu.Regex.{matches}
use hunsu.Protocol.{
  ok, Digests, CanonicalJsonValue, JsonFields, GoalValue, RunnerTypeLock, RunnerValue, NodePlan,
  Project, NodeBase, root, DomainEvent, EventMetadata, alternatives_compared, sibling_runs, coach,
  run_failed, ProjectState,
}
use hunsu.Codec.Makers.{
  Dates, is_identifier, is_sha256, is_prefixed_digest, is_git_sha, is_valid_ref_name, is_git_ref,
  is_repository_owner, is_repository_name, is_timestamp, is_filled, is_origin, is_type_key,
  is_semantic_version,
}
use hunsu.Codec.Canonical.{stringify_canonical, quote, unknown_of}
use hunsu.Codec.Plans.{RunnerValueTypeRegistry, same_runner_type}
use hunsu.Codec.Events.{decode_domain_event, decode_historical_v2_event}
use hunsu.Codec.States.{decode_project_state}
use hunsu.Codec.Objects.Events.{encode_domain_event}
use hunsu.Codec.Objects.States.{state_document, encode_project_state}
use hunsu.Codec.Valid.{IsGoalValue, IsRunnerTypeLock, IsRunnerValue, IsNodePlan}
use hunsu.Codec.Valid.Records.{IsProject}
use hunsu.Codec.Valid.Nodes.{IsNodeBase}
use hunsu.Codec.Valid.Events.{IsDomainEvent}
use hunsu.Codec.Valid.States.{IsProjectState}
use hunsu.Codec.Values.{Unknown, exact_record, keys_of, property, sort_keys, decode_array}
use hunsu.Codec.Records.{decode_event_metadata, decode_actor}
use hunsu.Codec.Alternatives.{
  decode_historical_v2_comparison, decode_node_shas, decode_comparison_finding,
  decode_finding_summary, normalize_findings,
}
use hunsu.Codec.Objects.{string, object_of, array_of}
use hunsu.Codec.Objects.Records.{event_metadata_object, actor_object}
use hunsu.Codec.Objects.Alternatives.{comparison_finding_object, finding_summary_object}
use hunsu.Codec.Sound.Plans.{IsSteady}
use hunsu.Codec.Sound.Exact.{exact_record-every}
use hunsu.Codec.Values.{Fields, object, field, no_fields}
use hunsu.Lists.{every, includes}
use hunsu.Codec.Sound.Events.{decode_domain_event-again}
use hunsu.Codec.Sound.States.{decode_project_state-IsProjectState}
use hunsu.Codec.RoundTrip.Events.{decode_domain_event-encode_domain_event}
use hunsu.Codec.RoundTrip.States.{
  decode_project_state-state_document, decode_project_state-encode_project_state,
}
use hunsu.Codec.Grammar.{IsDocumentOf}
use hunsu.Codec.Order.{in_object, swapped, stringify_canonical-Reorders}

instance abbrev plain_dates : Dates
plain_dates = record { is_finite_date = λ _. true }

instance abbrev plain_digests : Digests
plain_digests = record {
  goal_digest_of = λ g. g.key;
  runner_digest_of = λ r. r.name;
  plan_digest_of = λ p. p.schema;
  payload_digest_of = λ p. p.schema;
  payload_bytes_of = λ _. 0;
}

abbrev sha : String
sha = "0123456789abcdef0123456789abcdef01234567"

abbrev hex64 : String
hex64 = "0123456789abcdef0123456789abcdef0123456789abcdef0123456789abcdef"

abbrev sample_time : String
sample_time = "2026-01-02T03:04:05.678Z"

abbrev sample_lock : RunnerTypeLock
sample_lock = record {
  origin = "bundled";
  key = "agent/prompt";
  schema_version = "1.0.0-rc.1";
  integrity =
      "hunsu-runner-type-v1:sha256:0123456789abcdef0123456789abcdef0123456789abcdef0123456789abcdef";
}

abbrev sample_registry : RunnerValueTypeRegistry
sample_registry = record { lock = sample_lock; decode = λ value _. ok value } ∷ []

abbrev sample_goal : GoalValue
sample_goal = record {
  key = "parse";
  title = "Parse";
  desired_outcome = "Texts are parsed";
  acceptance_criteria = "accepts" ∷ "rejects" ∷ [];
  constraints = [];
  priority = 1;
}

abbrev sample_runner : RunnerValue
sample_runner = record {
  schema = "hunsu.runner-value.v1";
  lock = sample_lock;
  name = "Agent";
  value = CanonicalJsonValue.string "do it";
}

abbrev sample_plan : NodePlan
sample_plan = record {
  schema = "hunsu.node-plan.v1";
  next_goals = sample_goal ∷ [];
  how = sample_runner;
}

abbrev sample_project : Project
sample_project = record {
  id = "project";
  workspace_id = "space";
  repository = record { owner = "octo-org"; name = "repo.name" };
  base_ref = "refs/heads/main";
  title = "Title";
  root_node_sha = sha;
  created_at = sample_time;
}

abbrev sample_root : NodeBase
sample_root = record {
  project_id = "project";
  commit_sha = sha;
  tree_sha = sha;
  managed_ref = "refs/tags/hunsu/node/project/0123";
  commit_title = "Root";
  plan = sample_plan;
  plan_digest =
      "hunsu-node-plan-v1:sha256:0123456789abcdef0123456789abcdef0123456789abcdef0123456789abcdef";
  payload_digest =
      "hunsu-node-payload-v1:sha256:0123456789abcdef0123456789abcdef0123456789abcdef0123456789abcdef";
  registered_at = sample_time;
}

abbrev sample_state : ProjectState
sample_state = record {
  projects = sample_project ∷ [];
  nodes = root sample_root ∷ [];
  runs = [];
  evidence = [];
  coach_reviews = [];
  coaching_proposals = [];
  coaching_proposal_decisions = [];
  comparisons = [];
  decisions = [];
  processed_commands =
      record { idempotency_key = hex64; fingerprint = hex64; event_ids = "e1" ∷ "e2" ∷ [] } ∷ [];
}

abbrev sample_event : DomainEvent
sample_event =
    run_failed
      (record {
        event_id = "e3";
        idempotency_key = hex64;
        fingerprint = hex64;
        actor = coach "reviewer";
        recorded_at = sample_time;
      })
      "run-1" "It broke"

-- The tests of the fields, to unfold.
unfoldable field_tests : Unit {0}
unfolding ◌==◌ template set_from set_of all_unique is_digit is_lower is_upper is_alphanumeric
    is_token is_hex is_space is_blank utf16 starts_with ends_with has_part split decimal matches
    is_identifier is_sha256 is_prefixed_digest is_git_sha is_valid_ref_name is_git_ref
    is_repository_owner is_repository_name is_timestamp is_filled is_origin is_type_key
    is_semantic_version stringify_canonical quote same_runner_type
field_tests = tt

sample_goal-IsGoalValue : IsGoalValue sample_goal
unfolding field_tests
sample_goal-IsGoalValue = record {
  key = refl;
  title = refl;
  desired_outcome = refl;
  criteria = (refl, (refl, tt));
  has_criteria = refl;
  unique_criteria = refl;
  constraints = tt;
  unique_constraints = refl;
  priority = refl;
}

sample_lock-IsRunnerTypeLock : IsRunnerTypeLock sample_lock
unfolding field_tests
sample_lock-IsRunnerTypeLock = record {
  origin = refl;
  key = refl;
  schema_version = refl;
  integrity = refl;
}

sample_runner-IsRunnerValue : IsRunnerValue sample_registry sample_runner
unfolding field_tests
sample_runner-IsRunnerValue = record {
  schema = refl;
  lock = sample_lock-IsRunnerTypeLock;
  name = refl;
  decoder = record { lock = sample_lock; decode = λ value _. ok value };
  registered = refl;
  decoded = λ _. CanonicalJsonValue.string "do it";
  decodes = λ _. refl;
  same_text = λ _. refl;
}

sample_plan-IsNodePlan : IsNodePlan sample_registry sample_plan
unfolding field_tests
sample_plan-IsNodePlan = record {
  schema = refl;
  goals = (sample_goal-IsGoalValue, tt);
  unique_keys = refl;
  unique_digests = refl;
  how = sample_runner-IsRunnerValue;
}

sample_project-IsProject : IsProject sample_project
unfolding field_tests
sample_project-IsProject = record {
  id = refl;
  workspace_id = refl;
  owner = refl;
  name = refl;
  base_ref = refl;
  title = refl;
  root_node_sha = refl;
  created_at = refl;
}

sample_root-IsNodeBase : IsNodeBase sample_registry sample_root
unfolding field_tests
sample_root-IsNodeBase = record {
  project_id = refl;
  commit_sha = refl;
  tree_sha = refl;
  managed_ref = refl;
  commit_title = refl;
  plan = sample_plan-IsNodePlan;
  plan_digest = refl;
  payload_digest = refl;
  registered_at = refl;
}

sample_state-IsProjectState : IsProjectState sample_registry sample_state
unfolding field_tests
sample_state-IsProjectState = record {
  projects = (sample_project-IsProject, tt);
  nodes = (sample_root-IsNodeBase, tt);
  runs = tt;
  evidence = tt;
  coach_reviews = tt;
  coaching_proposals = tt;
  coaching_proposal_decisions = tt;
  comparisons = tt;
  decisions = tt;
  processed_commands = (
    record {
      idempotency_key = refl;
      fingerprint = refl;
      event_ids = (refl, (refl, tt));
      has_events = refl;
    },
    tt,
  );
}

sample_event-IsDomainEvent : IsDomainEvent sample_registry sample_event
unfolding field_tests
sample_event-IsDomainEvent = (
  record {
    event_id = refl;
    idempotency_key = refl;
    fingerprint = refl;
    actor = refl;
    recorded_at = refl;
  },
  (refl, refl),
)

decode_project_state-encode_project_state_example :
    (value : Unknown) × IsDocumentOf value (encode_project_state sample_state)
    × (decode_project_state sample_registry value ≡ ok sample_state)
decode_project_state-encode_project_state_example =
    decode_project_state-encode_project_state sample_registry sample_state
      sample_state-IsProjectState

decode_domain_event-encode_domain_event_example :
    (value : Unknown) × IsDocumentOf value (encode_domain_event sample_event)
    × (decode_domain_event sample_registry value ≡ ok sample_event)
decode_domain_event-encode_domain_event_example =
    decode_domain_event-encode_domain_event sample_registry sample_event sample_event-IsDomainEvent

sample_registry-IsSteady : All IsSteady sample_registry
sample_registry-IsSteady = ((λ value decoded path other h. h), tt)

abbrev other_sha : String
other_sha = "abcdef0123456789abcdef0123456789abcdef01"

abbrev sample_meta : EventMetadata
sample_meta = record {
  event_id = "e4";
  idempotency_key = hex64;
  fingerprint = hex64;
  actor = coach "reviewer";
  recorded_at = sample_time;
}

-- A comparison as version 2 wrote it: the finding has no summary for the second Node.
abbrev historical_document : Unknown
historical_document = unknown_of (
    object_of (
      ("schema", string "hunsu.project-event.v2")
      ∷ (
        "event",
        object_of (
            ("type", string "AlternativesCompared")
            ∷ ("meta", event_metadata_object sample_meta)
            ∷ (
              "comparison",
              object_of (
                  ("id", string "c1")
                  ∷ ("projectId", string "project")
                  ∷ ("parentNodeSha", string sha)
                  ∷ ("nodeShas", array_of string (sha ∷ other_sha ∷ []))
                  ∷ (
                    "findings",
                    array_of comparison_finding_object (
                        record {
                          subject = "Speed";
                          summaries = record { node_sha = sha; summary = "Fast" } ∷ [];
                        }
                        ∷ []),
                  )
                  ∷ ("summary", string "Overall")
                  ∷ ("recordedAt", string sample_time)
                  ∷ []),
            )
            ∷ []),
      )
      ∷ []))

abbrev migrated_event : DomainEvent
migrated_event = alternatives_compared sample_meta (record {
  kind = sibling_runs sha;
  id = "c1";
  project_id = "project";
  node_shas = sha ∷ other_sha ∷ [];
  findings =
      record {
        subject = "Speed";
        summaries =
            record { node_sha = sha; summary = "Fast" }
            ∷ record { node_sha = other_sha; summary = "Overall" }
            ∷ [];
      }
      ∷ [];
  summary = "Overall";
  recorded_at = sample_time;
})

historical_decoded : decode_domain_event sample_registry historical_document ≡ ok migrated_event
unfolding field_tests unknown_of exact_record keys_of property sort_keys decode_array
    decode_domain_event decode_historical_v2_event decode_event_metadata decode_actor
    decode_historical_v2_comparison decode_node_shas decode_comparison_finding
    decode_finding_summary normalize_findings event_metadata_object actor_object
    comparison_finding_object finding_summary_object
historical_decoded = refl

decode_domain_event-again_example :
    (value : Unknown) × IsDocumentOf value (encode_domain_event migrated_event)
    × (decode_domain_event sample_registry value ≡ ok migrated_event)
decode_domain_event-again_example =
    decode_domain_event-again sample_registry sample_registry-IsSteady historical_document
      migrated_event historical_decoded

decode_project_state-IsProjectState_example : IsProjectState sample_registry sample_state
decode_project_state-IsProjectState_example =
    decode_project_state-IsProjectState sample_registry sample_registry-IsSteady
      (unknown_of (state_document sample_state)) sample_state
      (decode_project_state-state_document sample_registry sample_state sample_state-IsProjectState)

abbrev small_fields : Fields
small_fields = field "b" (Unknown.string "2") (field "a" (Unknown.string "1") no_fields)

exact_record-every_example :
    (object small_fields ≡ object small_fields)
    × (every (includes ("a" ∷ "b" ∷ [])) (keys_of small_fields) ≡ true)
    × (every (includes (keys_of small_fields)) ("a" ∷ "b" ∷ []) ≡ true)
unfolding field_tests exact_record keys_of sort_keys
exact_record-every_example =
    exact_record-every (object small_fields) "$" ("a" ∷ "b" ∷ []) small_fields refl

-- `{ "b": "2", "a": "1" }`, and the same in the other order.
abbrev one_order : CanonicalJsonValue
one_order = object_of (("b", string "2") ∷ ("a", string "1") ∷ [])

abbrev other_order : CanonicalJsonValue
other_order = object_of (("a", string "1") ∷ ("b", string "2") ∷ [])

stringify_canonical-Reorders_example :
    stringify_canonical one_order ≡ stringify_canonical other_order
unfolding utf16
stringify_canonical-Reorders_example = stringify_canonical-Reorders one_order other_order (
    in_object _ _
      (swapped "b" "a" (string "2") (string "1") JsonFields.no_fields (λ same. ground arith)))
