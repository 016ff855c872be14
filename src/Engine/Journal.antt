-- ===== src/Engine/Journal.antt =====
-- packages/core/src/engine.ts: processed commands, retries, event ids and metadata.
use hunsu.Base.{
  List, [], ◌∷◌, Bool, template, ◌||◌, ◌==◌, ◌!=◌, Option, none, some, map, if◌then◌else◌, ⊤,
}
use hunsu.Lists.{any, find, includes, push}
use hunsu.Protocol.{
  ok, DecisionId, EventId, IdempotencyKey, CommandMetadata, EventMetadata, ProjectState,
  ProcessedCommand, disposition_id, decision_id, DomainEvent,
}
use hunsu.Engine.Errors.{Outcome, failure, invalid_event, refuse_duplicate_if, idempotency_conflict}

-- NonEmptyArray fields are lists here.
pub data CommandDecision : Type 0 where
  accepted : List DomainEvent → CommandDecision
  reused : List EventId → CommandDecision

pub record CommandApplication : Type 0 where
  pub state : ProjectState
  pub emitted_events : List DomainEvent
  pub reused_event_ids : List EventId

unfoldable pub empty_project_state : ProjectState
empty_project_state = record {
  projects = [];
  nodes = [];
  runs = [];
  evidence = [];
  coach_reviews = [];
  coaching_proposals = [];
  coaching_proposal_decisions = [];
  comparisons = [];
  decisions = [];
  processed_commands = [];
}

-- `state.processedCommands.some(item => item.eventIds.includes(id))`
abbrev pub has_event : EventId → ProcessedCommand → Bool
has_event id c = includes c.event_ids id

abbrev pub has_key : IdempotencyKey → ProcessedCommand → Bool
has_key key c = c.idempotency_key == key

unfoldable pub validate_decision_id : ProjectState → DecisionId → Outcome ⊤
validate_decision_id s id =
    refuse_duplicate_if
      (any (λ d. disposition_id d == id) s.coaching_proposal_decisions
        || any (λ d. decision_id d == id) s.decisions)
      "Decision" id

unfoldable pub validate_additional_event_id : ProjectState → EventId → EventId → Outcome ⊤
validate_additional_event_id s primary additional =
    refuse_duplicate_if (primary == additional || any (has_event additional) s.processed_commands)
      "Event" additional

abbrev same_fingerprint : EventMetadata → Option ProcessedCommand → Outcome ⊤
same_fingerprint meta none = ok tt
same_fingerprint meta (some processed) =
    if processed.fingerprint != meta.fingerprint
    then invalid_event "Events sharing an idempotency key must share the same fingerprint"
    else ok tt

unfoldable pub validate_event_identity : ProjectState → EventMetadata → Outcome ⊤
validate_event_identity s meta =
    if any (has_event meta.event_id) s.processed_commands
    then invalid_event (template ("Event " ∷ meta.event_id ∷ " was already applied" ∷ []))
    else same_fingerprint meta (find (has_key meta.idempotency_key) s.processed_commands)

abbrev retry_of : CommandMetadata → Option ProcessedCommand → Outcome (Option CommandDecision)
retry_of meta none = ok none
retry_of meta (some processed) =
    if processed.fingerprint == meta.fingerprint
    then ok (some (reused processed.event_ids))
    else failure idempotency_conflict
        "Idempotency key was already used with another command fingerprint"

unfoldable pub decide_retry : ProjectState → CommandMetadata → Outcome (Option CommandDecision)
decide_retry s meta = retry_of meta (find (has_key meta.idempotency_key) s.processed_commands)

-- `{ idempotencyKey, fingerprint, eventIds: [meta.eventId] }`
abbrev pub processed_by : EventMetadata → ProcessedCommand
processed_by meta = record {
  idempotency_key = meta.idempotency_key;
  fingerprint = meta.fingerprint;
  event_ids = meta.event_id ∷ [];
}

-- `item.idempotencyKey === meta.idempotencyKey ? { ...item, eventIds: [...] } : item`
abbrev pub add_event_id : EventMetadata → ProcessedCommand → ProcessedCommand
add_event_id meta item =
    if item.idempotency_key == meta.idempotency_key
    then record item { event_ids = push item.event_ids meta.event_id }
    else item

-- The two branches of `finish`, on the command that is found.
abbrev pub record_event :
    Option ProcessedCommand → EventMetadata → List ProcessedCommand → List ProcessedCommand
record_event none meta processed = push processed (processed_by meta)
record_event (some _) meta processed = map (add_event_id meta) processed

unfoldable pub finish : ProjectState → EventMetadata → ProjectState
finish s meta = record s {
  processed_commands =
      record_event (find (has_key meta.idempotency_key) s.processed_commands) meta
        s.processed_commands;
}

-- `eventMetadata(meta, eventId)`
abbrev pub event_metadata_at : CommandMetadata → EventId → EventMetadata
event_metadata_at meta event_id = record {
  event_id = event_id;
  idempotency_key = meta.idempotency_key;
  fingerprint = meta.fingerprint;
  actor = meta.actor;
  recorded_at = meta.requested_at;
}

-- with the default argument
abbrev pub event_metadata : CommandMetadata → EventMetadata
event_metadata meta = event_metadata_at meta meta.event_id
