-- ===== src/Engine/Replay.antt =====
-- packages/core/src/engine.ts: `replayDomainEvents` and the batches of a history.
use hunsu.Base.{
  String, List, [], ◌∷◌, Bool, true, false, ◌&&◌, ◌||◌, ◌==◌, ◌!=◌, not, template, join, map, ⊤,
  if◌then◌else◌,
}
use hunsu.Lists.{includes, push}
use hunsu.Protocol.{
  ok, ◌>>=◌, ◌>>◌, Digests, ProjectState, DomainEvent, project_created,
  project_materializations_rebuilt, root_node_registered, run_started, run_checkpointed,
  run_evidence_attached, run_completed, run_child_node_registered, run_failed, run_canceled,
  coach_review_recorded, coaching_proposal_recorded, coaching_proposal_confirmed,
  coaching_child_node_registered, coaching_proposal_rejected, alternatives_compared,
  alternative_selected, alternatives_rejected, event_meta, EventMetadata, DomainActor, user, coach,
  plugin, system, EventId, IdempotencyKey,
}
use hunsu.Engine.Errors.{Outcome, refuse_if, invalid_event_code, ProjectIntegrityBoundary}
use hunsu.Engine.Journal.{empty_project_state}
use hunsu.Engine.Apply.{apply_domain_events}

unfoldable pub same_domain_actor : DomainActor → DomainActor → Bool
same_domain_actor (user a) (user b) = a == b
same_domain_actor (coach a) (coach b) = a == b
same_domain_actor (plugin a) (plugin b) = a == b
same_domain_actor system system = true
same_domain_actor _ _ = false

-- `event.type`
abbrev pub event_type : DomainEvent → String
event_type (project_created _ _) = "ProjectCreated"
event_type (project_materializations_rebuilt _ _) = "ProjectMaterializationsRebuilt"
event_type (root_node_registered _ _ _) = "RootNodeRegistered"
event_type (run_started _ _) = "RunStarted"
event_type (run_checkpointed _ _) = "RunCheckpointed"
event_type (run_evidence_attached _ _) = "RunEvidenceAttached"
event_type (run_completed _ _) = "RunCompleted"
event_type (run_child_node_registered _ _ _) = "RunChildNodeRegistered"
event_type (run_failed _ _ _) = "RunFailed"
event_type (run_canceled _ _ _) = "RunCanceled"
event_type (coach_review_recorded _ _) = "CoachReviewRecorded"
event_type (coaching_proposal_recorded _ _) = "CoachingProposalRecorded"
event_type (coaching_proposal_confirmed _ _) = "CoachingProposalConfirmed"
event_type (coaching_child_node_registered _ _ _) = "CoachingChildNodeRegistered"
event_type (coaching_proposal_rejected _ _) = "CoachingProposalRejected"
event_type (alternatives_compared _ _) = "AlternativesCompared"
event_type (alternative_selected _ _) = "AlternativeSelected"
event_type (alternatives_rejected _ _) = "AlternativesRejected"

-- The types that come in pairs only: the first and the second of a pair.
pub data PairRole : Type 0 where
  project_pair run_pair coaching_pair : PairRole

abbrev pub opens : DomainEvent → PairRole → Bool
opens (project_created _ _) PairRole.project_pair = true
opens (run_completed _ _) PairRole.run_pair = true
opens (coaching_proposal_confirmed _ _) PairRole.coaching_pair = true
opens _ _ = false

abbrev pub closes : DomainEvent → PairRole → Bool
closes (root_node_registered _ _ _) PairRole.project_pair = true
closes (run_child_node_registered _ _ _) PairRole.run_pair = true
closes (coaching_child_node_registered _ _ _) PairRole.coaching_pair = true
closes _ _ = false

-- `validPair`
abbrev pub is_valid_pair : DomainEvent → DomainEvent → Bool
is_valid_pair first second =
    (opens first PairRole.project_pair && closes second PairRole.project_pair)
    || ((opens first PairRole.run_pair && closes second PairRole.run_pair)
        || (opens first PairRole.coaching_pair && closes second PairRole.coaching_pair))

-- `requiresPair`, for one event
abbrev pub requires_pair : DomainEvent → Bool
requires_pair event =
    opens event PairRole.project_pair
    || (closes event PairRole.project_pair
        || (opens event PairRole.run_pair
            || (closes event PairRole.run_pair
                || (opens event PairRole.coaching_pair || closes event PairRole.coaching_pair))))

abbrev pub is_valid_batch : List DomainEvent → Bool
is_valid_batch [] = true
is_valid_batch (event ∷ []) = not (requires_pair event)
is_valid_batch (first ∷ second ∷ []) = is_valid_pair first second
is_valid_batch (_ ∷ _ ∷ _ ∷ _) = false

-- `closeCurrent`, but for the key that it adds to `closed`
unfoldable pub check_batch : List DomainEvent → Outcome ⊤
check_batch current = refuse_if (not (is_valid_batch current)) invalid_event_code (
    template
      ("Command event batch is incomplete or invalid: " ∷ join ", " (map event_type current) ∷ []))

abbrev pub key_of : DomainEvent → IdempotencyKey
key_of event = (event_meta event).idempotency_key

-- `first && event.meta.idempotencyKey !== first.meta.idempotencyKey`
abbrev pub starts_batch : List DomainEvent → DomainEvent → Bool
starts_batch [] event = false
starts_batch (first ∷ _) event = key_of event != key_of first

-- The test that an event shares fingerprint, timestamp and actor with the batch.
abbrev pub differs : EventMetadata → EventMetadata → Bool
differs event first =
    event.fingerprint != first.fingerprint
    || (event.recorded_at != first.recorded_at || not (same_domain_actor event.actor first.actor))

abbrev pub breaks_batch : List DomainEvent → DomainEvent → Bool
breaks_batch [] event = false
breaks_batch (first ∷ _) event = differs (event_meta event) (event_meta first)

-- `closed.add(current[0]!.meta.idempotencyKey)`
abbrev pub close_key : List DomainEvent → List IdempotencyKey → List IdempotencyKey
close_key [] closed = closed
close_key (first ∷ _) closed = key_of first ∷ closed

-- The variables of the loop.
pub record BatchScan : Type 0 where
  pub closed : List IdempotencyKey
  pub event_ids : List EventId
  pub current : List DomainEvent

-- The early return of the loop when a new key begins: the batch so far is closed.
unfoldable pub turn_batch : BatchScan → DomainEvent → Outcome BatchScan
turn_batch scan event =
    if starts_batch scan.current event
    then (check_batch scan.current
        >> ok (record scan { closed = close_key scan.current scan.closed; current = [] }))
    else ok scan

unfoldable pub scan_event : BatchScan → DomainEvent → Outcome BatchScan
unfolding turn_batch
scan_event scan event = do
  let id = (event_meta event).event_id
  refuse_if (includes scan.event_ids id) invalid_event_code
      (template ("Event " ∷ id ∷ " appears more than once" ∷ []))
  turned ← turn_batch scan event
  refuse_if (includes turned.closed (key_of event)) invalid_event_code
      "A command event batch cannot be split by another command"
  refuse_if (breaks_batch turned.current event) invalid_event_code
      "Events in one command batch must share fingerprint, actor, and timestamp"
  ok (record turned { event_ids = id ∷ scan.event_ids; current = push turned.current event })

unfoldable pub scan_events : BatchScan → List DomainEvent → Outcome ⊤
scan_events scan [] = check_batch scan.current
scan_events scan (event ∷ events) = do next ← scan_event scan event; scan_events next events

abbrev pub new_scan : BatchScan
new_scan = record { closed = []; event_ids = []; current = [] }

unfoldable pub validate_domain_event_batches : List DomainEvent → Outcome ⊤
validate_domain_event_batches events = scan_events new_scan events

module _ ⦃digests : Digests⦄ where
  unfoldable pub replay_domain_events :
      List DomainEvent → ProjectIntegrityBoundary → Outcome ProjectState
  replay_domain_events events integrity = do
    validate_domain_event_batches events
    apply_domain_events empty_project_state events integrity
