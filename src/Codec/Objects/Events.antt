-- ===== src/Codec/Objects/Events.antt =====
-- packages/protocol/src/model.ts: events as objects, and `encodeDomainEvent` of
-- packages/protocol/src/serialization.ts.
use hunsu.Base.{String, template, [], ◌∷◌}
use hunsu.Protocol.{
  CanonicalJsonValue, root, run_child, coaching_child, running, confirmed, rejected, selection,
  rejection, DomainEvent, project_created, project_materializations_rebuilt, root_node_registered,
  run_started, run_checkpointed, run_evidence_attached, run_completed, run_child_node_registered,
  run_failed, run_canceled, coach_review_recorded, coaching_proposal_recorded,
  coaching_proposal_confirmed, coaching_child_node_registered, coaching_proposal_rejected,
  alternatives_compared, alternative_selected, alternatives_rejected,
}
use hunsu.Codec.Events.{project_event_schema}
use hunsu.Codec.Canonical.{stringify_canonical}
use hunsu.Codec.Objects.{string, object_of, envelope_object}
use hunsu.Codec.Objects.Records.{event_metadata_object, project_object}
use hunsu.Codec.Objects.Nodes.{node_object}
use hunsu.Codec.Objects.Runs.{
  checkpoint_object, evidence_object, verified_result_object, run_object,
}
use hunsu.Codec.Objects.Coaching.{
  coach_review_object, coaching_proposal_object, coaching_decision_object,
}
use hunsu.Codec.Objects.Alternatives.{comparison_object, alternative_decision_object}

unfoldable pub event_object : DomainEvent → CanonicalJsonValue
event_object (project_created meta x) = object_of (
    ("type", string "ProjectCreated")
    ∷ ("meta", event_metadata_object meta)
    ∷ ("project", project_object x)
    ∷ [])
event_object (project_materializations_rebuilt meta x) = object_of (
    ("type", string "ProjectMaterializationsRebuilt")
    ∷ ("meta", event_metadata_object meta)
    ∷ ("projectId", string x)
    ∷ [])
event_object (root_node_registered meta x y) = object_of (
    ("type", string "RootNodeRegistered")
    ∷ ("meta", event_metadata_object meta)
    ∷ ("node", node_object (root x))
    ∷ ("payload", envelope_object y)
    ∷ [])
event_object (run_started meta x) = object_of (
    ("type", string "RunStarted")
    ∷ ("meta", event_metadata_object meta)
    ∷ ("run", run_object (running x))
    ∷ [])
event_object (run_checkpointed meta x) = object_of (
    ("type", string "RunCheckpointed")
    ∷ ("meta", event_metadata_object meta)
    ∷ ("checkpoint", checkpoint_object x)
    ∷ [])
event_object (run_evidence_attached meta x) = object_of (
    ("type", string "RunEvidenceAttached")
    ∷ ("meta", event_metadata_object meta)
    ∷ ("evidence", evidence_object x)
    ∷ [])
event_object (run_completed meta x) = object_of (
    ("type", string "RunCompleted")
    ∷ ("meta", event_metadata_object meta)
    ∷ ("result", verified_result_object x)
    ∷ [])
event_object (run_child_node_registered meta x y) = object_of (
    ("type", string "RunChildNodeRegistered")
    ∷ ("meta", event_metadata_object meta)
    ∷ ("node", node_object (run_child x))
    ∷ ("payload", envelope_object y)
    ∷ [])
event_object (run_failed meta x y) = object_of (
    ("type", string "RunFailed")
    ∷ ("meta", event_metadata_object meta)
    ∷ ("runId", string x)
    ∷ ("reason", string y)
    ∷ [])
event_object (run_canceled meta x y) = object_of (
    ("type", string "RunCanceled")
    ∷ ("meta", event_metadata_object meta)
    ∷ ("runId", string x)
    ∷ ("reason", string y)
    ∷ [])
event_object (coach_review_recorded meta x) = object_of (
    ("type", string "CoachReviewRecorded")
    ∷ ("meta", event_metadata_object meta)
    ∷ ("review", coach_review_object x)
    ∷ [])
event_object (coaching_proposal_recorded meta x) = object_of (
    ("type", string "CoachingProposalRecorded")
    ∷ ("meta", event_metadata_object meta)
    ∷ ("proposal", coaching_proposal_object x)
    ∷ [])
event_object (coaching_proposal_confirmed meta x) = object_of (
    ("type", string "CoachingProposalConfirmed")
    ∷ ("meta", event_metadata_object meta)
    ∷ ("decision", coaching_decision_object (confirmed x))
    ∷ [])
event_object (coaching_child_node_registered meta x y) = object_of (
    ("type", string "CoachingChildNodeRegistered")
    ∷ ("meta", event_metadata_object meta)
    ∷ ("node", node_object (coaching_child x))
    ∷ ("payload", envelope_object y)
    ∷ [])
event_object (coaching_proposal_rejected meta x) = object_of (
    ("type", string "CoachingProposalRejected")
    ∷ ("meta", event_metadata_object meta)
    ∷ ("decision", coaching_decision_object (rejected x))
    ∷ [])
event_object (alternatives_compared meta x) = object_of (
    ("type", string "AlternativesCompared")
    ∷ ("meta", event_metadata_object meta)
    ∷ ("comparison", comparison_object x)
    ∷ [])
event_object (alternative_selected meta x) = object_of (
    ("type", string "AlternativeSelected")
    ∷ ("meta", event_metadata_object meta)
    ∷ ("decision", alternative_decision_object (selection x))
    ∷ [])
event_object (alternatives_rejected meta x) = object_of (
    ("type", string "AlternativesRejected")
    ∷ ("meta", event_metadata_object meta)
    ∷ ("decision", alternative_decision_object (rejection x))
    ∷ [])

-- `{ schema: PROJECT_EVENT_SCHEMA, event }`
unfoldable pub event_document : DomainEvent → CanonicalJsonValue
event_document event =
    object_of (("schema", string project_event_schema) ∷ ("event", event_object event) ∷ [])

unfoldable pub encode_domain_event : DomainEvent → String
encode_domain_event event = template (stringify_canonical (event_document event) ∷ "\n" ∷ [])
