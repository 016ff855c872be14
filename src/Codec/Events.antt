-- ===== src/Codec/Events.antt =====
-- packages/protocol/src/serialization.ts: `decodeEvent`, `decodeHistoricalV2Event`, and the root of an
-- event's document.
use hunsu.Base.{
  String, Bool, ◌||◌, false, not, Option, none, some, List, [], ◌∷◌, template, if◌then◌else◌,
}
use hunsu.Protocol.{
  ok, ◌>>=◌, Digests, NodePayloadEnvelope, Node, RootNode, RunChildNode, CoachingChildNode, root,
  run_child, coaching_child, Run, RunningRun, running, CoachingProposalDecision,
  ConfirmedCoachingProposalDecision, RejectedCoachingProposalDecision, confirmed, rejected,
  AlternativeDecision, SelectionDecision, RejectionDecision, selection, rejection, EventMetadata,
  DomainEvent, project_created, project_materializations_rebuilt, root_node_registered, run_started,
  run_checkpointed, run_evidence_attached, run_completed, run_child_node_registered, run_failed,
  run_canceled, coach_review_recorded, coaching_proposal_recorded, coaching_proposal_confirmed,
  coaching_child_node_registered, coaching_proposal_rejected, alternatives_compared,
  alternative_selected, alternatives_rejected,
}
use hunsu.Codec.Values.{Unknown, Decoded, invalid, at, property, property_of, is_text, exact_record}
use hunsu.Codec.Makers.{Dates}
use hunsu.Codec.Fields.{Decoder, at_key, decode_id, decode_text}
use hunsu.Codec.Plans.{RunnerValueTypeRegistry, decode_node_payload_envelope}
use hunsu.Codec.Records.{is_tagged, has_tag, decode_event_metadata, decode_project}
use hunsu.Codec.Nodes.{decode_node}
use hunsu.Codec.Runs.{decode_checkpoint, decode_evidence, decode_verified_result, decode_run}
use hunsu.Codec.Coaching.{
  decode_coach_review, decode_coaching_proposal, decode_historical_v2_coaching_proposal,
  decode_coaching_decision,
}
use hunsu.Codec.Alternatives.{
  decode_comparison, decode_historical_v2_comparison, decode_alternative_decision,
}

abbrev pub project_event_schema : String
project_event_schema = "hunsu.project-event.v3"

abbrev pub historical_project_event_schema : String
historical_project_event_schema = "hunsu.project-event.v2"

-- What an event takes of the types that have variants.
abbrev pub as_root : Node → Option RootNode
as_root (root n) = some n
as_root _ = none

abbrev pub as_run_child : Node → Option RunChildNode
as_run_child (run_child n) = some n
as_run_child _ = none

abbrev pub as_coaching_child : Node → Option CoachingChildNode
as_coaching_child (coaching_child n) = some n
as_coaching_child _ = none

abbrev pub as_running : Run → Option RunningRun
as_running (running r) = some r
as_running _ = none

abbrev pub as_confirmed : CoachingProposalDecision → Option ConfirmedCoachingProposalDecision
as_confirmed (confirmed d) = some d
as_confirmed _ = none

abbrev pub as_rejected : CoachingProposalDecision → Option RejectedCoachingProposalDecision
as_rejected (rejected d) = some d
as_rejected _ = none

abbrev pub as_selection : AlternativeDecision → Option SelectionDecision
as_selection (selection d) = some d
as_selection _ = none

abbrev pub as_rejection : AlternativeDecision → Option RejectionDecision
as_rejection (rejection d) = some d
as_rejection _ = none

abbrev pub found_or {ℓ} : {A : Type ℓ} → Option A → String → String → Decoded A
found_or (some x) path message = ok x
found_or none path message = invalid path message

-- An event with one more property besides its type and its metadata.
abbrev pub decode_body {ℓ} :
    {A : Type ℓ} → String → Decoder A → (A → DomainEvent) → Unknown → String → Decoded DomainEvent
decode_body key decode make value path = do
  fields ← exact_record value path ("type" ∷ "meta" ∷ key ∷ [])
  body ← at_key decode key fields path
  ok (make body)

-- The same, where the body has to be of one variant.
abbrev pub decode_variant {ℓ κ} :
    {A : Type ℓ} {B : Type κ}
    → String
    → Decoder A
    → (A → Option B)
    → String
    → String
    → (B → DomainEvent)
    → Unknown
    → String
    → Decoded DomainEvent
decode_variant key decode narrow tag_key message make value path = do
  fields ← exact_record value path ("type" ∷ "meta" ∷ key ∷ [])
  body ← at_key decode key fields path
  narrowed ← found_or (narrow body) (at (at path key) tag_key) message
  ok (make narrowed)

abbrev pub decode_ending : (String → String → DomainEvent) → Unknown → String → Decoded DomainEvent
decode_ending make value path = do
  fields ← exact_record value path ("type" ∷ "meta" ∷ "runId" ∷ "reason" ∷ [])
  run_id ← at_key (decode_id "runId") "runId" fields path
  reason ← at_key decode_text "reason" fields path
  ok (make run_id reason)

-- The types whose representation has not changed since version 2.
abbrev pub unchanged_types : List String
unchanged_types =
    "ProjectCreated" ∷ "ProjectMaterializationsRebuilt" ∷ "RootNodeRegistered" ∷ "RunStarted"
    ∷ "RunCheckpointed" ∷ "RunEvidenceAttached" ∷ "RunCompleted" ∷ "RunChildNodeRegistered"
    ∷ "RunFailed" ∷ "RunCanceled" ∷ "CoachReviewRecorded" ∷ "CoachingProposalConfirmed"
    ∷ "CoachingProposalRejected" ∷ "CoachingChildNodeRegistered" ∷ "AlternativeSelected"
    ∷ "AlternativesRejected" ∷ []

abbrev pub is_unchanged : Unknown → List String → Bool
is_unchanged value [] = false
is_unchanged value (tag ∷ tags) = has_tag "type" value tag || is_unchanged value tags

module _ ⦃dates : Dates⦄ ⦃digests : Digests⦄ (runner_types : RunnerValueTypeRegistry) where
  unfoldable pub decode_node_registration_event {ℓ} :
      {A : Type ℓ}
      → (Node → Option A)
      → String
      → (A → NodePayloadEnvelope → DomainEvent)
      → Unknown
      → String
      → Decoded DomainEvent
  decode_node_registration_event narrow node_type make value path = do
    fields ← exact_record value path ("type" ∷ "meta" ∷ "node" ∷ "payload" ∷ [])
    decoded ← at_key (decode_node runner_types) "node" fields path
    node ←
        found_or (narrow decoded) (at (at path "node") "type")
          (template ("node type must be " ∷ node_type ∷ []))
    payload ← at_key decode_node_payload_envelope "payload" fields path
    ok (make node payload)

  -- The cases of `decodeEvent`, after the metadata.
  unfoldable pub decode_event_body : EventMetadata → Decoder DomainEvent
  decode_event_body meta value path =
      let is = λ (tag : String). has_tag "type" value tag in
      if is "ProjectCreated"
      then decode_body "project" decode_project (project_created meta) value path
      else if is "ProjectMaterializationsRebuilt"
      then decode_body "projectId" (decode_id "projectId") (project_materializations_rebuilt meta)
          value path
      else if is "RootNodeRegistered"
      then decode_node_registration_event as_root "root" (root_node_registered meta) value path
      else if is "RunStarted"
      then decode_variant "run" (decode_run runner_types) as_running "status"
          "RunStarted requires a running Run" (run_started meta) value path
      else if is "RunCheckpointed"
      then decode_body "checkpoint" decode_checkpoint (run_checkpointed meta) value path
      else if is "RunEvidenceAttached"
      then decode_body "evidence" decode_evidence (run_evidence_attached meta) value path
      else if is "RunCompleted"
      then decode_body "result" decode_verified_result (run_completed meta) value path
      else if is "RunChildNodeRegistered"
      then decode_node_registration_event as_run_child "run_child" (run_child_node_registered meta)
          value path
      else if is "RunFailed"
      then decode_ending (run_failed meta) value path
      else if is "RunCanceled"
      then decode_ending (run_canceled meta) value path
      else if is "CoachReviewRecorded"
      then decode_body "review" decode_coach_review (coach_review_recorded meta) value path
      else if is "CoachingProposalRecorded"
      then decode_body "proposal" (decode_coaching_proposal runner_types)
          (coaching_proposal_recorded meta) value path
      else if is "CoachingProposalConfirmed"
      then decode_variant "decision" decode_coaching_decision as_confirmed "status"
          "event type and Coaching decision status must agree" (coaching_proposal_confirmed meta)
          value path
      else if is "CoachingProposalRejected"
      then decode_variant "decision" decode_coaching_decision as_rejected "status"
          "event type and Coaching decision status must agree" (coaching_proposal_rejected meta)
          value path
      else if is "CoachingChildNodeRegistered"
      then decode_node_registration_event as_coaching_child "coaching_child"
          (coaching_child_node_registered meta) value path
      else if is "AlternativesCompared"
      then decode_body "comparison" decode_comparison (alternatives_compared meta) value path
      else if is "AlternativeSelected"
      then decode_variant "decision" decode_alternative_decision as_selection "type"
          "event type and alternative decision type must agree" (alternative_selected meta) value
          path
      else if is "AlternativesRejected"
      then decode_variant "decision" decode_alternative_decision as_rejection "type"
          "event type and alternative decision type must agree" (alternatives_rejected meta) value
          path
      else invalid (at path "type") "unsupported v3 event type"

  unfoldable pub decode_event : Decoder DomainEvent
  decode_event value path =
      if not (is_tagged "type" value)
      then invalid path "event must be a typed object"
      else decode_event_metadata (property_of "meta" value) (at path "meta") >>= λ meta.
          decode_event_body meta value path

  unfoldable pub decode_historical_v2_event : Decoder DomainEvent
  decode_historical_v2_event value path =
      if not (is_tagged "type" value)
      then invalid path "event must be a typed object"
      else decode_event_metadata (property_of "meta" value) (at path "meta") >>= λ meta.
          if has_tag "type" value "CoachingProposalRecorded"
          then decode_body "proposal" (decode_historical_v2_coaching_proposal runner_types)
              (coaching_proposal_recorded meta) value path
          else if has_tag "type" value "AlternativesCompared"
          then decode_body "comparison" decode_historical_v2_comparison (alternatives_compared meta)
              value path
          else if is_unchanged value unchanged_types
          then decode_event value path
          else invalid (at path "type") "unsupported historical v2 event type"

  -- `decodeDomainEvent`, after `JSON.parse`.
  unfoldable pub decode_domain_event : Unknown → Decoded DomainEvent
  decode_domain_event parsed = exact_record parsed "$" ("schema" ∷ "event" ∷ []) >>= λ fields.
      if is_text (property "schema" fields) project_event_schema
      then decode_event (property "event" fields) "$.event"
      else if is_text (property "schema" fields) historical_project_event_schema
      then decode_historical_v2_event (property "event" fields) "$.event"
      else invalid "$.schema" (
          template (
            "schema must be " ∷ project_event_schema ∷ " or " ∷ historical_project_event_schema
            ∷ []))
