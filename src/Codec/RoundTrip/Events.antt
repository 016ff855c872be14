-- ===== src/Codec/RoundTrip/Events.antt =====
-- Events: what `decodeEvent` and `decodeDomainEvent` of packages/protocol/src/serialization.ts read
-- back.
use hunsu.Base.{◌≡◌, refl, String, ◌==◌}
use hunsu.Protocol.{
  ok, Digests, root, run_child, coaching_child, running, confirmed, rejected, selection, rejection,
  DomainEvent, project_created, project_materializations_rebuilt, root_node_registered, run_started,
  run_checkpointed, run_evidence_attached, run_completed, run_child_node_registered, run_failed,
  run_canceled, coach_review_recorded, coaching_proposal_recorded, coaching_proposal_confirmed,
  coaching_child_node_registered, coaching_proposal_rejected, alternatives_compared,
  alternative_selected, alternatives_rejected,
}
use hunsu.Codec.Values.{Unknown, exact_record, keys_of, property, sort_keys}
use hunsu.Codec.Grammar.{IsDocumentOf}
use hunsu.Codec.Written.{stringify_canonical-IsDocumentOf}
use hunsu.Codec.Makers.{Dates}
use hunsu.Codec.Plans.{RunnerValueTypeRegistry}
use hunsu.Codec.Events.{
  decode_event, decode_event_body, decode_node_registration_event, decode_domain_event,
}
use hunsu.Codec.Canonical.{unknown_of}
use hunsu.Codec.Objects.Events.{event_object, event_document, encode_domain_event}
use hunsu.Codec.Valid.Events.{IsDomainEvent}
use hunsu.Codec.RoundTrip.Plans.{decode_node_payload_envelope-envelope_object}
use hunsu.Codec.RoundTrip.Records.{
  decode_event_metadata-event_metadata_object, decode_project-project_object,
}
use hunsu.Codec.RoundTrip.Nodes.{decode_node-node_object}
use hunsu.Codec.RoundTrip.Runs.{
  decode_checkpoint-checkpoint_object, decode_evidence-evidence_object,
  decode_verified_result-verified_result_object, decode_run-run_object,
}
use hunsu.Codec.RoundTrip.Coaching.{
  decode_coach_review-coach_review_object, decode_coaching_proposal-coaching_proposal_object,
  decode_coaching_decision-coaching_decision_object,
}
use hunsu.Codec.RoundTrip.Alternatives.{
  decode_comparison-comparison_object, decode_alternative_decision-alternative_decision_object,
}

module _ ⦃dates : Dates⦄ ⦃digests : Digests⦄ (runner_types : RunnerValueTypeRegistry) where
  pub decode_event-event_object :
      (x : DomainEvent)
      → IsDomainEvent runner_types x
      → (path : String) → decode_event runner_types (unknown_of (event_object x)) path ≡ ok x
  unfolding unknown_of decode_event event_object decode_event_body decode_node_registration_event
      exact_record keys_of property sort_keys ◌==◌
  decode_event-event_object (project_created meta x) (m, v) path =
      rw (decode_event_metadata-event_metadata_object meta m, decode_project-project_object x v)
        refl
  decode_event-event_object (project_materializations_rebuilt meta x) (m, v) path =
      rw (decode_event_metadata-event_metadata_object meta m, v) refl
  decode_event-event_object (root_node_registered meta x y) (m, (v, w)) path =
      rw
        (
          decode_event_metadata-event_metadata_object meta m,
          decode_node-node_object runner_types (root x) v,
          decode_node_payload_envelope-envelope_object y w,
        )
        refl
  decode_event-event_object (run_started meta x) (m, v) path =
      rw
        (
          decode_event_metadata-event_metadata_object meta m,
          decode_run-run_object runner_types (running x) v,
        )
        refl
  decode_event-event_object (run_checkpointed meta x) (m, v) path =
      rw
        (
          decode_event_metadata-event_metadata_object meta m,
          decode_checkpoint-checkpoint_object x v,
        )
        refl
  decode_event-event_object (run_evidence_attached meta x) (m, v) path =
      rw (decode_event_metadata-event_metadata_object meta m, decode_evidence-evidence_object x v)
        refl
  decode_event-event_object (run_completed meta x) (m, v) path =
      rw
        (
          decode_event_metadata-event_metadata_object meta m,
          decode_verified_result-verified_result_object x v,
        )
        refl
  decode_event-event_object (run_child_node_registered meta x y) (m, (v, w)) path =
      rw
        (
          decode_event_metadata-event_metadata_object meta m,
          decode_node-node_object runner_types (run_child x) v,
          decode_node_payload_envelope-envelope_object y w,
        )
        refl
  decode_event-event_object (run_failed meta x y) (m, (v, w)) path =
      rw (decode_event_metadata-event_metadata_object meta m, v, w) refl
  decode_event-event_object (run_canceled meta x y) (m, (v, w)) path =
      rw (decode_event_metadata-event_metadata_object meta m, v, w) refl
  decode_event-event_object (coach_review_recorded meta x) (m, v) path =
      rw
        (
          decode_event_metadata-event_metadata_object meta m,
          decode_coach_review-coach_review_object x v,
        )
        refl
  decode_event-event_object (coaching_proposal_recorded meta x) (m, v) path =
      rw
        (
          decode_event_metadata-event_metadata_object meta m,
          decode_coaching_proposal-coaching_proposal_object runner_types x v,
        )
        refl
  decode_event-event_object (coaching_proposal_confirmed meta x) (m, v) path =
      rw
        (
          decode_event_metadata-event_metadata_object meta m,
          decode_coaching_decision-coaching_decision_object (confirmed x) v,
        )
        refl
  decode_event-event_object (coaching_child_node_registered meta x y) (m, (v, w)) path =
      rw
        (
          decode_event_metadata-event_metadata_object meta m,
          decode_node-node_object runner_types (coaching_child x) v,
          decode_node_payload_envelope-envelope_object y w,
        )
        refl
  decode_event-event_object (coaching_proposal_rejected meta x) (m, v) path =
      rw
        (
          decode_event_metadata-event_metadata_object meta m,
          decode_coaching_decision-coaching_decision_object (rejected x) v,
        )
        refl
  decode_event-event_object (alternatives_compared meta x) (m, v) path =
      rw
        (
          decode_event_metadata-event_metadata_object meta m,
          decode_comparison-comparison_object x v,
        )
        refl
  decode_event-event_object (alternative_selected meta x) (m, v) path =
      rw
        (
          decode_event_metadata-event_metadata_object meta m,
          decode_alternative_decision-alternative_decision_object (selection x) v,
        )
        refl
  decode_event-event_object (alternatives_rejected meta x) (m, v) path =
      rw
        (
          decode_event_metadata-event_metadata_object meta m,
          decode_alternative_decision-alternative_decision_object (rejection x) v,
        )
        refl

  decode_domain_event-event_document :
      (x : DomainEvent)
      → IsDomainEvent runner_types x
      → decode_domain_event runner_types (unknown_of (event_document x)) ≡ ok x
  unfolding unknown_of decode_domain_event event_document exact_record keys_of property sort_keys
      ◌==◌
  decode_domain_event-event_document x v = decode_event-event_object x v "$.event"

  -- The text that `encodeDomainEvent` writes for a well-formed event is the document, by the grammar
  -- of JSON with objects as unordered collections, of a value that decodes to the event.
  pub decode_domain_event-encode_domain_event :
      (x : DomainEvent)
      → IsDomainEvent runner_types x
      → (value : Unknown) × IsDocumentOf value (encode_domain_event x)
        × (decode_domain_event runner_types value ≡ ok x)
  unfolding encode_domain_event
  decode_domain_event-encode_domain_event x v = (
    unknown_of (event_document x),
    stringify_canonical-IsDocumentOf (event_document x),
    decode_domain_event-event_document x v,
  )
