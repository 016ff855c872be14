-- ===== src/Codec/RoundTrip/States.antt =====
-- States: what `decodeState` and `decodeProjectState` of packages/protocol/src/serialization.ts read
-- back.
use hunsu.Base.{◌≡◌, refl, String, ◌==◌}
use hunsu.Protocol.{ok, Digests, ProjectState}
use hunsu.Codec.Values.{Unknown, exact_record, keys_of, property, sort_keys}
use hunsu.Codec.Grammar.{IsDocumentOf}
use hunsu.Codec.Written.{stringify_canonical-IsDocumentOf}
use hunsu.Codec.Makers.{Dates}
use hunsu.Codec.Plans.{RunnerValueTypeRegistry}
use hunsu.Codec.Records.{decode_project, decode_processed_command}
use hunsu.Codec.Nodes.{decode_node}
use hunsu.Codec.Runs.{decode_evidence, decode_run}
use hunsu.Codec.Coaching.{decode_coach_review, decode_coaching_proposal, decode_coaching_decision}
use hunsu.Codec.Alternatives.{decode_comparison, decode_alternative_decision}
use hunsu.Codec.States.{decode_state, decode_project_state}
use hunsu.Codec.Canonical.{unknown_of}
use hunsu.Codec.Objects.Records.{project_object, processed_command_object}
use hunsu.Codec.Objects.Nodes.{node_object}
use hunsu.Codec.Objects.Runs.{evidence_object, run_object}
use hunsu.Codec.Objects.Coaching.{
  coach_review_object, coaching_proposal_object, coaching_decision_object,
}
use hunsu.Codec.Objects.Alternatives.{comparison_object, alternative_decision_object}
use hunsu.Codec.Objects.States.{state_object, state_document, encode_project_state}
use hunsu.Codec.Valid.Records.{IsProject, IsProcessedCommand}
use hunsu.Codec.Valid.Nodes.{IsNode}
use hunsu.Codec.Valid.Runs.{IsEvidenceRef, IsRun}
use hunsu.Codec.Valid.Coaching.{IsCoachReview, IsCoachingProposal, IsCoachingProposalDecision}
use hunsu.Codec.Valid.Alternatives.{IsAlternativeComparison, IsAlternativeDecision}
use hunsu.Codec.Valid.States.{IsProjectState}
use hunsu.Codec.RoundTrip.Arrays.{decode_array-array_of}
use hunsu.Codec.RoundTrip.Records.{
  decode_project-project_object, decode_processed_command-processed_command_object,
}
use hunsu.Codec.RoundTrip.Nodes.{decode_node-node_object}
use hunsu.Codec.RoundTrip.Runs.{decode_evidence-evidence_object, decode_run-run_object}
use hunsu.Codec.RoundTrip.Coaching.{
  decode_coach_review-coach_review_object, decode_coaching_proposal-coaching_proposal_object,
  decode_coaching_decision-coaching_decision_object,
}
use hunsu.Codec.RoundTrip.Alternatives.{
  decode_comparison-comparison_object, decode_alternative_decision-alternative_decision_object,
}

module _ ⦃dates : Dates⦄ ⦃digests : Digests⦄ (runner_types : RunnerValueTypeRegistry) where
  pub decode_state-state_object :
      (x : ProjectState)
      → IsProjectState runner_types x
      → (path : String) → decode_state runner_types (unknown_of (state_object x)) path ≡ ok x
  unfolding unknown_of decode_state state_object exact_record keys_of property sort_keys ◌==◌
  decode_state-state_object x v path =
      rw
        (
          decode_array-array_of IsProject project_object decode_project
              decode_project-project_object x.projects _ v.projects,
          decode_array-array_of (IsNode runner_types) node_object (decode_node runner_types)
              (decode_node-node_object runner_types) x.nodes _ v.nodes,
          decode_array-array_of (IsRun runner_types) run_object (decode_run runner_types)
              (decode_run-run_object runner_types) x.runs _ v.runs,
          decode_array-array_of IsEvidenceRef evidence_object decode_evidence
              decode_evidence-evidence_object x.evidence _ v.evidence,
          decode_array-array_of IsCoachReview coach_review_object decode_coach_review
              decode_coach_review-coach_review_object x.coach_reviews _ v.coach_reviews,
          decode_array-array_of (IsCoachingProposal runner_types) coaching_proposal_object
              (decode_coaching_proposal runner_types)
              (decode_coaching_proposal-coaching_proposal_object runner_types) x.coaching_proposals
              _ v.coaching_proposals,
          decode_array-array_of IsCoachingProposalDecision coaching_decision_object
              decode_coaching_decision decode_coaching_decision-coaching_decision_object
              x.coaching_proposal_decisions _ v.coaching_proposal_decisions,
          decode_array-array_of IsAlternativeComparison comparison_object decode_comparison
              decode_comparison-comparison_object x.comparisons _ v.comparisons,
          decode_array-array_of IsAlternativeDecision alternative_decision_object
              decode_alternative_decision decode_alternative_decision-alternative_decision_object
              x.decisions _ v.decisions,
          decode_array-array_of IsProcessedCommand processed_command_object decode_processed_command
              decode_processed_command-processed_command_object x.processed_commands _
              v.processed_commands,
        )
        refl

  pub decode_project_state-state_document :
      (x : ProjectState)
      → IsProjectState runner_types x
      → decode_project_state runner_types (unknown_of (state_document x)) ≡ ok x
  unfolding unknown_of decode_project_state state_document exact_record keys_of property sort_keys
      ◌==◌
  decode_project_state-state_document x v = decode_state-state_object x v "$.state"

  -- The text that `encodeProjectState` writes for a well-formed state is the document, by the grammar
  -- of JSON with objects as unordered collections, of a value that decodes to the state.
  pub decode_project_state-encode_project_state :
      (x : ProjectState)
      → IsProjectState runner_types x
      → (value : Unknown) × IsDocumentOf value (encode_project_state x)
        × (decode_project_state runner_types value ≡ ok x)
  unfolding encode_project_state
  decode_project_state-encode_project_state x v = (
    unknown_of (state_document x),
    stringify_canonical-IsDocumentOf (state_document x),
    decode_project_state-state_document x v,
  )
