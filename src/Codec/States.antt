-- ===== src/Codec/States.antt =====
-- packages/protocol/src/serialization.ts: `decodeState`, and the root of a state's document.
use hunsu.Base.{String, [], ◌∷◌, template}
use hunsu.Protocol.{ok, ◌>>=◌, ◌>>◌, Digests, ProjectState}
use hunsu.Codec.Values.{Unknown, Decoded, property, is_text, exact_record, decode_array}
use hunsu.Codec.Makers.{Dates}
use hunsu.Codec.Fields.{Decoder, at_key, require}
use hunsu.Codec.Plans.{RunnerValueTypeRegistry}
use hunsu.Codec.Records.{decode_project, decode_processed_command}
use hunsu.Codec.Nodes.{decode_node}
use hunsu.Codec.Runs.{decode_evidence, decode_run}
use hunsu.Codec.Coaching.{decode_coach_review, decode_coaching_proposal, decode_coaching_decision}
use hunsu.Codec.Alternatives.{decode_comparison, decode_alternative_decision}

abbrev pub project_state_schema : String
project_state_schema = "hunsu.project-state.v2"

module _ ⦃dates : Dates⦄ ⦃digests : Digests⦄ (runner_types : RunnerValueTypeRegistry) where
  unfoldable pub decode_state : Decoder ProjectState
  decode_state value path = do
    fields ← exact_record value path (
        "projects" ∷ "nodes" ∷ "runs" ∷ "evidence" ∷ "coachReviews" ∷ "coachingProposals"
        ∷ "coachingProposalDecisions" ∷ "comparisons" ∷ "decisions" ∷ "processedCommands" ∷ [])
    projects ← at_key (decode_array decode_project) "projects" fields path
    nodes ← at_key (decode_array (decode_node runner_types)) "nodes" fields path
    runs ← at_key (decode_array (decode_run runner_types)) "runs" fields path
    evidence ← at_key (decode_array decode_evidence) "evidence" fields path
    coach_reviews ← at_key (decode_array decode_coach_review) "coachReviews" fields path
    coaching_proposals ←
        at_key (decode_array (decode_coaching_proposal runner_types)) "coachingProposals" fields
          path
    coaching_proposal_decisions ←
        at_key (decode_array decode_coaching_decision) "coachingProposalDecisions" fields path
    comparisons ← at_key (decode_array decode_comparison) "comparisons" fields path
    decisions ← at_key (decode_array decode_alternative_decision) "decisions" fields path
    processed_commands ←
        at_key (decode_array decode_processed_command) "processedCommands" fields path
    ok (record {
      projects = projects;
      nodes = nodes;
      runs = runs;
      evidence = evidence;
      coach_reviews = coach_reviews;
      coaching_proposals = coaching_proposals;
      coaching_proposal_decisions = coaching_proposal_decisions;
      comparisons = comparisons;
      decisions = decisions;
      processed_commands = processed_commands;
    })

  -- `decodeProjectState`, after `JSON.parse`.
  unfoldable pub decode_project_state : Unknown → Decoded ProjectState
  decode_project_state parsed = do
    fields ← exact_record parsed "$" ("schema" ∷ "state" ∷ [])
    require (is_text (property "schema" fields) project_state_schema) "$.schema"
        (template ("schema must be " ∷ project_state_schema ∷ []))
    decode_state (property "state" fields) "$.state"
