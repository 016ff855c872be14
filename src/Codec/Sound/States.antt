-- ===== src/Codec/Sound/States.antt =====
-- States: what `decodeState` and `decodeProjectState` of packages/protocol/src/serialization.ts return.
use hunsu.Base.{◌≡◌, subst, [], ◌∷◌}
use hunsu.Lists.{All}
use hunsu.Protocol.{ok, Digests, ProjectState}
use hunsu.Codec.Values.{Unknown, exact_record, property, is_text}
use hunsu.Codec.Makers.{Dates}
use hunsu.Codec.Plans.{RunnerValueTypeRegistry}
use hunsu.Codec.States.{decode_state, decode_project_state, project_state_schema}
use hunsu.Codec.Valid.States.{IsProjectState}
use hunsu.Codec.Sound.Plans.{IsSteady}
use hunsu.Codec.Sound.Records.{decode_project-IsSound, decode_processed_command-IsSound}
use hunsu.Codec.Sound.Nodes.{decode_node-IsSound}
use hunsu.Codec.Sound.Evidence.{decode_evidence-IsSound}
use hunsu.Codec.Sound.Runs.{decode_run-IsSound}
use hunsu.Codec.Sound.Coaching.{
  decode_coach_review-IsSound, decode_coaching_proposal-IsSound, decode_coaching_decision-IsSound,
}
use hunsu.Codec.Sound.Alternatives.{decode_comparison-IsSound, decode_alternative_decision-IsSound}
use hunsu.Codec.Sound.Steps.{IsSound, bind_ok, ok_eq, require_ok, decode_array-IsSound, read}

module _ ⦃dates : Dates⦄ ⦃digests : Digests⦄ (runner_types : RunnerValueTypeRegistry)
    (steady : All IsSteady runner_types) where
  pub decode_state-IsSound : IsSound (decode_state runner_types) (IsProjectState runner_types)
  unfolding decode_state
  decode_state-IsSound = record {
    sound = λ value path x h.
        let (fields, _, h0) =
          bind_ok
            (exact_record value path (
              "projects" ∷ "nodes" ∷ "runs" ∷ "evidence" ∷ "coachReviews" ∷ "coachingProposals"
              ∷ "coachingProposalDecisions" ∷ "comparisons" ∷ "decisions" ∷ "processedCommands"
              ∷ []))
            _ x h in
        let (projects, of_projects, h1) =
          read (decode_array-IsSound decode_project-IsSound) "projects" fields path _ x h0 in
        let (nodes, of_nodes, h2) =
          read (decode_array-IsSound (decode_node-IsSound runner_types steady)) "nodes" fields path
            _ x h1 in
        let (runs, of_runs, h3) =
          read (decode_array-IsSound (decode_run-IsSound runner_types steady)) "runs" fields path _
            x h2 in
        let (evidence, of_evidence, h4) =
          read (decode_array-IsSound decode_evidence-IsSound) "evidence" fields path _ x h3 in
        let (coach_reviews, of_coach_reviews, h5) =
          read (decode_array-IsSound decode_coach_review-IsSound) "coachReviews" fields path _ x
            h4 in
        let (coaching_proposals, of_coaching_proposals, h6) =
          read (decode_array-IsSound (decode_coaching_proposal-IsSound runner_types steady))
            "coachingProposals" fields path _ x h5 in
        let (coaching_proposal_decisions, of_coaching_proposal_decisions, h7) =
          read (decode_array-IsSound decode_coaching_decision-IsSound) "coachingProposalDecisions"
            fields path _ x h6 in
        let (comparisons, of_comparisons, h8) =
          read (decode_array-IsSound decode_comparison-IsSound) "comparisons" fields path _ x h7 in
        let (decisions, of_decisions, h9) =
          read (decode_array-IsSound decode_alternative_decision-IsSound) "decisions" fields path _
            x h8 in
        let (processed_commands, of_processed_commands, h10) =
          read (decode_array-IsSound decode_processed_command-IsSound) "processedCommands" fields
            path _ x h9 in
        subst (IsProjectState runner_types) (ok_eq _ x h10) (record {
          projects = of_projects;
          nodes = of_nodes;
          runs = of_runs;
          evidence = of_evidence;
          coach_reviews = of_coach_reviews;
          coaching_proposals = of_coaching_proposals;
          coaching_proposal_decisions = of_coaching_proposal_decisions;
          comparisons = of_comparisons;
          decisions = of_decisions;
          processed_commands = of_processed_commands;
        });
  }

  -- What a document decodes to is a well-formed state, if the registered decoders use the path for their
  -- errors only.
  pub decode_project_state-IsProjectState :
      (parsed : Unknown) (state : ProjectState)
      → decode_project_state runner_types parsed ≡ ok state
      → IsProjectState runner_types state
  unfolding decode_project_state
  decode_project_state-IsProjectState parsed state h =
      let (fields, _, h0) = bind_ok (exact_record parsed "$" ("schema" ∷ "state" ∷ [])) _ state h in
      let (_, h1) =
        require_ok (is_text (property "schema" fields) project_state_schema) _ _ _ state h0 in
      decode_state-IsSound.sound _ _ state h1
