-- ===== src/Codec/Sound/Nodes.antt =====
-- Nodes: what `decodeNode` of packages/protocol/src/serialization.ts returns.
use hunsu.Base.{subst, String, not, [], ◌∷◌}
use hunsu.Lists.{All}
use hunsu.Protocol.{Digests}
use hunsu.Codec.Values.{Unknown, Fields, exact_record}
use hunsu.Codec.Makers.{Dates}
use hunsu.Codec.Plans.{RunnerValueTypeRegistry}
use hunsu.Codec.Records.{is_tagged, has_tag}
use hunsu.Codec.Nodes.{
  node_keys, decode_node_base, decode_root, decode_run_child, decode_coaching_child, decode_node,
}
use hunsu.Codec.Valid.Nodes.{IsNodeBase, IsRunChildNode, IsCoachingChildNode, IsNode}
use hunsu.Codec.Sound.Plans.{IsSteady, decode_node_plan-IsSound}
use hunsu.Codec.Sound.Fields.{
  decode_id-IsSound, decode_text-IsSound, decode_git_sha-IsSound, decode_ref-IsSound,
  decode_goal_digest-IsSound, decode_plan_digest-IsSound, decode_payload_digest-IsSound,
  decode_timestamp-IsSound,
}
use hunsu.Codec.Sound.Steps.{IsSound, Gives, bind_ok, refusal, if_Gives, sound_of, ok_eq, read}

module _ ⦃dates : Dates⦄ ⦃digests : Digests⦄ (runner_types : RunnerValueTypeRegistry)
    (steady : All IsSteady runner_types) where
  decode_node_base-Gives :
      (fields : Fields) (path : String)
      → Gives (IsNodeBase runner_types) (decode_node_base runner_types fields path)
  unfolding decode_node_base
  decode_node_base-Gives fields path = record {
    gives = λ x h.
        let (project_id, of_project_id, h1) =
          read (decode_id-IsSound "projectId") "projectId" fields path _ x h in
        let (commit_sha, of_commit_sha, h2) =
          read decode_git_sha-IsSound "commitSha" fields path _ x h1 in
        let (tree_sha, of_tree_sha, h3) =
          read decode_git_sha-IsSound "treeSha" fields path _ x h2 in
        let (managed_ref, of_managed_ref, h4) =
          read decode_ref-IsSound "managedRef" fields path _ x h3 in
        let (commit_title, of_commit_title, h5) =
          read decode_text-IsSound "commitTitle" fields path _ x h4 in
        let (plan, of_plan, h6) =
          read (decode_node_plan-IsSound runner_types steady) "plan" fields path _ x h5 in
        let (plan_digest, of_plan_digest, h7) =
          read decode_plan_digest-IsSound "planDigest" fields path _ x h6 in
        let (payload_digest, of_payload_digest, h8) =
          read decode_payload_digest-IsSound "payloadDigest" fields path _ x h7 in
        let (registered_at, of_registered_at, h9) =
          read decode_timestamp-IsSound "registeredAt" fields path _ x h8 in
        subst (IsNodeBase runner_types) (ok_eq _ x h9) (record {
          project_id = of_project_id;
          commit_sha = of_commit_sha;
          tree_sha = of_tree_sha;
          managed_ref = of_managed_ref;
          commit_title = of_commit_title;
          plan = of_plan;
          plan_digest = of_plan_digest;
          payload_digest = of_payload_digest;
          registered_at = of_registered_at;
        });
  }

  root-Gives :
      (value : Unknown) (path : String)
      → Gives (IsNode runner_types) (decode_root runner_types value path)
  unfolding decode_root
  root-Gives value path = record {
    gives = λ x h.
        let (fields, _, h0) = bind_ok (exact_record value path (node_keys [])) _ x h in
        let (base, of_base, h1) = bind_ok (decode_node_base runner_types fields path) _ x h0 in
        subst (IsNode runner_types) (ok_eq _ x h1)
          ((decode_node_base-Gives fields path).gives base of_base);
  }

  run_child-Gives :
      (value : Unknown) (path : String)
      → Gives (IsNode runner_types) (decode_run_child runner_types value path)
  unfolding decode_run_child
  run_child-Gives value path = record {
    gives = λ x h.
        let (fields, _, h0) =
          bind_ok
            (exact_record value path
              (node_keys ("parentSha" ∷ "runId" ∷ "consumedGoalDigest" ∷ [])))
            _ x h in
        let (base, of_base, h1) = bind_ok (decode_node_base runner_types fields path) _ x h0 in
        let (parent_sha, of_parent_sha, h2) =
          read decode_git_sha-IsSound "parentSha" fields path _ x h1 in
        let (run_id, of_run_id, h3) = read (decode_id-IsSound "runId") "runId" fields path _ x h2 in
        let (digest, of_digest, h4) =
          read decode_goal_digest-IsSound "consumedGoalDigest" fields path _ x h3 in
        let child : IsRunChildNode runner_types (record {
          base = base;
          parent_sha = parent_sha;
          run_id = run_id;
          consumed_goal_digest = digest;
        }) =
          record {
            base = (decode_node_base-Gives fields path).gives base of_base;
            parent_sha = of_parent_sha;
            run_id = of_run_id;
            consumed_goal_digest = of_digest;
          } in
        subst (IsNode runner_types) (ok_eq _ x h4) child;
  }

  coaching_child-Gives :
      (value : Unknown) (path : String)
      → Gives (IsNode runner_types) (decode_coaching_child runner_types value path)
  unfolding decode_coaching_child
  coaching_child-Gives value path = record {
    gives = λ x h.
        let (fields, _, h0) =
          bind_ok (exact_record value path (node_keys ("parentSha" ∷ "proposalId" ∷ []))) _ x h in
        let (base, of_base, h1) = bind_ok (decode_node_base runner_types fields path) _ x h0 in
        let (parent_sha, of_parent_sha, h2) =
          read decode_git_sha-IsSound "parentSha" fields path _ x h1 in
        let (proposal_id, of_proposal_id, h3) =
          read (decode_id-IsSound "coachingProposalId") "proposalId" fields path _ x h2 in
        let child : IsCoachingChildNode runner_types
            (record { base = base; parent_sha = parent_sha; proposal_id = proposal_id }) =
          record {
            base = (decode_node_base-Gives fields path).gives base of_base;
            parent_sha = of_parent_sha;
            proposal_id = of_proposal_id;
          } in
        subst (IsNode runner_types) (ok_eq _ x h3) child;
  }

  pub decode_node-IsSound : IsSound (decode_node runner_types) (IsNode runner_types)
  unfolding decode_node
  decode_node-IsSound = sound_of (decode_node runner_types) λ value path.
      if_Gives (not (is_tagged "type" value)) _ _ (refusal _ _) (
        if_Gives (has_tag "type" value "root") _ _ (root-Gives value path) (
          if_Gives (has_tag "type" value "run_child") _ _ (run_child-Gives value path) (
            if_Gives (has_tag "type" value "coaching_child") _ _ (coaching_child-Gives value path)
              (refusal _ _))))
