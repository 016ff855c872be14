-- ===== src/Engine/Runs.antt =====
-- packages/core/src/engine.ts: starting a Run, its checkpoints, evidence, result and child Node.
use hunsu.Base.{
  String, List, [], ◌∷◌, Bool, false, template, join, ◌||◌, ◌&&◌, ◌==◌, ◌!=◌, not, nat_eq, ⊤,
}
use hunsu.Lists.{any, filter, length, is_empty, includes}
use hunsu.Protocol.{
  ok, ◌>>=◌, ◌>>◌, Digests, compute_goal_digest, compute_runner_digest, compute_node_plan_digest,
  GoalValue, GitCommitSha, IsoTimestamp, NodePayloadEnvelope, node_base, RunChildNode, run_child,
  ProjectState, StartRun, Run, running, completed, failed, canceled, RunningRun, run_base,
  run_branch_name, RunCheckpoint, EvidenceRef, EvidenceTarget, whole_run, criterion,
  AcceptanceCriterion, VerifiedRunResult,
}
use hunsu.Engine.Errors.{
  Outcome, failure, refuse_if, refuse_duplicate_if, invariant_violation, invalid_transition,
  ProjectIntegrityBoundary,
}
use hunsu.Engine.Lookup.{find_project, find_node, find_running_run, is_run, is_rejected_node}
use hunsu.Engine.Nodes.{has_digest, inherit_run_child_plan, validate_new_node}

-- `state.runs.some(item => item.checkpoints.some(existing => existing.id === id))`
abbrev pub has_checkpoint : String → Run → Bool
has_checkpoint id r = any (λ (c : RunCheckpoint). c.id == id) (run_base r).checkpoints

unfoldable pub validate_checkpoint : ProjectState → RunCheckpoint → Outcome ⊤
validate_checkpoint s checkpoint = do
  run ← find_running_run s checkpoint.run_id
  refuse_duplicate_if (any (has_checkpoint checkpoint.id) s.runs) "Checkpoint" checkpoint.id

-- `target.type === "criterion" && !criteria.includes(target.criterion)`
abbrev pub is_foreign_target : List AcceptanceCriterion → EvidenceTarget → Bool
is_foreign_target criteria whole_run = false
is_foreign_target criteria (criterion c) = not (includes criteria c)

unfoldable pub validate_evidence : ProjectState → EvidenceRef → Outcome ⊤
validate_evidence s evidence = do
  refuse_duplicate_if (any (λ (item : EvidenceRef). item.id == evidence.id) s.evidence) "Evidence"
      evidence.id
  run ← find_running_run s evidence.run_id
  refuse_if (run.project_id != evidence.project_id) invariant_violation
      "Evidence and Run must belong to the same Project"
  refuse_if (is_foreign_target run.goal.acceptance_criteria evidence.target) invariant_violation
      "Evidence criterion must belong to the Run's single Goal snapshot"

-- `[target.criterion]` or nothing
abbrev pub target_criteria : EvidenceTarget → List AcceptanceCriterion
target_criteria whole_run = []
target_criteria (criterion c) = c ∷ []

-- The test of the filter in `validateVerifiedRunResult`, but for the target's type.
abbrev pub is_evidence_of : RunningRun → EvidenceRef → Bool
is_evidence_of run item = item.run_id == run.id && includes run.evidence_ids item.id

abbrev pub covers : RunningRun → AcceptanceCriterion → EvidenceRef → Bool
covers run c item = is_evidence_of run item && includes (target_criteria item.target) c

-- `covered.has(criterion)`
abbrev pub is_covered : ProjectState → RunningRun → AcceptanceCriterion → Bool
is_covered s run c = any (covers run c) s.evidence

unfoldable pub validate_verified_run_result : ProjectState → VerifiedRunResult → Outcome RunningRun
validate_verified_run_result s result = do
  run ← find_running_run s result.run_id
  refuse_if (run.branch != result.branch) invariant_violation
      "Verified result branch does not match the Run branch"
  refuse_if (run.source_node_sha == result.result_sha) invariant_violation
      "Run result SHA must differ from its source Node SHA"
  let missing = filter (λ c. not (is_covered s run c)) run.goal.acceptance_criteria
  refuse_if (not (is_empty missing)) invariant_violation (
      template (
        "Completed Run evidence must cover every acceptance criterion; missing: "
        ∷ join "; " missing
        ∷ []))
  ok run

-- `run.status === "completed" && run.resultNodeSha !== sha`
abbrev pub is_other_result : Run → GitCommitSha → Bool
is_other_result (running _) sha = false
is_other_result (completed r) sha = r.result_node_sha != sha
is_other_result (failed _) sha = false
is_other_result (canceled _) sha = false

module _ ⦃digests : Digests⦄ where
  -- `goal[0]!` is the only item of the filtered list.
  unfoldable pub only_goal : List GoalValue → Outcome GoalValue
  only_goal (goal ∷ []) = ok goal
  only_goal _ =
      failure invariant_violation "A Run must select exactly one Goal digest from its source Node"

  unfoldable pub build_running_run : ProjectState → StartRun → Outcome RunningRun
  unfolding only_goal
  build_running_run s command = do
    refuse_duplicate_if (any (is_run command.run_id) s.runs) "Run" command.run_id
    project ← find_project s command.project_id
    source ← find_node s command.project_id command.source_node_sha
    refuse_if (is_rejected_node s command.project_id (node_base source).commit_sha)
        invalid_transition "Rejected Nodes cannot start new Runs"
    let plan = (node_base source).plan
    goal ← only_goal (filter (has_digest command.goal_digest) plan.next_goals)
    refuse_if
        (command.branch
          != run_branch_name command.project_id command.source_node_sha command.run_id)
        invariant_violation "Run branch does not match the required Node-scoped Hunsu namespace"
    ok (record {
      id = command.run_id;
      project_id = command.project_id;
      source_node_sha = command.source_node_sha;
      goal = goal;
      goal_digest = command.goal_digest;
      runner = plan.how;
      runner_digest = compute_runner_digest plan.how;
      branch = command.branch;
      checkpoints = [];
      evidence_ids = [];
      started_at = command.meta.requested_at;
    })

  unfoldable pub validate_running_run_event : ProjectState → RunningRun → Outcome ⊤
  validate_running_run_event s run = do
    refuse_duplicate_if (any (is_run run.id) s.runs) "Run" run.id
    source ← find_node s run.project_id run.source_node_sha
    refuse_if (is_rejected_node s run.project_id (node_base source).commit_sha) invalid_transition
        "Rejected Nodes cannot start new Runs"
    let plan = (node_base source).plan
    refuse_if
        (not (nat_eq (length (filter (has_digest run.goal_digest) plan.next_goals)) 1)
          || compute_goal_digest run.goal != run.goal_digest)
        invariant_violation "Run must contain exactly one Goal from its source Node"
    refuse_if
        (compute_runner_digest run.runner != run.runner_digest
          || run.runner_digest != compute_runner_digest plan.how)
        invariant_violation "Run must snapshot the source Node Runner Value exactly"
    refuse_if (run.branch != run_branch_name run.project_id run.source_node_sha run.id)
        invariant_violation "Run branch does not match the required Node-scoped Hunsu namespace"
    refuse_if (not (is_empty run.checkpoints && is_empty run.evidence_ids)) invariant_violation
        "A newly started Run cannot contain checkpoints or evidence"

  unfoldable pub validate_run_child_node :
      ProjectState
      → Run
      → RunChildNode
      → NodePayloadEnvelope
      → IsoTimestamp
      → ProjectIntegrityBoundary
      → Outcome ⊤
  validate_run_child_node s run node payload recorded_at integrity = do
    let base = run_base run
    refuse_if (is_other_result run node.commit_sha) invariant_violation
        "Registered Run child does not match its completed Run result"
    refuse_if
        (node.project_id != base.project_id
          || (node.parent_sha != base.source_node_sha
              || (node.run_id != base.id || node.consumed_goal_digest != base.goal_digest)))
        invariant_violation
        "Run child Node must bind to its Run, source Node, and one consumed Goal"
    source ← find_node s base.project_id base.source_node_sha
    inherited ← inherit_run_child_plan (node_base source).plan base.goal_digest
    refuse_if (compute_node_plan_digest node.plan != compute_node_plan_digest inherited)
        invariant_violation
        "Run child plan must inherit the Runner and remove only the consumed Goal"
    validate_new_node s (run_child node) payload recorded_at integrity

  unfoldable pub validate_run_completion :
      ProjectState
      → VerifiedRunResult
      → RunChildNode
      → NodePayloadEnvelope
      → IsoTimestamp
      → ProjectIntegrityBoundary
      → Outcome ⊤
  validate_run_completion s result node payload recorded_at integrity = do
    run ← validate_verified_run_result s result
    refuse_if (node.commit_sha != result.result_sha) invariant_violation
        "Run child Node SHA must equal the verified result SHA"
    validate_run_child_node s (running run) node payload recorded_at integrity
