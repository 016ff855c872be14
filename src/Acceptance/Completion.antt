-- ===== src/Acceptance/Completion.antt =====
-- Completing a Run in packages/core/src/engine.ts: the child Node's test after the result is recorded.
use hunsu.Base.{
  ◌≡◌, refl, true, false, arith, List, [], ◌∷◌, inl, inr, ◌==◌, ==_comm, eq_of_==, some,
  Option-cases, ◌∙◌,
}
use hunsu.Lists.{find}
use hunsu.Lists.Laws.{find-holds}
use hunsu.Protocol.{
  ok, ProjectState, Digests, Run, RunningRun, running, completed, failed, canceled, run_base,
  CompletedRun, VerifiedRunResult, EventMetadata, RunChildNode, run_child, NodePayloadEnvelope,
  RunId, IsoTimestamp,
}
use hunsu.Engine.Errors.{ProjectIntegrityBoundary}
use hunsu.Acceptance.Frame.{find_node_frame, validate_new_node_frame}
use hunsu.Engine.Outcomes.{Outcome-cases}
use hunsu.Engine.Lookup.{
  as_running, find_run, find_running_run, find_completed_run, replace_run, is_run,
}
use hunsu.Engine.Journal.{finish}
use hunsu.Engine.Runs.{
  validate_verified_run_result, validate_run_completion, validate_run_child_node,
}
use hunsu.Engine.Apply.{as_complete}

-- A running Run that is found is the one that is replaced, and is found again.
pub find-replace_run :
    (runs : List Run) (id : RunId) (replace : RunningRun → Run) (run : RunningRun)
    → ((r : RunningRun) → (run_base (replace r)).id ≡ r.id)
    → find (is_run id) runs ≡ some (running run)
    → find (is_run id) (replace_run runs id replace) ≡ some (replace run)
unfolding replace_run
find-replace_run [] id replace run keeps h = cc
find-replace_run (running r ∷ runs) id replace run keeps h =
    ground (arith, keeps r, keeps run, find-replace_run runs id replace run keeps)
find-replace_run (completed r ∷ runs) id replace run keeps h =
    ground (arith, find-replace_run runs id replace run keeps)
find-replace_run (failed r ∷ runs) id replace run keeps h =
    ground (arith, find-replace_run runs id replace run keeps)
find-replace_run (canceled r ∷ runs) id replace run keeps h =
    ground (arith, find-replace_run runs id replace run keeps)

as_running-eq-ok :
    (id : RunId) (r : Run) (run : RunningRun) → as_running id r ≡ ok run → r ≡ running run
as_running-eq-ok id (running r) run h = cc
as_running-eq-ok id (completed r) run h = cc
as_running-eq-ok id (failed r) run h = cc
as_running-eq-ok id (canceled r) run h = cc

-- A running Run that is found stands in the list under its own id.
pub find_running_run-eq-ok :
    (s : ProjectState) (id : RunId) (run : RunningRun)
    → find_running_run s id ≡ ok run
    → (find (is_run id) s.runs ≡ some (running run)) × (run.id ≡ id)
unfolding find_running_run find_run
find_running_run-eq-ok s id run h = elim (Option-cases (find (is_run id) s.runs)) [
  | inl missing ↦ ground arith
  | inr (r, found) ↦
      let same : r ≡ running run = as_running-eq-ok id r run (ground arith) in
      let found' : find (is_run id) s.runs ≡ some (running run) = rw (← same) found in
      (found', eq_of_== run.id id (find-holds (is_run id) s.runs (running run) found'))
]

-- The Run that `RunCompleted` leaves behind.
abbrev pub completed_run : VerifiedRunResult → EventMetadata → RunningRun → CompletedRun
completed_run result meta run = record {
  base = run;
  result_node_sha = result.result_sha;
  verified_at = result.verified_at;
  completed_at = meta.recorded_at;
}

module _ ⦃digests : Digests⦄ (s : ProjectState) (result : VerifiedRunResult)
    (run : RunningRun) where
  pub validate_verified_run_result-eq-ok :
      validate_verified_run_result s result ≡ ok run
      → (find_running_run s result.run_id ≡ ok run)
        × (run.source_node_sha == result.result_sha ≡ false)
  unfolding validate_verified_run_result
  validate_verified_run_result-eq-ok h = elim (Outcome-cases (find_running_run s result.run_id)) [
    | inr (e, missing) ↦ ground arith
    | inl (found, e) ↦ ground arith
  ]

  module _ (node : RunChildNode) (payload : NodePayloadEnvelope) (at : IsoTimestamp)
      (integrity : ProjectIntegrityBoundary) where
    -- What the command checks, in one piece.
    pub record IsCompletion : Type 0 where
      pub verified_result : validate_verified_run_result s result ≡ ok run
      pub same_sha : (node.commit_sha == result.result_sha) ≡ true
      pub child : validate_run_child_node s (running run) node payload at integrity ≡ ok tt

    child-run_id :
        validate_run_child_node s (running run) node payload at integrity ≡ ok tt
        → node.run_id ≡ run.id
    unfolding validate_run_child_node
    child-run_id h = eq_of_== node.run_id run.id (ground arith)

    -- Once the Run is completed, the child Node passes the same tests.
    pub validate_run_child_node-completed :
        (t : ProjectState) (meta : EventMetadata)
        → t.nodes ≡ s.nodes
        → t.projects ≡ s.projects
        → IsCompletion
        → validate_run_child_node t
            (completed (completed_run result meta run))
            node
            payload
            at
            integrity
          ≡ ok tt
    unfolding validate_run_child_node
    validate_run_child_node-completed t meta nodes projects h =
        let same = find_node_frame s t nodes run.project_id run.source_node_sha in
        let new =
          validate_new_node_frame s t nodes projects (run_child node) payload at integrity in
        let checked = h.child in
        rw (same, new) (ground (arith, ==_comm result.result_sha node.commit_sha, h.same_sha))

    pub find_completed_run-completed :
        (meta : EventMetadata)
        → IsCompletion
        → find_completed_run
            (finish
              (record s { runs = replace_run s.runs result.run_id (as_complete result meta) })
              meta)
            node.run_id
          ≡ ok (completed_run result meta run)
    unfolding find_completed_run find_run finish
    find_completed_run-completed meta h =
        let (running_found, _) = validate_verified_run_result-eq-ok h.verified_result in
        let (found, own_id) = find_running_run-eq-ok s result.run_id run running_found in
        let same_id : node.run_id ≡ result.run_id = child-run_id h.child ∙ own_id in
        rw (
          same_id,
          find-replace_run s.runs result.run_id (as_complete result meta) run (λ r. refl) found,
        )

pub validate_run_completion-eq-ok :
    ⦃digests : Digests⦄ (s : ProjectState) (result : VerifiedRunResult) (node : RunChildNode)
    (payload : NodePayloadEnvelope) (at : IsoTimestamp) (integrity : ProjectIntegrityBoundary)
    → validate_run_completion s result node payload at integrity ≡ ok tt
    → (run : RunningRun) × IsCompletion s result run node payload at integrity
unfolding validate_run_completion
validate_run_completion-eq-ok s result node payload at integrity h =
    elim (Outcome-cases (validate_verified_run_result s result)) [
      | inr (e, failed_check) ↦ absurd (ground arith)
      | inl (run, e) ↦
          (run, record { verified_result = e; same_sha = ground arith; child = ground arith })
    ]
