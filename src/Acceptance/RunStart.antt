-- ===== src/Acceptance/RunStart.antt =====
-- Starting a Run in packages/core/src/engine.ts: `buildRunningRun` beside `validateRunningRunEvent`.
use hunsu.Base.{◌≡◌, arith, List, [], ◌∷◌, ==_refl, inl, inr}
use hunsu.Lists.{filter}
use hunsu.Protocol.{ok, ProjectState, Digests, StartRun, RunningRun, GoalValue, node_base}
use hunsu.Engine.Outcomes.{Outcome-cases}
use hunsu.Engine.Runs.{build_running_run, validate_running_run_event, only_goal}
use hunsu.Lists.Laws.{filter_holds_head}
use hunsu.Engine.Lookup.{find_node}
use hunsu.Engine.Nodes.{has_digest}

module _ ⦃digests : Digests⦄ where
  pub only_goal-eq-ok :
      (goals : List GoalValue) {goal : GoalValue} → only_goal goals ≡ ok goal → goals ≡ goal ∷ []
  unfolding only_goal
  only_goal-eq-ok [] h = cc
  only_goal-eq-ok (g ∷ []) h = cc
  only_goal-eq-ok (g ∷ k ∷ gs) h = cc

  pub validate_running_run_event-build_running_run :
      (s : ProjectState) (c : StartRun) (run : RunningRun)
      → build_running_run s c ≡ ok run
      → validate_running_run_event s run ≡ ok tt
  unfolding build_running_run validate_running_run_event
  validate_running_run_event-build_running_run s c run h =
      elim (Outcome-cases (find_node s c.project_id c.source_node_sha)) [
        | inr (e, missing) ↦ ground arith
        | inl (source, found) ↦
            let goals = filter (has_digest c.goal_digest) (node_base source).plan.next_goals in
            elim (Outcome-cases (only_goal goals)) [
              | inr (e, several) ↦ ground arith
              | inl (goal, only) ↦
                  let single = only_goal-eq-ok goals only in
                  ground (
                    arith,
                    filter_holds_head (has_digest c.goal_digest) (node_base source).plan.next_goals
                        single,
                    ==_refl run.runner_digest,
                  )
            ]
      ]
