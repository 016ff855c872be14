-- ===== src/Engine/Lookup.antt =====
-- packages/core/src/engine.ts: the lookups in the state.
use hunsu.Base.{
  String, List, [], ◌∷◌, Bool, false, template, ◌&&◌, ◌==◌, Option, none, some, map, if◌then◌else◌,
}
use hunsu.Lists.{any, find, includes}
use hunsu.Protocol.{
  ok, ◌>>=◌, ProjectId, GitCommitSha, RunId, Project, Node, node_base, Run, RunningRun,
  CompletedRun, running, completed, run_base, status, AlternativeDecision, selection, rejection,
  ProjectState,
}
use hunsu.Engine.Errors.{Outcome, failure, not_found, invalid_transition}

-- `item ? ok(item) : notFound(kind, id)`
abbrev pub found_or {ℓ} : {A : Type ℓ} → Option A → String → String → Outcome A
found_or none kind id = not_found kind id
found_or (some a) kind id = ok a

abbrev pub is_project : ProjectId → Project → Bool
is_project id p = p.id == id

abbrev pub is_node : ProjectId → GitCommitSha → Node → Bool
is_node project_id sha n = (node_base n).project_id == project_id && (node_base n).commit_sha == sha

abbrev pub is_run : RunId → Run → Bool
is_run id r = (run_base r).id == id

unfoldable pub find_project : ProjectState → ProjectId → Outcome Project
find_project s id = found_or (find (is_project id) s.projects) "Project" id

unfoldable pub find_node : ProjectState → ProjectId → GitCommitSha → Outcome Node
find_node s project_id sha =
    found_or (find (is_node project_id sha) s.nodes) "Node" (template (project_id ∷ "/" ∷ sha ∷ []))

unfoldable pub find_run : ProjectState → RunId → Outcome Run
find_run s id = found_or (find (is_run id) s.runs) "Run" id

abbrev pub wrong_status {ℓ} : {A : Type ℓ} → RunId → Run → Outcome A
wrong_status id r = failure invalid_transition (template ("Run " ∷ id ∷ " is " ∷ status r ∷ []))

abbrev pub as_running : RunId → Run → Outcome RunningRun
as_running id (running r) = ok r
as_running id r = wrong_status id r

abbrev pub as_completed : RunId → Run → Outcome CompletedRun
as_completed id (completed r) = ok r
as_completed id r = wrong_status id r

unfoldable pub find_running_run : ProjectState → RunId → Outcome RunningRun
find_running_run s id = find_run s id >>= as_running id

unfoldable pub find_completed_run : ProjectState → RunId → Outcome CompletedRun
find_completed_run s id = find_run s id >>= as_completed id

-- `run.id === id && run.status === "running" ? replace(run) : run`
abbrev pub replace_one : RunId → (RunningRun → Run) → Run → Run
replace_one id replace (running r) = if r.id == id then replace r else running r
replace_one id replace r = r

unfoldable pub replace_run : List Run → RunId → (RunningRun → Run) → List Run
replace_run runs id replace = map (replace_one id replace) runs

abbrev pub rejects : ProjectId → GitCommitSha → AlternativeDecision → Bool
rejects project_id sha (selection _) = false
rejects project_id sha (rejection d) =
    d.project_id == project_id && includes d.rejected_node_shas sha

unfoldable pub is_rejected_node : ProjectState → ProjectId → GitCommitSha → Bool
is_rejected_node s project_id sha = any (rejects project_id sha) s.decisions
