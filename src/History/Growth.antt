-- ===== src/History/Growth.antt =====
-- How the lists of a state grow while `applyDomainEvent` of packages/core/src/engine.ts applies events.
pub mod Runs
use hunsu.Base.{
  ◌≡◌, refl, ⊤, sym, ◌∙◌, List, [], ◌∷◌, ◌++◌, append_assoc, append-nil, some, map, if◌then◌else◌,
  Bool, true, false, Bool-cases, inl, inr, ◌==◌, ap,
}
use hunsu.Lists.{find, push}
use hunsu.Lists.Laws.{find-append_some}
use hunsu.Protocol.{
  Result, ok, Digests, ProjectState, DomainEvent, project_created, project_materializations_rebuilt,
  root_node_registered, run_started, run_checkpointed, run_evidence_attached, run_completed,
  run_child_node_registered, run_failed, run_canceled, coach_review_recorded,
  coaching_proposal_recorded, coaching_proposal_confirmed, coaching_child_node_registered,
  coaching_proposal_rejected, alternatives_compared, alternative_selected, alternatives_rejected,
  event_meta, Run, RunBase, RunningRun, RunId, RunCheckpoint, EvidenceRef, running, completed,
  failed, canceled, run_base,
}
use hunsu.Engine.Errors.{ProjectIntegrityBoundary}
use hunsu.Engine.Outcomes.{>>=-eq-ok, ok_injective}
use hunsu.Engine.Lookup.{replace_run, replace_one}
use hunsu.Engine.Journal.{finish}
use hunsu.Engine.Apply.{
  apply_domain_event, apply_domain_events, with_checkpoint, with_evidence, as_complete, as_failed,
  as_canceled,
}
use hunsu.History.Effect.{effect, apply_domain_event-effect}
use hunsu.History.Growth.Runs.{
  Extends, Extends-refl, Extends-trans, Extends-push, Keeps-refl, RunsEvolve, RunsEvolve-refl,
  RunsEvolve-trans, RunsEvolve-push, replace_run-RunsEvolve, Keeps-with_checkpoint,
  Keeps-with_evidence,
}

-- Every list of the state grows at its end; the Runs evolve.
pub record Grows (s t : ProjectState) : Type 0 where
  pub projects : Extends s.projects t.projects
  pub nodes : Extends s.nodes t.nodes
  pub runs : RunsEvolve s.runs t.runs
  pub evidence : Extends s.evidence t.evidence
  pub coach_reviews : Extends s.coach_reviews t.coach_reviews
  pub coaching_proposals : Extends s.coaching_proposals t.coaching_proposals
  pub coaching_proposal_decisions :
      Extends s.coaching_proposal_decisions t.coaching_proposal_decisions
  pub comparisons : Extends s.comparisons t.comparisons
  pub decisions : Extends s.decisions t.decisions

Grows-refl : (s : ProjectState) → Grows s s
Grows-refl s = record {
  projects = Extends-refl s.projects;
  nodes = Extends-refl s.nodes;
  runs = RunsEvolve-refl s.runs;
  evidence = Extends-refl s.evidence;
  coach_reviews = Extends-refl s.coach_reviews;
  coaching_proposals = Extends-refl s.coaching_proposals;
  coaching_proposal_decisions = Extends-refl s.coaching_proposal_decisions;
  comparisons = Extends-refl s.comparisons;
  decisions = Extends-refl s.decisions;
}

Grows-trans : (s t u : ProjectState) → Grows s t → Grows t u → Grows s u
Grows-trans s t u p q = record {
  projects = Extends-trans _ _ _ p.projects q.projects;
  nodes = Extends-trans _ _ _ p.nodes q.nodes;
  runs = RunsEvolve-trans s.runs t.runs u.runs p.runs q.runs;
  evidence = Extends-trans _ _ _ p.evidence q.evidence;
  coach_reviews = Extends-trans _ _ _ p.coach_reviews q.coach_reviews;
  coaching_proposals = Extends-trans _ _ _ p.coaching_proposals q.coaching_proposals;
  coaching_proposal_decisions =
      Extends-trans _ _ _ p.coaching_proposal_decisions q.coaching_proposal_decisions;
  comparisons = Extends-trans _ _ _ p.comparisons q.comparisons;
  decisions = Extends-trans _ _ _ p.decisions q.decisions;
}

-- Field by field: the events that touch the list, and all others.
module _ (s : ProjectState) where
  effect-projects : (e : DomainEvent) → Extends s.projects (effect s e).projects
  effect-projects (project_created meta project) = Extends-push s.projects _
  effect-projects _ = Extends-refl s.projects

  effect-nodes : (e : DomainEvent) → Extends s.nodes (effect s e).nodes
  effect-nodes (root_node_registered meta node payload) = Extends-push s.nodes _
  effect-nodes (run_child_node_registered meta node payload) = Extends-push s.nodes _
  effect-nodes (coaching_child_node_registered meta node payload) = Extends-push s.nodes _
  effect-nodes _ = Extends-refl s.nodes

  effect-evidence : (e : DomainEvent) → Extends s.evidence (effect s e).evidence
  effect-evidence (run_evidence_attached meta evidence) = Extends-push s.evidence _
  effect-evidence _ = Extends-refl s.evidence

  effect-coach_reviews : (e : DomainEvent) → Extends s.coach_reviews (effect s e).coach_reviews
  effect-coach_reviews (coach_review_recorded meta review) = Extends-push s.coach_reviews _
  effect-coach_reviews _ = Extends-refl s.coach_reviews

  effect-coaching_proposals :
      (e : DomainEvent) → Extends s.coaching_proposals (effect s e).coaching_proposals
  effect-coaching_proposals (coaching_proposal_recorded meta proposal) =
      Extends-push s.coaching_proposals _
  effect-coaching_proposals _ = Extends-refl s.coaching_proposals

  effect-coaching_proposal_decisions :
      (e : DomainEvent)
      → Extends s.coaching_proposal_decisions (effect s e).coaching_proposal_decisions
  effect-coaching_proposal_decisions (coaching_proposal_confirmed meta d) =
      Extends-push s.coaching_proposal_decisions _
  effect-coaching_proposal_decisions (coaching_proposal_rejected meta d) =
      Extends-push s.coaching_proposal_decisions _
  effect-coaching_proposal_decisions _ = Extends-refl s.coaching_proposal_decisions

  effect-comparisons : (e : DomainEvent) → Extends s.comparisons (effect s e).comparisons
  effect-comparisons (alternatives_compared meta comparison) = Extends-push s.comparisons _
  effect-comparisons _ = Extends-refl s.comparisons

  effect-decisions : (e : DomainEvent) → Extends s.decisions (effect s e).decisions
  effect-decisions (alternative_selected meta decision) = Extends-push s.decisions _
  effect-decisions (alternatives_rejected meta decision) = Extends-push s.decisions _
  effect-decisions _ = Extends-refl s.decisions

  effect-runs : (e : DomainEvent) → RunsEvolve s.runs (effect s e).runs
  effect-runs (run_started meta run) = RunsEvolve-push s.runs (running run)
  effect-runs (run_checkpointed meta checkpoint) =
      replace_run-RunsEvolve checkpoint.run_id (with_checkpoint checkpoint)
        (Keeps-with_checkpoint checkpoint) s.runs
  effect-runs (run_evidence_attached meta evidence) =
      replace_run-RunsEvolve evidence.run_id (with_evidence evidence) (Keeps-with_evidence evidence)
        s.runs
  effect-runs (run_completed meta result) =
      replace_run-RunsEvolve result.run_id (as_complete result meta) Keeps-refl s.runs
  effect-runs (run_failed meta id reason) =
      replace_run-RunsEvolve id (as_failed reason meta) Keeps-refl s.runs
  effect-runs (run_canceled meta id reason) =
      replace_run-RunsEvolve id (as_canceled reason meta) Keeps-refl s.runs
  effect-runs _ = RunsEvolve-refl s.runs

  -- `finish` touches the journal only.
  finish-Grows : (e : DomainEvent) → Grows s (finish (effect s e) (event_meta e))
  unfolding finish
  finish-Grows e = record {
    projects = effect-projects e;
    nodes = effect-nodes e;
    runs = effect-runs e;
    evidence = effect-evidence e;
    coach_reviews = effect-coach_reviews e;
    coaching_proposals = effect-coaching_proposals e;
    coaching_proposal_decisions = effect-coaching_proposal_decisions e;
    comparisons = effect-comparisons e;
    decisions = effect-decisions e;
  }

module _ ⦃digests : Digests⦄ (integrity : ProjectIntegrityBoundary) where
  -- Whatever events are applied: Projects, Nodes, evidence, reviews, proposals, dispositions,
  -- comparisons and decisions stay in their places and new ones come behind them. A Run that has
  -- ended stays as it is, and a running Run keeps its Goal, its Runner, its source and its branch.
  pub apply_domain_events-Grows :
      (s t : ProjectState) (events : List DomainEvent)
      → apply_domain_events s events integrity ≡ ok t
      → Grows s t
  unfolding apply_domain_events
  apply_domain_events-Grows s t [] h = rw (← ok_injective h) (Grows-refl s)
  apply_domain_events-Grows s t (e ∷ events) h =
      let (u, first, rest) =
        >>=-eq-ok (apply_domain_event s e integrity) (λ u. apply_domain_events u events integrity)
          h in
      let (_, shape) = apply_domain_event-effect s u integrity e first in
      Grows-trans s u t (rw shape (finish-Grows s e)) (apply_domain_events-Grows u t events rest)
