-- ===== src/Invariant/Distinct.antt =====
-- Ids in the states of packages/core/src/engine.ts, list by list.
use hunsu.Base.{◌≡◌, refl, true, List, map}
use hunsu.Protocol.{
  ok, Digests, ProjectState, DomainEvent, project_created, run_started, run_checkpointed,
  run_evidence_attached, run_completed, run_failed, run_canceled, coach_review_recorded,
  coaching_proposal_recorded, coaching_proposal_confirmed, coaching_proposal_rejected,
  alternatives_compared, alternative_selected, alternatives_rejected, running, Project, EvidenceRef,
  CoachReview, CoachingProposal, AlternativeComparison, disposition_id, decision_id, confirmed,
  rejected, selection, rejection,
}
use hunsu.Engine.Errors.{ProjectIntegrityBoundary}
use hunsu.Engine.Journal.{finish, empty_project_state}
use hunsu.Engine.Apply.{with_checkpoint, with_evidence, as_complete, as_failed, as_canceled}
use hunsu.Engine.Replay.{replay_domain_events}
use hunsu.History.Effect.{effect}
use hunsu.Invariant.Passed.{Passed}
use hunsu.Invariant.Induction.{IsKept, replay_domain_events-kept}
use hunsu.Protocol.{disposed_proposal_id}
use hunsu.Invariant.Ids.{are_distinct, are_distinct-new, run_id_of, map-replace_run}
use hunsu.Invariant.Passing.{
  new_disposition_id, undisposed, undisposed_confirmable, new_selection, new_rejection, new_project,
  new_evidence, new_review, new_run, new_proposal, new_comparison,
}

-- No id stands twice in its list, and no proposal has two dispositions.
pub record IsDistinct (s : ProjectState) : Type 0 where
  pub projects : are_distinct (map (λ (p : Project). p.id) s.projects) ≡ true
  pub runs : are_distinct (map run_id_of s.runs) ≡ true
  pub evidence : are_distinct (map (λ (x : EvidenceRef). x.id) s.evidence) ≡ true
  pub coach_reviews : are_distinct (map (λ (r : CoachReview). r.id) s.coach_reviews) ≡ true
  pub coaching_proposals :
      are_distinct (map (λ (p : CoachingProposal). p.id) s.coaching_proposals) ≡ true
  pub dispositions : are_distinct (map disposition_id s.coaching_proposal_decisions) ≡ true
  pub disposed_proposals :
      are_distinct (map disposed_proposal_id s.coaching_proposal_decisions) ≡ true
  pub comparisons : are_distinct (map (λ (c : AlternativeComparison). c.id) s.comparisons) ≡ true
  pub decisions : are_distinct (map decision_id s.decisions) ≡ true

module _ ⦃digests : Digests⦄ (integrity : ProjectIntegrityBoundary) (s : ProjectState)
    (old : IsDistinct s) where
  effect_projects :
      (e : DomainEvent)
      → Passed s integrity e
      → are_distinct (map (λ (p : Project). p.id) (effect s e).projects) ≡ true
  effect_projects (project_created meta p) h =
      are_distinct-new (λ (p : Project). p.id) s.projects p (new_project s p meta.actor h)
        old.projects
  effect_projects _ h = old.projects

  effect_runs :
      (e : DomainEvent)
      → Passed s integrity e
      → are_distinct (map run_id_of (effect s e).runs) ≡ true
  effect_runs (run_started meta r) h =
      are_distinct-new run_id_of s.runs (running r) (new_run s r h) old.runs
  effect_runs (run_checkpointed meta c) h =
      rw (map-replace_run c.run_id (with_checkpoint c) (λ _. refl) s.runs) old.runs
  effect_runs (run_evidence_attached meta x) h =
      rw (map-replace_run x.run_id (with_evidence x) (λ _. refl) s.runs) old.runs
  effect_runs (run_completed meta result) h =
      rw (map-replace_run result.run_id (as_complete result meta) (λ _. refl) s.runs) old.runs
  effect_runs (run_failed meta id reason) h =
      rw (map-replace_run id (as_failed reason meta) (λ _. refl) s.runs) old.runs
  effect_runs (run_canceled meta id reason) h =
      rw (map-replace_run id (as_canceled reason meta) (λ _. refl) s.runs) old.runs
  effect_runs _ h = old.runs

  effect_evidence :
      (e : DomainEvent)
      → Passed s integrity e
      → are_distinct (map (λ (x : EvidenceRef). x.id) (effect s e).evidence) ≡ true
  effect_evidence (run_evidence_attached meta x) h =
      are_distinct-new (λ (x : EvidenceRef). x.id) s.evidence x (new_evidence s x h) old.evidence
  effect_evidence _ h = old.evidence

  effect_coach_reviews :
      (e : DomainEvent)
      → Passed s integrity e
      → are_distinct (map (λ (r : CoachReview). r.id) (effect s e).coach_reviews) ≡ true
  effect_coach_reviews (coach_review_recorded meta r) h =
      are_distinct-new (λ (r : CoachReview). r.id) s.coach_reviews r (new_review s r meta.actor h)
        old.coach_reviews
  effect_coach_reviews _ h = old.coach_reviews

  effect_coaching_proposals :
      (e : DomainEvent)
      → Passed s integrity e
      → are_distinct (map (λ (p : CoachingProposal). p.id) (effect s e).coaching_proposals) ≡ true
  effect_coaching_proposals (coaching_proposal_recorded meta p) h =
      are_distinct-new (λ (p : CoachingProposal). p.id) s.coaching_proposals p
        (new_proposal s p meta.actor h) old.coaching_proposals
  effect_coaching_proposals _ h = old.coaching_proposals

  effect_dispositions :
      (e : DomainEvent)
      → Passed s integrity e
      → are_distinct (map disposition_id (effect s e).coaching_proposal_decisions) ≡ true
  effect_dispositions (coaching_proposal_confirmed meta d) (_, _, h) =
      are_distinct-new disposition_id s.coaching_proposal_decisions (confirmed d)
        (new_disposition_id s d.id h).0 old.dispositions
  effect_dispositions (coaching_proposal_rejected meta d) (_, _, h) =
      are_distinct-new disposition_id s.coaching_proposal_decisions (rejected d)
        (new_disposition_id s d.id h).0 old.dispositions
  effect_dispositions _ h = old.dispositions

  effect_disposed_proposals :
      (e : DomainEvent)
      → Passed s integrity e
      → are_distinct (map disposed_proposal_id (effect s e).coaching_proposal_decisions) ≡ true
  effect_disposed_proposals (coaching_proposal_confirmed meta d) (proposal, h, _) =
      are_distinct-new disposed_proposal_id s.coaching_proposal_decisions (confirmed d)
        (undisposed_confirmable s d.proposal_id meta.actor proposal h) old.disposed_proposals
  effect_disposed_proposals (coaching_proposal_rejected meta d) (proposal, h, _) =
      are_distinct-new disposed_proposal_id s.coaching_proposal_decisions (rejected d)
        (undisposed s d.proposal_id meta.actor proposal h) old.disposed_proposals
  effect_disposed_proposals _ h = old.disposed_proposals

  effect_comparisons :
      (e : DomainEvent)
      → Passed s integrity e
      → are_distinct (map (λ (c : AlternativeComparison). c.id) (effect s e).comparisons) ≡ true
  effect_comparisons (alternatives_compared meta c) h =
      are_distinct-new (λ (c : AlternativeComparison). c.id) s.comparisons c (new_comparison s c h)
        old.comparisons
  effect_comparisons _ h = old.comparisons

  effect_decisions :
      (e : DomainEvent)
      → Passed s integrity e
      → are_distinct (map decision_id (effect s e).decisions) ≡ true
  effect_decisions (alternative_selected meta d) h =
      are_distinct-new decision_id s.decisions (selection d)
        (new_disposition_id s d.id (new_selection s d meta.actor h)).1 old.decisions
  effect_decisions (alternatives_rejected meta d) h =
      are_distinct-new decision_id s.decisions (rejection d)
        (new_disposition_id s d.id (new_rejection s d meta.actor h)).1 old.decisions
  effect_decisions _ h = old.decisions

pub empty-IsDistinct : IsDistinct empty_project_state
unfolding empty_project_state
empty-IsDistinct = record {
  projects = refl;
  runs = refl;
  evidence = refl;
  coach_reviews = refl;
  coaching_proposals = refl;
  dispositions = refl;
  disposed_proposals = refl;
  comparisons = refl;
  decisions = refl;
}

module _ ⦃digests : Digests⦄ (integrity : ProjectIntegrityBoundary) where
  pub step-IsDistinct : IsKept IsDistinct integrity
  unfolding finish
  step-IsDistinct s e h old = record {
    projects = effect_projects integrity s old e h;
    runs = effect_runs integrity s old e h;
    evidence = effect_evidence integrity s old e h;
    coach_reviews = effect_coach_reviews integrity s old e h;
    coaching_proposals = effect_coaching_proposals integrity s old e h;
    dispositions = effect_dispositions integrity s old e h;
    disposed_proposals = effect_disposed_proposals integrity s old e h;
    comparisons = effect_comparisons integrity s old e h;
    decisions = effect_decisions integrity s old e h;
  }

  -- In the state that a history replays to, the ids of Projects, Runs, evidence, reviews, proposals,
  -- dispositions, comparisons and decisions are distinct, each in its list, and a proposal has one
  -- disposition at most.
  pub replay_domain_events-IsDistinct :
      (events : List DomainEvent) (t : ProjectState)
      → replay_domain_events events integrity ≡ ok t
      → IsDistinct t
  replay_domain_events-IsDistinct events t h =
      replay_domain_events-kept IsDistinct integrity step-IsDistinct events t h empty-IsDistinct
