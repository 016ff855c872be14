-- ===== src/Invariant/Coverage.antt =====
-- Completed Runs of packages/core/src/engine.ts and the evidence for
-- `validateVerifiedRunResult`.
use hunsu.Base.{
  ◌≡◌, refl, arith, Bool, true, false, not, List, [], ◌∷◌, ◌==◌, eq_of_==, map, some, Bool-cases,
  Option-cases, inl, inr,
}
use hunsu.Lists.{any, every, includes, push, find, filter, is_empty}
use hunsu.Lists.Laws.{any-push, every-push}
use hunsu.Protocol.{
  ok, Digests, ProjectState, DomainEvent, run_started, run_checkpointed, run_evidence_attached,
  run_completed, run_failed, run_canceled, Run, RunId, RunningRun, running, completed, failed,
  canceled, EvidenceRef, VerifiedRunResult,
}
use hunsu.Engine.Errors.{ProjectIntegrityBoundary}
use hunsu.Engine.Outcomes.{Outcome-cases}
use hunsu.Engine.Lookup.{is_run, replace_run, replace_one, find_run, find_running_run}
use hunsu.Engine.Journal.{finish, empty_project_state}
use hunsu.Engine.Runs.{validate_verified_run_result, covers, is_covered}
use hunsu.Engine.Apply.{with_checkpoint, with_evidence, as_complete, as_failed, as_canceled}
use hunsu.Engine.Replay.{replay_domain_events}
use hunsu.History.Effect.{effect}
use hunsu.Invariant.Passed.{Passed}
use hunsu.Invariant.Induction.{IsKept, replay_domain_events-kept}
use hunsu.Invariant.Ids.{run_id_of, are_distinct}
use hunsu.Invariant.Distinct.{IsDistinct, step-IsDistinct, empty-IsDistinct}

-- Each acceptance criterion of a completed Run's Goal is the target of an evidence of this Run.
abbrev pub is_proven : List EvidenceRef → Run → Bool
is_proven evidence (completed r) =
    every (λ c. any (covers r.base c) evidence) r.base.goal.acceptance_criteria
is_proven evidence _ = true

pub every_mono {ℓ} :
    {A : Type ℓ} (p q : A → Bool) (xs : List A)
    → ((x : A) → p x ≡ true → q x ≡ true)
    → every p xs ≡ true
    → every q xs ≡ true
every_mono p q [] imp h = refl
every_mono p q (x ∷ xs) imp h = ground (arith, imp x, every_mono p q xs imp)

every_unmissed {ℓ} :
    {A : Type ℓ} (p : A → Bool) (xs : List A)
    → is_empty (filter (λ x. not (p x)) xs) ≡ true
    → every p xs ≡ true
every_unmissed p [] h = refl
every_unmissed p (x ∷ xs) h = elim (Bool-cases (p x)) [
  | inl holds ↦ ground (arith, holds, every_unmissed p xs)
  | inr fails ↦ absurd (ground (arith, fails))
]

is_proven-push :
    (evidence : List EvidenceRef) (x : EvidenceRef) (r : Run)
    → is_proven evidence r ≡ true
    → is_proven (push evidence x) r ≡ true
is_proven-push evidence x (completed r) h =
    every_mono _ _ r.base.goal.acceptance_criteria
      (λ c one. rw (any-push (covers r.base c) evidence x, one) refl) h
is_proven-push evidence x (running r) h = refl
is_proven-push evidence x (failed r) h = refl
is_proven-push evidence x (canceled r) h = refl

-- Replacing running Runs under an id.
module _ (p : Run → Bool) (id : RunId) (replace : RunningRun → Run) where
  replace_one-every :
      (runs : List Run)
      → ((r : RunningRun) → p (replace r) ≡ true)
      → every p runs ≡ true
      → every p (replace_run runs id replace) ≡ true
  unfolding replace_run
  replace_one-every [] good h = refl
  replace_one-every (running r ∷ runs) good h = ground (arith, good r, replace_one-every runs good)
  replace_one-every (completed r ∷ runs) good h = ground (arith, replace_one-every runs good)
  replace_one-every (failed r ∷ runs) good h = ground (arith, replace_one-every runs good)
  replace_one-every (canceled r ∷ runs) good h = ground (arith, replace_one-every runs good)

  replace_one-other : (r : Run) → (run_id_of r == id) ≡ false → replace_one id replace r ≡ r
  replace_one-other (running r) h = rw h refl
  replace_one-other (completed r) h = refl
  replace_one-other (failed r) h = refl
  replace_one-other (canceled r) h = refl

  replace_run-absent :
      (runs : List Run)
      → includes (map run_id_of runs) id ≡ false
      → replace_run runs id replace ≡ runs
  unfolding replace_run
  replace_run-absent [] h = refl
  replace_run-absent (r ∷ runs) h =
      rw (replace_one-other r (ground arith), replace_run-absent runs (ground arith)) refl

  -- Ids are distinct, so the Run that is found is the only one that is replaced.
  replace_run-found :
      (runs : List Run) (run : RunningRun)
      → are_distinct (map run_id_of runs) ≡ true
      → find (is_run id) runs ≡ some (running run)
      → p (replace run) ≡ true
      → every p runs ≡ true
      → every p (replace_run runs id replace) ≡ true
  unfolding replace_run
  replace_run-found [] run distinct found good h = refl
  replace_run-found (r ∷ runs) run distinct found good h = elim (Bool-cases (run_id_of r == id)) [
    | inr other ↦ rw (replace_one-other r other) (
        ground
          (arith, replace_run-found runs run (ground arith) (ground arith) good (ground arith)))
    | inl same ↦
        let head : r ≡ running run = ground arith in
        let absent : includes (map run_id_of runs) id ≡ false =
          rw (← eq_of_== (run_id_of r) id same) (ground arith) in
        let rest : every p (map (replace_one id replace) runs) ≡ true =
          rw (replace_run-absent runs absent) (ground arith) in
        let here : (run.id == id) ≡ true = rw head at same in
        rw (head, here) (ground (arith, rest, good))
  ]

pub record IsCovered (s : ProjectState) : Type 0 where
  pub distinct : IsDistinct s
  pub proven : every (is_proven s.evidence) s.runs ≡ true

module _ (s : ProjectState) where
  found_running :
      (id : RunId) (run : RunningRun)
      → find_running_run s id ≡ ok run
      → find (is_run id) s.runs ≡ some (running run)
  unfolding find_running_run find_run
  found_running id run h = elim (Option-cases (find (is_run id) s.runs)) [
    | inl missing ↦ absurd (ground arith)
    | inr (found, is_found) ↦ ground arith
  ]

  verified_run :
      (result : VerifiedRunResult) (run : RunningRun)
      → validate_verified_run_result s result ≡ ok run
      → (find (is_run result.run_id) s.runs ≡ some (running run))
        × (every (is_covered s run) run.goal.acceptance_criteria ≡ true)
  unfolding validate_verified_run_result
  verified_run result run h = elim (Outcome-cases (find_running_run s result.run_id)) [
    | inr (e, refused) ↦ absurd (ground arith)
    | inl (found, is_found) ↦
        let same : found ≡ run = ground arith in
        (
          found_running result.run_id run (rw (is_found, same) refl),
          every_unmissed (is_covered s run) run.goal.acceptance_criteria
              (rw (← same) (ground arith)),
        )
  ]

module _ ⦃digests : Digests⦄ (integrity : ProjectIntegrityBoundary) (s : ProjectState)
    (old : IsCovered s) where
  effect-is_proven :
      (e : DomainEvent)
      → Passed s integrity e
      → every (is_proven (effect s e).evidence) (effect s e).runs ≡ true
  effect-is_proven (run_started meta run) h =
      every-push (is_proven s.evidence) s.runs (running run) old.proven refl
  effect-is_proven (run_checkpointed meta c) h =
      replace_one-every (is_proven s.evidence) c.run_id (with_checkpoint c) s.runs (λ _. refl)
        old.proven
  effect-is_proven (run_evidence_attached meta x) h =
      replace_one-every (is_proven (push s.evidence x)) x.run_id (with_evidence x) s.runs
        (λ _. refl) (every_mono _ _ s.runs (is_proven-push s.evidence x) old.proven)
  effect-is_proven (run_completed meta result) (run, h) =
      let (found, covered) = verified_run s result run h in
      replace_run-found (is_proven s.evidence) result.run_id (as_complete result meta) s.runs run
        old.distinct.runs found covered old.proven
  effect-is_proven (run_failed meta id reason) h =
      replace_one-every (is_proven s.evidence) id (as_failed reason meta) s.runs (λ _. refl)
        old.proven
  effect-is_proven (run_canceled meta id reason) h =
      replace_one-every (is_proven s.evidence) id (as_canceled reason meta) s.runs (λ _. refl)
        old.proven
  effect-is_proven _ h = old.proven

module _ ⦃digests : Digests⦄ (integrity : ProjectIntegrityBoundary) where
  step-IsCovered : IsKept IsCovered integrity
  unfolding finish
  step-IsCovered s e h old = record {
    distinct = step-IsDistinct integrity s e h old.distinct;
    proven = effect-is_proven integrity s old e h;
  }

  -- In the state that a history replays to, every acceptance criterion of a completed Run's Goal is
  -- the target of some evidence that was attached to this Run.
  pub replay_domain_events-is_proven :
      (events : List DomainEvent) (t : ProjectState)
      → replay_domain_events events integrity ≡ ok t
      → every (is_proven t.evidence) t.runs ≡ true
  unfolding empty_project_state
  replay_domain_events-is_proven events t h =
      (replay_domain_events-kept IsCovered integrity step-IsCovered events t h
        (record { distinct = empty-IsDistinct; proven = refl })).proven
