-- ===== src/History/Growth/Runs.antt =====
-- How Runs change while `applyDomainEvent` of packages/core/src/engine.ts applies events.
use hunsu.Base.{
  ◌≡◌, refl, ⊤, sym, ◌∙◌, List, [], ◌∷◌, ◌++◌, append_assoc, append-nil, Bool-cases, inl, inr, ◌==◌,
}
use hunsu.Lists.{push}
use hunsu.Protocol.{
  Run, RunBase, RunningRun, RunId, RunCheckpoint, EvidenceRef, running, completed, failed, canceled,
  run_base,
}
use hunsu.Engine.Lookup.{replace_run, replace_one}
use hunsu.Engine.Apply.{with_checkpoint, with_evidence}

-- `ys` is `xs` with items appended.
abbrev pub Extends {ℓ} : {A : Type ℓ} → List A → List A → Type ℓ
Extends {A} xs ys = (zs : List A) × (ys ≡ xs ++ zs)

module _ {ℓ} {A : Type ℓ} where
  pub Extends-refl : (xs : List A) → Extends xs xs
  Extends-refl xs = ([], sym (append-nil xs))

  pub Extends-trans : (xs ys zs : List A) → Extends xs ys → Extends ys zs → Extends xs zs
  Extends-trans xs _ _ (front, p) (back, q) =
      (front ++ back, rw (q, p) (append_assoc xs front back))

  pub Extends-push : (xs : List A) (x : A) → Extends xs (push xs x)
  Extends-push xs x = (x ∷ [], refl)

-- What a Run keeps while it runs: all but its status, and its checkpoints and evidence ids grow.
pub record Keeps (r r' : RunBase) : Type 0 where
  pub id : r'.id ≡ r.id
  pub project_id : r'.project_id ≡ r.project_id
  pub source_node_sha : r'.source_node_sha ≡ r.source_node_sha
  pub goal : r'.goal ≡ r.goal
  pub goal_digest : r'.goal_digest ≡ r.goal_digest
  pub runner : r'.runner ≡ r.runner
  pub runner_digest : r'.runner_digest ≡ r.runner_digest
  pub branch : r'.branch ≡ r.branch
  pub started_at : r'.started_at ≡ r.started_at
  pub checkpoints : Extends r.checkpoints r'.checkpoints
  pub evidence_ids : Extends r.evidence_ids r'.evidence_ids

-- A running Run may go on or end; one that has ended stays as it is.
abbrev pub RunEvolves : Run → Run → Type 0
RunEvolves (running r) r' = Keeps r (run_base r')
RunEvolves (completed r) r' = r' ≡ completed r
RunEvolves (failed r) r' = r' ≡ failed r
RunEvolves (canceled r) r' = r' ≡ canceled r

-- Run by run, in their order; new ones come at the end.
abbrev pub RunsEvolve : List Run → List Run → Type 0
RunsEvolve [] rs' = ⊤
RunsEvolve (r ∷ rs) [] = ⊥
RunsEvolve (r ∷ rs) (r' ∷ rs') = RunEvolves r r' × RunsEvolve rs rs'

pub Keeps-refl : (r : RunBase) → Keeps r r
Keeps-refl r = record {
  id = refl;
  project_id = refl;
  source_node_sha = refl;
  goal = refl;
  goal_digest = refl;
  runner = refl;
  runner_digest = refl;
  branch = refl;
  started_at = refl;
  checkpoints = Extends-refl r.checkpoints;
  evidence_ids = Extends-refl r.evidence_ids;
}

Keeps-trans : {a b c : RunBase} → Keeps a b → Keeps b c → Keeps a c
Keeps-trans p q = record {
  id = q.id ∙ p.id;
  project_id = q.project_id ∙ p.project_id;
  source_node_sha = q.source_node_sha ∙ p.source_node_sha;
  goal = q.goal ∙ p.goal;
  goal_digest = q.goal_digest ∙ p.goal_digest;
  runner = q.runner ∙ p.runner;
  runner_digest = q.runner_digest ∙ p.runner_digest;
  branch = q.branch ∙ p.branch;
  started_at = q.started_at ∙ p.started_at;
  checkpoints = Extends-trans _ _ _ p.checkpoints q.checkpoints;
  evidence_ids = Extends-trans _ _ _ p.evidence_ids q.evidence_ids;
}

RunEvolves-refl : (r : Run) → RunEvolves r r
RunEvolves-refl (running r) = Keeps-refl r
RunEvolves-refl (completed r) = refl
RunEvolves-refl (failed r) = refl
RunEvolves-refl (canceled r) = refl

RunEvolves-trans : (a b c : Run) → RunEvolves a b → RunEvolves b c → RunEvolves a c
RunEvolves-trans (running a) (running b) c p q = Keeps-trans p q
RunEvolves-trans (running a) (completed b) c p q = rw q p
RunEvolves-trans (running a) (failed b) c p q = rw q p
RunEvolves-trans (running a) (canceled b) c p q = rw q p
RunEvolves-trans (completed a) b c p q = rw p at q
RunEvolves-trans (failed a) b c p q = rw p at q
RunEvolves-trans (canceled a) b c p q = rw p at q

pub RunsEvolve-refl : (rs : List Run) → RunsEvolve rs rs
RunsEvolve-refl [] = tt
RunsEvolve-refl (r ∷ rs) = (RunEvolves-refl r, RunsEvolve-refl rs)

pub RunsEvolve-trans :
    (xs ys zs : List Run) → RunsEvolve xs ys → RunsEvolve ys zs → RunsEvolve xs zs
RunsEvolve-trans [] ys zs p q = tt
RunsEvolve-trans (a ∷ xs) [] zs p q = elim p [ ]
RunsEvolve-trans (a ∷ xs) (b ∷ ys) [] p q = elim q [ ]
RunsEvolve-trans (a ∷ xs) (b ∷ ys) (c ∷ zs) (p, ps) (q, qs) =
    (RunEvolves-trans a b c p q, RunsEvolve-trans xs ys zs ps qs)

pub RunsEvolve-push : (rs : List Run) (r : Run) → RunsEvolve rs (push rs r)
RunsEvolve-push [] r = tt
RunsEvolve-push (x ∷ rs) r = (RunEvolves-refl x, RunsEvolve-push rs r)

-- Replacing a running Run by one that keeps it.
module _ (id : RunId) (replace : RunningRun → Run)
    (keeps : (r : RunningRun) → Keeps r (run_base (replace r))) where
  replace_one-RunEvolves : (r : Run) → RunEvolves r (replace_one id replace r)
  replace_one-RunEvolves (running r) = elim (Bool-cases (r.id == id)) [
    | inl same ↦ rw same (keeps r)
    | inr other ↦ rw other (Keeps-refl r)
  ]
  replace_one-RunEvolves (completed r) = refl
  replace_one-RunEvolves (failed r) = refl
  replace_one-RunEvolves (canceled r) = refl

  pub replace_run-RunsEvolve : (rs : List Run) → RunsEvolve rs (replace_run rs id replace)
  unfolding replace_run
  replace_run-RunsEvolve [] = tt
  replace_run-RunsEvolve (r ∷ rs) = (replace_one-RunEvolves r, replace_run-RunsEvolve rs)

pub Keeps-with_checkpoint :
    (c : RunCheckpoint) (r : RunningRun) → Keeps r (run_base (with_checkpoint c r))
Keeps-with_checkpoint c r = record {
  id = refl;
  project_id = refl;
  source_node_sha = refl;
  goal = refl;
  goal_digest = refl;
  runner = refl;
  runner_digest = refl;
  branch = refl;
  started_at = refl;
  checkpoints = Extends-push r.checkpoints c;
  evidence_ids = Extends-refl r.evidence_ids;
}

pub Keeps-with_evidence :
    (x : EvidenceRef) (r : RunningRun) → Keeps r (run_base (with_evidence x r))
Keeps-with_evidence x r = record {
  id = refl;
  project_id = refl;
  source_node_sha = refl;
  goal = refl;
  goal_digest = refl;
  runner = refl;
  runner_digest = refl;
  branch = refl;
  started_at = refl;
  checkpoints = Extends-refl r.checkpoints;
  evidence_ids = Extends-push r.evidence_ids x.id;
}
