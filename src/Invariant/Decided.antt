-- ===== src/Invariant/Decided.antt =====
-- Selected and rejected Nodes in packages/core/src/engine.ts, under `validateSelectionDecision` and
-- `validateRejectionDecision`.
use hunsu.Base.{
  ◌≡◌, refl, arith, String, Bool, true, false, ◌&&◌, List, [], ◌∷◌, ◌++◌, ◌==◌, append_assoc,
  append-nil, Bool-cases, inl, inr, eq_of_==,
}
use hunsu.Lists.{any, includes, push}
use hunsu.Lists.Laws.{any-append, any-push}
use hunsu.Protocol.{
  ok, Digests, ProjectState, DomainEvent, alternative_selected, alternatives_rejected, ProjectId,
  GitCommitSha, AlternativeDecision, selection, rejection, SelectionDecision, RejectionDecision,
  DomainActor,
}
use hunsu.Engine.Errors.{ProjectIntegrityBoundary}
use hunsu.Engine.Lookup.{is_rejected_node, rejects}
use hunsu.Engine.Journal.{finish, empty_project_state}
use hunsu.Engine.Decisions.{
  selected_of, selected_shas, validate_selection_decision, validate_rejection_decision,
}
use hunsu.Engine.Replay.{replay_domain_events}
use hunsu.History.Effect.{effect}
use hunsu.Invariant.Passed.{Passed}
use hunsu.Invariant.Induction.{IsKept, replay_domain_events-kept}

abbrev pub is_selected_node : ProjectState → ProjectId → GitCommitSha → Bool
is_selected_node s project_id sha = includes (selected_shas project_id s.decisions) sha

selected_shas-push :
    (project_id : ProjectId) (ds : List AlternativeDecision) (d : AlternativeDecision)
    → selected_shas project_id (push ds d) ≡ selected_shas project_id ds ++ selected_of project_id d
unfolding selected_shas
selected_shas-push project_id [] d = append-nil (selected_of project_id d)
selected_shas-push project_id (x ∷ ds) d =
    rw (selected_shas-push project_id ds d, append_assoc (selected_of project_id x)) refl

-- An item of a list on which no test holds.
any-false-includes :
    (p : String → Bool) (xs : List String) (x : String)
    → any p xs ≡ false
    → includes xs x ≡ true
    → p x ≡ false
any-false-includes p [] x h member = cc
any-false-includes p (y ∷ xs) x h member = elim (Bool-cases (y == x)) [
  | inl same ↦ rw (← eq_of_== y x same) (ground arith)
  | inr other ↦ any-false-includes p xs x (ground arith) (ground arith)
]

module _ (s : ProjectState) where
  selection_apart :
      (d : SelectionDecision) (actor : DomainActor)
      → validate_selection_decision s d actor ≡ ok tt
      → is_rejected_node s d.project_id d.selected_node_sha ≡ false
  unfolding validate_selection_decision
  selection_apart d actor h = ground arith

  rejection_apart :
      (d : RejectionDecision) (actor : DomainActor)
      → validate_rejection_decision s d actor ≡ ok tt
      → any (includes (selected_shas d.project_id s.decisions)) d.rejected_node_shas ≡ false
  unfolding validate_rejection_decision
  rejection_apart d actor h = ground arith

-- For one Node of one Project.
module _ ⦃digests : Digests⦄ (integrity : ProjectIntegrityBoundary) (project_id : ProjectId)
    (sha : GitCommitSha) where
  abbrev IsApart : ProjectState → Type 0
  IsApart s = (is_selected_node s project_id sha && is_rejected_node s project_id sha) ≡ false

  push_selection :
      (s : ProjectState) (d : SelectionDecision)
      → is_rejected_node s d.project_id d.selected_node_sha ≡ false
      → IsApart s
      → IsApart (record s { decisions = push s.decisions (selection d) })
  unfolding is_rejected_node
  push_selection s d fresh h =
      rw
        (
          selected_shas-push project_id s.decisions (selection d),
          any-append (λ y. y == sha) (selected_shas project_id s.decisions)
              (selected_of project_id (selection d)),
          any-push (rejects project_id sha) s.decisions (selection d),
        )
        (elim (Bool-cases (d.project_id == project_id)) [
          | inr other ↦ ground (arith, other)
          | inl same ↦ elim (Bool-cases (d.selected_node_sha == sha)) [
            | inr different ↦ ground (arith, same, different)
            | inl selected ↦
                let here : any (rejects project_id sha) s.decisions ≡ false =
                  rw
                    (
                      ← eq_of_== d.project_id project_id same,
                      ← eq_of_== d.selected_node_sha sha selected,
                    )
                    fresh in
                ground (arith, here)
          ]
        ])

  push_rejection :
      (s : ProjectState) (d : RejectionDecision)
      → any (includes (selected_shas d.project_id s.decisions)) d.rejected_node_shas ≡ false
      → IsApart s
      → IsApart (record s { decisions = push s.decisions (rejection d) })
  unfolding is_rejected_node
  push_rejection s d fresh h =
      rw
        (
          selected_shas-push project_id s.decisions (rejection d),
          append-nil (selected_shas project_id s.decisions),
          any-push (rejects project_id sha) s.decisions (rejection d),
        )
        (elim (Bool-cases (rejects project_id sha (rejection d))) [
          | inr other ↦ ground (arith, other)
          | inl both ↦
              let same : (d.project_id == project_id) ≡ true = ground arith in
              let member : includes d.rejected_node_shas sha ≡ true = ground arith in
              let unselected =
                any-false-includes (includes (selected_shas d.project_id s.decisions))
                  d.rejected_node_shas sha fresh member in
              let here : includes (selected_shas project_id s.decisions) sha ≡ false =
                rw (← eq_of_== d.project_id project_id same) unselected in
              ground (arith, here)
        ])

  effect-IsApart :
      (s : ProjectState) (e : DomainEvent) → Passed s integrity e → IsApart s → IsApart (effect s e)
  unfolding is_rejected_node
  effect-IsApart s (alternative_selected meta d) passed h =
      push_selection s d (selection_apart s d meta.actor passed) h
  effect-IsApart s (alternatives_rejected meta d) passed h =
      push_rejection s d (rejection_apart s d meta.actor passed) h
  effect-IsApart s _ passed h = h

  step-IsApart : IsKept IsApart integrity
  unfolding finish is_rejected_node
  step-IsApart s e passed h = effect-IsApart s e passed h

  -- In the state that a history replays to, no Node of a Project is both selected and rejected.
  pub replay_domain_events-IsApart :
      (events : List DomainEvent) (t : ProjectState)
      → replay_domain_events events integrity ≡ ok t
      → (is_selected_node t project_id sha && is_rejected_node t project_id sha) ≡ false
  unfolding empty_project_state selected_shas
  replay_domain_events-IsApart events t h =
      replay_domain_events-kept IsApart integrity step-IsApart events t h refl
