-- ===== src/History/Emitted.antt =====
-- packages/core/src/engine.ts: the events that a command emits, and what they leave in the journal.
use hunsu.Base.{◌≡◌, refl, arith, List, [], ◌∷◌, map, some, none}
use hunsu.Protocol.{
  ok, Digests, ProjectState, DomainEvent, event_meta, ProjectCommand, command_meta, create_project,
  start_run, rebuild_project_materializations, checkpoint_run, attach_run_evidence, complete_run,
  fail_run, cancel_run, record_coach_review, record_coaching_proposal, confirm_coaching_proposal,
  reject_coaching_proposal, compare_alternatives, select_alternative, reject_alternatives,
}
use hunsu.Engine.Errors.{Outcome, when_ok, ProjectIntegrityBoundary}
use hunsu.Engine.Outcomes.{when_ok-eq-ok}
use hunsu.Engine.Journal.{accepted}
use hunsu.Engine.Apply.{apply_domain_events}
use hunsu.Engine.Decide.{decide_events, decide_project_command, apply_project_command}
use hunsu.Acceptance.Commands.{accepted_decision}
use hunsu.Acceptance.Pairs.{creation_events, completion_events, confirmation_events}
use hunsu.History.Journal.{Carry, entry, event_id_of, events_new}

-- The events of a command: there is one at least, and all carry its key and its fingerprint.
abbrev pub AreOf : ProjectCommand → List DomainEvent → Type 0
AreOf c [] = ⊥
AreOf c (e ∷ events) =
    Carry (command_meta c).idempotency_key (command_meta c).fingerprint (e ∷ events)

module _ ⦃digests : Digests⦄ (s : ProjectState) (integrity : ProjectIntegrityBoundary) where
  one_AreOf {ℓ} :
      {A : Type ℓ} (c : ProjectCommand) (tested : Outcome A) (event : A → DomainEvent)
      (events : List DomainEvent)
      → ((a : A)
          → ((event_meta (event a)).idempotency_key ≡ (command_meta c).idempotency_key)
            × ((event_meta (event a)).fingerprint ≡ (command_meta c).fingerprint))
      → when_ok tested (λ a. event a ∷ []) ≡ ok events
      → AreOf c events
  one_AreOf c tested event events same h =
      let (a, _, emitted) = when_ok-eq-ok tested (λ a. event a ∷ []) h in
      rw (← emitted) (same a, tt)

  pub decide_events-AreOf :
      (c : ProjectCommand) (events : List DomainEvent)
      → decide_events s c integrity ≡ ok events
      → AreOf c events
  unfolding decide_events
  decide_events-AreOf (create_project c) events h =
      let (_, _, emitted) = creation_events s integrity c events h in
      rw (← emitted) ((refl, refl), ((refl, refl), tt))
  decide_events-AreOf (complete_run c) events h =
      let (_, _, emitted) = completion_events s integrity c events h in
      rw (← emitted) ((refl, refl), ((refl, refl), tt))
  decide_events-AreOf (confirm_coaching_proposal c) events h =
      let (_, _, _, emitted) = confirmation_events s integrity c events h in
      rw (← emitted) ((refl, refl), ((refl, refl), tt))
  decide_events-AreOf (rebuild_project_materializations meta id) events h =
      one_AreOf (rebuild_project_materializations meta id) _ _ events (λ _. (refl, refl)) h
  decide_events-AreOf (start_run c) events h =
      one_AreOf (start_run c) _ _ events (λ _. (refl, refl)) h
  decide_events-AreOf (checkpoint_run meta checkpoint) events h =
      one_AreOf (checkpoint_run meta checkpoint) _ _ events (λ _. (refl, refl)) h
  decide_events-AreOf (attach_run_evidence meta evidence) events h =
      one_AreOf (attach_run_evidence meta evidence) _ _ events (λ _. (refl, refl)) h
  decide_events-AreOf (fail_run meta id reason) events h =
      one_AreOf (fail_run meta id reason) _ _ events (λ _. (refl, refl)) h
  decide_events-AreOf (cancel_run meta id reason) events h =
      one_AreOf (cancel_run meta id reason) _ _ events (λ _. (refl, refl)) h
  decide_events-AreOf (record_coach_review meta review) events h =
      one_AreOf (record_coach_review meta review) _ _ events (λ _. (refl, refl)) h
  decide_events-AreOf (record_coaching_proposal meta proposal) events h =
      one_AreOf (record_coaching_proposal meta proposal) _ _ events (λ _. (refl, refl)) h
  decide_events-AreOf (reject_coaching_proposal c) events h =
      one_AreOf (reject_coaching_proposal c) _ _ events (λ _. (refl, refl)) h
  decide_events-AreOf (compare_alternatives c) events h =
      one_AreOf (compare_alternatives c) _ _ events (λ _. (refl, refl)) h
  decide_events-AreOf (select_alternative c) events h =
      one_AreOf (select_alternative c) _ _ events (λ _. (refl, refl)) h
  decide_events-AreOf (reject_alternatives c) events h =
      one_AreOf (reject_alternatives c) _ _ events (λ _. (refl, refl)) h

  entry_of :
      (c : ProjectCommand) (t : ProjectState) (events : List DomainEvent)
      → AreOf c events
      → entry s (command_meta c).idempotency_key ≡ none
      → apply_domain_events s events integrity ≡ ok t
      → entry t (command_meta c).idempotency_key
        ≡ some (record {
          idempotency_key = (command_meta c).idempotency_key;
          fingerprint = (command_meta c).fingerprint;
          event_ids = map event_id_of events;
        })
  entry_of c t [] carry new h = elim carry [ ]
  entry_of c t (e ∷ events) carry new h =
      events_new integrity (command_meta c).idempotency_key s t e events
        (command_meta c).fingerprint carry new h

  -- What a command that is applied leaves in the journal.
  module _ (c : ProjectCommand) {t : ProjectState} {events : List DomainEvent}
      (decided : decide_project_command s c integrity ≡ ok (accepted events))
      (applied : apply_project_command s c integrity
        ≡ ok (record { state = t; emitted_events = events; reused_event_ids = [] })) where
    applied_events : apply_domain_events s events integrity ≡ ok t
    unfolding apply_project_command
    applied_events = let finished = applied in ground (arith, decided)

    pub entry-apply_project_command :
        entry t (command_meta c).idempotency_key
        ≡ some (record {
          idempotency_key = (command_meta c).idempotency_key;
          fingerprint = (command_meta c).fingerprint;
          event_ids = map event_id_of events;
        })
    entry-apply_project_command =
        let (new, emitted) = accepted_decision s integrity c events decided in
        entry_of c t events (decide_events-AreOf c events emitted) new applied_events
