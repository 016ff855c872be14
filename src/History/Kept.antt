-- ===== src/History/Kept.antt =====
-- packages/core/src/engine.ts: the entry of a key in the journal of processed commands, while other
-- commands follow.
use hunsu.Base.{
  ◌≡◌, refl, arith, true, false, ◌==◌, ==_comm, eq_of_==, List, [], ◌∷◌, some, none, Bool-cases,
  Option-cases, inl, inr, subst,
}
use hunsu.Lists.{find, All}
use hunsu.Lists.Laws.{find-append_some, find-map, find-holds}
use hunsu.Protocol.{
  ok, err, Digests, ProjectState, ProcessedCommand, DomainEvent, event_meta, EventMetadata,
  IdempotencyKey, CommandFingerprint, ProjectCommand, command_meta,
}
use hunsu.Engine.Errors.{Outcome, ProjectIntegrityBoundary}
use hunsu.Engine.Outcomes.{>>=-eq-ok, ok_injective, Outcome-cases}
use hunsu.Engine.Journal.{
  finish, has_key, CommandDecision, processed_by, add_event_id, accepted, reused,
  CommandApplication,
}
use hunsu.Engine.Apply.{apply_domain_event, apply_domain_events}
use hunsu.Engine.Decide.{decide_project_command, apply_project_command, apply_decision}
use hunsu.Acceptance.Commands.{accepted_decision}
use hunsu.History.Effect.{effect, apply_domain_event-effect}
use hunsu.History.Journal.{Carry, entry, effect-processed_commands}
use hunsu.History.Emitted.{AreOf, decide_events-AreOf}

-- An entry that is found has the key that is looked for.
entry_key :
    (s : ProjectState) (key : IdempotencyKey) (c : ProcessedCommand)
    → entry s key ≡ some c
    → (c.idempotency_key == key) ≡ true
entry_key s key c known = find-holds (has_key key) s.processed_commands c known

-- The id of an event is added to the entries of its own key only.
add_event_id_other :
    (meta : EventMetadata) (key : IdempotencyKey) (c : ProcessedCommand)
    → (c.idempotency_key == key) ≡ true
    → (meta.idempotency_key == key) ≡ false
    → add_event_id meta c ≡ c
add_event_id_other meta key c own other =
    let same = eq_of_== c.idempotency_key key own in
    let apart : (c.idempotency_key == meta.idempotency_key) ≡ false =
      rw (same, ==_comm key meta.idempotency_key) other in
    rw apart refl

add_event_id-has_key :
    (meta : EventMetadata) (key : IdempotencyKey) (c : ProcessedCommand)
    → has_key key (add_event_id meta c) ≡ has_key key c
add_event_id-has_key meta key c = ground arith

-- An event of another key leaves the entry.
entry-finish_other :
    (s : ProjectState) (meta : EventMetadata) (key : IdempotencyKey) (c : ProcessedCommand)
    → (meta.idempotency_key == key) ≡ false
    → entry s key ≡ some c
    → entry (finish s meta) key ≡ some c
unfolding finish
entry-finish_other s meta key c other known =
    elim (Option-cases (find (has_key meta.idempotency_key) s.processed_commands)) [
      | inl new ↦
          rw
            (
              new,
              find-append_some (has_key key) s.processed_commands (processed_by meta ∷ []) c known,
            )
            refl
      | inr (_, found) ↦
          rw
            (
              found,
              find-map (has_key key) (add_event_id meta) s.processed_commands c
                  (add_event_id-has_key meta key) known,
              add_event_id_other meta key c (entry_key s key c known) other,
            )
            refl
    ]

module _ ⦃digests : Digests⦄ (integrity : ProjectIntegrityBoundary) (key : IdempotencyKey)
    (c : ProcessedCommand) where
  step_other :
      (s t : ProjectState) (e : DomainEvent)
      → ((event_meta e).idempotency_key == key) ≡ false
      → entry s key ≡ some c
      → apply_domain_event s e integrity ≡ ok t
      → entry t key ≡ some c
  step_other s t e other known h =
      let (_, shape) = apply_domain_event-effect s t integrity e h in
      rw shape (
        entry-finish_other (effect s e) (event_meta e) key c other
          (rw (effect-processed_commands s e) known))

  events_other :
      (s t : ProjectState) (events : List DomainEvent)
      → All (λ (e : DomainEvent). ((event_meta e).idempotency_key == key) ≡ false) events
      → entry s key ≡ some c
      → apply_domain_events s events integrity ≡ ok t
      → entry t key ≡ some c
  unfolding apply_domain_events
  events_other s t [] all known h = ground (arith, known, h)
  events_other s t (e ∷ events) (other, all) known h =
      let (u, first, rest) =
        >>=-eq-ok (apply_domain_event s e integrity) (λ u. apply_domain_events u events integrity)
          h in
      events_other u t events all (step_other s u e other known first) rest

  Carry-other :
      (own : IdempotencyKey) (fingerprint : CommandFingerprint) (events : List DomainEvent)
      → (own == key) ≡ false
      → Carry own fingerprint events
      → All (λ (e : DomainEvent). ((event_meta e).idempotency_key == key) ≡ false) events
  Carry-other own fingerprint [] other carry = tt
  Carry-other own fingerprint (e ∷ events) other ((same, _), carry) =
      (rw same other, Carry-other own fingerprint events other carry)

  emitted_other :
      (d : ProjectCommand) (events : List DomainEvent)
      → ((command_meta d).idempotency_key == key) ≡ false
      → AreOf d events
      → All (λ (e : DomainEvent). ((event_meta e).idempotency_key == key) ≡ false) events
  emitted_other d [] other are = tt
  emitted_other d (e ∷ events) other are =
      Carry-other (command_meta d).idempotency_key (command_meta d).fingerprint (e ∷ events) other
        are

  -- A command under a new key has not the key that is known.
  new_key_other :
      (s : ProjectState) (own : IdempotencyKey)
      → entry s key ≡ some c
      → entry s own ≡ none
      → (own == key) ≡ false
  new_key_other s own known new = elim (Bool-cases (own == key)) [
    | inr other ↦ other
    | inl same ↦
        let known' = rw (eq_of_== own key same) at new in absurd (ground (arith, known, known'))
  ]

  decision_keeps :
      (s : ProjectState) (d : ProjectCommand) (decision : CommandDecision)
      (app : CommandApplication)
      → entry s key ≡ some c
      → decide_project_command s d integrity ≡ ok decision
      → apply_decision s integrity decision ≡ ok app
      → entry app.state key ≡ some c
  decision_keeps s d (reused ids) app known decided h =
      subst (λ (x : CommandApplication). entry x.state key ≡ some c) (ok_injective h) known
  decision_keeps s d (accepted events) app known decided h =
      let (t, applied, shape) =
        >>=-eq-ok (apply_domain_events s events integrity)
          (λ next. ok (record { state = next; emitted_events = events; reused_event_ids = [] }))
          h in
      let (new, emitted) = accepted_decision s integrity d events decided in
      let other = new_key_other s (command_meta d).idempotency_key known new in
      let kept =
        events_other s t events
          (emitted_other d events other (decide_events-AreOf s integrity d events emitted)) known
          applied in
      subst (λ (x : CommandApplication). entry x.state key ≡ some c) (ok_injective shape) kept

  -- Any command that is answered leaves the entry of a key that is known.
  pub apply_project_command-entry :
      (s : ProjectState) (d : ProjectCommand) (app : CommandApplication)
      → entry s key ≡ some c
      → apply_project_command s d integrity ≡ ok app
      → entry app.state key ≡ some c
  unfolding apply_project_command
  apply_project_command-entry s d app known h =
      let (decision, decided, applied) =
        >>=-eq-ok (decide_project_command s d integrity)
          (λ decision. apply_decision s integrity decision) h in
      decision_keeps s d decision app known decided applied

-- The state after an answer: a refused command leaves the state before it.
abbrev pub state_or : ProjectState → Outcome CommandApplication → ProjectState
state_or s (ok app) = app.state
state_or s (err _) = s

-- The state after commands, each one sent with the answers of its own boundary.
unfoldable pub after_commands :
    ⦃digests : Digests⦄
    → ProjectState
    → List (ProjectCommand × ProjectIntegrityBoundary)
    → ProjectState
after_commands s [] = s
after_commands s ((d, boundary) ∷ commands) =
    after_commands (state_or s (apply_project_command s d boundary)) commands

module _ ⦃digests : Digests⦄ (key : IdempotencyKey) (c : ProcessedCommand) where
  one_command :
      (s : ProjectState) (d : ProjectCommand) (integrity : ProjectIntegrityBoundary)
      → entry s key ≡ some c
      → entry (state_or s (apply_project_command s d integrity)) key ≡ some c
  one_command s d integrity known = elim (Outcome-cases (apply_project_command s d integrity)) [
    | inl (app, h) ↦ rw h (apply_project_command-entry integrity key c s d app known h)
    | inr (_, h) ↦ rw h known
  ]

  pub entry-after_commands :
      (s : ProjectState) (commands : List (ProjectCommand × ProjectIntegrityBoundary))
      → entry s key ≡ some c
      → entry (after_commands s commands) key ≡ some c
  unfolding after_commands
  entry-after_commands s [] known = known
  entry-after_commands s ((d, integrity) ∷ commands) known =
      entry-after_commands (state_or s (apply_project_command s d integrity)) commands
        (one_command s d integrity known)
