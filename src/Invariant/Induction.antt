-- ===== src/Invariant/Induction.antt =====
-- Induction on the events of a history, for the loop of `replayDomainEvents` in
-- packages/core/src/engine.ts.
use hunsu.Base.{◌≡◌, List, [], ◌∷◌}
use hunsu.Protocol.{ok, Digests, ProjectState, DomainEvent, event_meta}
use hunsu.Engine.Errors.{ProjectIntegrityBoundary}
use hunsu.Engine.Outcomes.{>>=-eq-ok, >>-eq-ok, ok_injective}
use hunsu.Engine.Journal.{finish, empty_project_state, validate_event_identity}
use hunsu.Engine.Apply.{apply_domain_event, apply_domain_events, apply_event_body}
use hunsu.Engine.Replay.{replay_domain_events, validate_domain_event_batches}
use hunsu.History.Effect.{effect, apply_domain_event-effect}
use hunsu.Invariant.Passed.{Passed, apply_event_body-Passed}

-- A predicate that an event keeps when it has passed its tests.
abbrev pub IsKept {ℓ} :
    ⦃digests : Digests⦄ → (ProjectState → Type ℓ) → ProjectIntegrityBoundary → Type ℓ
IsKept P integrity =
    (s : ProjectState) (e : DomainEvent)
    → Passed s integrity e
    → P s
    → P (finish (effect s e) (event_meta e))

module _ {ℓ} ⦃digests : Digests⦄ (P : ProjectState → Type ℓ) (integrity : ProjectIntegrityBoundary)
    (kept : IsKept P integrity) where
  apply_domain_event-kept :
      (s t : ProjectState) (e : DomainEvent) → apply_domain_event s e integrity ≡ ok t → P s → P t
  unfolding apply_domain_event
  apply_domain_event-kept s t e h p =
      let (_, shape) = apply_domain_event-effect s t integrity e h in
      let (_, body) =
        >>-eq-ok (validate_event_identity s (event_meta e)) (apply_event_body s e integrity) h in
      rw shape (kept s e (apply_event_body-Passed s integrity t e body) p)

  pub apply_domain_events-kept :
      (s t : ProjectState) (events : List DomainEvent)
      → apply_domain_events s events integrity ≡ ok t
      → P s
      → P t
  unfolding apply_domain_events
  apply_domain_events-kept s t [] h p = rw (← ok_injective h) p
  apply_domain_events-kept s t (e ∷ events) h p =
      let (u, first, rest) =
        >>=-eq-ok (apply_domain_event s e integrity) (λ u. apply_domain_events u events integrity)
          h in
      apply_domain_events-kept u t events rest (apply_domain_event-kept s u e first p)

  pub replay_domain_events-kept :
      (events : List DomainEvent) (t : ProjectState)
      → replay_domain_events events integrity ≡ ok t
      → P empty_project_state
      → P t
  unfolding replay_domain_events
  replay_domain_events-kept events t h =
      apply_domain_events-kept empty_project_state t events
        (>>-eq-ok (validate_domain_event_batches events)
          (apply_domain_events empty_project_state events integrity) h).1
