-- ===== src/Acceptance/Chain.antt =====
-- The loop of `applyProjectCommand` in packages/core/src/engine.ts over one or two events.
use hunsu.Base.{◌≡◌, List, [], ◌∷◌}
use hunsu.Protocol.{ok, ProjectState, Digests, DomainEvent, event_meta}
use hunsu.Engine.Errors.{Outcome, ProjectIntegrityBoundary, admit}
use hunsu.Engine.Journal.{validate_event_identity}
use hunsu.Engine.Apply.{apply_domain_event, apply_domain_events, apply_event_body}

pub admit_total {ℓ κ} :
    {A : Type ℓ} {B : Type κ} (m : Outcome A) (f : A → B) {a : A} → m ≡ ok a → admit m f ≡ ok (f a)
admit_total m f h = rw h

module _ ⦃digests : Digests⦄ (integrity : ProjectIntegrityBoundary) where
  -- The events are accepted in turn.
  abbrev pub Applies : ProjectState → List DomainEvent → Type 0
  Applies s events = (t : ProjectState) × (apply_domain_events s events integrity ≡ ok t)

  pub apply_one :
      (s t : ProjectState) (event : DomainEvent)
      → validate_event_identity s (event_meta event) ≡ ok tt
      → apply_event_body s event integrity ≡ ok t
      → Applies s (event ∷ [])
  unfolding apply_domain_events apply_domain_event
  apply_one s t event identity body = (t, rw (identity, body))

  pub apply_two :
      (s t u : ProjectState) (first second : DomainEvent)
      → validate_event_identity s (event_meta first) ≡ ok tt
      → apply_event_body s first integrity ≡ ok t
      → validate_event_identity t (event_meta second) ≡ ok tt
      → apply_event_body t second integrity ≡ ok u
      → Applies s (first ∷ second ∷ [])
  unfolding apply_domain_events apply_domain_event
  apply_two s t u first second identity body identity' body' =
      (u, rw (identity, body, identity', body'))
