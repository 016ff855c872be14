-- ===== src/History/Journal.antt =====
-- The journal of processed commands of packages/core/src/engine.ts: the entry of a key, event by event.
use hunsu.Base.{
  ◌≡◌, arith, sym, ◌∙◌, List, [], ◌∷◌, ◌++◌, map, Option, some, none, ==_refl, ==_of_eq,
  append_assoc, append-nil, subst,
}
use hunsu.Lists.{find, All}
use hunsu.Lists.Laws.{find-append_none, find-map}
use hunsu.Protocol.{
  ok, Digests, ProjectState, ProcessedCommand, DomainEvent, event_meta, EventMetadata, EventId,
  IdempotencyKey, CommandFingerprint,
}
use hunsu.Engine.Errors.{ProjectIntegrityBoundary}
use hunsu.Engine.Outcomes.{>>=-eq-ok}
use hunsu.Engine.Journal.{finish, has_key, processed_by, add_event_id}
use hunsu.Engine.Apply.{apply_domain_event, apply_domain_events}
use hunsu.History.Effect.{effect, apply_domain_event-effect}

abbrev pub event_id_of : DomainEvent → EventId
event_id_of e = (event_meta e).event_id

-- All the events carry the key and the fingerprint.
abbrev pub Carry : IdempotencyKey → CommandFingerprint → List DomainEvent → Type 0
Carry key fingerprint =
    All (λ e. ((event_meta e).idempotency_key ≡ key) × ((event_meta e).fingerprint ≡ fingerprint))

abbrev pub entry : ProjectState → IdempotencyKey → Option ProcessedCommand
entry s key = find (has_key key) s.processed_commands

-- No event touches the journal but through `finish`.
pub effect-processed_commands :
    (s : ProjectState) (e : DomainEvent) → (effect s e).processed_commands ≡ s.processed_commands
effect-processed_commands s e = ground arith

add_event_id-has_key :
    (meta : EventMetadata) (key : IdempotencyKey) (c : ProcessedCommand)
    → has_key key (add_event_id meta c) ≡ has_key key c
add_event_id-has_key meta key c = ground arith

-- The first event of a command opens its entry.
pub entry-finish_new :
    (s : ProjectState) (meta : EventMetadata)
    → entry s meta.idempotency_key ≡ none
    → entry (finish s meta) meta.idempotency_key ≡ some (processed_by meta)
unfolding finish
entry-finish_new s meta new = rw (
  new,
  find-append_none (has_key meta.idempotency_key) s.processed_commands (processed_by meta ∷ []) new,
  ==_refl meta.idempotency_key,
)

-- A further event adds its id to the entry.
pub entry-finish_known :
    (s : ProjectState) (meta : EventMetadata) (c : ProcessedCommand)
    → entry s meta.idempotency_key ≡ some c
    → entry (finish s meta) meta.idempotency_key ≡ some (add_event_id meta c)
unfolding finish
entry-finish_known s meta c known = rw (
  known,
  find-map (has_key meta.idempotency_key) (add_event_id meta) s.processed_commands c
      (add_event_id-has_key meta meta.idempotency_key) known,
)

abbrev with_ids : ProcessedCommand → List EventId → ProcessedCommand
with_ids c ids = record c { event_ids = c.event_ids ++ ids }

add_event_id-with_ids :
    (meta : EventMetadata) (c : ProcessedCommand)
    → c.idempotency_key ≡ meta.idempotency_key
    → add_event_id meta c ≡ with_ids c (meta.event_id ∷ [])
add_event_id-with_ids meta c same = rw (==_of_eq c.idempotency_key meta.idempotency_key same)

module _ ⦃digests : Digests⦄ (integrity : ProjectIntegrityBoundary) (key : IdempotencyKey) where
  step_known :
      (s t : ProjectState) (e : DomainEvent) (c : ProcessedCommand)
      → (event_meta e).idempotency_key ≡ key
      → c.idempotency_key ≡ key
      → entry s key ≡ some c
      → apply_domain_event s e integrity ≡ ok t
      → entry t key ≡ some (with_ids c (event_id_of e ∷ []))
  step_known s t e c same own known h =
      let (_, shape) = apply_domain_event-effect s t integrity e h in
      let u = effect s e in
      let meta = event_meta e in
      let known' : entry u meta.idempotency_key ≡ some c =
        rw (same, effect-processed_commands s e) known in
      let grown = add_event_id-with_ids meta c (own ∙ sym same) in
      subst (λ k. entry t k ≡ some (with_ids c (event_id_of e ∷ []))) same
        (rw (shape, ← grown) (entry-finish_known u meta c known'))

  step_new :
      (s t : ProjectState) (e : DomainEvent)
      → (event_meta e).idempotency_key ≡ key
      → entry s key ≡ none
      → apply_domain_event s e integrity ≡ ok t
      → entry t key ≡ some (processed_by (event_meta e))
  step_new s t e same new h =
      let (_, shape) = apply_domain_event-effect s t integrity e h in
      let u = effect s e in
      let meta = event_meta e in
      let new' : entry u meta.idempotency_key ≡ none =
        rw (same, effect-processed_commands s e) new in
      subst (λ k. entry t k ≡ some (processed_by meta)) same
        (rw shape (entry-finish_new u meta new'))

  events_known :
      (s t : ProjectState) (events : List DomainEvent) (fingerprint : CommandFingerprint)
      (c : ProcessedCommand)
      → Carry key fingerprint events
      → c.idempotency_key ≡ key
      → entry s key ≡ some c
      → apply_domain_events s events integrity ≡ ok t
      → entry t key ≡ some (with_ids c (map event_id_of events))
  unfolding apply_domain_events
  events_known s t [] fingerprint c carry own known h = rw (append-nil c.event_ids) (cc)
  events_known s t (e ∷ events) fingerprint c ((same, _), carry) own known h =
      let (u, first, rest) =
        >>=-eq-ok (apply_domain_event s e integrity) (λ u. apply_domain_events u events integrity)
          h in
      let known' = step_known s u e c same own known first in
      let ih =
        events_known u t events fingerprint (with_ids c (event_id_of e ∷ [])) carry own known'
          rest in
      rw (← append_assoc c.event_ids (event_id_of e ∷ []) (map event_id_of events)) ih

  -- The entry of a new key, after the events of one command.
  pub events_new :
      (s t : ProjectState) (e : DomainEvent) (events : List DomainEvent)
      (fingerprint : CommandFingerprint)
      → Carry key fingerprint (e ∷ events)
      → entry s key ≡ none
      → apply_domain_events s (e ∷ events) integrity ≡ ok t
      → entry t key
        ≡ some (record {
          idempotency_key = key;
          fingerprint = fingerprint;
          event_ids = map event_id_of (e ∷ events);
        })
  unfolding apply_domain_events
  events_new s t e events fingerprint ((same_key, same_print), carry) new h =
      let (u, first, rest) =
        >>=-eq-ok (apply_domain_event s e integrity) (λ u. apply_domain_events u events integrity)
          h in
      let opened = step_new s u e same_key new first in
      let all =
        events_known u t events fingerprint (processed_by (event_meta e)) carry same_key opened
          rest in
      rw (all, same_key, same_print)
