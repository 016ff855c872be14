-- ===== src/Coherence/Fresh.antt =====
-- The scan of `validateDomainEventBatches` in packages/core/src/engine.ts over one more batch, which
-- has a new key and new event ids.
use hunsu.Base.{◌≡◌, refl, arith, true, false, List, [], ◌∷◌, ◌==◌, ==_refl, ==_comm}
use hunsu.Lists.{includes}
use hunsu.Protocol.{
  ok, DomainEvent, event_meta, EventId, IdempotencyKey, DomainActor, user, coach, plugin, system,
}
use hunsu.Engine.Replay.{
  BatchScan, scan_event, turn_batch, check_batch, close_key, key_of, same_domain_actor,
}
use hunsu.Coherence.Scan.{seen_keys}

same_domain_actor_refl : (a : DomainActor) → same_domain_actor a a ≡ true
unfolding same_domain_actor
same_domain_actor_refl (user a) = ==_refl a
same_domain_actor_refl (coach a) = ==_refl a
same_domain_actor_refl (plugin a) = ==_refl a
same_domain_actor_refl system = refl

-- The batch that is open has another key, so the event closes it.
fresh_turn :
    (closed : List IdempotencyKey) (ids : List EventId) (current : List DomainEvent)
    (e : DomainEvent)
    → includes (close_key current closed) (key_of e) ≡ false
    → check_batch current ≡ ok tt
    → turn_batch (record { closed = closed; event_ids = ids; current = current }) e
      ≡ ok (record { closed = close_key current closed; event_ids = ids; current = [] })
unfolding turn_batch
fresh_turn closed ids [] e new checked = refl
fresh_turn closed ids (first ∷ current) e new checked =
    let other : (key_of first == key_of e) ≡ false = ground arith in
    rw (==_comm (key_of e) (key_of first), other, checked) refl

pub fresh_event :
    (scan : BatchScan) (e : DomainEvent)
    → includes scan.event_ids (event_meta e).event_id ≡ false
    → includes (seen_keys scan) (key_of e) ≡ false
    → check_batch scan.current ≡ ok tt
    → scan_event scan e
      ≡ ok (record {
        closed = seen_keys scan;
        event_ids = (event_meta e).event_id ∷ scan.event_ids;
        current = e ∷ [];
      })
unfolding scan_event
fresh_event scan e new_id new_key checked =
    rw (new_id, fresh_turn scan.closed scan.event_ids scan.current e new_key checked, new_key) refl

-- A second event of the batch differs from the first in its id only.
pub second_event :
    (closed : List IdempotencyKey) (ids : List EventId) (first second : DomainEvent)
    → includes ids (event_meta second).event_id ≡ false
    → includes closed (key_of first) ≡ false
    → (event_meta second).idempotency_key ≡ (event_meta first).idempotency_key
    → (event_meta second).fingerprint ≡ (event_meta first).fingerprint
    → (event_meta second).recorded_at ≡ (event_meta first).recorded_at
    → (event_meta second).actor ≡ (event_meta first).actor
    → scan_event (record { closed = closed; event_ids = ids; current = first ∷ [] }) second
      ≡ ok (record {
        closed = closed;
        event_ids = (event_meta second).event_id ∷ ids;
        current = first ∷ second ∷ [];
      })
unfolding scan_event turn_batch
second_event closed ids first second new_id new_key same_key same_print same_time same_actor =
    rw
      (
        new_id,
        same_key,
        ==_refl (key_of first),
        new_key,
        same_print,
        ==_refl (event_meta first).fingerprint,
        same_time,
        ==_refl (event_meta first).recorded_at,
        same_actor,
        same_domain_actor_refl (event_meta first).actor,
      )
      refl
