-- ===== src/Coherence/Scan.antt =====
-- The scan of batches in `validateDomainEventBatches` of packages/core/src/engine.ts beside the
-- application of the same events.
use hunsu.Base.{◌≡◌, arith, false, List, [], ◌∷◌, ◌==◌, ◌⊎◌, Bool-cases, inl, inr}
use hunsu.Lists.{any, includes, push}
use hunsu.Protocol.{ok, ProjectState, DomainEvent, event_meta, EventId, IdempotencyKey}
use hunsu.Engine.Outcomes.{Outcome-cases}
use hunsu.Engine.Journal.{finish, has_event, has_key}
use hunsu.Engine.Replay.{BatchScan, scan_event, turn_batch, close_key, key_of, starts_batch}
use hunsu.History.Effect.{effect}
use hunsu.Coherence.Marks.{record_event-has_event, record_event-has_key}

-- `closed`, with the key of the batch that is open.
abbrev pub seen_keys : BatchScan → List IdempotencyKey
seen_keys scan = close_key scan.current scan.closed

-- The scan has seen no event id and no key but those of the processed commands.
pub record Follows (s : ProjectState) (scan : BatchScan) : Type 0 where
  pub ids :
      (id : EventId)
      → any (has_event id) s.processed_commands ≡ false
      → includes scan.event_ids id ≡ false
  pub keys :
      (key : IdempotencyKey)
      → any (has_key key) s.processed_commands ≡ false
      → includes (seen_keys scan) key ≡ false

scan_ids :
    (scan next : BatchScan) (e : DomainEvent)
    → scan_event scan e ≡ ok next
    → next.event_ids ≡ (event_meta e).event_id ∷ scan.event_ids
unfolding scan_event turn_batch
scan_ids scan next e h = ground arith

-- The scan after one event, before and after the event joins the batch.
scan_turn :
    (scan next : BatchScan) (e : DomainEvent)
    → scan_event scan e ≡ ok next
    → (turned : BatchScan) × (turn_batch scan e ≡ ok turned)
      × (next ≡ record turned {
        event_ids = (event_meta e).event_id ∷ scan.event_ids;
        current = push turned.current e;
      })
unfolding scan_event
scan_turn scan next e h = elim (Outcome-cases (turn_batch scan e)) [
  | inr (x, refused) ↦ absurd (ground arith)
  | inl (turned, is_turned) ↦ (turned, is_turned, ground arith)
]

turned_batch :
    (scan turned : BatchScan) (e : DomainEvent)
    → turn_batch scan e ≡ ok turned
    → (turned ≡ scan) ⊎ (turned ≡ record scan { closed = seen_keys scan; current = [] })
unfolding turn_batch
turned_batch scan turned e h = elim (Bool-cases (starts_batch scan.current e)) [
  | inr goes_on ↦ inl (ground arith)
  | inl starts ↦ inr (ground arith)
]

close_key-push :
    (current : List DomainEvent) (e : DomainEvent) (closed : List IdempotencyKey)
    (key : IdempotencyKey)
    → includes (close_key current closed) key ≡ false
    → (key_of e == key) ≡ false
    → includes (close_key (push current e) closed) key ≡ false
close_key-push [] e closed key old new = ground arith
close_key-push (first ∷ current) e closed key old new = old

scan_keys :
    (scan next : BatchScan) (e : DomainEvent) (key : IdempotencyKey)
    → scan_event scan e ≡ ok next
    → includes (seen_keys scan) key ≡ false
    → (key_of e == key) ≡ false
    → includes (seen_keys next) key ≡ false
scan_keys scan next e key h old new =
    let (turned, is_turned, is_next) = scan_turn scan next e h in
    elim (turned_batch scan turned e is_turned) [
      | inl same ↦ rw (is_next, same) (close_key-push scan.current e scan.closed key old new)
      | inr closed ↦ rw (is_next, closed) (close_key-push [] e (seen_keys scan) key old new)
    ]

-- One event, scanned and applied.
module _ (s : ProjectState) (scan next : BatchScan) (e : DomainEvent) where
  pub finish-Follows :
      Follows s scan
      → scan_event scan e ≡ ok next
      → Follows (finish (effect s e) (event_meta e)) next
  unfolding finish
  finish-Follows follows scanned = record {
    ids = λ id unused.
        let (before, other) =
          record_event-has_event (event_meta e) (effect s e).processed_commands id unused in
        rw (scan_ids scan next e scanned) (ground (arith, other, follows.ids id (ground arith)));
    keys = λ key unused.
        let (before, other) =
          record_event-has_key (event_meta e) (effect s e).processed_commands key unused in
        scan_keys scan next e key scanned (follows.keys key (ground arith)) other;
  }
