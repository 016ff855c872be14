-- ===== src/Coherence/Marks.antt =====
-- What `finish` of packages/core/src/engine.ts leaves in the processed commands: the event id and
-- the key of every event so far.
use hunsu.Base.{
  ◌≡◌, refl, arith, Bool, true, false, ◌||◌, List, [], ◌∷◌, ◌==◌, eq_of_==, map, some, Option-cases,
  Bool-cases, inl, inr, ap,
}
use hunsu.Lists.{any, find}
use hunsu.Lists.Laws.{any-push, any-false_mono, find-holds}
use hunsu.Protocol.{EventMetadata, ProcessedCommand, EventId, IdempotencyKey}
use hunsu.Engine.Journal.{has_event, has_key, record_event, add_event_id, processed_by}

module _ {ℓ} {A : Type ℓ} where
  any-map : (p : A → Bool) (f : A → A) (xs : List A) → any p (map f xs) ≡ any (λ x. p (f x)) xs
  any-map p f [] = refl
  any-map p f (x ∷ xs) = ap (λ rest. p (f x) || rest) (any-map p f xs)

  any-find-false :
      (p q : A → Bool) (xs : List A) (x : A) → find q xs ≡ some x → any p xs ≡ false → p x ≡ false
  any-find-false p q [] x found h = cc
  any-find-false p q (y ∷ xs) x found h = ground (arith, any-find-false p q xs x)

module _ (meta : EventMetadata) where
  has_event-add_event_id :
      (id : EventId) (c : ProcessedCommand)
      → has_event id c ≡ true
      → has_event id (add_event_id meta c) ≡ true
  has_event-add_event_id id c h = elim (Bool-cases (c.idempotency_key == meta.idempotency_key)) [
    | inr other ↦ rw other h
    | inl same ↦ rw (same, any-push (λ y. y == id) c.event_ids meta.event_id, h) refl
  ]

  -- An event id that is not there after the event was not there before it, and is not the event's.
  pub record_event-has_event :
      (processed : List ProcessedCommand) (id : EventId)
      → any
          (has_event id)
          (record_event (find (has_key meta.idempotency_key) processed) meta processed)
        ≡ false
      → (any (has_event id) processed ≡ false) × ((meta.event_id == id) ≡ false)
  record_event-has_event processed id h =
      elim (Option-cases (find (has_key meta.idempotency_key) processed)) [
        | inl new ↦
            let h' = rw (new, any-push (has_event id) processed (processed_by meta)) at h in
            (ground arith, ground arith)
        | inr (c, found) ↦
            let h' = rw (found, any-map (has_event id) (add_event_id meta) processed) at h in
            let same = find-holds (has_key meta.idempotency_key) processed c found in
            let here =
              any-find-false (λ c. has_event id (add_event_id meta c))
                (has_key meta.idempotency_key) processed c found h' in
            let here' = rw (same, any-push (λ y. y == id) c.event_ids meta.event_id) at here in
            (
              any-false_mono (λ c. has_event id (add_event_id meta c)) (has_event id) processed
                  (has_event-add_event_id id) h',
              ground arith,
            )
      ]

  has_key-add_event_id :
      (key : IdempotencyKey) (c : ProcessedCommand)
      → has_key key c ≡ true
      → has_key key (add_event_id meta c) ≡ true
  has_key-add_event_id key c h = ground arith

  pub record_event-has_key :
      (processed : List ProcessedCommand) (key : IdempotencyKey)
      → any
          (has_key key)
          (record_event (find (has_key meta.idempotency_key) processed) meta processed)
        ≡ false
      → (any (has_key key) processed ≡ false) × ((meta.idempotency_key == key) ≡ false)
  record_event-has_key processed key h =
      elim (Option-cases (find (has_key meta.idempotency_key) processed)) [
        | inl new ↦
            let h' = rw (new, any-push (has_key key) processed (processed_by meta)) at h in
            (ground arith, ground arith)
        | inr (c, found) ↦
            let h' = rw (found, any-map (has_key key) (add_event_id meta) processed) at h in
            let same = find-holds (has_key meta.idempotency_key) processed c found in
            let before =
              any-false_mono (λ c. has_key key (add_event_id meta c)) (has_key key) processed
                (has_key-add_event_id key) h' in
            let here =
              any-find-false (has_key key) (has_key meta.idempotency_key) processed c found
                before in
            (before, rw (← eq_of_== c.idempotency_key meta.idempotency_key same) here)
      ]
