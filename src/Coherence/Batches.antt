-- ===== src/Coherence/Batches.antt =====
-- The batch of events that `decideProjectCommand` of packages/core/src/engine.ts emits, and its scan.
use hunsu.Base.{◌≡◌, ap, ◌∙◌, subst, refl, sym, arith, true, false, List, [], ◌∷◌, ◌==◌}
use hunsu.Lists.{any, includes}
use hunsu.Protocol.{
  ok, ProjectState, Digests, CommandMetadata, ProjectCommand, DomainEvent, EventId, create_project,
  start_run, rebuild_project_materializations, checkpoint_run, attach_run_evidence, complete_run,
  fail_run, cancel_run, record_coach_review, record_coaching_proposal, confirm_coaching_proposal,
  reject_coaching_proposal, compare_alternatives, select_alternative, reject_alternatives,
  command_meta, event_meta, EventMetadata,
}
use hunsu.Engine.Errors.{Outcome, when_ok, ProjectIntegrityBoundary}
use hunsu.Engine.Outcomes.{when_ok-eq-ok}
use hunsu.Engine.Journal.{
  validate_additional_event_id, event_metadata, event_metadata_at, has_event, has_key,
}
use hunsu.Engine.Decide.{decide_events}
use hunsu.Engine.Replay.{BatchScan, scan_events, check_batch, requires_pair, is_valid_pair, key_of}
use hunsu.Acceptance.Pairs.{creation_events, completion_events, confirmation_events}
use hunsu.Coherence.Scan.{Follows, seen_keys}
use hunsu.Coherence.Fresh.{fresh_event, second_event}

-- One event with the command's metadata, or a pair whose second event has an id of its own.
pub data BatchOf (s : ProjectState) (meta : CommandMetadata) : List DomainEvent → Type 0 where
  single :
      (e : DomainEvent)
      → event_meta e ≡ event_metadata meta
      → requires_pair e ≡ false
      → BatchOf s meta (e ∷ [])
  pair :
      (first second : DomainEvent) (id : EventId)
      → event_meta first ≡ event_metadata meta
      → event_meta second ≡ event_metadata_at meta id
      → is_valid_pair first second ≡ true
      → validate_additional_event_id s meta.event_id id ≡ ok tt
      → BatchOf s meta (first ∷ second ∷ [])

module _ ⦃digests : Digests⦄ (s : ProjectState) (integrity : ProjectIntegrityBoundary) where
  one_BatchOf {ℓ} :
      {A : Type ℓ} (meta : CommandMetadata) (tested : Outcome A) (event : A → DomainEvent)
      (events : List DomainEvent)
      → ((a : A) → (event_meta (event a) ≡ event_metadata meta) × (requires_pair (event a) ≡ false))
      → when_ok tested (λ a. event a ∷ []) ≡ ok events
      → BatchOf s meta events
  one_BatchOf meta tested event events same h =
      let (a, _, emitted) = when_ok-eq-ok tested (λ a. event a ∷ []) h in
      rw (← emitted) (single (event a) (same a).0 (same a).1)

  pub decide_events-BatchOf :
      (c : ProjectCommand) (events : List DomainEvent)
      → decide_events s c integrity ≡ ok events
      → BatchOf s (command_meta c) events
  unfolding decide_events
  decide_events-BatchOf (create_project c) events h =
      let (_, extra, emitted) = creation_events s integrity c events h in
      rw (← emitted) (pair _ _ c.root_node_event_id refl refl refl extra)
  decide_events-BatchOf (complete_run c) events h =
      let (_, extra, emitted) = completion_events s integrity c events h in
      rw (← emitted) (pair _ _ c.node_event_id refl refl refl extra)
  decide_events-BatchOf (confirm_coaching_proposal c) events h =
      let (_, _, extra, emitted) = confirmation_events s integrity c events h in
      rw (← emitted) (pair _ _ c.node_event_id refl refl refl extra)
  decide_events-BatchOf (rebuild_project_materializations meta id) events h =
      one_BatchOf meta _ _ events (λ _. (refl, refl)) h
  decide_events-BatchOf (start_run c) events h = one_BatchOf c.meta _ _ events (λ _. (refl, refl)) h
  decide_events-BatchOf (checkpoint_run meta checkpoint) events h =
      one_BatchOf meta _ _ events (λ _. (refl, refl)) h
  decide_events-BatchOf (attach_run_evidence meta evidence) events h =
      one_BatchOf meta _ _ events (λ _. (refl, refl)) h
  decide_events-BatchOf (fail_run meta id reason) events h =
      one_BatchOf meta _ _ events (λ _. (refl, refl)) h
  decide_events-BatchOf (cancel_run meta id reason) events h =
      one_BatchOf meta _ _ events (λ _. (refl, refl)) h
  decide_events-BatchOf (record_coach_review meta review) events h =
      one_BatchOf meta _ _ events (λ _. (refl, refl)) h
  decide_events-BatchOf (record_coaching_proposal meta proposal) events h =
      one_BatchOf meta _ _ events (λ _. (refl, refl)) h
  decide_events-BatchOf (reject_coaching_proposal c) events h =
      one_BatchOf c.meta _ _ events (λ _. (refl, refl)) h
  decide_events-BatchOf (compare_alternatives c) events h =
      one_BatchOf c.meta _ _ events (λ _. (refl, refl)) h
  decide_events-BatchOf (select_alternative c) events h =
      one_BatchOf c.meta _ _ events (λ _. (refl, refl)) h
  decide_events-BatchOf (reject_alternatives c) events h =
      one_BatchOf c.meta _ _ events (λ _. (refl, refl)) h

module _ (s : ProjectState) (scan : BatchScan) (meta : CommandMetadata) where
  extra_id :
      (id : EventId)
      → validate_additional_event_id s meta.event_id id ≡ ok tt
      → ((meta.event_id == id) ≡ false) × (any (has_event id) s.processed_commands ≡ false)
  unfolding validate_additional_event_id
  extra_id id h = ground arith

  unseen_key :
      (e : DomainEvent)
      → event_meta e ≡ event_metadata meta
      → Follows s scan
      → any (has_key meta.idempotency_key) s.processed_commands ≡ false
      → includes (seen_keys scan) (key_of e) ≡ false
  unseen_key e same follows new_key =
      subst (λ (m : EventMetadata). includes (seen_keys scan) m.idempotency_key ≡ false) (sym same)
        (follows.keys meta.idempotency_key new_key)

  -- A batch with a new key and new ids passes after a scan that is complete so far.
  pub scan_events-BatchOf :
      (events : List DomainEvent)
      → BatchOf s meta events
      → Follows s scan
      → check_batch scan.current ≡ ok tt
      → any (has_key meta.idempotency_key) s.processed_commands ≡ false
      → any (has_event meta.event_id) s.processed_commands ≡ false
      → scan_events scan events ≡ ok tt
  unfolding scan_events check_batch
  scan_events-BatchOf _ (single e same lone) follows checked new_key new_id =
      let id : includes scan.event_ids (event_meta e).event_id ≡ false =
        rw same (follows.ids meta.event_id new_id) in
      rw (fresh_event scan e id (unseen_key e same follows new_key) checked, lone) refl
  scan_events-BatchOf _ (pair first second id same_first same_second valid extra) follows checked
        new_key new_id =
      let (other, unused) = extra_id id extra in
      let key = unseen_key first same_first follows new_key in
      let fresh : includes ((event_meta first).event_id ∷ scan.event_ids)
            (event_meta second).event_id
          ≡ false =
        subst
          (λ (m : EventMetadata).
            includes ((event_meta first).event_id ∷ scan.event_ids) m.event_id ≡ false)
          (sym same_second) (rw (same_first, other, follows.ids id unused) refl) in
      let joined =
        second_event (seen_keys scan) ((event_meta first).event_id ∷ scan.event_ids) first second
          fresh key
          (ap (λ (m : EventMetadata). m.idempotency_key) same_second
            ∙ sym (ap (λ (m : EventMetadata). m.idempotency_key) same_first))
          (ap (λ (m : EventMetadata). m.fingerprint) same_second
            ∙ sym (ap (λ (m : EventMetadata). m.fingerprint) same_first))
          (ap (λ (m : EventMetadata). m.recorded_at) same_second
            ∙ sym (ap (λ (m : EventMetadata). m.recorded_at) same_first))
          (ap (λ (m : EventMetadata). m.actor) same_second
            ∙ sym (ap (λ (m : EventMetadata). m.actor) same_first)) in
      rw
        (
          fresh_event scan first (rw same_first (follows.ids meta.event_id new_id)) key checked,
          joined,
          valid,
        )
        refl
