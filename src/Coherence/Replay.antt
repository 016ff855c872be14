-- ===== src/Coherence/Replay.antt =====
-- `replayDomainEvents` of packages/core/src/engine.ts over a history with one more batch.
use hunsu.Base.{◌≡◌, refl, ap, arith, false, List, [], ◌∷◌, ◌++◌}
use hunsu.Lists.{any}
use hunsu.Lists.Laws.{find-none-any}
use hunsu.Protocol.{
  ok, ProjectState, Digests, ProjectCommand, DomainEvent, command_meta, event_meta,
}
use hunsu.Engine.Errors.{ProjectIntegrityBoundary}
use hunsu.Engine.Outcomes.{>>=-eq-ok, >>-eq-ok, ok_injective}
use hunsu.Engine.Journal.{
  accepted, has_event, has_key, empty_project_state, validate_event_identity,
}
use hunsu.Engine.Apply.{apply_domain_event, apply_domain_events}
use hunsu.Engine.Decide.{decide_project_command, apply_project_command}
use hunsu.Engine.Replay.{
  BatchScan, new_scan, scan_event, scan_events, check_batch, validate_domain_event_batches,
  replay_domain_events,
}
use hunsu.History.Effect.{apply_domain_event-effect}
use hunsu.Acceptance.Commands.{accepted_decision}
use hunsu.Coherence.Scan.{Follows, finish-Follows}
use hunsu.Coherence.Batches.{BatchOf, single, pair, decide_events-BatchOf, scan_events-BatchOf}

module _ ⦃digests : Digests⦄ (integrity : ProjectIntegrityBoundary) where
  apply_domain_events-append :
      (s t : ProjectState) (events more : List DomainEvent)
      → apply_domain_events s events integrity ≡ ok t
      → apply_domain_events s (events ++ more) integrity ≡ apply_domain_events t more integrity
  unfolding apply_domain_events
  apply_domain_events-append s t [] more h =
      ap (λ u. apply_domain_events u more integrity) (ok_injective h)
  apply_domain_events-append s t (e ∷ events) more h =
      let (u, first, rest) =
        >>=-eq-ok (apply_domain_event s e integrity) (λ u. apply_domain_events u events integrity)
          h in
      rw first (apply_domain_events-append u t events more rest)

  -- The scan of a history and its application, side by side.
  scan_history :
      (s t : ProjectState) (scan : BatchScan) (events : List DomainEvent)
      → Follows s scan
      → scan_events scan events ≡ ok tt
      → apply_domain_events s events integrity ≡ ok t
      → (last : BatchScan) × (Follows t last)
        × (check_batch last.current ≡ ok tt)
        × ((more : List DomainEvent) → scan_events scan (events ++ more) ≡ scan_events last more)
  unfolding scan_events apply_domain_events
  scan_history s t scan [] follows scanned h =
      (scan, rw (← ok_injective h) follows, scanned, λ more. refl)
  scan_history s t scan (e ∷ events) follows scanned h =
      let (next, one, others) =
        >>=-eq-ok (scan_event scan e) (λ next. scan_events next events) scanned in
      let (u, first, rest) =
        >>=-eq-ok (apply_domain_event s e integrity) (λ u. apply_domain_events u events integrity)
          h in
      let (_, shape) = apply_domain_event-effect s u integrity e first in
      let (last, follows', checked, same) =
        scan_history u t next events (rw shape (finish-Follows s scan next e follows one)) others
          rest in
      (last, follows', checked, λ more. rw one (same more))

  -- The id of an event that is applied first is new.
  first_id :
      (s t : ProjectState) (e : DomainEvent) (events : List DomainEvent)
      → apply_domain_events s (e ∷ events) integrity ≡ ok t
      → any (has_event (event_meta e).event_id) s.processed_commands ≡ false
  unfolding apply_domain_events apply_domain_event validate_event_identity
  first_id s t e events h = ground arith

  batch_id :
      (s t : ProjectState) (c : ProjectCommand) (events : List DomainEvent)
      → BatchOf s (command_meta c) events
      → apply_domain_events s events integrity ≡ ok t
      → any (has_event (command_meta c).event_id) s.processed_commands ≡ false
  batch_id s t c _ (single e same _) h = let new = first_id s t e [] h in rw same at new
  batch_id s t c _ (pair e e' id same _ _ _) h =
      let new = first_id s t e (e' ∷ []) h in rw same at new

  replayed :
      (history : List DomainEvent) (s : ProjectState)
      → replay_domain_events history integrity ≡ ok s
      → (scan_events new_scan history ≡ ok tt)
        × (apply_domain_events empty_project_state history integrity ≡ ok s)
  unfolding replay_domain_events validate_domain_event_batches
  replayed history s h =
      >>-eq-ok (scan_events new_scan history)
        (apply_domain_events empty_project_state history integrity) h

  empty-Follows : Follows empty_project_state new_scan
  unfolding empty_project_state
  empty-Follows = record { ids = λ id _. refl; keys = λ key _. refl }

  applied_events :
      (s t : ProjectState) (c : ProjectCommand) (events : List DomainEvent)
      → decide_project_command s c integrity ≡ ok (accepted events)
      → apply_project_command s c integrity
        ≡ ok (record { state = t; emitted_events = events; reused_event_ids = [] })
      → apply_domain_events s events integrity ≡ ok t
  unfolding apply_project_command
  applied_events s t c events decided h = ground (arith, decided)

  -- A history that replays to a state, and a command that is accepted and applied in that state: with
  -- the emitted events behind it the history replays to the new state.
  pub replay_domain_events-append :
      (history : List DomainEvent) (s t : ProjectState) (c : ProjectCommand)
      (events : List DomainEvent)
      → replay_domain_events history integrity ≡ ok s
      → decide_project_command s c integrity ≡ ok (accepted events)
      → apply_project_command s c integrity
        ≡ ok (record { state = t; emitted_events = events; reused_event_ids = [] })
      → replay_domain_events (history ++ events) integrity ≡ ok t
  unfolding replay_domain_events validate_domain_event_batches
  replay_domain_events-append history s t c events h decided done =
      let (scanned, applied) = replayed history s h in
      let (last, follows, checked, same) =
        scan_history empty_project_state s new_scan history empty-Follows scanned applied in
      let (new_key, emitted) = accepted_decision s integrity c events decided in
      let batch = decide_events-BatchOf s integrity c events emitted in
      let moved = applied_events s t c events decided done in
      rw
        (
          same events,
          scan_events-BatchOf s last (command_meta c) events batch follows checked
              (find-none-any (has_key (command_meta c).idempotency_key) s.processed_commands
                new_key)
              (batch_id s t c events batch moved),
          apply_domain_events-append empty_project_state s history events applied,
        )
        moved
