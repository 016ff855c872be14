-- ===== src/History/Retry.antt =====
-- Sending a command again to `applyProjectCommand` of packages/core/src/engine.ts, after any other
-- commands.
use hunsu.Base.{◌≡◌, ◌==◌, false, List, [], map, ==_refl}
use hunsu.Protocol.{ok, Digests, ProjectState, DomainEvent, ProjectCommand, command_meta}
use hunsu.Engine.Errors.{ProjectIntegrityBoundary, failure, idempotency_conflict}
use hunsu.Engine.Journal.{accepted, decide_retry}
use hunsu.Engine.Decide.{decide_project_command, apply_project_command}
use hunsu.History.Journal.{event_id_of}
use hunsu.History.Emitted.{entry-apply_project_command}
use hunsu.History.Kept.{after_commands, entry-after_commands}

module _ ⦃digests : Digests⦄ (s t : ProjectState) (integrity : ProjectIntegrityBoundary)
    (c : ProjectCommand) (events : List DomainEvent)
    (decided : decide_project_command s c integrity ≡ ok (accepted events))
    (applied : apply_project_command s c integrity
      ≡ ok (record { state = t; emitted_events = events; reused_event_ids = [] }))
    (later : List (ProjectCommand × ProjectIntegrityBoundary))
    (now : ProjectIntegrityBoundary) where
  -- A command that has been accepted and applied, sent again with its key and its fingerprint,
  -- whatever else it holds now, after any further commands, refused ones and others under its key
  -- included, and whatever the boundaries answer: the state stays as it is, no event is emitted, and
  -- the answer is the ids of the events that the first application emitted, in their order.
  pub apply_project_command-retry :
      (again : ProjectCommand)
      → (command_meta again).idempotency_key ≡ (command_meta c).idempotency_key
      → (command_meta again).fingerprint ≡ (command_meta c).fingerprint
      → apply_project_command (after_commands t later) again now
        ≡ ok (record {
          state = after_commands t later;
          emitted_events = [];
          reused_event_ids = map event_id_of events;
        })
  unfolding apply_project_command decide_project_command decide_retry
  apply_project_command-retry again same_key same_print = rw (
    same_key,
    entry-after_commands (command_meta c).idempotency_key _ t later
        (entry-apply_project_command s integrity c decided applied),
    same_print,
    ==_refl (command_meta c).fingerprint,
  )

  -- With the key of an applied command and another fingerprint a command is refused, after any
  -- further commands and whatever the boundaries answer.
  pub apply_project_command-conflict :
      (other : ProjectCommand)
      → (command_meta other).idempotency_key ≡ (command_meta c).idempotency_key
      → ((command_meta c).fingerprint == (command_meta other).fingerprint) ≡ false
      → apply_project_command (after_commands t later) other now
        ≡ failure idempotency_conflict
            "Idempotency key was already used with another command fingerprint"
  unfolding apply_project_command decide_project_command decide_retry
  apply_project_command-conflict other same_key other_print = rw (
    same_key,
    entry-after_commands (command_meta c).idempotency_key _ t later
        (entry-apply_project_command s integrity c decided applied),
    other_print,
  )
