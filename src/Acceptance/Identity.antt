-- ===== src/Acceptance/Identity.antt =====
-- The identity tests of packages/core/src/engine.ts for the one or two events of a fresh command.
use hunsu.Base.{◌≡◌, false, arith, none, [], ◌∷◌, ==_refl}
use hunsu.Lists.{any, find}
use hunsu.Lists.Laws.{any-push, find-append_none}
use hunsu.Protocol.{ok, ProjectState, CommandMetadata, EventId}
use hunsu.Engine.Journal.{
  validate_event_identity, validate_additional_event_id, has_event, has_key, event_metadata_at,
  event_metadata, finish, processed_by,
}

-- No processed command has the key, and none lists the primary event id.
pub record IsFresh (s : ProjectState) (meta : CommandMetadata) : Type 0 where
  pub new_key : find (has_key meta.idempotency_key) s.processed_commands ≡ none
  pub new_event : any (has_event meta.event_id) s.processed_commands ≡ false

pub validate_event_identity_of_IsFresh :
    (s : ProjectState) (meta : CommandMetadata)
    → IsFresh s meta
    → validate_event_identity s (event_metadata meta) ≡ ok tt
unfolding validate_event_identity
validate_event_identity_of_IsFresh s meta h = ground arith

-- The second event of the command passes too, whatever the first one did to the rest of the state.
pub validate_event_identity-finish :
    (s t : ProjectState) (meta : CommandMetadata) (additional : EventId)
    → IsFresh s meta
    → t.processed_commands ≡ s.processed_commands
    → validate_additional_event_id s meta.event_id additional ≡ ok tt
    → validate_event_identity (finish t (event_metadata meta)) (event_metadata_at meta additional)
      ≡ ok tt
unfolding validate_event_identity validate_additional_event_id finish
validate_event_identity-finish s t meta additional h same extra =
    let old = s.processed_commands in
    let added = processed_by (event_metadata meta) in
    rw (same, h.new_key)
      (ground (
        arith,
        any-push (has_event additional) old added,
        find-append_none (has_key meta.idempotency_key) old (added ∷ []) h.new_key,
        ==_refl meta.idempotency_key,
        ==_refl meta.fingerprint,
      ))
