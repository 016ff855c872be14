-- ===== src/Codec/RoundTrip/Records.antt =====
-- Projects, actors, event metadata and processed commands: what the decoders of
-- packages/protocol/src/serialization.ts read back.
use hunsu.Base.{◌≡◌, refl, String, ◌==◌}
use hunsu.Protocol.{
  ok, Project, DomainActor, user, coach, plugin, system, EventMetadata, ProcessedCommand,
}
use hunsu.Codec.Values.{exact_record, keys_of, property, sort_keys}
use hunsu.Codec.Makers.{Dates}
use hunsu.Codec.Fields.{decode_id}
use hunsu.Codec.Records.{
  decode_actor, decode_event_metadata, decode_project, decode_processed_command,
}
use hunsu.Codec.Canonical.{unknown_of}
use hunsu.Codec.Objects.{string}
use hunsu.Codec.Objects.Records.{
  actor_object, event_metadata_object, project_object, processed_command_object,
}
use hunsu.Codec.Valid.{IsIdentifier}
use hunsu.Codec.Valid.Records.{IsDomainActor, IsEventMetadata, IsProject, IsProcessedCommand}
use hunsu.Codec.RoundTrip.Arrays.{decode_array-array_of, decode_id-string}

pub decode_actor-actor_object :
    (x : DomainActor)
    → IsDomainActor x
    → (path : String) → decode_actor (unknown_of (actor_object x)) path ≡ ok x
unfolding unknown_of decode_actor actor_object exact_record keys_of property sort_keys ◌==◌
decode_actor-actor_object (user id) v path = rw v refl
decode_actor-actor_object (coach id) v path = rw v refl
decode_actor-actor_object (plugin id) v path = rw v refl
decode_actor-actor_object system v path = refl

module _ ⦃dates : Dates⦄ where
  pub decode_event_metadata-event_metadata_object :
      (x : EventMetadata)
      → IsEventMetadata x
      → (path : String) → decode_event_metadata (unknown_of (event_metadata_object x)) path ≡ ok x
  unfolding unknown_of decode_event_metadata event_metadata_object exact_record keys_of property
      sort_keys ◌==◌
  decode_event_metadata-event_metadata_object x v path =
      rw
        (
          v.event_id,
          v.idempotency_key,
          v.fingerprint,
          decode_actor-actor_object x.actor v.actor,
          v.recorded_at,
        )
        refl

pub decode_processed_command-processed_command_object :
    (x : ProcessedCommand)
    → IsProcessedCommand x
    → (path : String)
    → decode_processed_command (unknown_of (processed_command_object x)) path ≡ ok x
unfolding unknown_of decode_processed_command processed_command_object exact_record keys_of property
    sort_keys ◌==◌
decode_processed_command-processed_command_object x v path =
    rw
      (
        v.idempotency_key,
        v.fingerprint,
        decode_array-array_of IsIdentifier string (decode_id "eventId") (decode_id-string "eventId")
            x.event_ids _ v.event_ids,
        v.has_events,
      )
      refl

module _ ⦃dates : Dates⦄ where
  pub decode_project-project_object :
      (x : Project)
      → IsProject x
      → (path : String) → decode_project (unknown_of (project_object x)) path ≡ ok x
  unfolding unknown_of decode_project project_object exact_record keys_of property sort_keys ◌==◌
  decode_project-project_object x v path =
      rw (v.id, v.workspace_id, v.owner, v.name, v.base_ref, v.title, v.root_node_sha, v.created_at)
        refl
