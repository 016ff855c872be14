-- ===== src/Codec/Objects/Records.antt =====
-- packages/protocol/src/model.ts: Projects, actors, event metadata and processed commands as objects.
use hunsu.Base.{[], ◌∷◌}
use hunsu.Protocol.{
  CanonicalJsonValue, Project, DomainActor, user, coach, plugin, system, EventMetadata,
  ProcessedCommand,
}
use hunsu.Codec.Objects.{string, object_of, array_of}

unfoldable pub actor_object : DomainActor → CanonicalJsonValue
actor_object (user id) = object_of (("type", string "user") ∷ ("id", string id) ∷ [])
actor_object (coach id) = object_of (("type", string "coach") ∷ ("id", string id) ∷ [])
actor_object (plugin id) = object_of (("type", string "plugin") ∷ ("id", string id) ∷ [])
actor_object system = object_of (("type", string "system") ∷ [])

unfoldable pub event_metadata_object : EventMetadata → CanonicalJsonValue
event_metadata_object x = object_of (
    ("eventId", string x.event_id)
    ∷ ("idempotencyKey", string x.idempotency_key)
    ∷ ("fingerprint", string x.fingerprint)
    ∷ ("actor", actor_object x.actor)
    ∷ ("recordedAt", string x.recorded_at)
    ∷ [])

unfoldable pub processed_command_object : ProcessedCommand → CanonicalJsonValue
processed_command_object x = object_of (
    ("idempotencyKey", string x.idempotency_key)
    ∷ ("fingerprint", string x.fingerprint)
    ∷ ("eventIds", array_of string x.event_ids)
    ∷ [])

unfoldable pub project_object : Project → CanonicalJsonValue
project_object x = object_of (
    ("id", string x.id)
    ∷ ("workspaceId", string x.workspace_id)
    ∷ (
      "repository",
      object_of (("owner", string x.repository.owner) ∷ ("name", string x.repository.name) ∷ []),
    )
    ∷ ("baseRef", string x.base_ref)
    ∷ ("title", string x.title)
    ∷ ("rootNodeSha", string x.root_node_sha)
    ∷ ("createdAt", string x.created_at)
    ∷ [])
