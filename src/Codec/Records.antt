-- ===== src/Codec/Records.antt =====
-- packages/protocol/src/serialization.ts: decoders of Projects, actors, event metadata and processed
-- commands.
use hunsu.Base.{String, Bool, ◌&&◌, not, [], ◌∷◌, if◌then◌else◌}
use hunsu.Protocol.{
  ok, ◌>>=◌, Project, DomainActor, user, coach, plugin, system, EventMetadata, ProcessedCommand,
}
use hunsu.Codec.Values.{
  Unknown, Decoded, invalid, at, property, property_of, is_record, is_string, is_text, exact_record,
  decode_array,
}
use hunsu.Codec.Makers.{Dates}
use hunsu.Codec.Fields.{
  Decoder, at_key, require_some, decode_id, decode_sha256, decode_named_text, decode_text,
  decode_git_sha, decode_ref, decode_owner, decode_repository_name, decode_timestamp,
}

-- `isRecord(value) && typeof value[key] === "string"`
abbrev pub is_tagged : String → Unknown → Bool
is_tagged key value = is_record value && is_string (property_of key value)

-- `value[key] === tag`
abbrev pub has_tag : String → Unknown → String → Bool
has_tag key value tag = is_text (property_of key value) tag

abbrev pub with_id : (String → DomainActor) → Unknown → String → Decoded DomainActor
with_id actor value path = do
  fields ← exact_record value path ("type" ∷ "id" ∷ [])
  id ← at_key decode_text "id" fields path
  ok (actor id)

unfoldable pub decode_actor : Decoder DomainActor
decode_actor value path =
    if not (is_tagged "type" value)
    then invalid path "actor must be a typed object"
    else if has_tag "type" value "system"
    then exact_record value path ("type" ∷ []) >>= (λ _. ok system)
    else if has_tag "type" value "user"
    then with_id user value path
    else if has_tag "type" value "coach"
    then with_id coach value path
    else if has_tag "type" value "plugin"
    then with_id plugin value path
    else invalid (at path "type") "unsupported actor type"

module _ ⦃dates : Dates⦄ where
  unfoldable pub decode_event_metadata : Decoder EventMetadata
  decode_event_metadata value path = do
    fields ←
        exact_record value path
          ("eventId" ∷ "idempotencyKey" ∷ "fingerprint" ∷ "actor" ∷ "recordedAt" ∷ [])
    event_id ← at_key (decode_id "eventId") "eventId" fields path
    idempotency_key ← at_key (decode_sha256 "idempotencyKey") "idempotencyKey" fields path
    fingerprint ← at_key (decode_sha256 "commandFingerprint") "fingerprint" fields path
    actor ← at_key decode_actor "actor" fields path
    recorded_at ← at_key decode_timestamp "recordedAt" fields path
    ok (record {
      event_id = event_id;
      idempotency_key = idempotency_key;
      fingerprint = fingerprint;
      actor = actor;
      recorded_at = recorded_at;
    })

  unfoldable pub decode_project : Decoder Project
  decode_project value path = do
    fields ← exact_record value path (
        "id" ∷ "workspaceId" ∷ "repository" ∷ "baseRef" ∷ "title" ∷ "rootNodeSha" ∷ "createdAt"
        ∷ [])
    id ← at_key (decode_id "projectId") "id" fields path
    workspace_id ← at_key (decode_id "workspaceId") "workspaceId" fields path
    repository ←
        exact_record (property "repository" fields) (at path "repository") ("owner" ∷ "name" ∷ [])
    owner ← at_key decode_owner "owner" repository (at path "repository")
    name ← at_key decode_repository_name "name" repository (at path "repository")
    base_ref ← at_key decode_ref "baseRef" fields path
    title ← at_key (decode_named_text "title") "title" fields path
    root_node_sha ← at_key decode_git_sha "rootNodeSha" fields path
    created_at ← at_key decode_timestamp "createdAt" fields path
    ok (record {
      id = id;
      workspace_id = workspace_id;
      repository = record { owner = owner; name = name };
      base_ref = base_ref;
      title = title;
      root_node_sha = root_node_sha;
      created_at = created_at;
    })

unfoldable pub decode_processed_command : Decoder ProcessedCommand
decode_processed_command value path = do
  fields ← exact_record value path ("idempotencyKey" ∷ "fingerprint" ∷ "eventIds" ∷ [])
  idempotency_key ← at_key (decode_sha256 "idempotencyKey") "idempotencyKey" fields path
  fingerprint ← at_key (decode_sha256 "commandFingerprint") "fingerprint" fields path
  ids ← at_key (decode_array (decode_id "eventId")) "eventIds" fields path
  event_ids ← require_some ids (at path "eventIds")
  ok (record {
    idempotency_key = idempotency_key;
    fingerprint = fingerprint;
    event_ids = event_ids;
  })
