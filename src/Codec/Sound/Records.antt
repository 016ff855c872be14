-- ===== src/Codec/Sound/Records.antt =====
-- Projects, actors, event metadata and processed commands: what the decoders of
-- packages/protocol/src/serialization.ts return.
use hunsu.Base.{subst, String, not, [], ◌∷◌}
use hunsu.Lists.{All}
use hunsu.Protocol.{DomainActor, user, coach, plugin, system}
use hunsu.Codec.Values.{Unknown, exact_record, at, property}
use hunsu.Codec.Makers.{Dates}
use hunsu.Codec.Fields.{require_some}
use hunsu.Codec.Records.{
  with_id, is_tagged, has_tag, decode_actor, decode_event_metadata, decode_project,
  decode_processed_command,
}
use hunsu.Codec.Valid.{IsFilled, IsIdentifier}
use hunsu.Codec.Valid.Records.{IsDomainActor, IsEventMetadata, IsProject, IsProcessedCommand}
use hunsu.Codec.Sound.Fields.{
  decode_id-IsSound, decode_sha256-IsSound, decode_named_text-IsSound, decode_text-IsSound,
  decode_git_sha-IsSound, decode_ref-IsSound, decode_owner-IsSound, decode_repository_name-IsSound,
  decode_timestamp-IsSound,
}
use hunsu.Codec.Sound.Steps.{
  IsSound, Gives, bind_ok, bind-Gives, value-Gives, refusal, if_Gives, sound_of, ok_eq,
  require_some_ok, decode_array-IsSound, read,
}

with_id-Gives :
    (actor : String → DomainActor) (value : Unknown) (path : String)
    → ((id : String) → IsFilled id → IsDomainActor (actor id))
    → Gives IsDomainActor (with_id actor value path)
with_id-Gives actor value path is_actor = record {
  gives = λ x h.
      let (fields, _, h0) = bind_ok (exact_record value path ("type" ∷ "id" ∷ [])) _ x h in
      let (id, of_id, h1) = read decode_text-IsSound "id" fields path _ x h0 in
      subst IsDomainActor (ok_eq _ x h1) (is_actor id of_id);
}

pub decode_actor-IsSound : IsSound decode_actor IsDomainActor
unfolding decode_actor
decode_actor-IsSound = sound_of decode_actor λ value path.
    if_Gives (not (is_tagged "type" value)) _ _ (refusal _ _) (
      if_Gives (has_tag "type" value "system") _ _
        (bind-Gives (exact_record value path ("type" ∷ [])) _
          λ fields of_fields. value-Gives system tt)
        (if_Gives (has_tag "type" value "user") _ _ (with_id-Gives user value path (λ id h. h)) (
          if_Gives (has_tag "type" value "coach") _ _ (with_id-Gives coach value path (λ id h. h)) (
            if_Gives (has_tag "type" value "plugin") _ _
              (with_id-Gives plugin value path (λ id h. h)) (refusal _ _)))))

module _ ⦃dates : Dates⦄ where
  pub decode_event_metadata-IsSound : IsSound decode_event_metadata IsEventMetadata
  unfolding decode_event_metadata
  decode_event_metadata-IsSound = record {
    sound = λ value path x h.
        let (fields, _, h0) =
          bind_ok
            (exact_record value path
              ("eventId" ∷ "idempotencyKey" ∷ "fingerprint" ∷ "actor" ∷ "recordedAt" ∷ []))
            _ x h in
        let (event_id, of_event_id, h1) =
          read (decode_id-IsSound "eventId") "eventId" fields path _ x h0 in
        let (idempotency_key, of_idempotency_key, h2) =
          read (decode_sha256-IsSound "idempotencyKey") "idempotencyKey" fields path _ x h1 in
        let (fingerprint, of_fingerprint, h3) =
          read (decode_sha256-IsSound "commandFingerprint") "fingerprint" fields path _ x h2 in
        let (actor, of_actor, h4) = read decode_actor-IsSound "actor" fields path _ x h3 in
        let (recorded_at, of_recorded_at, h5) =
          read decode_timestamp-IsSound "recordedAt" fields path _ x h4 in
        subst IsEventMetadata (ok_eq _ x h5) (record {
          event_id = of_event_id;
          idempotency_key = of_idempotency_key;
          fingerprint = of_fingerprint;
          actor = of_actor;
          recorded_at = of_recorded_at;
        });
  }

  pub decode_project-IsSound : IsSound decode_project IsProject
  unfolding decode_project
  decode_project-IsSound = record {
    sound = λ value path x h.
        let (fields, _, h0) =
          bind_ok
            (exact_record value path (
              "id" ∷ "workspaceId" ∷ "repository" ∷ "baseRef" ∷ "title" ∷ "rootNodeSha"
              ∷ "createdAt" ∷ []))
            _ x h in
        let (id, of_id, h1) = read (decode_id-IsSound "projectId") "id" fields path _ x h0 in
        let (workspace_id, of_workspace_id, h2) =
          read (decode_id-IsSound "workspaceId") "workspaceId" fields path _ x h1 in
        let (repository, of_repository, h3) =
          bind_ok
            (exact_record (property "repository" fields) (at path "repository")
              ("owner" ∷ "name" ∷ []))
            _ x h2 in
        let (owner, of_owner, h31) =
          read decode_owner-IsSound "owner" repository (at path "repository") _ x h3 in
        let (name, of_name, h32) =
          read decode_repository_name-IsSound "name" repository (at path "repository") _ x h31 in
        let (base_ref, of_base_ref, h4) = read decode_ref-IsSound "baseRef" fields path _ x h32 in
        let (title, of_title, h5) =
          read (decode_named_text-IsSound "title") "title" fields path _ x h4 in
        let (root_node_sha, of_root_node_sha, h6) =
          read decode_git_sha-IsSound "rootNodeSha" fields path _ x h5 in
        let (created_at, of_created_at, h7) =
          read decode_timestamp-IsSound "createdAt" fields path _ x h6 in
        subst IsProject (ok_eq _ x h7) (record {
          id = of_id;
          workspace_id = of_workspace_id;
          owner = of_owner;
          name = of_name;
          base_ref = of_base_ref;
          title = of_title;
          root_node_sha = of_root_node_sha;
          created_at = of_created_at;
        });
  }

pub decode_processed_command-IsSound : IsSound decode_processed_command IsProcessedCommand
unfolding decode_processed_command
decode_processed_command-IsSound = record {
  sound = λ value path x h.
      let (fields, _, h0) =
        bind_ok (exact_record value path ("idempotencyKey" ∷ "fingerprint" ∷ "eventIds" ∷ [])) _ x
          h in
      let (idempotency_key, of_idempotency_key, h1) =
        read (decode_sha256-IsSound "idempotencyKey") "idempotencyKey" fields path _ x h0 in
      let (fingerprint, of_fingerprint, h2) =
        read (decode_sha256-IsSound "commandFingerprint") "fingerprint" fields path _ x h1 in
      let (ids, of_ids, h3) =
        read (decode_array-IsSound (decode_id-IsSound "eventId")) "eventIds" fields path _ x h2 in
      let (event_ids, of_event_ids, h4) = bind_ok (require_some ids (at path "eventIds")) _ x h3 in
      let (has_events, same) = require_some_ok ids event_ids (at path "eventIds") of_event_ids in
      subst IsProcessedCommand (ok_eq _ x h4) (record {
        idempotency_key = of_idempotency_key;
        fingerprint = of_fingerprint;
        event_ids = subst (All IsIdentifier) same of_ids;
        has_events = has_events;
      });
}
