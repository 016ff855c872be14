-- ===== src/Codec/Valid/Records.antt =====
-- packages/protocol/src/serialization.ts: well-formed Projects, actors, event metadata and processed
-- commands.
use hunsu.Base.{◌≡◌, true, false}
use hunsu.Lists.{All, is_empty}
use hunsu.Protocol.{
  Project, DomainActor, user, coach, plugin, system, EventMetadata, ProcessedCommand,
}
use hunsu.Codec.Makers.{
  Dates, is_identifier, is_sha256, is_timestamp, is_git_sha, is_git_ref, is_repository_owner,
  is_repository_name,
}
use hunsu.Codec.Valid.{IsFilled, IsIdentifier}

abbrev pub IsDomainActor : DomainActor → Type 0
IsDomainActor (user id) = IsFilled id
IsDomainActor (coach id) = IsFilled id
IsDomainActor (plugin id) = IsFilled id
IsDomainActor system = Unit

pub record IsEventMetadata ⦃dates : Dates⦄ (x : EventMetadata) : Type 0 where
  pub event_id : is_identifier x.event_id ≡ true
  pub idempotency_key : is_sha256 x.idempotency_key ≡ true
  pub fingerprint : is_sha256 x.fingerprint ≡ true
  pub actor : IsDomainActor x.actor
  pub recorded_at : is_timestamp x.recorded_at ≡ true

pub record IsProcessedCommand (x : ProcessedCommand) : Type 0 where
  pub idempotency_key : is_sha256 x.idempotency_key ≡ true
  pub fingerprint : is_sha256 x.fingerprint ≡ true
  pub event_ids : All IsIdentifier x.event_ids
  pub has_events : is_empty x.event_ids ≡ false

pub record IsProject ⦃dates : Dates⦄ (x : Project) : Type 0 where
  pub id : is_identifier x.id ≡ true
  pub workspace_id : is_identifier x.workspace_id ≡ true
  pub owner : is_repository_owner x.repository.owner ≡ true
  pub name : is_repository_name x.repository.name ≡ true
  pub base_ref : is_git_ref x.base_ref ≡ true
  pub title : IsFilled x.title
  pub root_node_sha : is_git_sha x.root_node_sha ≡ true
  pub created_at : is_timestamp x.created_at ≡ true
