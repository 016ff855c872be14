-- ===== src/Protocol/Metadata.antt =====
-- packages/protocol/src/model.ts: who acts, and what every command and event carries.
use hunsu.Protocol.Primitives.{
  NonEmptyText, EventId, IdempotencyKey, CommandFingerprint, GitCommitSha, IsoTimestamp,
}

pub data DomainActor : Type 0 where
  user : (id : NonEmptyText) → DomainActor
  coach : (id : NonEmptyText) → DomainActor
  plugin : (id : NonEmptyText) → DomainActor
  system : DomainActor

pub record CommandMetadata : Type 0 where
  pub event_id : EventId
  pub idempotency_key : IdempotencyKey
  pub fingerprint : CommandFingerprint
  pub expected_state_sha : GitCommitSha
  pub actor : DomainActor
  pub requested_at : IsoTimestamp

pub record EventMetadata : Type 0 where
  pub event_id : EventId
  pub idempotency_key : IdempotencyKey
  pub fingerprint : CommandFingerprint
  pub actor : DomainActor
  pub recorded_at : IsoTimestamp
