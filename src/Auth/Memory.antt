-- ===== src/Auth/Memory.antt =====
-- apps/api/src/auth/in-memory-ephemeral-store.ts: `InMemoryEphemeralStateStore`. Each reading of the
-- clock `#now()` is an argument of the operation that makes it.
use hunsu.Base.{
  ℕ, String, Bool, true, false, ◌&&◌, ◌||◌, not, ◌==◌, ◌!=◌, nat_eq, ltb, Option, none, some, [],
  ◌∷◌, if◌then◌else◌,
}
use hunsu.Lists.{length, is_some}
use hunsu.Maps
use hunsu.Maps.{Entries}
use hunsu.Auth.Grants.{
  ConsentState, PendingAuthorizationCode, RefreshGrant, RefreshGrantRotation,
  RefreshGrantRotationResult, GrantStatus, active, revoked, rotated, expired, invalid, missing,
  replayed, already_revoked, Platform, decode_refresh_grant, decode_refresh_grant_rotation,
}

unfoldable pub maximum_records : ℕ
maximum_records = 10_000

pub data DeliveryStatus : Type 0 where
  processing completed : DeliveryStatus

pub record WebhookDeliveryState : Type 0 where
  pub status : DeliveryStatus
  pub expires_at : ℕ

pub record EphemeralStore : Type 0 where
  pub consents : Entries ConsentState
  pub authorization_codes : Entries PendingAuthorizationCode
  pub refresh_grants : Entries RefreshGrant
  pub webhook_deliveries : Entries WebhookDeliveryState

-- `trimMap`: the oldest entries go while there are too many.
unfoldable pub trim_map {ℓ} : {V : Type ℓ} → Entries V → Entries V
trim_map [] = []
trim_map (entry ∷ entries) =
    let rest = trim_map entries in
    if ltb maximum_records (length (entry ∷ entries)) then rest else entry ∷ entries

-- `!(item.expiresAt <= now)`
abbrev pub is_alive : ℕ → ℕ → Bool
is_alive now expires_at = ltb now expires_at

unfoldable pub prune_expired : EphemeralStore → ℕ → EphemeralStore
prune_expired s now = record {
  consents = Maps.retain (λ (c : ConsentState). is_alive now c.expires_at) s.consents;
  authorization_codes =
      Maps.retain (λ (c : PendingAuthorizationCode). is_alive now c.expires_at)
        s.authorization_codes;
  refresh_grants = Maps.retain (λ (g : RefreshGrant). is_alive now g.expires_at) s.refresh_grants;
  webhook_deliveries =
      Maps.retain (λ (d : WebhookDeliveryState). is_alive now d.expires_at) s.webhook_deliveries;
}

unfoldable pub create_consent : EphemeralStore → ℕ → ConsentState → EphemeralStore
create_consent s now input =
    let pruned = prune_expired s now in
    record pruned { consents = trim_map (Maps.set input.id input pruned.consents) }

-- `consent !== undefined && consent.expiresAt > now`
abbrev pub is_live_consent : ℕ → Option ConsentState → Bool
is_live_consent now none = false
is_live_consent now (some c) = is_alive now c.expires_at

unfoldable pub consume_consent : EphemeralStore → ℕ → String → Bool × EphemeralStore
consume_consent s now id = (
  is_live_consent now (Maps.get id s.consents),
  record s { consents = Maps.delete id s.consents },
)

unfoldable pub create_authorization_code :
    EphemeralStore → ℕ → String → PendingAuthorizationCode → EphemeralStore
create_authorization_code s now code input =
    let pruned = prune_expired s now in
    record pruned {
      authorization_codes = trim_map (Maps.set code input pruned.authorization_codes);
    }

abbrev pub live_code : ℕ → Option PendingAuthorizationCode → Option PendingAuthorizationCode
live_code now none = none
live_code now (some c) = if is_alive now c.expires_at then some c else none

unfoldable pub consume_authorization_code :
    EphemeralStore → ℕ → String → Option PendingAuthorizationCode × EphemeralStore
consume_authorization_code s now code = (
  live_code now (Maps.get code s.authorization_codes),
  record s { authorization_codes = Maps.delete code s.authorization_codes },
)

abbrev pub with_grants : EphemeralStore → Entries RefreshGrant → EphemeralStore
with_grants s grants = record s { refresh_grants = grants }

abbrev pub with_deliveries : EphemeralStore → Entries WebhookDeliveryState → EphemeralStore
with_deliveries s deliveries = record s { webhook_deliveries = deliveries }

-- After the decoding; the clock is read twice.
abbrev pub insert_grant : EphemeralStore → ℕ → ℕ → Option RefreshGrant → Bool × EphemeralStore
insert_grant s prune_now now none = (false, s)
insert_grant s prune_now now (some grant) =
    let pruned = prune_expired s prune_now in
    if not (is_alive now grant.expires_at)
      || is_some (Maps.get grant.family_id pruned.refresh_grants)
    then (false, pruned)
    else (
      true,
      with_grants pruned (trim_map (Maps.set grant.family_id grant pruned.refresh_grants)),
    )

-- `rotationBindingsMatch`
unfoldable pub rotation_bindings_match : RefreshGrant → RefreshGrantRotation → Bool
rotation_bindings_match grant input =
    grant.family_id == input.family_id
    && (grant.client_digest == input.client_digest && grant.audience == input.audience)

abbrev pub is_revoked : GrantStatus → Bool
is_revoked active = false
is_revoked revoked = true

abbrev pub rotate_to : RefreshGrant → RefreshGrantRotation → RefreshGrant
rotate_to current rotation = record current {
  current_generation = rotation.next_generation;
  current_token_digest = rotation.next_token_digest;
}

-- The chain of early returns on the grant that is found.
unfoldable pub rotate_current :
    EphemeralStore
    → ℕ
    → RefreshGrantRotation
    → Option RefreshGrant
    → RefreshGrantRotationResult × EphemeralStore
rotate_current s now rotation none = (missing, s)
rotate_current s now rotation (some current) =
    if not (is_alive now current.expires_at)
    then (expired, with_grants s (Maps.delete rotation.family_id s.refresh_grants))
    else if is_revoked current.status
    then (already_revoked, s)
    else if not (rotation_bindings_match current rotation)
    then (invalid, s)
    else if ltb rotation.presented_generation current.current_generation
    then (
      replayed,
      with_grants s
          (Maps.set rotation.family_id (record current { status = revoked }) s.refresh_grants),
    )
    else if not (nat_eq rotation.presented_generation current.current_generation)
        || rotation.presented_token_digest != current.current_token_digest
    then (invalid, s)
    else (
      rotated (rotate_to current rotation),
      with_grants s (Maps.set rotation.family_id (rotate_to current rotation) s.refresh_grants),
    )

abbrev pub rotate_decoded :
    EphemeralStore → ℕ → Option RefreshGrantRotation → RefreshGrantRotationResult × EphemeralStore
rotate_decoded s now none = (invalid, s)
rotate_decoded s now (some rotation) =
    rotate_current s now rotation (Maps.get rotation.family_id s.refresh_grants)

module _ ⦃platform : Platform⦄ where
  unfoldable pub create_refresh_grant :
      EphemeralStore → ℕ → ℕ → RefreshGrant → Bool × EphemeralStore
  create_refresh_grant s prune_now now input =
      insert_grant s prune_now now (decode_refresh_grant input)

  unfoldable pub rotate_refresh_grant :
      EphemeralStore → ℕ → RefreshGrantRotation → RefreshGrantRotationResult × EphemeralStore
  rotate_refresh_grant s now input = rotate_decoded s now (decode_refresh_grant_rotation input)

-- `existing !== undefined && existing.expiresAt > now`
abbrev pub is_claimed : ℕ → Option WebhookDeliveryState → Bool
is_claimed now none = false
is_claimed now (some d) = is_alive now d.expires_at

unfoldable pub claim_webhook_delivery : EphemeralStore → ℕ → ℕ → String → ℕ → Bool × EphemeralStore
claim_webhook_delivery s prune_now now delivery_id expires_at =
    let pruned = prune_expired s prune_now in
    if not (is_alive now expires_at)
      || is_claimed now (Maps.get delivery_id pruned.webhook_deliveries)
    then (false, pruned)
    else (
      true,
      with_deliveries pruned (
          trim_map (
            Maps.set delivery_id (record { status = processing; expires_at = expires_at })
              pruned.webhook_deliveries)),
    )

abbrev pub is_processing : DeliveryStatus → Bool
is_processing processing = true
is_processing completed = false

-- `existing?.status === "processing" && existing.expiresAt === leaseExpiresAt`
abbrev pub holds_lease : ℕ → Option WebhookDeliveryState → Bool
holds_lease lease_expires_at none = false
holds_lease lease_expires_at (some d) =
    is_processing d.status && nat_eq d.expires_at lease_expires_at

-- The guard of `completeWebhookDelivery`, on the delivery that is found.
abbrev pub can_complete : ℕ → ℕ → ℕ → Option WebhookDeliveryState → Bool
can_complete now lease_expires_at completed_expires_at found =
    is_alive now completed_expires_at
    && (holds_lease lease_expires_at found && is_alive now lease_expires_at)

-- An expired lease is dropped by its holder.
unfoldable pub drop_expired_lease :
    EphemeralStore → ℕ → String → ℕ → Option WebhookDeliveryState → EphemeralStore
drop_expired_lease s now delivery_id lease_expires_at found =
    if holds_lease lease_expires_at found && not (is_alive now lease_expires_at)
    then with_deliveries s (Maps.delete delivery_id s.webhook_deliveries)
    else s

unfoldable pub complete_webhook_delivery :
    EphemeralStore → ℕ → String → ℕ → ℕ → Bool × EphemeralStore
complete_webhook_delivery s now delivery_id lease_expires_at completed_expires_at =
    let found = Maps.get delivery_id s.webhook_deliveries in
    if can_complete now lease_expires_at completed_expires_at found
    then (
      true,
      with_deliveries s (
          Maps.set delivery_id (record { status = completed; expires_at = completed_expires_at })
            s.webhook_deliveries),
    )
    else (false, drop_expired_lease s now delivery_id lease_expires_at found)

unfoldable pub release_webhook_delivery : EphemeralStore → String → ℕ → Bool × EphemeralStore
release_webhook_delivery s delivery_id lease_expires_at =
    if holds_lease lease_expires_at (Maps.get delivery_id s.webhook_deliveries)
    then (true, with_deliveries s (Maps.delete delivery_id s.webhook_deliveries))
    else (false, s)
