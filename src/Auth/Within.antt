-- ===== src/Auth/Within.antt =====
-- The bounds of `InMemoryEphemeralStateStore` in apps/api/src/auth/in-memory-ephemeral-store.ts: its
-- maps, one by one.
use hunsu.Base.{◌≡◌, arith, ℕ, ◌≤◌, String, Bool, some}
use hunsu.Lists.{length}
use hunsu.Maps
use hunsu.Maps.{Entries, HasKeysOnce}
use hunsu.Maps.Laws.{set-HasKeysOnce, delete-HasKeysOnce, retain-HasKeysOnce}
use hunsu.Auth.Grants.{ConsentState, PendingAuthorizationCode, RefreshGrant}
use hunsu.Auth.Memory.{
  maximum_records, EphemeralStore, WebhookDeliveryState, trim_map, prune_expired, is_alive,
}
use hunsu.Auth.Bounds.{
  length-trim_map, trim_map-HasKeysOnce, length-delete, length-retain, length-set_present,
}

-- A map with distinct keys, and no more of them than the source allows.
pub record IsWithin {ℓ} {V : Type ℓ} (entries : Entries V) : Type ℓ where
  pub once : HasKeysOnce entries
  pub bounded : length entries ≤ maximum_records

pub record IsBounded (s : EphemeralStore) : Type 0 where
  pub consents : IsWithin s.consents
  pub authorization_codes : IsWithin s.authorization_codes
  pub refresh_grants : IsWithin s.refresh_grants
  pub webhook_deliveries : IsWithin s.webhook_deliveries

module _ {ℓ} {V : Type ℓ} where
  pub trimmed-IsWithin :
      (key : String) (value : V) (entries : Entries V)
      → IsWithin entries
      → IsWithin (trim_map (Maps.set key value entries))
  trimmed-IsWithin key value entries w = record {
    once =
        trim_map-HasKeysOnce (Maps.set key value entries)
          (set-HasKeysOnce key value entries w.once);
    bounded = length-trim_map (Maps.set key value entries);
  }

  pub deleted-IsWithin :
      (key : String) (entries : Entries V) → IsWithin entries → IsWithin (Maps.delete key entries)
  deleted-IsWithin key entries w = record {
    once = delete-HasKeysOnce key entries w.once;
    bounded = let b = w.bounded in let d = length-delete key entries in omega arith;
  }

  retained-IsWithin :
      (keeps : V → Bool) (entries : Entries V)
      → IsWithin entries
      → IsWithin (Maps.retain keeps entries)
  retained-IsWithin keeps entries w = record {
    once = retain-HasKeysOnce keeps entries w.once;
    bounded = let b = w.bounded in let d = length-retain keeps entries in omega arith;
  }

  pub replaced-IsWithin :
      (key : String) (value old : V) (entries : Entries V)
      → Maps.get key entries ≡ some old
      → IsWithin entries
      → IsWithin (Maps.set key value entries)
  replaced-IsWithin key value old entries h w = record {
    once = set-HasKeysOnce key value entries w.once;
    bounded = rw (length-set_present key value old entries h) w.bounded;
  }

pub prune_expired-IsBounded :
    (s : EphemeralStore) (now : ℕ) → IsBounded s → IsBounded (prune_expired s now)
unfolding prune_expired
prune_expired-IsBounded s now b = record {
  consents =
      retained-IsWithin (λ (c : ConsentState). is_alive now c.expires_at) s.consents b.consents;
  authorization_codes = retained-IsWithin _ s.authorization_codes b.authorization_codes;
  refresh_grants = retained-IsWithin _ s.refresh_grants b.refresh_grants;
  webhook_deliveries = retained-IsWithin _ s.webhook_deliveries b.webhook_deliveries;
}

-- One map is replaced.
module _ (s : EphemeralStore) (b : IsBounded s) where
  pub consents-IsBounded :
      (m : Entries ConsentState) → IsWithin m → IsBounded (record s { consents = m })
  consents-IsBounded m w = record {
    consents = w;
    authorization_codes = b.authorization_codes;
    refresh_grants = b.refresh_grants;
    webhook_deliveries = b.webhook_deliveries;
  }

  pub codes-IsBounded :
      (m : Entries PendingAuthorizationCode)
      → IsWithin m
      → IsBounded (record s { authorization_codes = m })
  codes-IsBounded m w = record {
    consents = b.consents;
    authorization_codes = w;
    refresh_grants = b.refresh_grants;
    webhook_deliveries = b.webhook_deliveries;
  }

  pub grants-IsBounded :
      (m : Entries RefreshGrant) → IsWithin m → IsBounded (record s { refresh_grants = m })
  grants-IsBounded m w = record {
    consents = b.consents;
    authorization_codes = b.authorization_codes;
    refresh_grants = w;
    webhook_deliveries = b.webhook_deliveries;
  }

  pub deliveries-IsBounded :
      (m : Entries WebhookDeliveryState)
      → IsWithin m
      → IsBounded (record s { webhook_deliveries = m })
  deliveries-IsBounded m w = record {
    consents = b.consents;
    authorization_codes = b.authorization_codes;
    refresh_grants = b.refresh_grants;
    webhook_deliveries = w;
  }
