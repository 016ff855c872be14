-- ===== src/Auth/Families.antt =====
-- A family of refresh grants in `InMemoryEphemeralStateStore` of
-- apps/api/src/auth/in-memory-ephemeral-store.ts over any calls before it expires.
use hunsu.Base.{◌≡◌, arith, ℕ, suc, String, Bool, true, List, [], ◌∷◌}
use hunsu.Lists.{every}
use hunsu.Auth.Grants.{RefreshGrant, Platform, decode_refresh_grant}
use hunsu.Auth.Memory.{
  EphemeralStore, prune_expired, create_consent, consume_consent, create_authorization_code,
  consume_authorization_code, create_refresh_grant, claim_webhook_delivery,
  complete_webhook_delivery, release_webhook_delivery, is_alive, drop_expired_lease,
}
use hunsu.Auth.Within.{IsBounded}
use hunsu.Auth.Steps.{
  StoreCall, create_consent_call, consume_consent_call, create_code_call, consume_code_call,
  create_grant_call, rotate_grant_call, claim_call, complete_call, release_call, perform,
  perform_all, perform-IsBounded,
}
use hunsu.Auth.Reuse.{
  IsKept, HasFamily, prune_expired-HasFamily, insert_grant-HasFamily, rotate-HasFamily,
}

-- The places that the calls may need for new grants, with some more.
abbrev pub places_for : List StoreCall → ℕ → ℕ
places_for [] room = room
places_for (create_grant_call _ _ _ ∷ calls) room = suc (places_for calls room)
places_for (_ ∷ calls) room = places_for calls room

-- The clock reads a time before the expiry where it matters to a grant.
abbrev pub leaves_family : ℕ → StoreCall → Bool
leaves_family expiry (create_consent_call now _) = is_alive now expiry
leaves_family expiry (create_code_call now _ _) = is_alive now expiry
leaves_family expiry (create_grant_call prune_now _ _) = is_alive prune_now expiry
leaves_family expiry (rotate_grant_call now _) = is_alive now expiry
leaves_family expiry (claim_call prune_now _ _ _) = is_alive prune_now expiry
leaves_family expiry _ = true

module _ ⦃platform : Platform⦄ (family : String) (expiry : ℕ) (Is : RefreshGrant → Type 0)
    (keeps : IsKept expiry Is) where
  complete_keeps_grants :
      (s : EphemeralStore) (now : ℕ) (id : String) (lease completed_expires_at : ℕ)
      → (complete_webhook_delivery s now id lease completed_expires_at).1.refresh_grants
        ≡ s.refresh_grants
  unfolding complete_webhook_delivery drop_expired_lease
  complete_keeps_grants s now id lease completed_expires_at = ground arith

  release_keeps_grants :
      (s : EphemeralStore) (id : String) (lease : ℕ)
      → (release_webhook_delivery s id lease).1.refresh_grants ≡ s.refresh_grants
  unfolding release_webhook_delivery
  release_keeps_grants s id lease = ground arith

  claim_keeps_grants :
      (s : EphemeralStore) (prune_now now : ℕ) (id : String) (expires_at : ℕ)
      → (claim_webhook_delivery s prune_now now id expires_at).1.refresh_grants
        ≡ (prune_expired s prune_now).refresh_grants
  unfolding claim_webhook_delivery
  claim_keeps_grants s prune_now now id expires_at = ground arith

  perform-HasFamily :
      (s : EphemeralStore) (call : StoreCall) (calls : List StoreCall) (room : ℕ)
      → IsBounded s
      → leaves_family expiry call ≡ true
      → HasFamily family expiry Is keeps (places_for (call ∷ calls) room) s
      → HasFamily family expiry Is keeps (places_for calls room) (perform s call)
  unfolding create_consent consume_consent create_authorization_code consume_authorization_code
      create_refresh_grant
  perform-HasFamily s (create_consent_call now input) calls room b leaves h =
      prune_expired-HasFamily family expiry Is keeps (places_for calls room) s now b leaves h
  perform-HasFamily s (consume_consent_call now other) calls room b leaves h = h
  perform-HasFamily s (create_code_call now code input) calls room b leaves h =
      prune_expired-HasFamily family expiry Is keeps (places_for calls room) s now b leaves h
  perform-HasFamily s (consume_code_call now code) calls room b leaves h = h
  perform-HasFamily s (create_grant_call prune_now now input) calls room b leaves h =
      insert_grant-HasFamily family expiry Is keeps (places_for calls room) s prune_now now
        (decode_refresh_grant input) b leaves h
  perform-HasFamily s (rotate_grant_call now input) calls room b leaves h =
      rotate-HasFamily family expiry Is keeps (places_for calls room) s now input leaves h
  perform-HasFamily s (claim_call prune_now now id expires_at) calls room b leaves h =
      rw (claim_keeps_grants s prune_now now id expires_at) (
        prune_expired-HasFamily family expiry Is keeps (places_for calls room) s prune_now b leaves
          h)
  perform-HasFamily s (complete_call now id lease completed_expires_at) calls room b leaves h =
      rw (complete_keeps_grants s now id lease completed_expires_at) h
  perform-HasFamily s (release_call id lease) calls room b leaves h =
      rw (release_keeps_grants s id lease) h

  -- The family is there after the calls, as far as it is kept.
  pub perform_all-HasFamily :
      (s : EphemeralStore) (calls : List StoreCall) (room : ℕ)
      → IsBounded s
      → every (leaves_family expiry) calls ≡ true
      → HasFamily family expiry Is keeps (places_for calls room) s
      → HasFamily family expiry Is keeps room (perform_all s calls)
  perform_all-HasFamily s [] room b leaves h = h
  perform_all-HasFamily s (call ∷ calls) room b leaves h =
      perform_all-HasFamily (perform s call) calls room (perform-IsBounded s call b) (ground arith)
        (perform-HasFamily s call calls room b (ground arith) h)
