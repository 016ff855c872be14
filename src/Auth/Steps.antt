-- ===== src/Auth/Steps.antt =====
-- The operations of `InMemoryEphemeralStateStore` in
-- apps/api/src/auth/in-memory-ephemeral-store.ts as steps, with the readings of the clock.
use hunsu.Base.{
  if_both, ◌≡◌, refl, arith, ℕ, ltb, nat_eq, String, true, false, Bool-cases, Option-cases, inl,
  inr, Option, none, some, List, [], ◌∷◌, not, ◌||◌, ◌&&◌, ◌!=◌,
}
use hunsu.Lists.{is_some}
use hunsu.Maps
use hunsu.Maps.{Entries, HasKeysOnce}
use hunsu.Auth.Grants.{
  ConsentState, PendingAuthorizationCode, RefreshGrant, RefreshGrantRotation, Platform, revoked,
  rotated, expired, invalid, replayed, already_revoked, decode_refresh_grant,
  decode_refresh_grant_rotation,
}
use hunsu.Auth.Memory.{
  EphemeralStore, WebhookDeliveryState, prune_expired, create_consent, consume_consent,
  create_authorization_code, consume_authorization_code, create_refresh_grant, rotate_refresh_grant,
  rotate_current, claim_webhook_delivery, complete_webhook_delivery, release_webhook_delivery,
  holds_lease, is_alive, insert_grant, rotate_decoded, is_claimed, can_complete, drop_expired_lease,
  rotate_to, is_revoked, rotation_bindings_match,
}
use hunsu.Auth.Within.{
  IsBounded, trimmed-IsWithin, deleted-IsWithin, replaced-IsWithin, prune_expired-IsBounded,
  consents-IsBounded, codes-IsBounded, grants-IsBounded, deliveries-IsBounded,
}

-- `new InMemoryEphemeralStateStore()`
abbrev pub empty_store : EphemeralStore
empty_store = record {
  consents = [];
  authorization_codes = [];
  refresh_grants = [];
  webhook_deliveries = [];
}

-- A call, with the readings of the clock that it makes.
pub data StoreCall : Type 0 where
  create_consent_call : (now : ℕ) → ConsentState → StoreCall
  consume_consent_call : (now : ℕ) → String → StoreCall
  create_code_call : (now : ℕ) → String → PendingAuthorizationCode → StoreCall
  consume_code_call : (now : ℕ) → String → StoreCall
  create_grant_call : (prune_now now : ℕ) → RefreshGrant → StoreCall
  rotate_grant_call : (now : ℕ) → RefreshGrantRotation → StoreCall
  claim_call : (prune_now now : ℕ) → String → ℕ → StoreCall
  complete_call : (now : ℕ) → String → ℕ → ℕ → StoreCall
  release_call : String → ℕ → StoreCall

module _ ⦃platform : Platform⦄ where
  -- The state that a call leaves.
  abbrev pub perform : EphemeralStore → StoreCall → EphemeralStore
  perform s (create_consent_call now input) = create_consent s now input
  perform s (consume_consent_call now id) = (consume_consent s now id).1
  perform s (create_code_call now code input) = create_authorization_code s now code input
  perform s (consume_code_call now code) = (consume_authorization_code s now code).1
  perform s (create_grant_call prune_now now input) = (create_refresh_grant s prune_now now input).1
  perform s (rotate_grant_call now input) = (rotate_refresh_grant s now input).1
  perform s (claim_call prune_now now id expires_at) =
      (claim_webhook_delivery s prune_now now id expires_at).1
  perform s (complete_call now id lease completed_expires_at) =
      (complete_webhook_delivery s now id lease completed_expires_at).1
  perform s (release_call id lease) = (release_webhook_delivery s id lease).1

  abbrev pub perform_all : EphemeralStore → List StoreCall → EphemeralStore
  perform_all s [] = s
  perform_all s (call ∷ calls) = perform_all (perform s call) calls

module _ (s : EphemeralStore) (b : IsBounded s) where
  rotate_current-IsBounded :
      (now : ℕ) (r : RefreshGrantRotation) (found : Option RefreshGrant)
      → Maps.get r.family_id s.refresh_grants ≡ found
      → IsBounded (rotate_current s now r found).1
  unfolding rotate_current
  rotate_current-IsBounded now r none h = b
  rotate_current-IsBounded now r (some current) h =
      let gone =
        grants-IsBounded s b (Maps.delete r.family_id s.refresh_grants)
          (deleted-IsWithin r.family_id s.refresh_grants b.refresh_grants) in
      let replaced = λ (g : RefreshGrant).
        grants-IsBounded s b (Maps.set r.family_id g s.refresh_grants)
          (replaced-IsWithin r.family_id g current s.refresh_grants h b.refresh_grants) in
      if_both IsBounded (not (is_alive now current.expires_at)) (expired, _) _ gone
        (if_both IsBounded (is_revoked current.status) (already_revoked, s) _ b
          (if_both IsBounded (not (rotation_bindings_match current r)) (invalid, s) _ b
            (if_both IsBounded (ltb r.presented_generation current.current_generation) (replayed, _)
              _ (replaced (record current { status = revoked }))
              (if_both IsBounded
                (not (nat_eq r.presented_generation current.current_generation)
                  || r.presented_token_digest != current.current_token_digest)
                (invalid, s) (rotated (rotate_to current r), _) b
                (replaced (rotate_to current r))))))

  rotate_decoded-IsBounded :
      (now : ℕ) (r : Option RefreshGrantRotation) → IsBounded (rotate_decoded s now r).1
  rotate_decoded-IsBounded now none = b
  rotate_decoded-IsBounded now (some r) =
      rotate_current-IsBounded now r (Maps.get r.family_id s.refresh_grants) refl

insert_grant-IsBounded :
    (s : EphemeralStore) (prune_now now : ℕ) (grant : Option RefreshGrant)
    → IsBounded s
    → IsBounded (insert_grant s prune_now now grant).1
insert_grant-IsBounded s prune_now now none b = b
insert_grant-IsBounded s prune_now now (some grant) b =
    let p = prune_expired-IsBounded s prune_now b in
    let pruned = prune_expired s prune_now in
    if_both IsBounded
      (not (is_alive now grant.expires_at)
        || is_some (Maps.get grant.family_id pruned.refresh_grants))
      (false, pruned) (true, _) p
      (grants-IsBounded pruned p _ (trimmed-IsWithin grant.family_id grant _ p.refresh_grants))

pub claim-IsBounded :
    (s : EphemeralStore) (prune_now now : ℕ) (id : String) (expires_at : ℕ)
    → IsBounded s
    → IsBounded (claim_webhook_delivery s prune_now now id expires_at).1
unfolding claim_webhook_delivery
claim-IsBounded s prune_now now id expires_at b =
    let p = prune_expired-IsBounded s prune_now b in
    let pruned = prune_expired s prune_now in
    if_both IsBounded
      (not (is_alive now expires_at) || is_claimed now (Maps.get id pruned.webhook_deliveries))
      (false, pruned) (true, _) p
      (deliveries-IsBounded pruned p _ (trimmed-IsWithin id _ _ p.webhook_deliveries))

release-IsBounded :
    (s : EphemeralStore) (id : String) (lease : ℕ)
    → IsBounded s
    → IsBounded (release_webhook_delivery s id lease).1
unfolding release_webhook_delivery
release-IsBounded s id lease b =
    if_both IsBounded (holds_lease lease (Maps.get id s.webhook_deliveries)) (true, _) (false, s)
      (deliveries-IsBounded s b _ (deleted-IsWithin id s.webhook_deliveries b.webhook_deliveries)) b

drop_expired_lease-IsBounded :
    (s : EphemeralStore) (now : ℕ) (id : String) (lease : ℕ) (found : Option WebhookDeliveryState)
    → IsBounded s
    → IsBounded (drop_expired_lease s now id lease found)
unfolding drop_expired_lease
drop_expired_lease-IsBounded s now id lease found b =
    elim (Bool-cases (holds_lease lease found && not (is_alive now lease))) [
      | inl drops ↦ rw drops (
          deliveries-IsBounded s b _
            (deleted-IsWithin id s.webhook_deliveries b.webhook_deliveries))
      | inr keeps ↦ rw keeps b
    ]

-- A completion writes only under a lease that is there.
complete-IsBounded :
    (s : EphemeralStore) (now : ℕ) (id : String) (lease completed_expires_at : ℕ)
    → IsBounded s
    → IsBounded (complete_webhook_delivery s now id lease completed_expires_at).1
unfolding complete_webhook_delivery
complete-IsBounded s now id lease completed_expires_at b =
    let dropped =
      drop_expired_lease-IsBounded s now id lease (Maps.get id s.webhook_deliveries) b in
    elim (Option-cases (Maps.get id s.webhook_deliveries)) [
      | inl absent ↦
          let refused : can_complete now lease completed_expires_at
                (Maps.get id s.webhook_deliveries)
              ≡ false =
            rw absent (ground arith) in
          rw refused dropped
      | inr (d, found) ↦
          if_both IsBounded
            (can_complete now lease completed_expires_at (Maps.get id s.webhook_deliveries))
            (true, _) (false, _)
            (deliveries-IsBounded s b _
              (replaced-IsWithin id _ d s.webhook_deliveries found b.webhook_deliveries))
            dropped
    ]

module _ ⦃platform : Platform⦄ where
  pub perform-IsBounded :
      (s : EphemeralStore) (call : StoreCall) → IsBounded s → IsBounded (perform s call)
  unfolding create_consent consume_consent create_authorization_code consume_authorization_code
      create_refresh_grant rotate_refresh_grant
  perform-IsBounded s (create_consent_call now input) b =
      let p = prune_expired-IsBounded s now b in
      consents-IsBounded (prune_expired s now) p _ (trimmed-IsWithin input.id input _ p.consents)
  perform-IsBounded s (consume_consent_call now id) b =
      consents-IsBounded s b _ (deleted-IsWithin id s.consents b.consents)
  perform-IsBounded s (create_code_call now code input) b =
      let p = prune_expired-IsBounded s now b in
      codes-IsBounded (prune_expired s now) p _
        (trimmed-IsWithin code input _ p.authorization_codes)
  perform-IsBounded s (consume_code_call now code) b =
      codes-IsBounded s b _ (deleted-IsWithin code s.authorization_codes b.authorization_codes)
  perform-IsBounded s (create_grant_call prune_now now input) b =
      insert_grant-IsBounded s prune_now now (decode_refresh_grant input) b
  perform-IsBounded s (rotate_grant_call now input) b =
      rotate_decoded-IsBounded s b now (decode_refresh_grant_rotation input)
  perform-IsBounded s (claim_call prune_now now id expires_at) b =
      claim-IsBounded s prune_now now id expires_at b
  perform-IsBounded s (complete_call now id lease completed_expires_at) b =
      complete-IsBounded s now id lease completed_expires_at b
  perform-IsBounded s (release_call id lease) b = release-IsBounded s id lease b

  -- In a store whose maps have distinct keys and at most 10,000 entries each, that stays so after any
  -- calls in any order, with any readings of the clock.
  pub perform_all-IsBounded :
      (s : EphemeralStore) (calls : List StoreCall) → IsBounded s → IsBounded (perform_all s calls)
  perform_all-IsBounded s [] b = b
  perform_all-IsBounded s (call ∷ calls) b =
      perform_all-IsBounded (perform s call) calls (perform-IsBounded s call b)

pub empty_store-IsBounded : IsBounded empty_store
empty_store-IsBounded = record {
  consents = record { once = tt; bounded = omega arith };
  authorization_codes = record { once = tt; bounded = omega arith };
  refresh_grants = record { once = tt; bounded = omega arith };
  webhook_deliveries = record { once = tt; bounded = omega arith };
}
