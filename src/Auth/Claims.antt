-- ===== src/Auth/Claims.antt =====
-- A webhook delivery of `InMemoryEphemeralStateStore` in
-- apps/api/src/auth/in-memory-ephemeral-store.ts while its lease lasts.
use hunsu.Base.{
  if_both, ◌≡◌, arith, ℕ, suc, String, Bool, true, false, not, ◌&&◌, ◌||◌, ◌==◌, Bool-cases,
  Option-cases, inl, inr, Option, none, some, List, [], ◌∷◌, eq_of_==,
}
use hunsu.Lists.{is_some, every}
use hunsu.Maps
use hunsu.Auth.Grants.{
  RefreshGrant, RefreshGrantRotation, Platform, decode_refresh_grant, decode_refresh_grant_rotation,
}
use hunsu.Auth.Memory.{
  EphemeralStore, WebhookDeliveryState, prune_expired, create_consent, consume_consent,
  create_authorization_code, consume_authorization_code, create_refresh_grant, rotate_refresh_grant,
  rotate_current, claim_webhook_delivery, complete_webhook_delivery, release_webhook_delivery,
  holds_lease, is_alive, insert_grant, rotate_decoded, is_claimed, can_complete, drop_expired_lease,
}
use hunsu.Auth.Within.{IsBounded}
use hunsu.Auth.Room.{Holds, retained-Holds, deleted-Holds, trimmed-Holds, replaced-Holds, less_room}
use hunsu.Auth.Steps.{
  StoreCall, create_consent_call, consume_consent_call, create_code_call, consume_code_call,
  create_grant_call, rotate_grant_call, claim_call, complete_call, release_call, perform,
  perform_all, perform-IsBounded,
}

-- The claims among the calls.
abbrev pub count_claims : List StoreCall → ℕ
count_claims [] = 0
count_claims (claim_call _ _ _ _ ∷ calls) = suc (count_claims calls)
count_claims (_ ∷ calls) = count_claims calls

-- Neither a completion nor a release of the delivery, and the clock reads a time before the end of
-- its lease where it matters to a delivery.
abbrev pub leaves_delivery : String → ℕ → StoreCall → Bool
leaves_delivery id lease (create_consent_call now _) = is_alive now lease
leaves_delivery id lease (create_code_call now _ _) = is_alive now lease
leaves_delivery id lease (create_grant_call prune_now _ _) = is_alive prune_now lease
leaves_delivery id lease (claim_call prune_now now _ _) =
    is_alive prune_now lease && is_alive now lease
leaves_delivery id lease (complete_call _ other _ _) = not (other == id)
leaves_delivery id lease (release_call other _) = not (other == id)
leaves_delivery id lease _ = true

module _ (id : String) (d : WebhookDeliveryState) where
  abbrev pub IsHeld : ℕ → EphemeralStore → Type 0
  IsHeld room s = Holds id d room s.webhook_deliveries

  pub prune_expired-IsHeld :
      (room : ℕ) (s : EphemeralStore) (now : ℕ)
      → IsBounded s
      → is_alive now d.expires_at ≡ true
      → IsHeld room s
      → IsHeld room (prune_expired s now)
  unfolding prune_expired
  prune_expired-IsHeld room s now b alive h =
      retained-Holds id d room s.webhook_deliveries
        (λ (other : WebhookDeliveryState). is_alive now other.expires_at) b.webhook_deliveries.once
        alive h

  insert_grant-IsHeld :
      (room : ℕ) (s : EphemeralStore) (prune_now now : ℕ) (grant : Option RefreshGrant)
      → IsBounded s
      → is_alive prune_now d.expires_at ≡ true
      → IsHeld room s
      → IsHeld room (insert_grant s prune_now now grant).1
  insert_grant-IsHeld room s prune_now now none b alive h = h
  insert_grant-IsHeld room s prune_now now (some grant) b alive h =
      let p = prune_expired-IsHeld room s prune_now b alive h in
      let pruned = prune_expired s prune_now in
      if_both (IsHeld room)
        (not (is_alive now grant.expires_at)
          || is_some (Maps.get grant.family_id pruned.refresh_grants))
        (false, pruned) (true, _) p p

  rotate_decoded-IsHeld :
      (room : ℕ) (s : EphemeralStore) (now : ℕ) (r : Option RefreshGrantRotation)
      → IsHeld room s
      → IsHeld room (rotate_decoded s now r).1
  unfolding rotate_current
  rotate_decoded-IsHeld room s now none h = h
  rotate_decoded-IsHeld room s now (some r) h =
      elim (Option-cases (Maps.get r.family_id s.refresh_grants)) [
        | inl absent ↦ rw absent h
        | inr (current, found) ↦
            let same : (rotate_current s now r (some current)).1.webhook_deliveries
                ≡ s.webhook_deliveries =
              ground arith in
            rw (found, same) h
      ]

  -- A claim takes one place, unless it is refused.
  claim-IsHeld :
      (room : ℕ) (s : EphemeralStore) (prune_now now : ℕ) (other : String) (expires_at : ℕ)
      → IsBounded s
      → is_alive prune_now d.expires_at ≡ true
      → is_alive now d.expires_at ≡ true
      → IsHeld (suc room) s
      → IsHeld room (claim_webhook_delivery s prune_now now other expires_at).1
  unfolding claim_webhook_delivery
  claim-IsHeld room s prune_now now other expires_at b alive still h =
      let p = prune_expired-IsHeld (suc room) s prune_now b alive h in
      let pruned = prune_expired s prune_now in
      let less = less_room id d room pruned.webhook_deliveries p in
      elim (Bool-cases (other == id)) [
        | inl same ↦
            let claimed : is_claimed now (Maps.get other pruned.webhook_deliveries) ≡ true =
              rw (eq_of_== other id same, p.held) still in
            let refused : (not (is_alive now expires_at)
                  || is_claimed now (Maps.get other pruned.webhook_deliveries))
                ≡ true =
              ground (arith, claimed) in
            rw refused less
        | inr apart ↦
            if_both (IsHeld room)
              (not (is_alive now expires_at)
                || is_claimed now (Maps.get other pruned.webhook_deliveries))
              (false, pruned) (true, _) less
              (trimmed-Holds id d room pruned.webhook_deliveries other _ apart p)
      ]

  release-IsHeld :
      (room : ℕ) (s : EphemeralStore) (other : String) (lease : ℕ)
      → (other == id) ≡ false
      → IsHeld room s
      → IsHeld room (release_webhook_delivery s other lease).1
  unfolding release_webhook_delivery
  release-IsHeld room s other lease apart h =
      if_both (IsHeld room) (holds_lease lease (Maps.get other s.webhook_deliveries)) (true, _)
        (false, s) (deleted-Holds id d room s.webhook_deliveries other apart h) h

  complete-IsHeld :
      (room : ℕ) (s : EphemeralStore) (now : ℕ) (other : String) (lease completed_expires_at : ℕ)
      → (other == id) ≡ false
      → IsHeld room s
      → IsHeld room (complete_webhook_delivery s now other lease completed_expires_at).1
  unfolding complete_webhook_delivery drop_expired_lease
  complete-IsHeld room s now other lease completed_expires_at apart h =
      elim (Option-cases (Maps.get other s.webhook_deliveries)) [
        | inl absent ↦
            let refused : can_complete now lease completed_expires_at none ≡ false = ground arith in
            rw (absent, refused) h
        | inr (old, found) ↦
            let gone = deleted-Holds id d room s.webhook_deliveries other apart h in
            let dropped : IsHeld room
                (drop_expired_lease s now other lease (Maps.get other s.webhook_deliveries)) =
              elim (Bool-cases (
                holds_lease lease (Maps.get other s.webhook_deliveries)
                && not (is_alive now lease))) [
                  | inl drops ↦ rw drops gone
                  | inr keeps ↦ rw keeps h
                ] in
            if_both (IsHeld room)
              (can_complete now lease completed_expires_at (Maps.get other s.webhook_deliveries))
              (true, _) (false, _)
              (replaced-Holds id d room s.webhook_deliveries other _ old found apart h) dropped
      ]

  module _ ⦃platform : Platform⦄ where
    perform-IsHeld :
        (s : EphemeralStore) (call : StoreCall) (calls : List StoreCall)
        → IsBounded s
        → leaves_delivery id d.expires_at call ≡ true
        → IsHeld (count_claims (call ∷ calls)) s
        → IsHeld (count_claims calls) (perform s call)
    unfolding create_consent consume_consent create_authorization_code consume_authorization_code
        create_refresh_grant rotate_refresh_grant
    perform-IsHeld s (create_consent_call now input) calls b leaves h =
        prune_expired-IsHeld (count_claims calls) s now b leaves h
    perform-IsHeld s (consume_consent_call now other) calls b leaves h = h
    perform-IsHeld s (create_code_call now code input) calls b leaves h =
        prune_expired-IsHeld (count_claims calls) s now b leaves h
    perform-IsHeld s (consume_code_call now code) calls b leaves h = h
    perform-IsHeld s (create_grant_call prune_now now input) calls b leaves h =
        insert_grant-IsHeld (count_claims calls) s prune_now now (decode_refresh_grant input) b
          leaves h
    perform-IsHeld s (rotate_grant_call now input) calls b leaves h =
        rotate_decoded-IsHeld (count_claims calls) s now (decode_refresh_grant_rotation input) h
    perform-IsHeld s (claim_call prune_now now other expires_at) calls b leaves h =
        claim-IsHeld (count_claims calls) s prune_now now other expires_at b (ground arith)
          (ground arith) h
    perform-IsHeld s (complete_call now other lease completed_expires_at) calls b leaves h =
        complete-IsHeld (count_claims calls) s now other lease completed_expires_at (ground arith) h
    perform-IsHeld s (release_call other lease) calls b leaves h =
        release-IsHeld (count_claims calls) s other lease (ground arith) h

    -- The delivery is held after the calls, and the store within its bounds.
    pub perform_all-IsHeld :
        (s : EphemeralStore) (calls : List StoreCall)
        → IsBounded s
        → every (leaves_delivery id d.expires_at) calls ≡ true
        → IsHeld (count_claims calls) s
        → IsHeld 0 (perform_all s calls)
    perform_all-IsHeld s [] b leaves h = h
    perform_all-IsHeld s (call ∷ calls) b leaves h =
        perform_all-IsHeld (perform s call) calls (perform-IsBounded s call b) (ground arith)
          (perform-IsHeld s call calls b (ground arith) h)
