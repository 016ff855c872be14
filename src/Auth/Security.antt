-- ===== src/Auth/Security.antt =====
-- Single use in `InMemoryEphemeralStateStore` of apps/api/src/auth/in-memory-ephemeral-store.ts:
-- authorization codes, generations of a refresh grant, deliveries of a webhook.
use hunsu.Base.{
  subst, ◌≡◌, arith, ℕ, ◌+◌, ◌≤◌, String, Bool, true, false, ◌==◌, none, some, List, if◌then◌else◌,
}
use hunsu.Lists.{length, every}
use hunsu.Maps
use hunsu.Maps.{Entries, kept, HasKeysOnce}
use hunsu.Maps.Laws.{get-delete}
use hunsu.Auth.Grants.{Platform}
use hunsu.Auth.Memory.{
  EphemeralStore, WebhookDeliveryState, consume_authorization_code, is_alive,
  claim_webhook_delivery, prune_expired, maximum_records, processing, trim_map,
}
use hunsu.Auth.Bounds.{get-trim_map-set, length-retain}
use hunsu.Auth.Within.{IsBounded}
use hunsu.Auth.Steps.{StoreCall, perform_all, claim-IsBounded, perform_all-IsBounded}
use hunsu.Auth.Claims.{leaves_delivery, count_claims, perform_all-IsHeld, prune_expired-IsHeld}

-- Two consumptions of authorization codes, at any times: the second one finds nothing if it is the
-- same code, and otherwise what it finds without the first.
pub consume_authorization_code_once :
    (s : EphemeralStore) (now later : ℕ) (code other : String)
    → (consume_authorization_code (consume_authorization_code s now code).1 later other).0
      ≡ (if code == other then none else (consume_authorization_code s later other).0)
unfolding consume_authorization_code
consume_authorization_code_once s now later code other =
    rw (get-delete code other s.authorization_codes) (ground arith)

-- A claim that succeeds.
claimed :
    (s t : EphemeralStore) (prune_now now : ℕ) (id : String) (expires_at : ℕ)
    → claim_webhook_delivery s prune_now now id expires_at ≡ (true, t)
    → t.webhook_deliveries
      ≡ trim_map (
          Maps.set id
            (record { status = processing; expires_at = expires_at })
            (prune_expired s prune_now).webhook_deliveries)
unfolding claim_webhook_delivery
claimed s t prune_now now id expires_at h = ground arith

pruned_size :
    (s : EphemeralStore) (prune_now : ℕ)
    → IsBounded s
    → length (prune_expired s prune_now).webhook_deliveries ≤ maximum_records
unfolding prune_expired
pruned_size s prune_now b =
    let w = b.webhook_deliveries.bounded in
    let d =
      length-retain (λ (d : WebhookDeliveryState). is_alive prune_now d.expires_at)
        s.webhook_deliveries in
    omega arith

module _ ⦃platform : Platform⦄ where
  -- In a store within its bounds, a webhook delivery that has been claimed cannot be claimed again
  -- while its lease lasts, whatever calls come in between: any but a completion or a release of this
  -- delivery, read at times before the end of the lease, and with so few claims among them that they
  -- and the deliveries in the store make 10,000 at most, so that none is evicted.
  pub claim_webhook_delivery_once :
      (s t : EphemeralStore) (prune_now now : ℕ) (id : String) (expires_at : ℕ)
      (calls : List StoreCall) (prune_later later other_expires_at : ℕ)
      → IsBounded s
      → claim_webhook_delivery s prune_now now id expires_at ≡ (true, t)
      → every (leaves_delivery id expires_at) calls ≡ true
      → length t.webhook_deliveries + count_claims calls ≤ maximum_records
      → is_alive prune_later expires_at ≡ true
      → is_alive later expires_at ≡ true
      → (claim_webhook_delivery (perform_all t calls) prune_later later id other_expires_at).0
        ≡ false
  unfolding claim_webhook_delivery
  claim_webhook_delivery_once s t prune_now now id expires_at calls prune_later later
        other_expires_at b h leaves room alive still =
      let lease : WebhookDeliveryState = record { status = processing; expires_at = expires_at } in
      let bounded : IsBounded t =
        subst (λ (x : Bool × EphemeralStore). IsBounded x.1) h
          (claim-IsBounded s prune_now now id expires_at b) in
      let there : Maps.get id t.webhook_deliveries ≡ some lease =
        rw (claimed s t prune_now now id expires_at h) (
          get-trim_map-set id lease (prune_expired s prune_now).webhook_deliveries
            (pruned_size s prune_now b)) in
      let held =
        perform_all-IsHeld id lease t calls bounded leaves
          (record { held = there; bounded = room }) in
      let survives =
        prune_expired-IsHeld id lease 0 (perform_all t calls) prune_later
          (perform_all-IsBounded t calls bounded) alive held in
      rw (survives.held, still) (ground arith)
