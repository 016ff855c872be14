-- ===== src/Auth/Reuse.antt =====
-- A family of refresh grants in `InMemoryEphemeralStateStore` of
-- apps/api/src/auth/in-memory-ephemeral-store.ts while it has not expired.
use hunsu.Base.{
  if_both, ◌≡◌, refl, arith, ℕ, suc, String, true, false, not, ◌||◌, ◌==◌, Bool-cases, inl, inr,
  Option, none, some, nat_eq, ltb, ◌!=◌, eq_of_==,
}
use hunsu.Lists.{is_some}
use hunsu.Maps
use hunsu.Auth.Grants.{
  RefreshGrant, RefreshGrantRotation, Platform, decode_refresh_grant_rotation, is_valid_rotation,
  revoked, rotated, expired, invalid, replayed, already_revoked,
}
use hunsu.Auth.Memory.{
  EphemeralStore, prune_expired, rotate_refresh_grant, rotate_current, is_alive, insert_grant,
  is_revoked, rotate_to, rotation_bindings_match, with_grants,
}
use hunsu.Auth.Within.{IsBounded}
use hunsu.Auth.Room.{
  Holds, retained-Holds, deleted-Holds, trimmed-Holds, replaced-Holds, renewed-Holds, less_room,
}

abbrev pub revoked_grant : RefreshGrant → RefreshGrant
revoked_grant g = record g { status = revoked }

-- What rotations keep of a grant.
pub record IsKept ⦃platform : Platform⦄ (expiry : ℕ) (Is : RefreshGrant → Type 0) : Type 0 where
  pub expires : (g : RefreshGrant) → Is g → g.expires_at ≡ expiry
  pub closes : (g : RefreshGrant) → Is g → Is (revoked_grant g)
  pub turns :
      (g : RefreshGrant) (r : RefreshGrantRotation)
      → is_valid_rotation r ≡ true
      → is_revoked g.status ≡ false
      → nat_eq r.presented_generation g.current_generation ≡ true
      → Is g
      → Is (rotate_to g r)

module _ ⦃platform : Platform⦄ (family : String) (expiry : ℕ) (Is : RefreshGrant → Type 0)
    (keeps : IsKept expiry Is) where
  abbrev pub HasFamily : ℕ → EphemeralStore → Type 0
  HasFamily room s = (g : RefreshGrant) × Is g × Holds family g room s.refresh_grants

  pub prune_expired-HasFamily :
      (room : ℕ) (s : EphemeralStore) (now : ℕ)
      → IsBounded s
      → is_alive now expiry ≡ true
      → HasFamily room s
      → HasFamily room (prune_expired s now)
  unfolding prune_expired
  prune_expired-HasFamily room s now b alive (g, is, h) = (
    g,
    is,
    retained-Holds family g room s.refresh_grants
        (λ (other : RefreshGrant). is_alive now other.expires_at) b.refresh_grants.once
        (rw (keeps.expires g is) alive) h,
  )

  less_family : (room : ℕ) (s : EphemeralStore) → HasFamily (suc room) s → HasFamily room s
  less_family room s (g, is, h) = (g, is, less_room family g room s.refresh_grants h)

  -- A grant takes one place, unless it is refused.
  pub insert_grant-HasFamily :
      (room : ℕ) (s : EphemeralStore) (prune_now now : ℕ) (grant : Option RefreshGrant)
      → IsBounded s
      → is_alive prune_now expiry ≡ true
      → HasFamily (suc room) s
      → HasFamily room (insert_grant s prune_now now grant).1
  insert_grant-HasFamily room s prune_now now none b alive h = less_family room s h
  insert_grant-HasFamily room s prune_now now (some grant) b alive h =
      let pruned = prune_expired s prune_now in
      let (g, is, p) = prune_expired-HasFamily (suc room) s prune_now b alive h in
      let less : HasFamily room pruned = (g, is, less_room family g room pruned.refresh_grants p) in
      elim (Bool-cases (grant.family_id == family)) [
        | inl same ↦
            let there : is_some (Maps.get grant.family_id pruned.refresh_grants) ≡ true =
              rw (eq_of_== grant.family_id family same, p.held) refl in
            let refused : (not (is_alive now grant.expires_at)
                  || is_some (Maps.get grant.family_id pruned.refresh_grants))
                ≡ true =
              ground (arith, there) in
            rw refused less
        | inr apart ↦
            if_both (HasFamily room)
              (not (is_alive now grant.expires_at)
                || is_some (Maps.get grant.family_id pruned.refresh_grants))
              (false, pruned) (true, _) less
              (
                g,
                is,
                trimmed-Holds family g room pruned.refresh_grants grant.family_id grant apart p,
              )
      ]

  -- A rotation of the family itself, before its expiry.
  rotate_current-HasFamily :
      (room : ℕ) (s : EphemeralStore) (now : ℕ) (r : RefreshGrantRotation) (g : RefreshGrant)
      → r.family_id ≡ family
      → is_valid_rotation r ≡ true
      → is_alive now expiry ≡ true
      → Is g
      → Holds family g room s.refresh_grants
      → HasFamily room (rotate_current s now r (some g)).1
  unfolding rotate_current
  rotate_current-HasFamily room s now r g same valid alive is h =
      let still : HasFamily room s = (g, is, h) in
      let alive' : is_alive now g.expires_at ≡ true = rw (keeps.expires g is) alive in
      let closed : HasFamily room
          (with_grants s (Maps.set r.family_id (revoked_grant g) s.refresh_grants)) =
        rw same (
          revoked_grant g,
          keeps.closes g is,
          renewed-Holds family g room s.refresh_grants (revoked_grant g) h,
        ) in
      let wrong =
        not (nat_eq r.presented_generation g.current_generation)
        || r.presented_token_digest != g.current_token_digest in
      elim (Bool-cases (is_revoked g.status)) [
        | inl shut ↦ rw (alive', shut) still
        | inr open_still ↦
            rw (alive', open_still)
              (if_both (HasFamily room) (not (rotation_bindings_match g r)) (invalid, s) _ still
                (if_both (HasFamily room) (ltb r.presented_generation g.current_generation)
                  (replayed, _) _ closed
                  (elim (Bool-cases wrong) [
                    | inl bad ↦ rw bad still
                    | inr good ↦
                        rw (good, same)
                          (
                            rotate_to g r,
                            keeps.turns g r valid open_still (ground arith) is,
                            renewed-Holds family g room s.refresh_grants (rotate_to g r) h,
                          )
                  ])))
      ]

  -- A rotation of another family.
  rotate_current_other :
      (room : ℕ) (s : EphemeralStore) (now : ℕ) (r : RefreshGrantRotation)
      (found : Option RefreshGrant)
      → Maps.get r.family_id s.refresh_grants ≡ found
      → (r.family_id == family) ≡ false
      → HasFamily room s
      → HasFamily room (rotate_current s now r found).1
  unfolding rotate_current
  rotate_current_other room s now r none h apart f = f
  rotate_current_other room s now r (some current) h apart (g, is, held) =
      let still : HasFamily room s = (g, is, held) in
      let replaced = λ (new : RefreshGrant).
        replaced-Holds family g room s.refresh_grants r.family_id new current h apart held in
      if_both (HasFamily room) (not (is_alive now current.expires_at)) (expired, _) _
        (g, is, deleted-Holds family g room s.refresh_grants r.family_id apart held)
        (if_both (HasFamily room) (is_revoked current.status) (already_revoked, s) _ still
          (if_both (HasFamily room) (not (rotation_bindings_match current r)) (invalid, s) _ still
            (if_both (HasFamily room) (ltb r.presented_generation current.current_generation)
              (replayed, _) _ (g, is, replaced (revoked_grant current))
              (if_both (HasFamily room)
                (not (nat_eq r.presented_generation current.current_generation)
                  || r.presented_token_digest != current.current_token_digest)
                (invalid, s) (rotated (rotate_to current r), _) still
                (g, is, replaced (rotate_to current r))))))

  rotate_found-HasFamily :
      (room : ℕ) (s : EphemeralStore) (now : ℕ) (r : RefreshGrantRotation)
      → is_valid_rotation r ≡ true
      → is_alive now expiry ≡ true
      → HasFamily room s
      → HasFamily room (rotate_current s now r (Maps.get r.family_id s.refresh_grants)).1
  rotate_found-HasFamily room s now r valid alive (g, is, h) =
      elim (Bool-cases (r.family_id == family)) [
        | inl same ↦
            let here = eq_of_== r.family_id family same in
            let found : Maps.get r.family_id s.refresh_grants ≡ some g = rw here (h.held) in
            rw found (rotate_current-HasFamily room s now r g here valid alive is h)
        | inr apart ↦
            rotate_current_other room s now r (Maps.get r.family_id s.refresh_grants) refl apart
              (g, is, h)
      ]

  pub rotate-HasFamily :
      (room : ℕ) (s : EphemeralStore) (now : ℕ) (r : RefreshGrantRotation)
      → is_alive now expiry ≡ true
      → HasFamily room s
      → HasFamily room (rotate_refresh_grant s now r).1
  unfolding rotate_refresh_grant decode_refresh_grant_rotation
  rotate-HasFamily room s now r alive h = elim (Bool-cases (is_valid_rotation r)) [
    | inl valid ↦ rw valid (rotate_found-HasFamily room s now r valid alive h)
    | inr bad ↦ rw bad h
  ]
