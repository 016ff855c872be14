-- ===== src/Auth/Tokens.antt =====
-- Rotations of refresh grants in `InMemoryEphemeralStateStore` of
-- apps/api/src/auth/in-memory-ephemeral-store.ts: the ones that succeed, and the tokens of past
-- generations.
use hunsu.Base.{
  subst, sym, ◌≡◌, refl, arith, ℕ, ◌+◌, ltb, true, false, ==_refl, Bool-cases, inl, inr, Option,
  none, some, if◌then◌else◌,
}
use hunsu.Maps
use hunsu.Maps.{Entries, kept, HasKeysOnce}
use hunsu.Maps.Laws.{get-set}
use hunsu.Auth.Grants.{
  RefreshGrant, RefreshGrantRotation, RefreshGrantRotationResult, Platform, rotated, replayed,
  already_revoked, is_valid_rotation, decode_refresh_grant_rotation,
}
use hunsu.Auth.Memory.{
  EphemeralStore, rotate_refresh_grant, rotate_current, rotation_bindings_match, rotate_to,
  with_grants, is_alive, is_revoked,
}
use hunsu.Auth.Within.{IsBounded}
use hunsu.Auth.Steps.{rotate_grant_call, perform-IsBounded}
use hunsu.Auth.Room.{Holds, renewed-Holds}
use hunsu.Auth.Reuse.{IsKept, HasFamily, revoked_grant}

module _ (s : EphemeralStore) (now : ℕ) (r : RefreshGrantRotation) where
  -- What a rotation that succeeds has passed, and what it leaves.
  rotate_current-rotated :
      (found : Option RefreshGrant) (g : RefreshGrant) (t : EphemeralStore)
      → rotate_current s now r found ≡ (rotated g, t)
      → (current : RefreshGrant) × (found ≡ some current)
        × (g ≡ rotate_to current r)
        × (t ≡ with_grants s (Maps.set r.family_id (rotate_to current r) s.refresh_grants))
        × (rotation_bindings_match current r ≡ true)
        × (is_revoked current.status ≡ false)
        × (r.presented_generation ≡ current.current_generation)
  unfolding rotate_current
  rotate_current-rotated none g t h = cc
  rotate_current-rotated (some current) g t h =
      (current, refl, ground arith, ground arith, ground arith, ground arith, ground arith)

-- The same token presented again: the digests of the next one, and of the token itself, are not
-- compared.
pub record IsSameToken (r again : RefreshGrantRotation) : Type 0 where
  pub family_id : again.family_id ≡ r.family_id
  pub client_digest : again.client_digest ≡ r.client_digest
  pub audience : again.audience ≡ r.audience
  pub presented_generation : again.presented_generation ≡ r.presented_generation

module _ ⦃platform : Platform⦄ where
  valid_rotation :
      (s : EphemeralStore) (now : ℕ) (r : RefreshGrantRotation)
      → is_valid_rotation r ≡ true
      → rotate_refresh_grant s now r
        ≡ rotate_current s now r (Maps.get r.family_id s.refresh_grants)
  unfolding rotate_refresh_grant decode_refresh_grant_rotation
  valid_rotation s now r h = rw h refl

  rotated_valid :
      (s t : EphemeralStore) (now : ℕ) (r : RefreshGrantRotation) (g : RefreshGrant)
      → rotate_refresh_grant s now r ≡ (rotated g, t)
      → (is_valid_rotation r ≡ true)
        × (rotate_current s now r (Maps.get r.family_id s.refresh_grants) ≡ (rotated g, t))
  unfolding rotate_refresh_grant decode_refresh_grant_rotation
  rotated_valid s t now r g h = elim (Bool-cases (is_valid_rotation r)) [
    | inl valid ↦ (valid, rw valid at h)
    | inr bad ↦ let h' = rw bad at h in absurd (ground arith)
  ]

  next_of_valid :
      (r : RefreshGrantRotation)
      → is_valid_rotation r ≡ true
      → r.next_generation ≡ r.presented_generation + 1
  unfolding is_valid_rotation
  next_of_valid r h = ground arith

  -- Of a grant that `r` has rotated: it is bound as `r` is, and past the generation of `r`.
  pub record IsPast (expiry : ℕ) (r : RefreshGrantRotation) (g : RefreshGrant) : Type 0 where
    pub expires : g.expires_at ≡ expiry
    pub bound : rotation_bindings_match g r ≡ true
    pub past : ltb r.presented_generation g.current_generation ≡ true

  pub record IsShut (expiry : ℕ) (g : RefreshGrant) : Type 0 where
    pub expires : g.expires_at ≡ expiry
    pub shut : is_revoked g.status ≡ true

  pub IsPast-IsKept : (expiry : ℕ) (r : RefreshGrantRotation) → IsKept expiry (IsPast expiry r)
  unfolding rotation_bindings_match
  IsPast-IsKept expiry r = record {
    expires = λ g is. is.expires;
    closes = λ g is. record { expires = is.expires; bound = is.bound; past = is.past };
    turns = λ g rotation valid open_still same is.
        let next = next_of_valid rotation valid in
        let past = is.past in
        record { expires = is.expires; bound = is.bound; past = ground arith };
  }

  pub IsShut-IsKept : (expiry : ℕ) → IsKept expiry (IsShut expiry)
  IsShut-IsKept expiry = record {
    expires = λ g is. is.expires;
    closes = λ g is. record { expires = is.expires; shut = refl };
    turns = λ g rotation valid open_still same is. let shut = is.shut in absurd (ground arith);
  }

  -- A rotation of a family that is revoked.
  pub rotate_shut :
      (s : EphemeralStore) (now : ℕ) (expiry : ℕ) (next : RefreshGrantRotation)
      → is_valid_rotation next ≡ true
      → is_alive now expiry ≡ true
      → HasFamily next.family_id expiry (IsShut expiry) (IsShut-IsKept expiry) 0 s
      → rotate_refresh_grant s now next ≡ (already_revoked, s)
  unfolding rotate_current
  rotate_shut s now expiry next valid alive (g, is, h) =
      let alive' : is_alive now g.expires_at ≡ true = rw (is.expires) alive in
      rw (valid_rotation s now next valid, h.held, alive', is.shut) refl

  rotate_past_current :
      (s : EphemeralStore) (now : ℕ) (expiry room : ℕ) {r : RefreshGrantRotation}
      (again : RefreshGrantRotation) (g : RefreshGrant)
      → is_alive now g.expires_at ≡ true
      → rotation_bindings_match g again ≡ true
      → ltb again.presented_generation g.current_generation ≡ true
      → IsPast expiry r g
      → Holds again.family_id g room s.refresh_grants
      → ((rotate_current s now again (some g)).0
          ≡ (if is_revoked g.status then already_revoked else replayed))
        × HasFamily again.family_id expiry
            (IsShut expiry)
            (IsShut-IsKept expiry)
            room
            (rotate_current s now again (some g)).1
  unfolding rotate_current
  rotate_past_current s now expiry room again g alive bound past is h =
      elim (Bool-cases (is_revoked g.status)) [
        | inl shut ↦ rw (alive, shut) (refl, (g, record { expires = is.expires; shut = shut }, h))
        | inr open_still ↦
            rw (alive, open_still, bound, past)
              (
                refl,
                (
                  revoked_grant g,
                  record { expires = is.expires; shut = refl },
                  renewed-Holds again.family_id g room s.refresh_grants (revoked_grant g) h,
                ),
              )
      ]

  -- The token of a past generation.
  pub rotate_past :
      (s : EphemeralStore) (now : ℕ) (expiry room : ℕ) (r again : RefreshGrantRotation)
      (g : RefreshGrant)
      → is_valid_rotation again ≡ true
      → IsSameToken r again
      → is_alive now expiry ≡ true
      → IsPast expiry r g
      → Holds r.family_id g room s.refresh_grants
      → ((rotate_refresh_grant s now again).0
          ≡ (if is_revoked g.status then already_revoked else replayed))
        × HasFamily r.family_id expiry
            (IsShut expiry)
            (IsShut-IsKept expiry)
            room
            (rotate_refresh_grant s now again).1
  unfolding rotation_bindings_match
  rotate_past s now expiry room r again g valid same alive is h =
      let alive' : is_alive now g.expires_at ≡ true = rw (is.expires) alive in
      let bound : rotation_bindings_match g again ≡ true =
        rw (same.family_id, same.client_digest, same.audience) (is.bound) in
      let past : ltb again.presented_generation g.current_generation ≡ true =
        rw (same.presented_generation) (is.past) in
      let key = same.family_id in
      let here : Holds again.family_id g room s.refresh_grants =
        subst (λ f. Holds f g room s.refresh_grants) (sym key) h in
      let (answer, shut) =
        rotate_past_current s now expiry room again g alive' bound past is here in
      rw (valid_rotation s now again valid, here.held)
        (
          answer,
          subst
              (λ f.
                HasFamily f expiry (IsShut expiry) (IsShut-IsKept expiry) room
                  (rotate_current s now again (some g)).1)
              key shut,
        )

  -- What a rotation that succeeds leaves.
  pub after_rotation :
      (s t : EphemeralStore) (now : ℕ) (r : RefreshGrantRotation) (g : RefreshGrant)
      → IsBounded s
      → rotate_refresh_grant s now r ≡ (rotated g, t)
      → IsPast g.expires_at r g × (Maps.get r.family_id t.refresh_grants ≡ some g) × IsBounded t
  unfolding rotation_bindings_match
  after_rotation s t now r g b h =
      let (valid_r, h') = rotated_valid s t now r g h in
      let (current, found, is_g, is_t, bound, fresh, _) =
        rotate_current-rotated s now r (Maps.get r.family_id s.refresh_grants) g t h' in
      let next = next_of_valid r valid_r in
      let earlier : ltb r.presented_generation r.next_generation ≡ true = ground arith in
      let there : Maps.get r.family_id t.refresh_grants ≡ some g =
        rw (is_t, is_g, get-set, ==_refl r.family_id) refl in
      (
        record { expires = refl; bound = rw is_g bound; past = rw is_g earlier },
        there,
        subst (λ (x : RefreshGrantRotationResult × EphemeralStore). IsBounded x.1) h
            (perform-IsBounded s (rotate_grant_call now r) b),
      )
