-- ===== src/Auth/Grants.antt =====
-- apps/api/src/auth/ephemeral-store.ts: the records of the store and their tests. An operation encodes
-- its input and decodes it again, which for a typed value is the tests and a copy.
use hunsu.Base.{ℕ, String, Bool, ◌&&◌, ◌==◌, nat_eq, ltb, ◌+◌, Option, none, some, if◌then◌else◌}
use hunsu.Text.{has_exactly, is_token, is_safe_integer}
use hunsu.Auth.Contexts.{AuthContext, is_exact_auth_context, mcp}

pub record ConsentState : Type 0 where
  pub id : String
  pub expires_at : ℕ

pub record PendingAuthorizationCode : Type 0 where
  pub client_id : String
  pub redirect_uri : String
  pub challenge : String
  pub audience : String
  pub context : AuthContext
  pub expires_at : ℕ

pub data GrantStatus : Type 0 where
  active revoked : GrantStatus

-- `scope` is the string "hunsu" by its type, and has no field here.
pub record RefreshGrant : Type 0 where
  pub family_id : String
  pub client_digest : String
  pub context : AuthContext
  pub context_digest : String
  pub audience : String
  pub current_generation : ℕ
  pub current_token_digest : String
  pub status : GrantStatus
  pub expires_at : ℕ

pub record RefreshGrantRotation : Type 0 where
  pub family_id : String
  pub client_digest : String
  pub audience : String
  pub presented_generation : ℕ
  pub presented_token_digest : String
  pub next_generation : ℕ
  pub next_token_digest : String

pub data RefreshGrantRotationResult : Type 0 where
  rotated : RefreshGrant → RefreshGrantRotationResult
  expired invalid missing replayed already_revoked : RefreshGrantRotationResult

-- The platform's functions: the digest of a context (`createHash` of Node.js over `JSON.stringify`), and
-- the test of an address by the `URL` class.
pub record Platform : Type 0 where
  pub auth_context_digest : AuthContext → String
  pub is_safe_audience : String → Bool

-- `isExpiry`
abbrev pub is_expiry : ℕ → Bool
is_expiry n = is_safe_integer n && ltb 0 n

-- `/^[A-Za-z0-9_-]{43}$/u`
abbrev pub is_digest_text : String → Bool
is_digest_text text = has_exactly 43 is_token text

-- `/^[A-Za-z0-9_-]{24}$/u`
abbrev pub is_family_id : String → Bool
is_family_id text = has_exactly 24 is_token text

module _ ⦃platform : Platform⦄ where
  unfoldable pub is_valid_grant : RefreshGrant → Bool
  is_valid_grant g =
      is_family_id g.family_id
      && (is_digest_text g.client_digest
          && (is_exact_auth_context g.context mcp
              && (is_digest_text g.context_digest
                  && (g.context_digest == platform.auth_context_digest g.context
                      && (platform.is_safe_audience g.audience
                          && (is_safe_integer g.current_generation
                              && (is_digest_text g.current_token_digest
                                  && is_expiry g.expires_at)))))))

  -- `decodeRefreshGrant(encodeRefreshGrant(input))`
  unfoldable pub decode_refresh_grant : RefreshGrant → Option RefreshGrant
  decode_refresh_grant g = if is_valid_grant g then some g else none

  unfoldable pub is_valid_rotation : RefreshGrantRotation → Bool
  is_valid_rotation r =
      is_family_id r.family_id
      && (is_digest_text r.client_digest
          && (platform.is_safe_audience r.audience
              && (is_safe_integer r.presented_generation
                  && (is_digest_text r.presented_token_digest
                      && (is_safe_integer r.next_generation
                          && (nat_eq r.next_generation (r.presented_generation + 1)
                              && is_digest_text r.next_token_digest))))))

  -- `decodeRefreshGrantRotation(encodeRefreshGrantRotation(input))`
  unfoldable pub decode_refresh_grant_rotation : RefreshGrantRotation → Option RefreshGrantRotation
  decode_refresh_grant_rotation r = if is_valid_rotation r then some r else none
