-- ===== src/Tests/Auth.antt =====
-- A sample session for apps/api/src/auth/in-memory-ephemeral-store.ts: a code that is consumed twice, a
-- refresh token that is presented twice, a delivery that is claimed twice.
use hunsu.Base.{◌≡◌, refl, true, false, ◌==◌, none, List, [], ◌∷◌, arith}
use hunsu.Text.{is_digit, is_lower, is_upper, is_alphanumeric, is_token, has_exactly}
use hunsu.Maps
use hunsu.Auth.Contexts.{AuthContext, mcp, is_installation, is_exact_auth_context}
use hunsu.Auth.Grants.{
  Platform, PendingAuthorizationCode, RefreshGrant, RefreshGrantRotation, active, replayed,
  is_valid_grant, decode_refresh_grant, is_valid_rotation, decode_refresh_grant_rotation,
}
use hunsu.Auth.Memory.{
  EphemeralStore, maximum_records, trim_map, prune_expired, create_authorization_code,
  consume_authorization_code, create_refresh_grant, rotate_refresh_grant, rotate_current,
  rotation_bindings_match, claim_webhook_delivery, release_webhook_delivery,
}
use hunsu.Auth.Within.{IsBounded}
use hunsu.Auth.Steps.{
  empty_store, perform_all, StoreCall, rotate_grant_call, claim_call, release_call,
  create_code_call, create_grant_call, perform_all-IsBounded, empty_store-IsBounded,
}
use hunsu.Auth.Security.{consume_authorization_code_once, claim_webhook_delivery_once}

instance abbrev sample_platform : Platform
sample_platform = record {
  auth_context_digest = λ _. "ccccccccccccccccccccccccccccccccccccccccccc";
  is_safe_audience = λ audience. audience == "https://hunsu.example";
}

abbrev sample_context : AuthContext
sample_context = record {
  subject = "s";
  user = record { id = "1"; login = "octo"; name = none; avatar_url = none };
  installations = [];
  selected_installation_id = none;
  client = mcp;
}

abbrev sample_code : PendingAuthorizationCode
sample_code = record {
  client_id = "client";
  redirect_uri = "https://client.example";
  challenge = "x";
  audience = "https://hunsu.example";
  context = sample_context;
  expires_at = 600;
}

abbrev sample_grant : RefreshGrant
sample_grant = record {
  family_id = "ffffffffffffffffffffffff";
  client_digest = "ddddddddddddddddddddddddddddddddddddddddddd";
  context = sample_context;
  context_digest = "ccccccccccccccccccccccccccccccccccccccccccc";
  audience = "https://hunsu.example";
  current_generation = 0;
  current_token_digest = "00000000000000000000000000000000000000000_0";
  status = active;
  expires_at = 1000;
}

abbrev sample_rotation : RefreshGrantRotation
sample_rotation = record {
  family_id = "ffffffffffffffffffffffff";
  client_digest = "ddddddddddddddddddddddddddddddddddddddddddd";
  audience = "https://hunsu.example";
  presented_generation = 0;
  presented_token_digest = "00000000000000000000000000000000000000000_0";
  next_generation = 1;
  next_token_digest = "11111111111111111111111111111111111111111-1";
}

abbrev sample_calls : List StoreCall
sample_calls = create_code_call 5 "code" sample_code ∷ create_grant_call 5 6 sample_grant ∷ []

abbrev opened_store : EphemeralStore
opened_store = perform_all empty_store sample_calls

abbrev rotated_grant : RefreshGrant
rotated_grant = record sample_grant {
  current_generation = 1;
  current_token_digest = "11111111111111111111111111111111111111111-1";
}

abbrev rotated_store : EphemeralStore
rotated_store = (rotate_refresh_grant opened_store 10 sample_rotation).1

-- All the operations of the store, to unfold.
unfoldable sessions : Unit {0}
unfolding ◌==◌ Maps.set Maps.delete Maps.retain is_digit is_lower is_upper is_alphanumeric is_token
    has_exactly is_installation is_exact_auth_context is_valid_grant decode_refresh_grant
    is_valid_rotation decode_refresh_grant_rotation maximum_records trim_map prune_expired
    create_authorization_code consume_authorization_code create_refresh_grant rotate_refresh_grant
    rotate_current rotation_bindings_match claim_webhook_delivery release_webhook_delivery
sessions = tt

opened_store-IsBounded : IsBounded opened_store
opened_store-IsBounded = perform_all-IsBounded empty_store sample_calls empty_store-IsBounded

-- The first token again, with another next token.
abbrev late_rotation : RefreshGrantRotation
late_rotation = record sample_rotation {
  next_token_digest = "22222222222222222222222222222222222222222_2";
}

-- The second token, and a grant of another family.
abbrev next_rotation : RefreshGrantRotation
next_rotation = record sample_rotation {
  presented_generation = 1;
  presented_token_digest = "11111111111111111111111111111111111111111-1";
  next_generation = 2;
  next_token_digest = "33333333333333333333333333333333333333333_3";
}

abbrev other_grant : RefreshGrant
other_grant = record sample_grant { family_id = "gggggggggggggggggggggggg" }

abbrev calls_between : List StoreCall
calls_between = rotate_grant_call 12 next_rotation ∷ create_grant_call 13 14 other_grant ∷ []

abbrev calls_following : List StoreCall
calls_following = rotate_grant_call 25 next_rotation ∷ claim_call 26 26 "delivery" 90 ∷ []

abbrev busy_store : EphemeralStore
busy_store = perform_all rotated_store calls_between

abbrev revoked_store : EphemeralStore
revoked_store = perform_all (rotate_refresh_grant busy_store 20 late_rotation).1 calls_following

-- In between the family has moved on to its third token.
late_replayed : (rotate_refresh_grant busy_store 20 late_rotation).0 ≡ replayed
unfolding sessions
late_replayed = refl

consume_authorization_code_once_example :
    (consume_authorization_code (consume_authorization_code opened_store 20 "code").1 21 "code").0
    ≡ none
unfolding sessions
consume_authorization_code_once_example =
    consume_authorization_code_once opened_store 20 21 "code" "code"

perform_all-IsBounded_example : IsBounded opened_store
perform_all-IsBounded_example = perform_all-IsBounded empty_store sample_calls empty_store-IsBounded

abbrev claimed_store : EphemeralStore
claimed_store = (claim_webhook_delivery opened_store 40 41 "delivery" 90).1

sample_claimed : claim_webhook_delivery opened_store 40 41 "delivery" 90 ≡ (true, claimed_store)
unfolding sessions
sample_claimed = refl

-- Another delivery is claimed and released.
abbrev calls_meanwhile : List StoreCall
calls_meanwhile =
    claim_call 42 43 "other" 70
    ∷ rotate_grant_call 44 sample_rotation
    ∷ release_call "other" 70
    ∷ []

claim_webhook_delivery_once_example :
    (claim_webhook_delivery (perform_all claimed_store calls_meanwhile) 50 51 "delivery" 95).0
    ≡ false
unfolding sessions
claim_webhook_delivery_once_example =
    claim_webhook_delivery_once opened_store claimed_store 40 41 "delivery" 90 calls_meanwhile 50 51
      95 opened_store-IsBounded sample_claimed refl (omega arith) refl refl
