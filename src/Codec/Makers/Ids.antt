-- ===== src/Codec/Makers/Ids.antt =====
-- packages/protocol/src/primitives.ts: identifiers and digests.
use hunsu.Base.{ℕ, String, Bool, ◌&&◌, ◌||◌, not, nat_eq, template, [], ◌∷◌, if◌then◌else◌}
use hunsu.Lists.{length, every}
use hunsu.Text.{codes, is_alphanumeric, is_token, is_hex, starts_with, has_part, drop_codes}
use hunsu.Regex.{one_of, optional, up_to, exactly, literal, sequence, matches}
use hunsu.Protocol.{Result, ok, err}
use hunsu.Codec.Values.{Unknown, string}

pub record PrimitiveError : Type 0 where
  pub field : String
  pub message : String

abbrev pub Made {ℓ} : Type ℓ → Type ℓ
Made Value = Result Value PrimitiveError

abbrev pub refused {ℓ} : {Value : Type ℓ} → String → String → Made Value
refused field message = err (record { field = field; message = template (field ∷ message ∷ []) })

-- `typeof value !== "string" || !accepts(value)`
abbrev pub make_text : (String → Bool) → String → Unknown → String → Made String
make_text accepts message (string text) field =
    if accepts text then ok text else refused field message
make_text accepts message _ field = refused field message

abbrev pub in_dashed : ℕ → Bool
in_dashed c = is_alphanumeric c || nat_eq c b'-'

-- `/^[A-Za-z0-9][A-Za-z0-9_-]{0,127}$/u`, without ".."
unfoldable pub is_identifier : String → Bool
is_identifier text =
    matches (sequence (one_of is_alphanumeric ∷ up_to 127 (one_of is_token) ∷ [])) text
    && not (has_part text "..")

-- `makeId`
abbrev pub make_id : String → Unknown → Made String
make_id field value = make_text is_identifier " must be a branch-safe identifier" value field

-- `/^(?:sha256:)?[0-9a-f]{64}$/u`
unfoldable pub is_sha256 : String → Bool
is_sha256 text =
    matches (sequence (optional (literal "sha256:") ∷ exactly 64 (one_of is_hex) ∷ [])) text

-- `makeSha256`
abbrev pub make_sha256 : String → Unknown → Made String
make_sha256 field value =
    make_text is_sha256 " must be a lowercase SHA-256 hexadecimal digest" value field

-- `/^[0-9a-f]{64}$/u` after the prefix
unfoldable pub is_prefixed_digest : String → String → Bool
is_prefixed_digest prefix text =
    starts_with text prefix
    && (every is_hex (drop_codes (length (codes prefix)) (codes text))
        && nat_eq (length (drop_codes (length (codes prefix)) (codes text))) 64)

-- `makePrefixedDigest`
abbrev pub make_prefixed_digest : String → Unknown → String → Made String
make_prefixed_digest prefix value field =
    make_text (is_prefixed_digest prefix)
      (template (" must use " ∷ prefix ∷ " followed by 64 lowercase hexadecimal characters" ∷ []))
      value field

abbrev pub goal_prefix : String
goal_prefix = "hunsu-goal-v1:sha256:"

abbrev pub runner_prefix : String
runner_prefix = "hunsu-runner-v1:sha256:"

abbrev pub node_plan_prefix : String
node_plan_prefix = "hunsu-node-plan-v1:sha256:"

abbrev pub node_payload_prefix : String
node_payload_prefix = "hunsu-node-payload-v1:sha256:"

abbrev pub runner_type_prefix : String
runner_type_prefix = "hunsu-runner-type-v1:sha256:"
