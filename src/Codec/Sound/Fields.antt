-- ===== src/Codec/Sound/Fields.antt =====
-- The fields that the constructors of packages/protocol/src/primitives.ts make.
use hunsu.Base.{◌≡◌, String, true}
use hunsu.Text.{is_safe_integer}
use hunsu.Codec.Makers.{
  Dates, is_base64, is_branch_name, is_filled, is_git_ref, is_git_sha, is_identifier, is_origin,
  is_prefixed_digest, is_repository_name, is_repository_owner, is_semantic_version, is_sha256,
  is_timestamp, is_tree_path, is_type_key, goal_prefix, runner_prefix, node_plan_prefix,
  node_payload_prefix, runner_type_prefix,
}
use hunsu.Codec.Fields.{
  decode_natural, decode_id, decode_sha256, decode_named_text, decode_text, decode_git_sha,
  decode_tree_path, decode_ref, decode_branch, decode_owner, decode_repository_name, decode_origin,
  decode_type_key, decode_version, decode_base64, decode_goal_digest, decode_runner_digest,
  decode_plan_digest, decode_payload_digest, decode_integrity, decode_timestamp,
}
use hunsu.Codec.Sound.Steps.{IsSound, make_text_ok, decode_natural_ok}

pub decode_id-IsSound :
    (name : String) → IsSound (decode_id name) (λ text. is_identifier text ≡ true)
decode_id-IsSound name = record {
  sound = λ value path text h. make_text_ok is_identifier _ _ path value text h;
}

pub decode_sha256-IsSound :
    (name : String) → IsSound (decode_sha256 name) (λ text. is_sha256 text ≡ true)
decode_sha256-IsSound name = record {
  sound = λ value path text h. make_text_ok is_sha256 _ _ path value text h;
}

pub decode_named_text-IsSound :
    (name : String) → IsSound (decode_named_text name) (λ text. is_filled text ≡ true)
decode_named_text-IsSound name = record {
  sound = λ value path text h. make_text_ok is_filled _ _ path value text h;
}

pub decode_text-IsSound : IsSound decode_text (λ text. is_filled text ≡ true)
decode_text-IsSound = record {
  sound = λ value path text h. make_text_ok is_filled _ _ path value text h;
}

pub decode_git_sha-IsSound : IsSound decode_git_sha (λ text. is_git_sha text ≡ true)
decode_git_sha-IsSound = record {
  sound = λ value path text h. make_text_ok is_git_sha _ _ path value text h;
}

pub decode_tree_path-IsSound : IsSound decode_tree_path (λ text. is_tree_path text ≡ true)
decode_tree_path-IsSound = record {
  sound = λ value path text h. make_text_ok is_tree_path _ _ path value text h;
}

pub decode_ref-IsSound : IsSound decode_ref (λ text. is_git_ref text ≡ true)
decode_ref-IsSound = record {
  sound = λ value path text h. make_text_ok is_git_ref _ _ path value text h;
}

pub decode_branch-IsSound : IsSound decode_branch (λ text. is_branch_name text ≡ true)
decode_branch-IsSound = record {
  sound = λ value path text h. make_text_ok is_branch_name _ _ path value text h;
}

pub decode_owner-IsSound : IsSound decode_owner (λ text. is_repository_owner text ≡ true)
decode_owner-IsSound = record {
  sound = λ value path text h. make_text_ok is_repository_owner _ _ path value text h;
}

pub decode_repository_name-IsSound :
    IsSound decode_repository_name (λ text. is_repository_name text ≡ true)
decode_repository_name-IsSound = record {
  sound = λ value path text h. make_text_ok is_repository_name _ _ path value text h;
}

pub decode_origin-IsSound : IsSound decode_origin (λ text. is_origin text ≡ true)
decode_origin-IsSound = record {
  sound = λ value path text h. make_text_ok is_origin _ _ path value text h;
}

pub decode_type_key-IsSound : IsSound decode_type_key (λ text. is_type_key text ≡ true)
decode_type_key-IsSound = record {
  sound = λ value path text h. make_text_ok is_type_key _ _ path value text h;
}

pub decode_version-IsSound : IsSound decode_version (λ text. is_semantic_version text ≡ true)
decode_version-IsSound = record {
  sound = λ value path text h. make_text_ok is_semantic_version _ _ path value text h;
}

pub decode_base64-IsSound : IsSound decode_base64 (λ text. is_base64 text ≡ true)
decode_base64-IsSound = record {
  sound = λ value path text h. make_text_ok is_base64 _ _ path value text h;
}

pub decode_goal_digest-IsSound :
    IsSound decode_goal_digest (λ text. is_prefixed_digest goal_prefix text ≡ true)
decode_goal_digest-IsSound = record {
  sound = λ value path text h. make_text_ok (is_prefixed_digest goal_prefix) _ _ path value text h;
}

pub decode_runner_digest-IsSound :
    IsSound decode_runner_digest (λ text. is_prefixed_digest runner_prefix text ≡ true)
decode_runner_digest-IsSound = record {
  sound =
      λ value path text h. make_text_ok (is_prefixed_digest runner_prefix) _ _ path value text h;
}

pub decode_plan_digest-IsSound :
    IsSound decode_plan_digest (λ text. is_prefixed_digest node_plan_prefix text ≡ true)
decode_plan_digest-IsSound = record {
  sound =
      λ value path text h. make_text_ok (is_prefixed_digest node_plan_prefix) _ _ path value text h;
}

pub decode_payload_digest-IsSound :
    IsSound decode_payload_digest (λ text. is_prefixed_digest node_payload_prefix text ≡ true)
decode_payload_digest-IsSound = record {
  sound = λ value path text h.
      make_text_ok (is_prefixed_digest node_payload_prefix) _ _ path value text h;
}

pub decode_integrity-IsSound :
    IsSound decode_integrity (λ text. is_prefixed_digest runner_type_prefix text ≡ true)
decode_integrity-IsSound = record {
  sound = λ value path text h.
      make_text_ok (is_prefixed_digest runner_type_prefix) _ _ path value text h;
}

pub decode_timestamp-IsSound :
    ⦃dates : Dates⦄ → IsSound decode_timestamp (λ text. is_timestamp text ≡ true)
decode_timestamp-IsSound = record {
  sound = λ value path text h. make_text_ok is_timestamp _ _ path value text h;
}

pub decode_natural-IsSound : IsSound decode_natural (λ n. is_safe_integer n ≡ true)
decode_natural-IsSound = record { sound = decode_natural_ok }
