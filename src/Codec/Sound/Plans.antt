-- ===== src/Codec/Sound/Plans.antt =====
-- Goals, Runner Values, Node Plans and payloads: what the decoders of
-- packages/protocol/src/serialization.ts return.
use hunsu.Base.{
  ◌≡◌, refl, subst, String, true, not, ◌==◌, ltb, nat_eq, map, Bool-cases, inl, inr, arith, Option,
  none, some, [], ◌∷◌, ⊤,
}
use hunsu.Lists.{All, all_unique}
use hunsu.Text.{text_length}
use hunsu.Protocol.{
  ok, CanonicalJsonValue, GoalValue, RunnerTypeLock, runner_value_schema, node_plan_schema, Digests,
  compute_goal_digest, max_node_payload_decoded_bytes, max_node_payload_encoded_bytes,
}
use hunsu.Codec.Values.{exact_record, at, property, is_text}
use hunsu.Codec.Fields.{require_some}
use hunsu.Codec.Canonical.{decode_canonical_json_value, stringify_canonical}
use hunsu.Codec.Plans.{
  goal_keys, lock_keys, runner_keys, plan_keys, envelope_keys, decode_goal_value,
  decode_runner_type_lock, RunnerValueTypeDecoder, RunnerValueTypeRegistry, same_runner_type,
  find_runner_type, check_runner_payload, decode_runner_value, decode_node_plan,
  decode_node_payload_envelope, node_payload_envelope_schema, node_payload_codec,
}
use hunsu.Codec.Valid.{
  IsFilled, IsGoalValue, IsRunnerTypeLock, IsRunnerValue, IsNodePlan, IsNodePayloadEnvelope,
}
use hunsu.Codec.Sound.Fields.{
  decode_id-IsSound, decode_named_text-IsSound, decode_text-IsSound, decode_natural-IsSound,
  decode_origin-IsSound, decode_type_key-IsSound, decode_version-IsSound, decode_integrity-IsSound,
  decode_payload_digest-IsSound, decode_base64-IsSound,
}
use hunsu.Codec.Sound.Steps.{
  IsSound, Result-cases, bind_ok, then_ok, ok_eq, require_ok, require_some_ok, any-IsSound,
  decode_array-IsSound, read,
}

pub decode_goal_value-IsSound : IsSound decode_goal_value IsGoalValue
unfolding decode_goal_value
decode_goal_value-IsSound = record {
  sound = λ value path g h.
      let (fields, _, h0) = bind_ok (exact_record value path goal_keys) _ g h in
      let (key, of_key, h1) = read (decode_id-IsSound "goalKey") "key" fields path _ g h0 in
      let (title, of_title, h2) =
        read (decode_named_text-IsSound "title") "title" fields path _ g h1 in
      let (desired_outcome, of_desired_outcome, h3) =
        read (decode_named_text-IsSound "desiredOutcome") "desiredOutcome" fields path _ g h2 in
      let (criteria, of_criteria, h4) =
        read (decode_array-IsSound decode_text-IsSound) "acceptanceCriteria" fields path _ g h3 in
      let (acceptance_criteria, e5, h5) =
        bind_ok (require_some criteria (at path "acceptanceCriteria")) _ g h4 in
      let (unique, h6) = require_ok (all_unique acceptance_criteria) _ _ _ g h5 in
      let (constraints, of_constraints, h7) =
        read (decode_array-IsSound decode_text-IsSound) "constraints" fields path _ g h6 in
      let (unique_constraints, h8) = require_ok (all_unique constraints) _ _ _ g h7 in
      let (priority, of_priority, h9) = read decode_natural-IsSound "priority" fields path _ g h8 in
      let (some_criteria, same) = require_some_ok criteria acceptance_criteria _ e5 in
      subst IsGoalValue (ok_eq _ g h9) (record {
        key = of_key;
        title = of_title;
        desired_outcome = of_desired_outcome;
        criteria = subst (All IsFilled) same of_criteria;
        has_criteria = some_criteria;
        unique_criteria = unique;
        constraints = of_constraints;
        unique_constraints = unique_constraints;
        priority = of_priority;
      });
}

pub decode_runner_type_lock-IsSound : IsSound decode_runner_type_lock IsRunnerTypeLock
unfolding decode_runner_type_lock
decode_runner_type_lock-IsSound = record {
  sound = λ value path x h.
      let (fields, _, h0) = bind_ok (exact_record value path (lock_keys)) _ x h in
      let (origin, of_origin, h1) = read decode_origin-IsSound "origin" fields path _ x h0 in
      let (key, of_key, h2) = read decode_type_key-IsSound "key" fields path _ x h1 in
      let (schema_version, of_schema_version, h3) =
        read decode_version-IsSound "schemaVersion" fields path _ x h2 in
      let (integrity, of_integrity, h4) =
        read decode_integrity-IsSound "integrity" fields path _ x h3 in
      subst IsRunnerTypeLock (ok_eq _ x h4) (record {
        origin = of_origin;
        key = of_key;
        schema_version = of_schema_version;
        integrity = of_integrity;
      });
}

-- The decoder of a type uses the path for its errors only.
abbrev pub IsSteady : RunnerValueTypeDecoder → Type 0
IsSteady d =
    (value decoded : CanonicalJsonValue) (path other : String)
    → d.decode value path ≡ ok decoded
    → d.decode value other ≡ ok decoded

find_runner_type-IsSteady :
    (runner_types : RunnerValueTypeRegistry) (lock : RunnerTypeLock) (d : RunnerValueTypeDecoder)
    → All IsSteady runner_types
    → find_runner_type runner_types lock ≡ some d
    → IsSteady d
find_runner_type-IsSteady [] lock d all h = absurd (ground arith)
find_runner_type-IsSteady (first ∷ rest) lock d (steady, all) h =
    elim (Bool-cases (same_runner_type first.lock lock)) [
      | inl same ↦ let is : first ≡ d = ground arith in subst IsSteady is steady
      | inr other ↦ find_runner_type-IsSteady rest lock d all (rw other at h)
    ]

check_runner_payload_ok :
    (found : Option RunnerValueTypeDecoder) (payload : CanonicalJsonValue) (path : String) (u : ⊤)
    → check_runner_payload found payload path ≡ ok u
    → (d : RunnerValueTypeDecoder) × (decoded : CanonicalJsonValue) × (found ≡ some d)
      × (d.decode payload (at path "value") ≡ ok decoded)
      × ((stringify_canonical decoded == stringify_canonical payload) ≡ true)
check_runner_payload_ok none payload path u h = absurd (ground arith)
check_runner_payload_ok (some d) payload path u h =
    elim (Result-cases (d.decode payload (at path "value"))) [
      | inl (decoded, of_decoded) ↦
          let h' = rw of_decoded at h in (d, decoded, refl, of_decoded, ground arith)
      | inr (e, refused) ↦ let h' = rw refused at h in absurd (ground arith)
    ]

module _ (runner_types : RunnerValueTypeRegistry) (steady : All IsSteady runner_types) where
  pub decode_runner_value-IsSound :
      IsSound (decode_runner_value runner_types) (IsRunnerValue runner_types)
  unfolding decode_runner_value
  decode_runner_value-IsSound = record {
    sound = λ value path x h.
        let (fields, _, h0) = bind_ok (exact_record value path (runner_keys)) _ x h in
        let (schema, h1) =
          require_ok (is_text (property "schema" fields) runner_value_schema) _ _ _ x h0 in
        let (lock, of_lock, h2) = read decode_runner_type_lock-IsSound "type" fields path _ x h1 in
        let (name, of_name, h3) = read decode_text-IsSound "name" fields path _ x h2 in
        let (payload, of_payload, h4) =
          read (any-IsSound decode_canonical_json_value) "value" fields path _ x h3 in
        let (u, of_u, h5) =
          then_ok (check_runner_payload (find_runner_type runner_types lock) payload path) _ x h4 in
        let (d, decoded, found, of_decoded, same) =
          check_runner_payload_ok (find_runner_type runner_types lock) payload path u of_u in
        subst (IsRunnerValue runner_types) (ok_eq _ x h5) (record {
          schema = refl;
          lock = of_lock;
          name = of_name;
          decoder = d;
          registered = found;
          decoded = λ _. decoded;
          decodes = λ other.
              find_runner_type-IsSteady runner_types lock d steady found payload decoded
                (at path "value") other of_decoded;
          same_text = λ _. same;
        });
  }

module _ ⦃digests : Digests⦄ (runner_types : RunnerValueTypeRegistry)
    (steady : All IsSteady runner_types) where
  pub decode_node_plan-IsSound : IsSound (decode_node_plan runner_types) (IsNodePlan runner_types)
  unfolding decode_node_plan
  decode_node_plan-IsSound = record {
    sound = λ value path x h.
        let (fields, _, h0) = bind_ok (exact_record value path (plan_keys)) _ x h in
        let (schema, h1) =
          require_ok (is_text (property "schema" fields) node_plan_schema) _ _ _ x h0 in
        let (next_goals, of_next_goals, h2) =
          read (decode_array-IsSound decode_goal_value-IsSound) "nextGoals" fields path _ x h1 in
        let (keys, h3) =
          require_ok (all_unique (map (λ (goal : GoalValue). goal.key) next_goals)) _ _ _ x h2 in
        let (digests_unique, h4) =
          require_ok (all_unique (map compute_goal_digest next_goals)) _ _ _ x h3 in
        let (how, of_how, h5) =
          read (decode_runner_value-IsSound runner_types steady) "how" fields path _ x h4 in
        subst (IsNodePlan runner_types) (ok_eq _ x h5) (record {
          schema = refl;
          goals = of_next_goals;
          unique_keys = keys;
          unique_digests = digests_unique;
          how = of_how;
        });
  }

pub decode_node_payload_envelope-IsSound :
    IsSound decode_node_payload_envelope IsNodePayloadEnvelope
unfolding decode_node_payload_envelope
decode_node_payload_envelope-IsSound = record {
  sound = λ value path x h.
      let (fields, _, h0) = bind_ok (exact_record value path (envelope_keys)) _ x h in
      let (schema, h1) =
        require_ok (is_text (property "schema" fields) node_payload_envelope_schema) _ _ _ x h0 in
      let (codec, h2) =
        require_ok (is_text (property "codec" fields) node_payload_codec) _ _ _ x h1 in
      let (decoded_size, of_decoded_size, h3) =
        read decode_natural-IsSound "decodedSize" fields path _ x h2 in
      let (decoded_bounded, h4) =
        require_ok (not (ltb max_node_payload_decoded_bytes decoded_size)) _ _ _ x h3 in
      let (encoded_size, of_encoded_size, h5) =
        read decode_natural-IsSound "encodedSize" fields path _ x h4 in
      let (encoded_bounded, h6) =
        require_ok (not (ltb max_node_payload_encoded_bytes encoded_size)) _ _ _ x h5 in
      let (digest, of_digest, h7) =
        read decode_payload_digest-IsSound "digest" fields path _ x h6 in
      let (contents, of_contents, h8) = read decode_base64-IsSound "data" fields path _ x h7 in
      let (measured, h9) = require_ok (nat_eq encoded_size (text_length contents)) _ _ _ x h8 in
      subst IsNodePayloadEnvelope (ok_eq _ x h9) (record {
        schema = refl;
        codec = refl;
        decoded_safe = of_decoded_size;
        decoded_bounded = ground arith;
        encoded_safe = of_encoded_size;
        encoded_bounded = ground arith;
        digest = of_digest;
        contents = of_contents;
        measured = measured;
      });
}
