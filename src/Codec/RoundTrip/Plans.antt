-- ===== src/Codec/RoundTrip/Plans.antt =====
-- Goals, Runner Values, Node Plans and payloads: what the decoders of
-- packages/protocol/src/serialization.ts read back.
use hunsu.Base.{◌≡◌, refl, String, ◌==◌, ==_of_eq}
use hunsu.Protocol.{
  ok, GoalValue, RunnerTypeLock, RunnerValue, NodePlan, NodePayload, NodePayloadEnvelope, Digests,
}
use hunsu.Codec.Values.{exact_record, keys_of, property, sort_keys, at}
use hunsu.Codec.RoundTrip.Arrays.{decode_array-array_of, decode_text-string}
use hunsu.Codec.RoundTrip.Canonical.{decode_canonical_json_value-unknown_of}
use hunsu.Codec.Fields.{decode_text}
use hunsu.Codec.Plans.{
  RunnerValueTypeRegistry, decode_goal_value, decode_runner_type_lock, decode_runner_value,
  decode_node_plan, decode_node_payload, decode_node_payload_envelope,
}
use hunsu.Codec.Canonical.{unknown_of}
use hunsu.Codec.Objects.{
  string, goal_object, lock_object, runner_object, plan_object, payload_object, envelope_object,
}
use hunsu.Codec.Valid.{
  IsFilled, IsGoalValue, IsRunnerTypeLock, IsRunnerValue, IsNodePlan, IsNodePayload,
  IsNodePayloadEnvelope,
}

pub decode_goal_value-goal_object :
    (g : GoalValue)
    → IsGoalValue g
    → (path : String) → decode_goal_value (unknown_of (goal_object g)) path ≡ ok g
unfolding unknown_of decode_goal_value goal_object exact_record keys_of property sort_keys ◌==◌
decode_goal_value-goal_object g v path =
    rw
      (
        v.key,
        v.title,
        v.desired_outcome,
        decode_array-array_of IsFilled string decode_text decode_text-string g.acceptance_criteria _
            v.criteria,
        v.has_criteria,
        v.unique_criteria,
        decode_array-array_of IsFilled string decode_text decode_text-string g.constraints _
            v.constraints,
        v.unique_constraints,
        v.priority,
      )
      refl

pub decode_runner_type_lock-lock_object :
    (l : RunnerTypeLock)
    → IsRunnerTypeLock l
    → (path : String) → decode_runner_type_lock (unknown_of (lock_object l)) path ≡ ok l
unfolding unknown_of decode_runner_type_lock lock_object exact_record keys_of property sort_keys
    ◌==◌
decode_runner_type_lock-lock_object l v path =
    rw (v.origin, v.key, v.schema_version, v.integrity) refl

module _ (runner_types : RunnerValueTypeRegistry) where
  pub decode_runner_value-runner_object :
      (r : RunnerValue)
      → IsRunnerValue runner_types r
      → (path : String)
      → decode_runner_value runner_types (unknown_of (runner_object r)) path ≡ ok r
  unfolding unknown_of decode_runner_value runner_object exact_record keys_of property sort_keys
      ◌==◌
  decode_runner_value-runner_object r v path =
      let value_path = at path "value" in
      rw
        (
          ==_of_eq r.schema _ v.schema,
          decode_runner_type_lock-lock_object r.lock v.lock,
          v.name,
          decode_canonical_json_value-unknown_of r.value,
          v.registered,
          v.decodes value_path,
          v.same_text value_path,
          v.schema,
        )
        refl

module _ ⦃digests : Digests⦄ (runner_types : RunnerValueTypeRegistry) where
  pub decode_node_plan-plan_object :
      (p : NodePlan)
      → IsNodePlan runner_types p
      → (path : String) → decode_node_plan runner_types (unknown_of (plan_object p)) path ≡ ok p
  unfolding unknown_of decode_node_plan plan_object exact_record keys_of property sort_keys ◌==◌
  decode_node_plan-plan_object p v path =
      rw
        (
          ==_of_eq p.schema _ v.schema,
          decode_array-array_of IsGoalValue goal_object decode_goal_value
              decode_goal_value-goal_object p.next_goals _ v.goals,
          v.unique_keys,
          v.unique_digests,
          decode_runner_value-runner_object runner_types p.how v.how,
          v.schema,
        )
        refl

  pub decode_node_payload-payload_object :
      (p : NodePayload)
      → IsNodePayload runner_types p
      → (path : String)
      → decode_node_payload runner_types (unknown_of (payload_object p)) path ≡ ok p
  unfolding unknown_of decode_node_payload payload_object exact_record keys_of property sort_keys
      ◌==◌
  decode_node_payload-payload_object p v path =
      rw
        (
          ==_of_eq p.schema _ v.schema,
          v.project_id,
          v.commit_sha,
          v.tree_sha,
          decode_node_plan-plan_object p.plan v.plan,
          v.schema,
        )
        refl

pub decode_node_payload_envelope-envelope_object :
    (e : NodePayloadEnvelope)
    → IsNodePayloadEnvelope e
    → (path : String) → decode_node_payload_envelope (unknown_of (envelope_object e)) path ≡ ok e
unfolding unknown_of decode_node_payload_envelope envelope_object exact_record keys_of property
    sort_keys ◌==◌
decode_node_payload_envelope-envelope_object e v path =
    rw
      (
        ==_of_eq e.schema _ v.schema,
        ==_of_eq e.codec _ v.codec,
        v.decoded_safe,
        v.decoded_bounded,
        v.encoded_safe,
        v.encoded_bounded,
        v.digest,
        v.contents,
        v.measured,
        v.schema,
        v.codec,
      )
      refl
