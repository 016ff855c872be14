-- ===== src/Tests/Sample.antt =====
-- A sample Project for packages/core/src/engine.ts, with one root Node and two Goals, and
-- commands on it.
use hunsu.Base.{String, List, [], ◌∷◌, template, map}
use hunsu.Protocol.{
  ok, Digests, Project, GoalValue, RunnerValue, NodePlan, NodePayloadEnvelope, NodeBase,
  RunChildNode, null, node_plan_schema, runner_value_schema, user, CommandMetadata, DomainActor,
  EvidenceRef, criterion, report, url, ProjectCommand, create_project, start_run,
  attach_run_evidence, complete_run, managed_node_ref, run_branch_name, EvidenceTarget,
}
use hunsu.Engine.Errors.{ProjectIntegrityBoundary}

-- Digests that tell the sample's values apart.
instance abbrev pub sample_digests : Digests
sample_digests = record {
  goal_digest_of = λ g. g.key;
  runner_digest_of = λ r. r.name;
  plan_digest_of =
      λ p. template (p.schema ∷ p.how.name ∷ map (λ (g : GoalValue). g.key) p.next_goals);
  payload_digest_of = λ p. p.commit_sha;
  payload_bytes_of = λ p. 10;
}

abbrev pub trusting : ProjectIntegrityBoundary
trusting = record { verify_node_payload = λ _ _. ok tt }

abbrev pub goal : String → GoalValue
goal key = record {
  key = key;
  title = "title";
  desired_outcome = "outcome";
  acceptance_criteria = "builds" ∷ [];
  constraints = [];
  priority = 1;
}

abbrev pub player : RunnerValue
player = record {
  schema = runner_value_schema;
  lock = record { origin = "hunsu"; key = "player"; schema_version = "1.0.0"; integrity = "i" };
  name = "player";
  value = null;
}

abbrev pub plan_of : List String → NodePlan
plan_of keys = record { schema = node_plan_schema; next_goals = map goal keys; how = player }

abbrev pub project : Project
project = record {
  id = "p";
  workspace_id = "w";
  repository = record { owner = "o"; name = "r" };
  base_ref = "refs/heads/main";
  title = "t";
  root_node_sha = "aa";
  created_at = "t0";
}

abbrev pub node_at : String → List String → String → NodeBase
node_at sha keys time = record {
  project_id = "p";
  commit_sha = sha;
  tree_sha = "tree";
  managed_ref = managed_node_ref "p" sha;
  commit_title = "commit";
  plan = plan_of keys;
  plan_digest = sample_digests.plan_digest_of (plan_of keys);
  payload_digest = sha;
  registered_at = time;
}

abbrev pub envelope : String → NodePayloadEnvelope
envelope sha = record {
  schema = "s";
  codec = "c";
  decoded_size = 10;
  encoded_size = 4;
  digest = sha;
  contents = "AAAA";
}

abbrev pub meta_of : String → DomainActor → String → CommandMetadata
meta_of name actor time = record {
  event_id = template ("e-" ∷ name ∷ []);
  idempotency_key = template ("k-" ∷ name ∷ []);
  fingerprint = template ("f-" ∷ name ∷ []);
  expected_state_sha = "head";
  actor = actor;
  requested_at = time;
}

abbrev pub creation : ProjectCommand
creation = create_project (record {
  meta = meta_of "create" (user "u") "t1";
  root_node_event_id = "e-root";
  project = project;
  root_node = node_at "aa" ("g1" ∷ "g2" ∷ []) "t1";
  payload = envelope "aa";
})

abbrev pub start : String → ProjectCommand
start id = start_run (record {
  meta = meta_of (template ("start-" ∷ id ∷ [])) (user "u") "t2";
  run_id = id;
  project_id = "p";
  source_node_sha = "aa";
  goal_digest = "g1";
  branch = run_branch_name "p" "aa" id;
})

abbrev pub evidence_for : String → EvidenceTarget → EvidenceRef
evidence_for run_id target = record {
  id = template ("x-" ∷ run_id ∷ []);
  project_id = "p";
  run_id = run_id;
  target = target;
  kind = report;
  summary = "done";
  location = url "https://example.org";
  recorded_at = "t3";
}

abbrev pub attach : String → ProjectCommand
attach id =
    attach_run_evidence (meta_of (template ("attach-" ∷ id ∷ [])) (user "u") "t3")
      (evidence_for id (criterion "builds"))

abbrev pub child : String → String → RunChildNode
child id sha = record {
  base = node_at sha ("g2" ∷ []) "t4";
  parent_sha = "aa";
  run_id = id;
  consumed_goal_digest = "g1";
}

abbrev pub completion : String → String → ProjectCommand
completion id sha = complete_run (record {
  meta = meta_of (template ("complete-" ∷ id ∷ [])) (user "u") "t4";
  node_event_id = template ("e-child-" ∷ id ∷ []);
  result = record {
    run_id = id;
    branch = run_branch_name "p" "aa" id;
    result_sha = sha;
    verified_at = "t4";
  };
  node = child id sha;
  payload = envelope sha;
})

-- The evidence of `attach`, sent under another key.
abbrev pub rekey : String → ProjectCommand → ProjectCommand
rekey key (attach_run_evidence meta evidence) =
    attach_run_evidence (record meta { idempotency_key = key }) evidence
rekey key c = c
