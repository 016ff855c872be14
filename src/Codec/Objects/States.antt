-- ===== src/Codec/Objects/States.antt =====
-- packages/protocol/src/model.ts: states as objects, and `encodeProjectState` of
-- packages/protocol/src/serialization.ts.
use hunsu.Base.{String, template, [], ◌∷◌}
use hunsu.Protocol.{CanonicalJsonValue, ProjectState}
use hunsu.Codec.States.{project_state_schema}
use hunsu.Codec.Canonical.{stringify_canonical}
use hunsu.Codec.Objects.{string, object_of, array_of}
use hunsu.Codec.Objects.Records.{project_object, processed_command_object}
use hunsu.Codec.Objects.Nodes.{node_object}
use hunsu.Codec.Objects.Runs.{evidence_object, run_object}
use hunsu.Codec.Objects.Coaching.{
  coach_review_object, coaching_proposal_object, coaching_decision_object,
}
use hunsu.Codec.Objects.Alternatives.{comparison_object, alternative_decision_object}

unfoldable pub state_object : ProjectState → CanonicalJsonValue
state_object x = object_of (
    ("projects", array_of project_object x.projects)
    ∷ ("nodes", array_of node_object x.nodes)
    ∷ ("runs", array_of run_object x.runs)
    ∷ ("evidence", array_of evidence_object x.evidence)
    ∷ ("coachReviews", array_of coach_review_object x.coach_reviews)
    ∷ ("coachingProposals", array_of coaching_proposal_object x.coaching_proposals)
    ∷ ("coachingProposalDecisions", array_of coaching_decision_object x.coaching_proposal_decisions)
    ∷ ("comparisons", array_of comparison_object x.comparisons)
    ∷ ("decisions", array_of alternative_decision_object x.decisions)
    ∷ ("processedCommands", array_of processed_command_object x.processed_commands)
    ∷ [])

-- `{ schema: PROJECT_STATE_SCHEMA, state }`
unfoldable pub state_document : ProjectState → CanonicalJsonValue
state_document state =
    object_of (("schema", string project_state_schema) ∷ ("state", state_object state) ∷ [])

unfoldable pub encode_project_state : ProjectState → String
encode_project_state state = template (stringify_canonical (state_document state) ∷ "\n" ∷ [])
