-- ===== src/Engine/Projects.antt =====
-- packages/core/src/engine.ts: creating a Project, and rebuilding its materializations.
use hunsu.Base.{String, Bool, true, false, ◌||◌, ◌!=◌, ⊤}
use hunsu.Lists.{any}
use hunsu.Protocol.{
  ok, ◌>>◌, Digests, DomainActor, user, coach, plugin, system, Project, ProjectId, RootNode,
  NodePayloadEnvelope, ProjectState,
}
use hunsu.Engine.Errors.{
  Outcome, failure, refuse_if, refuse_duplicate_if, map_void, invariant_violation,
  user_confirmation_required, ProjectIntegrityBoundary,
}
use hunsu.Engine.Lookup.{find_project, is_project}
use hunsu.Engine.Nodes.{validate_node_content}

-- `actor.type === "user"`
abbrev pub is_user : DomainActor → Bool
is_user (user _) = true
is_user (coach _) = false
is_user (plugin _) = false
is_user system = false

-- `actor.type === "coach"`
abbrev pub is_coach : DomainActor → Bool
is_coach (user _) = false
is_coach (coach _) = true
is_coach (plugin _) = false
is_coach system = false

-- `if (actor.type !== "user") return failure("USER_CONFIRMATION_REQUIRED", message)`
abbrev pub require_user : DomainActor → String → Outcome ⊤
require_user (user _) message = ok tt
require_user (coach _) message = failure user_confirmation_required message
require_user (plugin _) message = failure user_confirmation_required message
require_user system message = failure user_confirmation_required message

-- `if (actor.type !== "coach") return failure("INVARIANT_VIOLATION", message)`
abbrev pub require_coach : DomainActor → String → Outcome ⊤
require_coach (user _) message = failure invariant_violation message
require_coach (coach _) message = ok tt
require_coach (plugin _) message = failure invariant_violation message
require_coach system message = failure invariant_violation message

unfoldable pub validate_project_event : ProjectState → Project → DomainActor → Outcome ⊤
validate_project_event s project actor = do
  require_user actor "Project initialization requires explicit user confirmation"
  refuse_duplicate_if (any (is_project project.id) s.projects) "Project" project.id

unfoldable pub validate_project_rebuild : ProjectState → ProjectId → DomainActor → Outcome ⊤
validate_project_rebuild s project_id actor = do
  require_user actor "Project materialization rebuild requires explicit user confirmation"
  map_void (find_project s project_id)

-- The test of `rootNode.type` is the type of the argument here.
unfoldable pub validate_project_creation :
    ⦃digests : Digests⦄
    → ProjectState
    → Project
    → RootNode
    → NodePayloadEnvelope
    → DomainActor
    → ProjectIntegrityBoundary
    → Outcome ⊤
validate_project_creation s project root_node payload actor integrity = do
  validate_project_event s project actor
  refuse_if (root_node.project_id != project.id || root_node.commit_sha != project.root_node_sha)
      invariant_violation "Root Node must match the new Project and its declared root SHA"
  validate_node_content root_node payload root_node.registered_at integrity
