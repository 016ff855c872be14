-- ===== src/Acceptance/Creation.antt =====
-- Creating a Project in packages/core/src/engine.ts: the root Node's test after the Project is added.
use hunsu.Base.{◌≡◌, Bool, true, false, arith, [], ◌∷◌, ==_refl, ◌==◌, ==_comm, eq_of_==, ◌&&◌}
use hunsu.Lists.{any, push}
use hunsu.Lists.Laws.{any-false_mono, find-append_none, any-find-none}
use hunsu.Protocol.{
  ok, ProjectState, Digests, Project, RootNode, Node, root, node_base, is_root, NodePayloadEnvelope,
  IsoTimestamp, DomainActor, EventMetadata,
}
use hunsu.Engine.Errors.{ProjectIntegrityBoundary}
use hunsu.Engine.Lookup.{find_project, is_project}
use hunsu.Engine.Journal.{finish}
use hunsu.Engine.Nodes.{validate_new_node, validate_place, validate_node_content}
use hunsu.Engine.Projects.{validate_project_event, validate_project_creation}
use hunsu.Engine.Apply.{apply_root_node, add_node, event_of_user}

abbrev pub in_project : Project → Node → Bool
in_project project n = (node_base n).project_id == project.id

module _ ⦃digests : Digests⦄ (s : ProjectState) (project : Project) (node : RootNode)
    (payload : NodePayloadEnvelope) (integrity : ProjectIntegrityBoundary) where
  -- What the command checks of the Project and its root, in one piece.
  pub record IsCreation (actor : DomainActor) : Type 0 where
    pub by_user : event_of_user actor ≡ ok tt
    pub event : validate_project_event s project actor ≡ ok tt
    pub new_project : any (is_project project.id) s.projects ≡ false
    pub same_project : (node.project_id == project.id) ≡ true
    pub same_sha : (node.commit_sha == project.root_node_sha) ≡ true
    pub content : validate_node_content node payload node.registered_at integrity ≡ ok tt

  pub validate_project_creation-eq-ok :
      (actor : DomainActor)
      → validate_project_creation s project node payload actor integrity ≡ ok tt
      → IsCreation actor
  unfolding validate_project_creation validate_project_event
  validate_project_creation-eq-ok actor h = ground arith

  module _ (t : ProjectState) (projects : t.projects ≡ push s.projects project)
      (nodes : t.nodes ≡ s.nodes) (unused : any (in_project project) s.nodes ≡ false)
      {actor : DomainActor} (c : IsCreation actor) where
    find_new_project : find_project t node.project_id ≡ ok project
    unfolding find_project
    find_new_project = rw (
      projects,
      eq_of_== node.project_id project.id c.same_project,
      find-append_none (is_project project.id) s.projects (project ∷ [])
          (any-find-none (is_project project.id) s.projects c.new_project),
      ==_refl project.id,
    )

    no_such_node :
        (q : Node → Bool)
        → any (λ n. (node_base n).project_id == node.project_id && q n) t.nodes ≡ false
    no_such_node q =
        rw (nodes, eq_of_== node.project_id project.id c.same_project)
          (any-false_mono (in_project project) _ s.nodes (λ n h. ground arith) unused)

    validate_new_root :
        (at : IsoTimestamp)
        → node.registered_at ≡ at
        → validate_new_node t (root node) payload at integrity ≡ ok tt
    unfolding validate_new_node validate_place
    validate_new_root at same_time = rw (
      find_new_project,
      no_such_node (λ n. (node_base n).commit_sha == node.commit_sha),
      no_such_node is_root,
      c.same_sha,
      ← same_time,
      c.content,
    )

    pub apply_root_node-created :
        (meta : EventMetadata)
        → meta.actor ≡ actor
        → node.registered_at ≡ meta.recorded_at
        → apply_root_node t meta node payload integrity ≡ ok (finish (add_node t (root node)) meta)
    unfolding apply_root_node
    apply_root_node-created meta same_actor same_time = rw (
      same_actor,
      c.by_user,
      find_new_project,
      ==_comm project.root_node_sha node.commit_sha,
      c.same_sha,
      validate_new_root meta.recorded_at same_time,
    )
