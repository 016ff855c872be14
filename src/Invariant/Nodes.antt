-- ===== src/Invariant/Nodes.antt =====
-- The places of Nodes in the states of packages/core/src/engine.ts, under `validateNewNode`.
use hunsu.Base.{
  ◌≡◌, refl, arith, Bool, true, false, List, [], ◌∷◌, ◌==◌, Option, none, some, Option-cases,
  String, inl, inr,
}
use hunsu.Lists.{any, every, find, push}
use hunsu.Lists.Laws.{every-push, find-append_some, find-some-any}
use hunsu.Protocol.{
  ok, Digests, ProjectState, DomainEvent, project_created, root_node_registered,
  run_child_node_registered, coaching_child_node_registered, Node, root, run_child, coaching_child,
  node_base, Project, NodePayloadEnvelope, IsoTimestamp, CoachingChildNode, RunChildNode, Run,
  completed,
}
use hunsu.Engine.Errors.{ProjectIntegrityBoundary, map_void, refuse_if, invariant_violation}
use hunsu.Engine.Outcomes.{>>-eq-ok, refuse_duplicate_if-eq-ok}
use hunsu.Engine.Lookup.{is_node, is_project, find_project, find_node}
use hunsu.Engine.Journal.{finish, empty_project_state}
use hunsu.Engine.Nodes.{validate_new_node, validate_place, validate_parent}
use hunsu.Engine.Runs.{validate_run_child_node}
use hunsu.Engine.Coaching.{validate_coaching_child_event, validate_coaching_child}
use hunsu.Engine.Replay.{replay_domain_events}
use hunsu.History.Effect.{effect}
use hunsu.Invariant.Passed.{Passed}
use hunsu.Invariant.Induction.{IsKept, replay_domain_events-kept}
use hunsu.Invariant.Forest.{grows_from, grows_from-push, is_new, has_place}

-- The Project of the Node is there, and a root is the one that its Project declares.
abbrev pub declared_by : Option Project → Node → Bool
declared_by none n = false
declared_by (some p) (root n) = n.commit_sha == p.root_node_sha
declared_by (some p) _ = true

abbrev pub is_declared : List Project → Node → Bool
is_declared projects n = declared_by (find (is_project (node_base n).project_id) projects) n

pub record IsGrounded (s : ProjectState) : Type 0 where
  pub forest : grows_from [] s.nodes ≡ true
  pub declared : every (is_declared s.projects) s.nodes ≡ true

is_declared-push :
    (projects : List Project) (p : Project) (n : Node)
    → is_declared projects n ≡ true
    → is_declared (push projects p) n ≡ true
is_declared-push projects p n h =
    elim (Option-cases (find (is_project (node_base n).project_id) projects)) [
      | inl missing ↦ absurd (ground arith)
      | inr (q, found) ↦
          rw
            (
              find-append_some (is_project (node_base n).project_id) projects (p ∷ []) q found,
              ← found,
            )
            h
    ]

every_declared-push :
    (projects : List Project) (p : Project) (nodes : List Node)
    → every (is_declared projects) nodes ≡ true
    → every (is_declared (push projects p)) nodes ≡ true
every_declared-push projects p [] h = refl
every_declared-push projects p (n ∷ nodes) h =
    ground (arith, is_declared-push projects p n, every_declared-push projects p nodes)

module _ (s : ProjectState) where
  pub add_node-IsGrounded :
      (n : Node)
      → IsGrounded s
      → is_new s.nodes n ≡ true
      → has_place s.nodes n ≡ true
      → is_declared s.projects n ≡ true
      → IsGrounded (record s { nodes = push s.nodes n })
  add_node-IsGrounded n g new place declared = record {
    forest = grows_from-push [] s.nodes n g.forest new place;
    declared = every-push (is_declared s.projects) s.nodes n g.declared declared;
  }

-- What `validateNewNode` has looked at.
module _ ⦃digests : Digests⦄ (s : ProjectState) where
  found_parent :
      (id sha : String)
      → map_void (find_node s id sha) ≡ ok tt
      → any (is_node id sha) s.nodes ≡ true
  unfolding find_node
  found_parent id sha h = elim (Option-cases (find (is_node id sha) s.nodes)) [
    | inl missing ↦ absurd (ground arith)
    | inr (parent, found) ↦ find-some-any (is_node id sha) s.nodes parent found
  ]

  place_of :
      (project : Project) (n : Node)
      → find (is_project (node_base n).project_id) s.projects ≡ some project
      → validate_place s project n ≡ ok tt
      → (has_place s.nodes n ≡ true) × (is_declared s.projects n ≡ true)
  unfolding validate_place validate_parent
  place_of project (root n) found h = ground arith
  place_of project (run_child n) found h = (
    found_parent n.project_id n.parent_sha
        (>>-eq-ok
          (refuse_if (n.parent_sha == n.commit_sha) invariant_violation
            "Node cannot be its own parent")
          (map_void (find_node s n.project_id n.parent_sha)) h).1,
    rw found refl,
  )
  place_of project (coaching_child n) found h = (
    found_parent n.project_id n.parent_sha
        (>>-eq-ok
          (refuse_if (n.parent_sha == n.commit_sha) invariant_violation
            "Node cannot be its own parent")
          (map_void (find_node s n.project_id n.parent_sha)) h).1,
    rw found refl,
  )

module _ ⦃digests : Digests⦄ (s : ProjectState) (integrity : ProjectIntegrityBoundary) where
  new_node-IsGrounded :
      (n : Node) (payload : NodePayloadEnvelope) (at : IsoTimestamp)
      → validate_new_node s n payload at integrity ≡ ok tt
      → IsGrounded s
      → IsGrounded (record s { nodes = push s.nodes n })
  unfolding validate_new_node find_project
  new_node-IsGrounded n payload at h g =
      elim (Option-cases (find (is_project (node_base n).project_id) s.projects)) [
        | inl missing ↦ absurd (ground arith)
        | inr (project, found) ↦
            let h' = rw found at h in
            let (new, rest) = >>-eq-ok _ _ h' in
            let (placed, _) = >>-eq-ok (validate_place s project n) _ rest in
            let (place, declared) = place_of s project n found placed in
            add_node-IsGrounded s n g
              (rw (refuse_duplicate_if-eq-ok _ "Node" (node_base n).commit_sha new) refl) place
              declared
      ]

  child_test :
      (run : Run) (node : RunChildNode) (payload : NodePayloadEnvelope) (at : IsoTimestamp)
      → validate_run_child_node s run node payload at integrity ≡ ok tt
      → validate_new_node s (run_child node) payload at integrity ≡ ok tt
  unfolding validate_run_child_node
  child_test run node payload at h = ground arith

  coaching_test :
      (node : CoachingChildNode) (payload : NodePayloadEnvelope) (at : IsoTimestamp)
      → validate_coaching_child_event s node payload at integrity ≡ ok tt
      → validate_new_node s (coaching_child node) payload at integrity ≡ ok tt
  unfolding validate_coaching_child_event validate_coaching_child
  coaching_test node payload at h = ground arith

  project-IsGrounded :
      (p : Project) → IsGrounded s → IsGrounded (record s { projects = push s.projects p })
  project-IsGrounded p g = record {
    forest = g.forest;
    declared = every_declared-push s.projects p s.nodes g.declared;
  }

  effect-IsGrounded :
      (e : DomainEvent) → Passed s integrity e → IsGrounded s → IsGrounded (effect s e)
  effect-IsGrounded (project_created meta p) h g = project-IsGrounded p g
  effect-IsGrounded (root_node_registered meta node payload) h g =
      new_node-IsGrounded (root node) payload meta.recorded_at h g
  effect-IsGrounded (run_child_node_registered meta node payload) (run, _, h) g =
      new_node-IsGrounded (run_child node) payload meta.recorded_at
        (child_test (completed run) node payload meta.recorded_at h) g
  effect-IsGrounded (coaching_child_node_registered meta node payload) h g =
      new_node-IsGrounded (coaching_child node) payload meta.recorded_at
        (coaching_test node payload meta.recorded_at h) g
  effect-IsGrounded _ h g = record { forest = g.forest; declared = g.declared }

module _ ⦃digests : Digests⦄ (integrity : ProjectIntegrityBoundary) where
  step-IsGrounded : IsKept IsGrounded integrity
  unfolding finish
  step-IsGrounded s e passed g =
      let next = effect-IsGrounded s integrity e passed g in
      record { forest = next.forest; declared = next.declared }

  -- In the state that a history replays to, the Nodes stand in the order of a forest: no commit of
  -- a Project is there twice, a Node with a parent comes behind that parent, in the same Project, and
  -- a Project has one root at most. Every Node's Project is there, and declares the root's commit.
  pub replay_domain_events-IsGrounded :
      (events : List DomainEvent) (t : ProjectState)
      → replay_domain_events events integrity ≡ ok t
      → IsGrounded t
  unfolding empty_project_state
  replay_domain_events-IsGrounded events t h =
      replay_domain_events-kept IsGrounded integrity step-IsGrounded events t h
        (record { forest = refl; declared = refl })
