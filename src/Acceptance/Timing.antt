-- ===== src/Acceptance/Timing.antt =====
-- The times that `decideProjectCommand` and `applyDomainEvent` of packages/core/src/engine.ts compare
-- with the root Node of a new Project.
use hunsu.Base.{◌≡◌, refl, arith, true, false, List, [], ◌∷◌, ◌==◌, inl, inr}
use hunsu.Protocol.{
  ok, err, Digests, ProjectState, Node, node_base, NodePayloadEnvelope, IsoTimestamp, CreateProject,
  create_project, DomainEvent, project_created, root_node_registered,
}
use hunsu.Engine.Errors.{ProjectIntegrityBoundary, ProjectDomainError}
use hunsu.Engine.Outcomes.{Outcome-cases, >>=-eq-ok, >>-eq-ok}
use hunsu.Engine.Journal.{accepted, event_metadata, event_metadata_at, validate_event_identity}
use hunsu.Engine.Nodes.{validate_new_node, validate_node_content}
use hunsu.Engine.Apply.{apply_domain_event, apply_domain_events, apply_event_body}
use hunsu.Engine.Decide.{decide_project_command, apply_project_command}
use hunsu.Acceptance.Pairs.{creation_events}
use hunsu.Acceptance.Commands.{accepted_decision}
use hunsu.Invariant.Passed.{apply_event_body-Passed}

module _ ⦃digests : Digests⦄ (s : ProjectState) (integrity : ProjectIntegrityBoundary) where
  registration_time :
      (n : Node) (payload : NodePayloadEnvelope) (time : IsoTimestamp)
      → validate_new_node s n payload time integrity ≡ ok tt
      → ((node_base n).registered_at == time) ≡ true
  unfolding validate_new_node validate_node_content
  registration_time n payload time h = ground arith

module _ ⦃digests : Digests⦄ (s : ProjectState) (integrity : ProjectIntegrityBoundary) where
  -- The two events of a creation have been applied.
  creation_time :
      (c : CreateProject) (t : ProjectState)
      → apply_domain_events s
          (project_created (event_metadata c.meta) c.project
            ∷ root_node_registered
                (event_metadata_at c.meta c.root_node_event_id)
                c.root_node
                c.payload
            ∷ [])
          integrity
        ≡ ok t
      → (c.root_node.registered_at == c.meta.requested_at) ≡ true
  unfolding apply_domain_events apply_domain_event
  creation_time c t h =
      let created = project_created (event_metadata c.meta) c.project in
      let registered =
        root_node_registered (event_metadata_at c.meta c.root_node_event_id) c.root_node
          c.payload in
      let (u, _, rest) =
        >>=-eq-ok (apply_domain_event s created integrity)
          (λ u. apply_domain_events u (registered ∷ []) integrity) h in
      let (v, second, _) =
        >>=-eq-ok (apply_domain_event u registered integrity)
          (λ v. apply_domain_events v [] integrity) rest in
      let (_, body) =
        >>-eq-ok (validate_event_identity u (event_metadata_at c.meta c.root_node_event_id))
          (apply_event_body u registered integrity) second in
      registration_time u integrity (Node.root c.root_node) c.payload c.meta.requested_at
        (apply_event_body-Passed u integrity v registered body)

  -- A `CreateProject` that the decision accepts, but whose root Node carries another time than the
  -- command, ends in an error when it is applied.
  pub apply_project_command-misdated :
      (c : CreateProject) (events : List DomainEvent)
      → decide_project_command s (create_project c) integrity ≡ ok (accepted events)
      → (c.root_node.registered_at == c.meta.requested_at) ≡ false
      → (e : ProjectDomainError) × (apply_project_command s (create_project c) integrity ≡ err e)
  unfolding apply_project_command
  apply_project_command-misdated c events h misdated =
      let (_, decided) = accepted_decision s integrity (create_project c) events h in
      let (_, _, emitted) = creation_events s integrity c events decided in
      elim (Outcome-cases (apply_domain_events s events integrity)) [
        | inr (e, refused) ↦ (e, rw (h, refused) refl)
        | inl (t, applied) ↦
            let dated = creation_time c t (rw emitted applied) in absurd (ground arith)
      ]
