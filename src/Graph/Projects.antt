-- ===== src/Graph/Projects.antt =====
-- `validateNodeGraph` of packages/core/src/engine.ts, Project by Project.
use hunsu.Base.{
  subst, ◌≡◌, refl, ◌∙◌, arith, true, false, List, [], ◌∷◌, ◌++◌, ◌==◌, ==_refl, ==_comm, eq_of_==,
  append_assoc, some, Bool-cases, inl, inr, map,
}
use hunsu.Lists.{any, every, find, filter, push}
use hunsu.Lists.Laws.{any-push, any-append, any-find-none, find-append_none}
use hunsu.Protocol.{
  ok, Digests, DomainEvent, Node, root, run_child, coaching_child, node_base, is_root, Project,
  ProjectState,
}
use hunsu.Engine.Errors.{ProjectIntegrityBoundary}
use hunsu.Engine.Lookup.{is_project}
use hunsu.Engine.Replay.{replay_domain_events}
use hunsu.Engine.Graph.{
  sha_of, in_project, check_project, check_projects, is_declared_root, validate_node_graph,
}
use hunsu.Invariant.Forest.{grows_from, is_root_in}
use hunsu.Invariant.Nodes.{is_declared, replay_domain_events-IsGrounded}
use hunsu.Invariant.Ids.{are_distinct, includes-map}
use hunsu.Invariant.Distinct.{replay_domain_events-IsDistinct}
use hunsu.Graph.Filter.{rooted_from-filter, all_unique-rooted}
use hunsu.Graph.Valid.{check_nodes-rooted, no_more_roots}

module _ (projects : List Project) (project : Project)
    (found : find (is_project project.id) projects ≡ some project) where
  declared_here :
      (n : Node)
      → is_root n ≡ true
      → ((node_base n).project_id == project.id) ≡ true
      → is_declared projects n ≡ true
      → (sha_of n == project.root_node_sha) ≡ true
  declared_here (root n) h same declared =
      let here =
        subst (λ id. is_declared projects (root (record n { project_id = id })) ≡ true)
          (eq_of_== n.project_id project.id same) declared in
      rw found at here
  declared_here (run_child n) h same declared = cc
  declared_here (coaching_child n) h same declared = cc

  one_root :
      (earlier ns : List Node)
      → grows_from earlier ns ≡ true
      → any (is_root_in project.id) ns ≡ true
      → every (is_declared projects) ns ≡ true
      → is_declared_root project (filter is_root (filter (in_project project.id) ns)) ≡ true
  one_root earlier [] h there declared = cc
  one_root earlier (n ∷ ns) h there declared = elim (Bool-cases (is_root_in project.id n)) [
    | inr other ↦ ground (arith, other, one_root (push earlier n) ns)
    | inl here ↦
        let is_first : any (is_root_in project.id) (push earlier n) ≡ true =
          rw (any-push (is_root_in project.id) earlier n, here) (ground arith) in
        let rest = no_more_roots project.id (push earlier n) ns (ground arith) is_first in
        let matches = declared_here n (ground arith) (ground arith) (ground arith) in
        ground (arith, here, rest, matches)
  ]

  check_project-valid :
      (nodes : List Node)
      → grows_from [] nodes ≡ true
      → every (is_declared projects) nodes ≡ true
      → any (is_root_in project.id) nodes ≡ true
      → check_project nodes project ≡ some (ok tt)
  unfolding check_project
  check_project-valid nodes forest declared there =
      let rooted = rooted_from-filter project.id [] nodes forest in
      rw
        (
          all_unique-rooted (filter (in_project project.id) nodes) rooted,
          one_root [] nodes forest there declared,
        )
        (check_nodes-rooted (filter (in_project project.id) nodes) rooted []
          (filter (in_project project.id) nodes) refl rooted)

-- A Project is the first one under its id.
new_id :
    (earlier rest : List Project) (p : Project)
    → are_distinct (map (λ (q : Project). q.id) (earlier ++ p ∷ rest)) ≡ true
    → any (is_project p.id) earlier ≡ false
new_id [] rest p h = refl
new_id (q ∷ earlier) rest p h =
    let unlike : any (λ (x : Project). x.id == q.id) (earlier ++ p ∷ rest) ≡ false =
      rw (← includes-map (λ (x : Project). x.id) (earlier ++ p ∷ rest) q.id) (ground arith) in
    let unlike' = rw (any-append (λ (x : Project). x.id == q.id) earlier (p ∷ rest)) at unlike in
    ground (arith, new_id earlier rest p, ==_comm p.id q.id)

check_projects-valid :
    (nodes : List Node) (projects earlier rest : List Project)
    → earlier ++ rest ≡ projects
    → are_distinct (map (λ (q : Project). q.id) projects) ≡ true
    → grows_from [] nodes ≡ true
    → every (is_declared projects) nodes ≡ true
    → every (λ (p : Project). any (is_root_in p.id) nodes) rest ≡ true
    → check_projects nodes rest ≡ some (ok tt)
unfolding check_projects
check_projects-valid nodes projects earlier [] split distinct forest declared there = refl
check_projects-valid nodes projects earlier (p ∷ rest) split distinct forest declared there =
    let new = new_id earlier rest p (rw split distinct) in
    let found : find (is_project p.id) projects ≡ some p =
      rw
        (
          ← split,
          find-append_none (is_project p.id) earlier (p ∷ rest)
              (any-find-none (is_project p.id) earlier new),
          ==_refl p.id,
        )
        refl in
    rw
      (
        check_project-valid projects p found nodes forest declared (ground arith),
        check_projects-valid nodes projects (earlier ++ p ∷ []) rest
            (append_assoc earlier (p ∷ []) rest ∙ split) distinct forest declared (ground arith),
      )
      refl

module _ ⦃digests : Digests⦄ (integrity : ProjectIntegrityBoundary) where
  -- The state that a history replays to, when every Project has a root Node: `validateNodeGraph`
  -- comes to an end and accepts its Nodes.
  pub validate_node_graph-replayed :
      (events : List DomainEvent) (t : ProjectState)
      → replay_domain_events events integrity ≡ ok t
      → every (λ (p : Project). any (is_root_in p.id) t.nodes) t.projects ≡ true
      → validate_node_graph t ≡ some (ok tt)
  unfolding validate_node_graph
  validate_node_graph-replayed events t h there =
      let grounded = replay_domain_events-IsGrounded integrity events t h in
      let distinct = replay_domain_events-IsDistinct integrity events t h in
      check_projects-valid t.nodes t.projects [] t.projects refl distinct.projects grounded.forest
        grounded.declared there
