-- ===== src/Graph/Valid.antt =====
-- The Nodes of one Project under the loops of `validateNodeGraph` in packages/core/src/engine.ts.
use hunsu.Base.{
  subst, ◌≡◌, refl, ◌∙◌, arith, suc, ◌≤◌, ◌<◌, true, false, List, [], ◌∷◌, ◌++◌, ◌==◌, ==_refl,
  eq_of_==, append_assoc, Option, none, some, Bool-cases, inl, inr,
}
use hunsu.Lists.{any, find, filter, push, length}
use hunsu.Lists.Laws.{any-push, any-find-none, find-append_none}
use hunsu.Protocol.{ok, Node, root, run_child, coaching_child, is_root, ProjectId, GitCommitSha}
use hunsu.Engine.Graph.{
  parent_sha_of, sha_of, has_sha, in_project, climb, check_nodes, check_parent,
}
use hunsu.Invariant.Forest.{grows_from, is_root_in}
use hunsu.Graph.Climb.{rooted_from, place_of, parent_place, climb-rooted}

place_of_bound : (sha : GitCommitSha) (ns : List Node) → place_of sha ns ≤ length ns
place_of_bound sha [] = ground arith
place_of_bound sha (n ∷ ns) = ground (arith, place_of_bound sha ns)

module _ (nodes : List Node) (rooted : rooted_from [] nodes ≡ true) where
  check_parent-rooted :
      (n : Node) (parent : Option GitCommitSha)
      → find (has_sha (sha_of n)) nodes ≡ some n
      → parent_sha_of n ≡ parent
      → check_parent (suc (length nodes)) nodes n parent ≡ some (ok tt)
  unfolding climb
  check_parent-rooted n none found has = refl
  check_parent-rooted n (some parent_sha) found has =
      let (parent, is_parent, before) =
        parent_place [] nodes (sha_of n) parent_sha n rooted found has in
      let closer : place_of parent_sha nodes < place_of (sha_of n) nodes = omega arith in
      let other : (parent_sha == sha_of n) ≡ false = elim (Bool-cases (parent_sha == sha_of n)) [
        | inl same ↦
            let closer' =
              subst (λ x. place_of x nodes < place_of (sha_of n) nodes)
                (eq_of_== parent_sha (sha_of n) same) closer in
            absurd (omega arith)
        | inr different ↦ different
      ] in
      let bound = place_of_bound parent_sha nodes in
      rw (other, is_parent)
        (climb-rooted nodes rooted (suc (length nodes)) (sha_of n ∷ []) parent_sha parent is_parent
          (omega arith)
          (λ v member.
            let same : (sha_of n == v) ≡ true = ground arith in
            subst (λ x. place_of parent_sha nodes < place_of x nodes) (eq_of_== (sha_of n) v same)
              closer))

  pub check_nodes-rooted :
      (earlier rest : List Node)
      → earlier ++ rest ≡ nodes
      → rooted_from earlier rest ≡ true
      → check_nodes nodes rest ≡ some (ok tt)
  unfolding check_nodes
  check_nodes-rooted earlier [] split h = refl
  check_nodes-rooted earlier (n ∷ rest) split h =
      let missing = any-find-none (has_sha (sha_of n)) earlier (ground arith) in
      let found : find (has_sha (sha_of n)) nodes ≡ some n =
        rw
          (
            ← split,
            find-append_none (has_sha (sha_of n)) earlier (n ∷ rest) missing,
            ==_refl (sha_of n),
          )
          refl in
      let here = check_parent-rooted n (parent_sha_of n) found refl in
      let others =
        check_nodes-rooted (push earlier n) rest (append_assoc earlier (n ∷ []) rest ∙ split)
          (ground arith) in
      rw (here, others) refl

-- The root of one Project.
module _ (id : ProjectId) where
  pub no_more_roots :
      (earlier ns : List Node)
      → grows_from earlier ns ≡ true
      → any (is_root_in id) earlier ≡ true
      → filter is_root (filter (in_project id) ns) ≡ []
  no_more_roots earlier [] h first = refl
  no_more_roots earlier (root n ∷ ns) h first = elim (Bool-cases (n.project_id == id)) [
    | inl same ↦
        let placed : any (is_root_in n.project_id) earlier ≡ false = ground arith in
        let here : any (is_root_in id) earlier ≡ false =
          rw (← eq_of_== n.project_id id same) placed in
        absurd (ground arith)
    | inr other ↦ ground (
      arith,
      other,
      no_more_roots (push earlier (root n)) ns,
      any-push (is_root_in id) earlier (root n),
    )
  ]
  no_more_roots earlier (run_child n ∷ ns) h first = ground (
    arith,
    no_more_roots (push earlier (run_child n)) ns,
    any-push (is_root_in id) earlier (run_child n),
  )
  no_more_roots earlier (coaching_child n ∷ ns) h first = ground (
    arith,
    no_more_roots (push earlier (coaching_child n)) ns,
    any-push (is_root_in id) earlier (coaching_child n),
  )
