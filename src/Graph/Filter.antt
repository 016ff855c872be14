-- ===== src/Graph/Filter.antt =====
-- The Nodes of one Project, as `validateNodeGraph` of packages/core/src/engine.ts filters them, out of
-- the forest of all Nodes.
use hunsu.Base.{
  append-nil, ◌∙◌, if◌then◌else◌, ◌≡◌, refl, sym, ap, arith, ℕ, true, false, List, [], ◌∷◌, ◌++◌,
  eq_of_==, append_assoc, Bool-cases, inl, inr, map, nat_eq,
}
use hunsu.Lists.{any, filter, includes, push, length, set_from, set_of, all_unique}
use hunsu.Protocol.{Node, root, run_child, coaching_child, node_base, ProjectId, GitCommitSha}
use hunsu.Engine.Lookup.{is_node}
use hunsu.Engine.Graph.{parent_sha_of, sha_of, has_sha, in_project}
use hunsu.Invariant.Forest.{grows_from, has_place}
use hunsu.Invariant.Ids.{includes-map, map-push}
use hunsu.Graph.Climb.{has_parent, rooted_from}

module _ (id : ProjectId) where
  any-filter :
      (sha : GitCommitSha) (ns : List Node)
      → any (has_sha sha) (filter (in_project id) ns) ≡ any (is_node id sha) ns
  any-filter sha [] = refl
  any-filter sha (n ∷ ns) = ground (arith, any-filter sha ns)

  filter-push :
      (ns : List Node) (n : Node)
      → in_project id n ≡ true
      → filter (in_project id) (push ns n) ≡ push (filter (in_project id) ns) n
  filter-push [] n h = ground arith
  filter-push (m ∷ ns) n h = ground (arith, filter-push ns n h)

  filter-push_other :
      (ns : List Node) (n : Node)
      → in_project id n ≡ false
      → filter (in_project id) (push ns n) ≡ filter (in_project id) ns
  filter-push_other [] n h = ground arith
  filter-push_other (m ∷ ns) n h = ground (arith, filter-push_other ns n h)

  has_parent-filter :
      (earlier : List Node) (n : Node)
      → (node_base n).project_id ≡ id
      → has_place earlier n ≡ true
      → has_parent (filter (in_project id) earlier) (parent_sha_of n) ≡ true
  has_parent-filter earlier (root n) same h = refl
  has_parent-filter earlier (run_child n) same h = rw (any-filter n.parent_sha earlier, ← same) h
  has_parent-filter earlier (coaching_child n) same h =
      rw (any-filter n.parent_sha earlier, ← same) h

  pub rooted_from-filter :
      (earlier ns : List Node)
      → grows_from earlier ns ≡ true
      → rooted_from (filter (in_project id) earlier) (filter (in_project id) ns) ≡ true
  rooted_from-filter earlier [] h = refl
  rooted_from-filter earlier (n ∷ ns) h = elim (Bool-cases (in_project id n)) [
    | inr other ↦
        let rest = rooted_from-filter (push earlier n) ns (ground arith) in
        rw other (rw (← filter-push_other earlier n other) rest)
    | inl same ↦
        let here = eq_of_== (node_base n).project_id id same in
        let placed = has_parent-filter earlier n here (ground arith) in
        let new : any (is_node id (sha_of n)) earlier ≡ false = rw (← here) (ground arith) in
        let rest = rooted_from-filter (push earlier n) ns (ground arith) in
        rw (same, any-filter (sha_of n) earlier, new, placed)
          (rw (← filter-push earlier n same) rest)
  ]

-- Commits in a rooted list are distinct, so a set of them is as long as the list.
set_from-rooted :
    (earlier ns : List Node)
    → rooted_from earlier ns ≡ true
    → set_from (map sha_of earlier) (map sha_of ns) ≡ map sha_of (earlier ++ ns)
unfolding set_from
set_from-rooted earlier [] h = ground (arith, append-nil earlier)
set_from-rooted earlier (n ∷ ns) h =
    let new : includes (map sha_of earlier) (sha_of n) ≡ false =
      rw (includes-map sha_of earlier (sha_of n)) (ground arith) in
    let rest = set_from-rooted (push earlier n) ns (ground arith) in
    ap
      (λ b.
        set_from (if b then map sha_of earlier else push (map sha_of earlier) (sha_of n))
          (map sha_of ns))
      new
    ∙ ap (λ seen. set_from seen (map sha_of ns)) (sym (map-push sha_of earlier n))
    ∙ rest
    ∙ ap (map sha_of) (append_assoc earlier (n ∷ []) ns)

nat_eq_refl : (n : ℕ) → nat_eq n n ≡ true
nat_eq_refl n = ground arith

pub all_unique-rooted :
    (ns : List Node) → rooted_from [] ns ≡ true → all_unique (map sha_of ns) ≡ true
unfolding all_unique set_of
all_unique-rooted ns h = rw (set_from-rooted [] ns h) (nat_eq_refl (length (map sha_of ns)))
