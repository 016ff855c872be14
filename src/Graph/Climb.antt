-- ===== src/Graph/Climb.antt =====
-- The `while` loop of `validateNodeGraph` in packages/core/src/engine.ts, on lists where a parent comes
-- before its children.
use hunsu.Base.{
  ◌≡◌, refl, ap, arith, ℕ, zero, suc, ◌+◌, ◌<◌, Bool, true, false, ◌&&◌, not, List, [], ◌∷◌, ◌++◌,
  ◌==◌, eq_of_==, append_assoc, Option, none, some, Option-cases, Bool-cases, inl, inr,
  if◌then◌else◌,
}
use hunsu.Lists.{any, find, includes, push, length}
use hunsu.Lists.Laws.{any-push, find-holds, find-none-any, find-append_some}
use hunsu.Protocol.{ok, Node, GitCommitSha}
use hunsu.Engine.Graph.{parent_sha_of, sha_of, has_sha, climb}

abbrev pub has_parent : List Node → Option GitCommitSha → Bool
has_parent earlier none = true
has_parent earlier (some parent_sha) = any (has_sha parent_sha) earlier

-- No commit twice, and a parent comes before its children.
abbrev pub rooted_from : List Node → List Node → Bool
rooted_from earlier [] = true
rooted_from earlier (n ∷ ns) =
    not (any (has_sha (sha_of n)) earlier)
    && (has_parent earlier (parent_sha_of n) && rooted_from (push earlier n) ns)

-- The place of a commit in the list.
abbrev pub place_of : GitCommitSha → List Node → ℕ
place_of sha [] = 0
place_of sha (n ∷ ns) = let rest = place_of sha ns in if has_sha sha n then 0 else suc rest

pub place_of-append :
    (sha : GitCommitSha) (earlier rest : List Node)
    → any (has_sha sha) earlier ≡ true
    → place_of sha (earlier ++ rest) < length earlier
place_of-append sha [] rest h = cc
place_of-append sha (n ∷ earlier) rest h = ground (arith, place_of-append sha earlier rest)

length-push : (xs : List Node) (x : Node) → length (push xs x) ≡ suc (length xs)
length-push [] x = refl
length-push (y ∷ xs) x = ap suc (length-push xs x)

-- The parent of a Node stands further in front.
pub parent_place :
    (earlier rest : List Node) (sha parent_sha : GitCommitSha) (n : Node)
    → rooted_from earlier rest ≡ true
    → find (has_sha sha) rest ≡ some n
    → parent_sha_of n ≡ some parent_sha
    → (parent : Node) × (find (has_sha parent_sha) (earlier ++ rest) ≡ some parent)
      × (place_of parent_sha (earlier ++ rest) < length earlier + place_of sha rest)
parent_place earlier [] sha parent_sha n rooted found has = cc
parent_place earlier (m ∷ rest) sha parent_sha n rooted found has =
    elim (Bool-cases (has_sha sha m)) [
      | inl here ↦
          let same : m ≡ n = ground (arith, here) in
          let there : any (has_sha parent_sha) earlier ≡ true =
            let placed : has_parent earlier (parent_sha_of n) ≡ true = rw (← same) (ground arith) in
            rw has at placed in
          elim (Option-cases (find (has_sha parent_sha) earlier)) [
            | inl missing ↦
                absurd (ground (arith, find-none-any (has_sha parent_sha) earlier missing))
            | inr (parent, is_parent) ↦ (
              parent,
              find-append_some (has_sha parent_sha) earlier (m ∷ rest) parent is_parent,
              ground (arith, here, place_of-append parent_sha earlier (m ∷ rest) there),
            )
          ]
      | inr other ↦
          let (parent, is_parent, before) =
            parent_place (push earlier m) rest sha parent_sha n (ground arith)
              (ground (arith, other)) has in
          (
            parent,
            rw (← append_assoc earlier (m ∷ []) rest) is_parent,
            rw (← append_assoc earlier (m ∷ []) rest, other)
                (ground (arith, before, length-push earlier m)),
          )
    ]

-- Fuel beyond the place of the cursor is enough, and no commit is visited twice.
module _ (nodes : List Node) (rooted : rooted_from [] nodes ≡ true) where
  pub climb-rooted :
      (fuel : ℕ) (visited : List GitCommitSha) (sha : GitCommitSha) (n : Node)
      → find (has_sha sha) nodes ≡ some n
      → place_of sha nodes < fuel
      → ((v : GitCommitSha) → includes visited v ≡ true → place_of sha nodes < place_of v nodes)
      → climb fuel nodes visited n ≡ some (ok tt)
  unfolding climb
  climb-rooted zero visited sha n found enough behind = absurd (omega arith)
  climb-rooted (suc fuel) visited sha n found enough behind =
      let same = eq_of_== (sha_of n) sha (find-holds (has_sha sha) nodes n found) in
      elim (Option-cases (parent_sha_of n)) [
        | inl is_root ↦ rw is_root refl
        | inr (parent_sha, has) ↦
            let (parent, is_parent, before) =
              parent_place [] nodes sha parent_sha n rooted found has in
            let closer : place_of parent_sha nodes < place_of sha nodes = omega arith in
            let unvisited : includes visited sha ≡ false =
              elim (Bool-cases (includes visited sha)) [
                | inl again ↦ let later = behind sha again in absurd (omega arith)
                | inr new ↦ new
              ] in
            rw (has, same, unvisited, is_parent)
              (climb-rooted fuel (push visited sha) parent_sha parent is_parent (omega arith)
                (λ v member. elim (Bool-cases (sha == v)) [
                  | inl here ↦ rw (← eq_of_== sha v here) closer
                  | inr other ↦
                      let old : includes visited v ≡ true =
                        ground (arith, other, any-push (λ y. y == v) visited sha) in
                      let later = behind v old in omega arith
                ]))
      ]
