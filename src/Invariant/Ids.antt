-- ===== src/Invariant/Ids.antt =====
-- Lists with distinct ids, and the ids of the Runs that packages/core/src/engine.ts replaces.
use hunsu.Base.{
  ◌≡◌, refl, ap, arith, String, Bool, true, false, ◌&&◌, ◌||◌, not, List, [], ◌∷◌, ◌==◌, ==_comm,
  map, Bool-cases, inl, inr,
}
use hunsu.Lists.{any, includes, push}
use hunsu.Lists.Laws.{any-push}
use hunsu.Protocol.{Run, RunId, RunningRun, run_base, running, completed, failed, canceled}
use hunsu.Engine.Lookup.{replace_run, replace_one}

abbrev pub are_distinct : List String → Bool
are_distinct [] = true
are_distinct (x ∷ xs) = not (includes xs x) && are_distinct xs

are_distinct-push :
    (xs : List String) (x : String)
    → are_distinct xs ≡ true
    → includes xs x ≡ false
    → are_distinct (push xs x) ≡ true
are_distinct-push [] x h new = refl
are_distinct-push (y ∷ xs) x h new =
    ground (arith, are_distinct-push xs x, any-push (λ z. z == y) xs x, ==_comm x y)

module _ {ℓ} {A : Type ℓ} (id_of : A → String) where
  pub includes-map :
      (xs : List A) (id : String) → includes (map id_of xs) id ≡ any (λ x. id_of x == id) xs
  includes-map [] id = refl
  includes-map (x ∷ xs) id = ap (λ rest. (id_of x == id) || rest) (includes-map xs id)

  pub map-push : (xs : List A) (x : A) → map id_of (push xs x) ≡ push (map id_of xs) (id_of x)
  map-push [] x = refl
  map-push (y ∷ xs) x = ap (λ rest. id_of y ∷ rest) (map-push xs x)

  -- An item with a new id at the end.
  pub are_distinct-new :
      (xs : List A) (x : A)
      → any (λ y. id_of y == id_of x) xs ≡ false
      → are_distinct (map id_of xs) ≡ true
      → are_distinct (map id_of (push xs x)) ≡ true
  are_distinct-new xs x new h =
      rw (map-push xs x)
        (are_distinct-push (map id_of xs) (id_of x) h (rw (includes-map xs (id_of x)) new))

abbrev pub run_id_of : Run → RunId
run_id_of r = (run_base r).id

module _ (id : RunId) (replace : RunningRun → Run)
    (keeps : (r : RunningRun) → run_id_of (replace r) ≡ r.id) where
  replace_one-run_id_of : (r : Run) → run_id_of (replace_one id replace r) ≡ run_id_of r
  replace_one-run_id_of (running r) = elim (Bool-cases (r.id == id)) [
    | inl same ↦ rw same (keeps r)
    | inr other ↦ rw other refl
  ]
  replace_one-run_id_of (completed r) = refl
  replace_one-run_id_of (failed r) = refl
  replace_one-run_id_of (canceled r) = refl

  pub map-replace_run :
      (runs : List Run) → map run_id_of (replace_run runs id replace) ≡ map run_id_of runs
  unfolding replace_run
  map-replace_run [] = refl
  map-replace_run (r ∷ runs) = rw (replace_one-run_id_of r, map-replace_run runs) refl
