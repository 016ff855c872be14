-- ===== src/Acceptance/Comparing.antt =====
-- Comparing alternatives in packages/core/src/engine.ts: `buildComparison` beside `validateComparison`.
use hunsu.Base.{◌≡◌, arith, inl, inr, ==_refl}
use hunsu.Protocol.{
  ok, ProjectState, Digests, CompareAlternatives, AlternativeComparison, ComparisonKind,
  ComparisonRequest,
}
use hunsu.Engine.Outcomes.{Outcome-cases}
use hunsu.Engine.Comparisons.{
  Candidates, build_comparison, validate_comparison, comparison_kind, comparison_of,
  validate_comparison_kind, resolve_completed_run_candidates,
  validate_coached_how_experiment_candidates,
}

module _ ⦃digests : Digests⦄ where
  validate_comparison_kind-comparison_kind :
      (s : ProjectState) (c : CompareAlternatives) (candidates : Candidates)
      (request : ComparisonRequest) (kind : ComparisonKind)
      → comparison_kind s c candidates request ≡ ok kind
      → validate_comparison_kind s (comparison_of c kind) candidates kind ≡ ok tt
  unfolding comparison_kind validate_comparison_kind
  validate_comparison_kind-comparison_kind s c candidates ComparisonRequest.sibling_runs kind h =
      ground arith
  validate_comparison_kind-comparison_kind s c candidates
        (ComparisonRequest.coached_how_experiment anchor) kind h =
      elim (Outcome-cases
        (validate_coached_how_experiment_candidates s c.project_id anchor candidates)) [
          | inr (e, failed) ↦ ground arith
          | inl (goal_digest, found) ↦ ground (arith, ==_refl goal_digest)
        ]

  pub validate_comparison-build_comparison :
      (s : ProjectState) (c : CompareAlternatives) (comparison : AlternativeComparison)
      → build_comparison s c ≡ ok comparison
      → validate_comparison s comparison ≡ ok tt
  unfolding build_comparison validate_comparison
  validate_comparison-build_comparison s c comparison h =
      elim (Outcome-cases (resolve_completed_run_candidates s c.project_id c.node_shas)) [
        | inr (e, failed) ↦ ground arith
        | inl (candidates, found) ↦
            elim (Outcome-cases (comparison_kind s c candidates c.comparison_type)) [
              | inr (e, failed) ↦ ground arith
              | inl (kind, decided) ↦ ground (
                arith,
                validate_comparison_kind-comparison_kind s c candidates c.comparison_type kind
                    decided,
              )
            ]
      ]
