-- ===== src/Tests/Divergences.antt =====
-- Divergences of the sample Project: two children of one Node, before and after the decisions.
use hunsu.Base.{◌≡◌, refl, List, [], ◌∷◌}
use hunsu.Protocol.{ProjectCommand}
use hunsu.Engine.Journal.{empty_project_state}
use hunsu.Engine.Divergence.{
  unresolved_divergence_count, run_children, total, add_cohort, coached_cohorts,
  is_candidate_cohort_resolved,
}
use hunsu.Tests.Sample.{creation, start, attach, completion, sample_digests}
use hunsu.Tests.Run.{engine, run_all, state_of}
use hunsu.Tests.Histories.{decided_state}

abbrev diverged : List ProjectCommand
diverged =
    creation
    ∷ start "r1"
    ∷ attach "r1"
    ∷ completion "r1" "bb"
    ∷ start "r2"
    ∷ attach "r2"
    ∷ completion "r2" "cc"
    ∷ []

diverged_count :
    unresolved_divergence_count (state_of (run_all empty_project_state diverged)) "p" ≡ 1
unfolding engine run_all unresolved_divergence_count run_children total add_cohort coached_cohorts
    is_candidate_cohort_resolved
diverged_count = refl

decided_count : unresolved_divergence_count decided_state "p" ≡ 0
unfolding engine run_all unresolved_divergence_count run_children total add_cohort coached_cohorts
    is_candidate_cohort_resolved
decided_count = refl
