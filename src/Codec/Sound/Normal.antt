-- ===== src/Codec/Sound/Normal.antt =====
-- `decodeHistoricalV2Comparison` of packages/protocol/src/serialization.ts: the findings that it
-- completes.
use hunsu.Base.{
  ◌≡◌, refl, subst, ℕ, suc, String, true, false, not, ◌==◌, eq_of_==, map, nat_eq, Bool-cases, inl,
  inr, arith, Option, none, some, List, [], ◌∷◌, ◌++◌, Bool, ==_refl, append_assoc,
}
use hunsu.Lists.{All, length, any, find, includes, all_unique}
use hunsu.Lists.Laws.{find-holds}
use hunsu.Protocol.{ok, FindingSummary, ComparisonFinding}
use hunsu.Codec.Fields.{require_some}
use hunsu.Codec.Alternatives.{
  summary_shas, summarizes_each, summaries_path, summary_or, summary_for, is_partial_finding,
  normalize_findings,
}
use hunsu.Codec.Valid.{IsGitSha, IsFilled}
use hunsu.Codec.Valid.Alternatives.{IsFindingSummary, IsComparisonFinding}
use hunsu.Codec.Sound.Steps.{bind_ok, ok_eq, require_ok, require_some_ok}

-- No item of a list is outside of a list that has them all.
includes-push : (x : String) (seen xs : List String) → includes (seen ++ x ∷ xs) x ≡ true
includes-push x [] xs = rw (==_refl x) refl
includes-push x (s ∷ seen) xs = ground (arith, includes-push x seen xs)

none_outside :
    (seen xs : List String) → any (λ (x : String). not (includes (seen ++ xs) x)) xs ≡ false
none_outside seen [] = refl
none_outside seen (x ∷ xs) =
    let rest =
      subst (λ (l : List String). any (λ (y : String). not (includes l y)) xs ≡ false)
        (append_assoc seen (x ∷ []) xs) (none_outside (seen ++ x ∷ []) xs) in
    rw (includes-push x seen xs, rest) refl

find-All {ℓ κ} :
    {A : Type ℓ} (P : A → Type κ) (p : A → Bool) (xs : List A) (x : A)
    → All P xs
    → find p xs ≡ some x
    → P x
find-All P p [] x all h = absurd (ground arith)
find-All P p (y ∷ ys) x (first, rest) h = elim (Bool-cases (p y)) [
  | inl holds ↦ let is : y ≡ x = ground arith in subst P is first
  | inr fails ↦ find-All P p ys x rest (rw fails at h)
]

abbrev has_sha : String → FindingSummary → Bool
has_sha sha item = item.node_sha == sha

module _ (summary sha : String) where
  summary_or-sha :
      (found : Option FindingSummary)
      → ((item : FindingSummary) → found ≡ some item → item.node_sha ≡ sha)
      → (summary_or summary sha found).node_sha ≡ sha
  summary_or-sha none h = refl
  summary_or-sha (some item) h = h item refl

  summary_or-IsFindingSummary :
      (found : Option FindingSummary)
      → IsGitSha sha
      → IsFilled summary
      → ((item : FindingSummary) → found ≡ some item → IsFindingSummary item)
      → IsFindingSummary (summary_or summary sha found)
  summary_or-IsFindingSummary none of_sha filled h = record { node_sha = of_sha; summary = filled }
  summary_or-IsFindingSummary (some item) of_sha filled h = h item refl

module _ (summary : String) (finding : ComparisonFinding) where
  -- The summary for a Node is the Node's.
  summary_for-sha : (sha : String) → (summary_for summary finding sha).node_sha ≡ sha
  summary_for-sha sha =
      summary_or-sha summary sha (find (has_sha sha) finding.summaries) (λ item found.
        eq_of_== item.node_sha sha (find-holds (has_sha sha) finding.summaries item found))

  summary_for-IsFindingSummary :
      (sha : String)
      → IsGitSha sha
      → IsFilled summary
      → All IsFindingSummary finding.summaries
      → IsFindingSummary (summary_for summary finding sha)
  summary_for-IsFindingSummary sha of_sha filled all =
      summary_or-IsFindingSummary summary sha (find (has_sha sha) finding.summaries) of_sha filled
        (λ item found. find-All IsFindingSummary (has_sha sha) finding.summaries item all found)

  completed_shas :
      (shas : List String)
      → map (λ (item : FindingSummary). item.node_sha) (map (summary_for summary finding) shas)
        ≡ shas
  completed_shas [] = refl
  completed_shas (sha ∷ shas) = rw (summary_for-sha sha, completed_shas shas) refl

  completed-All :
      (shas : List String)
      → All IsGitSha shas
      → IsFilled summary
      → All IsFindingSummary finding.summaries
      → All IsFindingSummary (map (summary_for summary finding) shas)
  completed-All [] tt filled all = tt
  completed-All (sha ∷ shas) (first, rest) filled all =
      (summary_for-IsFindingSummary sha first filled all, completed-All shas rest filled all)

length_eq : (n : ℕ) → nat_eq n n ≡ true
length_eq n = ground arith

summarizes_own :
    (shas : List String) (f : ComparisonFinding)
    → summary_shas f ≡ shas
    → all_unique shas ≡ true
    → summarizes_each shas f ≡ true
unfolding summarizes_each
summarizes_own shas f same unique =
    rw (same, length_eq (length shas), unique, none_outside [] shas) refl

-- The findings are complete: every Node of the comparison has exactly one summary.
pub normalize_findings_ok :
    (shas : List String) (summary path : String) (index : ℕ)
    (findings normalized : List ComparisonFinding)
    → All IsGitSha shas
    → all_unique shas ≡ true
    → IsFilled summary
    → All IsComparisonFinding findings
    → normalize_findings shas summary path index findings ≡ ok normalized
    → All IsComparisonFinding normalized
      × All (λ (f : ComparisonFinding). summarizes_each shas f ≡ true) normalized
unfolding normalize_findings
normalize_findings_ok shas summary path index [] normalized of_shas unique filled all h =
    subst
      (λ (l : List ComparisonFinding).
        All IsComparisonFinding l
        × All (λ (f : ComparisonFinding). summarizes_each shas f ≡ true) l)
      (ok_eq [] normalized h) (tt, tt)
normalize_findings_ok shas summary path index (finding ∷ findings) normalized of_shas unique filled
      (first, rest) h =
    let rest_of = normalize_findings shas summary path (suc index) findings in
    let (_, h1) = require_ok (is_partial_finding shas finding) _ _ _ normalized h in
    let (summaries, of_summaries, h2) =
      bind_ok (require_some (map (summary_for summary finding) shas) (summaries_path path index)) _
        normalized h1 in
    let (others, of_others, h3) = bind_ok rest_of _ normalized h2 in
    let (has_summaries, same) =
      require_some_ok (map (summary_for summary finding) shas) summaries _ of_summaries in
    let (of_rest, summarized) =
      normalize_findings_ok shas summary path (suc index) findings others of_shas unique filled rest
        of_others in
    let new : ComparisonFinding = record { subject = finding.subject; summaries = summaries } in
    let of_new : IsComparisonFinding new = record {
      subject = first.subject;
      summaries =
          subst (All IsFindingSummary) same
            (completed-All summary finding shas of_shas filled first.summaries);
      has_summaries = has_summaries;
    } in
    let own : summary_shas new ≡ shas =
      subst (λ (l : List FindingSummary). map (λ (item : FindingSummary). item.node_sha) l ≡ shas)
        same (completed_shas summary finding shas) in
    subst
      (λ (l : List ComparisonFinding).
        All IsComparisonFinding l
        × All (λ (f : ComparisonFinding). summarizes_each shas f ≡ true) l)
      (ok_eq (new ∷ others) normalized h3)
      ((of_new, of_rest), (summarizes_own shas new own unique, summarized))
