-- ===== src/Codec/Sound/Findings.antt =====
-- Findings and Nodes of a comparison in packages/protocol/src/serialization.ts.
use hunsu.Base.{◌≡◌, subst, ℕ, suc, String, true, List, [], ◌∷◌, ⊤}
use hunsu.Lists.{All, length, all_unique}
use hunsu.Text.{leb}
use hunsu.Protocol.{ok, ComparisonFinding}
use hunsu.Codec.Values.{Fields, exact_record, at}
use hunsu.Codec.Fields.{require_some, require_two}
use hunsu.Codec.Alternatives.{
  decode_finding_summary, decode_comparison_finding, summarizes_each, summaries_path,
  check_findings, decode_node_shas,
}
use hunsu.Codec.Valid.{IsGitSha}
use hunsu.Codec.Valid.Alternatives.{IsFindingSummary, IsComparisonFinding}
use hunsu.Codec.Sound.Fields.{decode_text-IsSound, decode_git_sha-IsSound}
use hunsu.Codec.Sound.Steps.{
  IsSound, bind_ok, ok_eq, require_ok, require_some_ok, require_two_ok, decode_array-IsSound, read,
}

pub decode_finding_summary-IsSound : IsSound decode_finding_summary IsFindingSummary
unfolding decode_finding_summary
decode_finding_summary-IsSound = record {
  sound = λ value path x h.
      let (fields, _, h0) = bind_ok (exact_record value path ("nodeSha" ∷ "summary" ∷ [])) _ x h in
      let (node_sha, of_node_sha, h1) = read decode_git_sha-IsSound "nodeSha" fields path _ x h0 in
      let (summary, of_summary, h2) = read decode_text-IsSound "summary" fields path _ x h1 in
      subst IsFindingSummary (ok_eq _ x h2)
        (record { node_sha = of_node_sha; summary = of_summary });
}

pub decode_comparison_finding-IsSound : IsSound decode_comparison_finding IsComparisonFinding
unfolding decode_comparison_finding
decode_comparison_finding-IsSound = record {
  sound = λ value path x h.
      let (fields, _, h0) =
        bind_ok (exact_record value path ("subject" ∷ "summaries" ∷ [])) _ x h in
      let (subject, of_subject, h1) = read decode_text-IsSound "subject" fields path _ x h0 in
      let (items, of_items, h2) =
        read (decode_array-IsSound decode_finding_summary-IsSound) "summaries" fields path _ x h1 in
      let (summaries, of_summaries, h3) =
        bind_ok (require_some items (at path "summaries")) _ x h2 in
      let (has_summaries, same) =
        require_some_ok items summaries (at path "summaries") of_summaries in
      subst IsComparisonFinding (ok_eq _ x h3) (record {
        subject = of_subject;
        summaries = subst (All IsFindingSummary) same of_items;
        has_summaries = has_summaries;
      });
}

pub check_findings_ok :
    (shas : List String) (path : String) (index : ℕ) (findings : List ComparisonFinding) (u : ⊤)
    → check_findings shas path index findings ≡ ok u
    → All (λ (f : ComparisonFinding). summarizes_each shas f ≡ true) findings
unfolding check_findings
check_findings_ok shas path index [] u h = tt
check_findings_ok shas path index (finding ∷ findings) u h =
    let (first, rest) =
      require_ok (summarizes_each shas finding) (summaries_path path index) _
        (check_findings shas path (suc index) findings) u h in
    (first, check_findings_ok shas path (suc index) findings u rest)

-- The Nodes of a comparison.
pub node_shas_ok :
    (fields : Fields) (path : String) (shas : List String)
    → decode_node_shas fields path ≡ ok shas
    → All IsGitSha shas × (leb 2 (length shas) ≡ true) × (all_unique shas ≡ true)
unfolding decode_node_shas
node_shas_ok fields path shas h =
    let (all, of_all, h1) =
      read (decode_array-IsSound decode_git_sha-IsSound) "nodeShas" fields path _ shas h in
    let (two, of_two, h2) = bind_ok (require_two all (at path "nodeShas")) _ shas h1 in
    let (unique, h3) = require_ok (all_unique two) _ _ _ shas h2 in
    let (has_two, same) = require_two_ok all two (at path "nodeShas") of_two in
    let is = ok_eq two shas h3 in
    (
      subst (All IsGitSha) is (subst (All IsGitSha) same of_all),
      subst (λ (l : List String). leb 2 (length l) ≡ true) is has_two,
      subst (λ (l : List String). all_unique l ≡ true) is unique,
    )
