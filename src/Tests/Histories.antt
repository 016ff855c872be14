-- ===== src/Tests/Histories.antt =====
-- A history of the sample Project with two alternatives, and the invariants of its replay.
use hunsu.Base.{◌≡◌, refl, true, false, ◌&&◌, List, [], ◌∷◌, ◌++◌}
use hunsu.Lists.{every}
use hunsu.Protocol.{
  ok, err, ProjectState, ProjectCommand, DomainEvent, compare_alternatives, select_alternative,
  reject_alternatives, user, ComparisonRequest,
}
use hunsu.Engine.Errors.{Outcome}
use hunsu.Engine.Journal.{empty_project_state, CommandApplication}
use hunsu.Engine.Decide.{apply_project_command}
use hunsu.Engine.Lookup.{is_rejected_node}
use hunsu.Engine.Replay.{replay_domain_events}
use hunsu.Coherence.Replay.{replay_domain_events-append}
use hunsu.Engine.Journal.{accepted}
use hunsu.Engine.Decide.{decide_project_command}
use hunsu.Tests.Run.{events_of}
use hunsu.Base.{some}
use hunsu.Engine.Graph.{validate_node_graph}
use hunsu.Graph.Projects.{validate_node_graph-replayed}
use hunsu.Invariant.Nodes.{IsGrounded, replay_domain_events-IsGrounded}
use hunsu.Invariant.Decided.{is_selected_node, replay_domain_events-IsApart}
use hunsu.Invariant.Distinct.{IsDistinct, replay_domain_events-IsDistinct}
use hunsu.Invariant.Coverage.{is_proven, replay_domain_events-is_proven}
use hunsu.Tests.Sample.{trusting, creation, start, attach, completion, meta_of, sample_digests}
use hunsu.Tests.Run.{engine, run_all, state_of}

abbrev pub comparing : ProjectCommand
comparing = compare_alternatives (record {
  meta = meta_of "compare" (user "u") "t5";
  comparison_type = ComparisonRequest.sibling_runs;
  comparison_id = "c1";
  project_id = "p";
  node_shas = "bb" ∷ "cc" ∷ [];
  findings =
      record {
        subject = "speed";
        summaries =
            record { node_sha = "bb"; summary = "fast" }
            ∷ record { node_sha = "cc"; summary = "slow" }
            ∷ [];
      }
      ∷ [];
  summary = "bb";
})

abbrev pub selecting : ProjectCommand
selecting = select_alternative (record {
  meta = meta_of "select" (user "u") "t6";
  decision_id = "d1";
  project_id = "p";
  comparison_id = "c1";
  selected_node_sha = "bb";
  rationale = "fast";
})

abbrev pub rejecting : ProjectCommand
rejecting = reject_alternatives (record {
  meta = meta_of "reject" (user "u") "t7";
  decision_id = "d2";
  project_id = "p";
  comparison_id = "c1";
  rejected_node_shas = "cc" ∷ [];
  rationale = "slow";
})

abbrev pub commands : List ProjectCommand
commands =
    creation
    ∷ start "r1"
    ∷ attach "r1"
    ∷ completion "r1" "bb"
    ∷ start "r2"
    ∷ attach "r2"
    ∷ completion "r2" "cc"
    ∷ comparing
    ∷ selecting
    ∷ rejecting
    ∷ []

abbrev emitted_by :
    Outcome CommandApplication → (ProjectState → List DomainEvent) → List DomainEvent
emitted_by (ok done) rest = done.emitted_events ++ rest done.state
emitted_by (err _) rest = []

unfoldable history_of : List ProjectCommand → ProjectState → List DomainEvent
history_of [] s = []
history_of (c ∷ cs) s = emitted_by (apply_project_command s c trusting) (history_of cs)

abbrev history : List DomainEvent
history = history_of commands empty_project_state

abbrev pub decided_state : ProjectState
decided_state = state_of (run_all empty_project_state commands)

history_replays : replay_domain_events history trusting ≡ ok decided_state
unfolding engine run_all history_of
history_replays = refl

both_decided :
    (is_selected_node decided_state "p" "bb" && is_rejected_node decided_state "p" "cc") ≡ true
unfolding engine run_all
both_decided = refl

replay_domain_events-IsGrounded_example : IsGrounded decided_state
replay_domain_events-IsGrounded_example =
    replay_domain_events-IsGrounded trusting history decided_state history_replays

replay_domain_events-IsApart_example :
    (is_selected_node decided_state "p" "bb" && is_rejected_node decided_state "p" "bb") ≡ false
replay_domain_events-IsApart_example =
    replay_domain_events-IsApart trusting "p" "bb" history decided_state history_replays

replay_domain_events-IsDistinct_example : IsDistinct decided_state
replay_domain_events-IsDistinct_example =
    replay_domain_events-IsDistinct trusting history decided_state history_replays

replay_domain_events-is_proven_example :
    every (is_proven decided_state.evidence) decided_state.runs ≡ true
replay_domain_events-is_proven_example =
    replay_domain_events-is_proven trusting history decided_state history_replays

-- The history up to the evidence of "r1", and its completion, a command with two events.
abbrev opening : List ProjectCommand
opening = creation ∷ start "r1" ∷ attach "r1" ∷ []

abbrev opening_history : List DomainEvent
opening_history = history_of opening empty_project_state

abbrev opened : ProjectState
opened = state_of (run_all empty_project_state opening)

abbrev completed : ProjectState
completed = state_of (run_all opened (completion "r1" "bb" ∷ []))

abbrev completing : List DomainEvent
completing = events_of (decide_project_command opened (completion "r1" "bb") trusting)

opening_replays : replay_domain_events opening_history trusting ≡ ok opened
unfolding engine run_all history_of
opening_replays = refl

completion_decided :
    decide_project_command opened (completion "r1" "bb") trusting ≡ ok (accepted completing)
unfolding engine run_all
completion_decided = refl

completion_applied :
    apply_project_command opened (completion "r1" "bb") trusting
    ≡ ok (record { state = completed; emitted_events = completing; reused_event_ids = [] })
unfolding engine run_all
completion_applied = refl

replay_domain_events-append_example :
    replay_domain_events (opening_history ++ completing) trusting ≡ ok completed
replay_domain_events-append_example =
    replay_domain_events-append trusting opening_history opened completed (completion "r1" "bb")
      completing opening_replays completion_decided completion_applied

validate_node_graph-replayed_example : validate_node_graph decided_state ≡ some (ok tt)
unfolding engine run_all
validate_node_graph-replayed_example =
    validate_node_graph-replayed trusting history decided_state history_replays refl
