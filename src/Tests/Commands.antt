-- ===== src/Tests/Commands.antt =====
-- The theorems on commands, at states of the sample history.
use hunsu.Base.{◌≡◌, refl, List, [], ◌∷◌, map}
use hunsu.Protocol.{
  ok, Run, run_base, ProjectState, ProjectCommand, DomainEvent, run_failed, user, event_meta,
}
use hunsu.Engine.Journal.{empty_project_state, accepted}
use hunsu.Engine.Decide.{apply_project_command, decide_project_command}
use hunsu.Acceptance.Commands.{apply_project_command-accepted}
use hunsu.Protocol.{create_project, CreateProject, err}
use hunsu.Tests.Sample.{meta_of, project, node_at, envelope}
use hunsu.Acceptance.Timing.{apply_project_command-misdated}
use hunsu.Lists.{push}
use hunsu.Engine.Lookup.{replace_run}
use hunsu.Engine.Apply.{as_failed}
use hunsu.Engine.Journal.{processed_by}
use hunsu.Engine.Errors.{
  ProjectIntegrityBoundary, ProjectDomainError, failure, idempotency_conflict,
}
use hunsu.History.Journal.{event_id_of}
use hunsu.History.Retry.{apply_project_command-retry, apply_project_command-conflict}
use hunsu.History.Kept.{after_commands}
use hunsu.History.Growth.{Grows, apply_domain_events-Grows}
use hunsu.Tests.Sample.{trusting, creation, start, attach, completion, rekey, sample_digests}
use hunsu.Tests.Run.{engine, run_all, state_of, events_of}

-- The root is there and the Run "r1" has its evidence.
abbrev attached : ProjectState
attached = state_of (run_all empty_project_state (creation ∷ start "r1" ∷ attach "r1" ∷ []))

abbrev completing : List DomainEvent
completing = events_of (decide_project_command attached (completion "r1" "bb") trusting)

completing_decided :
    decide_project_command attached (completion "r1" "bb") trusting ≡ ok (accepted completing)
unfolding engine run_all
completing_decided = refl

apply_project_command-accepted_example :
    (t : ProjectState) × (apply_project_command attached (completion "r1" "bb") trusting
      ≡ ok (record { state = t; emitted_events = completing; reused_event_ids = [] }))
unfolding engine run_all
apply_project_command-accepted_example =
    apply_project_command-accepted attached trusting (completion "r1" "bb") completing refl tt
      completing_decided

-- The Run is completed and its child Node is there.
abbrev completed_state : ProjectState
completed_state =
    state_of (
      run_all empty_project_state (creation ∷ start "r1" ∷ attach "r1" ∷ completion "r1" "bb" ∷ []))

completing_applied :
    apply_project_command attached (completion "r1" "bb") trusting
    ≡ ok (record { state = completed_state; emitted_events = completing; reused_event_ids = [] })
unfolding engine run_all
completing_applied = refl

-- What is sent after it: a start of another Run, evidence under the key of the completion, and
-- evidence of that other Run.
abbrev following : List (ProjectCommand × ProjectIntegrityBoundary)
following =
    (start "r2", trusting)
    ∷ (rekey "k-complete-r1" (attach "r1"), trusting)
    ∷ (attach "r2", trusting)
    ∷ []

abbrev followed_state : ProjectState
followed_state = after_commands completed_state following

apply_project_command-retry_example :
    apply_project_command followed_state (completion "r1" "bb") trusting
    ≡ ok (record {
      state = followed_state;
      emitted_events = [];
      reused_event_ids = map event_id_of completing;
    })
apply_project_command-retry_example =
    apply_project_command-retry attached completed_state trusting (completion "r1" "bb") completing
      completing_decided completing_applied following trusting (completion "r1" "bb") refl refl

-- The other Run has been started.
following_applied : map (λ (r : Run). (run_base r).id) followed_state.runs ≡ "r1" ∷ "r2" ∷ []
unfolding engine run_all after_commands
following_applied = refl

-- Another command under the key of "r1", which carries the key and not the fingerprint.
abbrev intruder : ProjectCommand
intruder = rekey "k-complete-r1" (attach "r1")

apply_project_command-conflict_example :
    apply_project_command followed_state intruder trusting
    ≡ failure idempotency_conflict
        "Idempotency key was already used with another command fingerprint"
unfolding engine
apply_project_command-conflict_example =
    apply_project_command-conflict attached completed_state trusting (completion "r1" "bb")
      completing completing_decided completing_applied following trusting intruder refl refl

-- Giving up the running Run of `attached`.
abbrev giving_up : DomainEvent
giving_up =
    run_failed
      (record {
        event_id = "e-fail";
        idempotency_key = "k-fail";
        fingerprint = "f-fail";
        actor = user "u";
        recorded_at = "t9";
      })
      "r1" "no time"

abbrev given_up : ProjectState
given_up = record attached {
  runs = replace_run attached.runs "r1" (as_failed "no time" (event_meta giving_up));
  processed_commands = push attached.processed_commands (processed_by (event_meta giving_up));
}

apply_domain_events-Grows_example : Grows attached given_up
unfolding engine run_all
apply_domain_events-Grows_example =
    apply_domain_events-Grows trusting attached given_up (giving_up ∷ []) refl

-- The root Node says "t0", and the command "t1".
abbrev misdated : CreateProject
misdated = record {
  meta = meta_of "create" (user "u") "t1";
  root_node_event_id = "e-root";
  project = project;
  root_node = node_at "aa" ("g1" ∷ "g2" ∷ []) "t0";
  payload = envelope "aa";
}

abbrev misdated_events : List DomainEvent
misdated_events =
    events_of (decide_project_command empty_project_state (create_project misdated) trusting)

misdated_decided :
    decide_project_command empty_project_state (create_project misdated) trusting
    ≡ ok (accepted misdated_events)
unfolding engine
misdated_decided = refl

apply_project_command-misdated_example :
    (e : ProjectDomainError) × (apply_project_command empty_project_state
        (create_project misdated)
        trusting
      ≡ err e)
unfolding engine
apply_project_command-misdated_example =
    apply_project_command-misdated empty_project_state trusting misdated misdated_events
      misdated_decided refl
