-- ===== src/Codec/Sound/Variants.antt =====
-- Events of one body, and of one variant, in `decodeEvent` of packages/protocol/src/serialization.ts.
use hunsu.Base.{◌≡◌, subst, String, arith, Option, none, some, [], ◌∷◌}
use hunsu.Lists.{All}
use hunsu.Protocol.{
  ok, Digests, NodePayloadEnvelope, Node, RootNode, RunChildNode, CoachingChildNode, root,
  run_child, coaching_child, Run, RunningRun, running, completed, failed, canceled,
  CoachingProposalDecision, ConfirmedCoachingProposalDecision, RejectedCoachingProposalDecision,
  SelectionDecision, RejectionDecision, confirmed, rejected, AlternativeDecision, selection,
  rejection, DomainEvent,
}
use hunsu.Codec.Values.{Unknown, exact_record, at}
use hunsu.Codec.Makers.{Dates}
use hunsu.Codec.Fields.{Decoder, at_key, decode_id, decode_text}
use hunsu.Codec.Plans.{RunnerValueTypeRegistry, decode_node_payload_envelope}
use hunsu.Codec.Nodes.{decode_node}
use hunsu.Codec.Events.{
  as_root, as_run_child, as_coaching_child, as_running, as_confirmed, as_rejected, as_selection,
  as_rejection, found_or, decode_body, decode_variant, decode_ending,
  decode_node_registration_event,
}
use hunsu.Codec.Valid.{IsFilled, IsIdentifier, IsNodePayloadEnvelope}
use hunsu.Codec.Valid.Nodes.{IsNode}
use hunsu.Codec.Valid.Runs.{IsRun}
use hunsu.Codec.Valid.Coaching.{IsCoachingProposalDecision}
use hunsu.Codec.Valid.Alternatives.{IsAlternativeDecision}
use hunsu.Codec.Sound.Plans.{IsSteady, decode_node_payload_envelope-IsSound}
use hunsu.Codec.Sound.Nodes.{decode_node-IsSound}
use hunsu.Codec.Sound.Fields.{decode_id-IsSound, decode_text-IsSound}
use hunsu.Codec.Sound.Steps.{IsSound, Gives, bind-Gives, value-Gives}

pub found_or_ok {ℓ} :
    {A : Type ℓ} (found : Option A) (path message : String) (x : A)
    → found_or found path message ≡ ok x
    → found ≡ some x
found_or_ok none path message x h = absurd (ground arith)
found_or_ok (some y) path message x h = ground arith

module _ {ℓ κ} {A : Type ℓ} {P : A → Type κ} {decode : Decoder A} (s : IsSound decode P)
    (IsEvent : DomainEvent → Type 0) where
  pub body-Gives :
      (key : String) (make : A → DomainEvent) (value : Unknown) (path : String)
      → ((x : A) → P x → IsEvent (make x))
      → Gives IsEvent (decode_body key decode make value path)
  body-Gives key make value path is_event =
      bind-Gives (exact_record value path ("type" ∷ "meta" ∷ key ∷ [])) _ λ fields of_fields.
        bind-Gives (at_key decode key fields path) _
          λ x of_x. value-Gives (make x) (is_event x (s.sound _ _ x of_x))

  pub variant-Gives {μ} :
      {B : Type μ} (narrow : A → Option B) (key tag_key message : String) (make : B → DomainEvent)
      (value : Unknown) (path : String)
      → ((x : A) (y : B) → P x → narrow x ≡ some y → IsEvent (make y))
      → Gives IsEvent (decode_variant key decode narrow tag_key message make value path)
  variant-Gives narrow key tag_key message make value path is_event =
      bind-Gives (exact_record value path ("type" ∷ "meta" ∷ key ∷ [])) _ λ fields of_fields.
        bind-Gives (at_key decode key fields path) _ λ x of_x.
          bind-Gives (found_or (narrow x) (at (at path key) tag_key) message) _ λ y of_y.
            value-Gives (make y)
              (is_event x y (s.sound _ _ x of_x) (found_or_ok (narrow x) _ message y of_y))

pub ending-Gives :
    (IsEvent : DomainEvent → Type 0) (make : String → String → DomainEvent) (value : Unknown)
    (path : String)
    → ((id reason : String) → IsIdentifier id → IsFilled reason → IsEvent (make id reason))
    → Gives IsEvent (decode_ending make value path)
ending-Gives IsEvent make value path is_event =
    bind-Gives (exact_record value path ("type" ∷ "meta" ∷ "runId" ∷ "reason" ∷ [])) _
      λ fields of_fields. bind-Gives (at_key (decode_id "runId") "runId" fields path) _ λ id of_id.
        bind-Gives (at_key decode_text "reason" fields path) _ λ reason of_reason.
          value-Gives (make id reason) (
            is_event id reason ((decode_id-IsSound "runId").sound _ _ id of_id)
              (decode_text-IsSound.sound _ _ reason of_reason))

module _ ⦃dates : Dates⦄ ⦃digests : Digests⦄ (runner_types : RunnerValueTypeRegistry)
    (steady : All IsSteady runner_types) where
  pub registration-Gives {ℓ} :
      {A : Type ℓ} (IsEvent : DomainEvent → Type 0) (narrow : Node → Option A) (node_type : String)
      (make : A → NodePayloadEnvelope → DomainEvent) (value : Unknown) (path : String)
      → ((n : Node) (x : A) (e : NodePayloadEnvelope)
          → IsNode runner_types n
          → narrow n ≡ some x
          → IsNodePayloadEnvelope e
          → IsEvent (make x e))
      → Gives IsEvent (decode_node_registration_event runner_types narrow node_type make value path)
  unfolding decode_node_registration_event
  registration-Gives IsEvent narrow node_type make value path is_event =
      bind-Gives (exact_record value path ("type" ∷ "meta" ∷ "node" ∷ "payload" ∷ [])) _
        λ fields of_fields.
          bind-Gives (at_key (decode_node runner_types) "node" fields path) _ λ n of_n.
            bind-Gives (found_or (narrow n) (at (at path "node") "type") _) _ λ x of_x.
              bind-Gives (at_key decode_node_payload_envelope "payload" fields path) _ λ e of_e.
                value-Gives (make x e) (
                  is_event n x e ((decode_node-IsSound runner_types steady).sound _ _ n of_n)
                    (found_or_ok (narrow n) _ _ x of_x)
                    (decode_node_payload_envelope-IsSound.sound _ _ e of_e))

  -- The variants that an event takes.
  pub root_of :
      (n : Node) (x : RootNode)
      → IsNode runner_types n
      → as_root n ≡ some x
      → IsNode runner_types (root x)
  root_of (root n) x v h =
      let is : n ≡ x = ground arith in subst (λ m. IsNode runner_types (root m)) is v
  root_of (run_child n) x v h = absurd (ground arith)
  root_of (coaching_child n) x v h = absurd (ground arith)

  pub run_child_of :
      (n : Node) (x : RunChildNode)
      → IsNode runner_types n
      → as_run_child n ≡ some x
      → IsNode runner_types (run_child x)
  run_child_of (root n) x v h = absurd (ground arith)
  run_child_of (run_child n) x v h =
      let is : n ≡ x = ground arith in subst (λ m. IsNode runner_types (run_child m)) is v
  run_child_of (coaching_child n) x v h = absurd (ground arith)

  pub coaching_child_of :
      (n : Node) (x : CoachingChildNode)
      → IsNode runner_types n
      → as_coaching_child n ≡ some x
      → IsNode runner_types (coaching_child x)
  coaching_child_of (root n) x v h = absurd (ground arith)
  coaching_child_of (run_child n) x v h = absurd (ground arith)
  coaching_child_of (coaching_child n) x v h =
      let is : n ≡ x = ground arith in subst (λ m. IsNode runner_types (coaching_child m)) is v

  pub running_of :
      (r : Run) (x : RunningRun)
      → IsRun runner_types r
      → as_running r ≡ some x
      → IsRun runner_types (running x)
  running_of (running r) x v h =
      let is : r ≡ x = ground arith in subst (λ m. IsRun runner_types (running m)) is v
  running_of (completed r) x v h = absurd (ground arith)
  running_of (failed r) x v h = absurd (ground arith)
  running_of (canceled r) x v h = absurd (ground arith)

  pub confirmed_of :
      (d : CoachingProposalDecision) (x : ConfirmedCoachingProposalDecision)
      → IsCoachingProposalDecision d
      → as_confirmed d ≡ some x
      → IsCoachingProposalDecision (confirmed x)
  confirmed_of (confirmed d) x v h =
      let is : d ≡ x = ground arith in subst (λ m. IsCoachingProposalDecision (confirmed m)) is v
  confirmed_of (rejected d) x v h = absurd (ground arith)

  pub rejected_of :
      (d : CoachingProposalDecision) (x : RejectedCoachingProposalDecision)
      → IsCoachingProposalDecision d
      → as_rejected d ≡ some x
      → IsCoachingProposalDecision (rejected x)
  rejected_of (confirmed d) x v h = absurd (ground arith)
  rejected_of (rejected d) x v h =
      let is : d ≡ x = ground arith in subst (λ m. IsCoachingProposalDecision (rejected m)) is v

  pub selection_of :
      (d : AlternativeDecision) (x : SelectionDecision)
      → IsAlternativeDecision d
      → as_selection d ≡ some x
      → IsAlternativeDecision (selection x)
  selection_of (selection d) x v h =
      let is : d ≡ x = ground arith in subst (λ m. IsAlternativeDecision (selection m)) is v
  selection_of (rejection d) x v h = absurd (ground arith)

  pub rejection_of :
      (d : AlternativeDecision) (x : RejectionDecision)
      → IsAlternativeDecision d
      → as_rejection d ≡ some x
      → IsAlternativeDecision (rejection x)
  rejection_of (selection d) x v h = absurd (ground arith)
  rejection_of (rejection d) x v h =
      let is : d ≡ x = ground arith in subst (λ m. IsAlternativeDecision (rejection m)) is v
