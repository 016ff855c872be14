-- ===== src/Codec/Sound/Events.antt =====
-- Events: what `decodeEvent`, `decodeHistoricalV2Event` and `decodeDomainEvent` of
-- packages/protocol/src/serialization.ts return.
use hunsu.Base.{◌≡◌, String, not, [], ◌∷◌}
use hunsu.Lists.{All}
use hunsu.Protocol.{
  ok, Digests, EventMetadata, DomainEvent, project_created, project_materializations_rebuilt,
  root_node_registered, run_started, run_checkpointed, run_evidence_attached, run_completed,
  run_child_node_registered, run_failed, run_canceled, coach_review_recorded,
  coaching_proposal_recorded, coaching_proposal_confirmed, coaching_child_node_registered,
  coaching_proposal_rejected, alternatives_compared, alternative_selected, alternatives_rejected,
}
use hunsu.Codec.Values.{Unknown, exact_record, at, property, property_of, is_text}
use hunsu.Codec.Grammar.{IsDocumentOf}
use hunsu.Codec.Makers.{Dates}
use hunsu.Codec.Plans.{RunnerValueTypeRegistry}
use hunsu.Codec.Records.{is_tagged, has_tag, decode_event_metadata}
use hunsu.Codec.Events.{
  as_root, as_run_child, as_coaching_child, as_running, as_confirmed, as_rejected, as_selection,
  as_rejection, decode_event_body, decode_event, unchanged_types, is_unchanged,
  decode_historical_v2_event, decode_domain_event, project_event_schema,
  historical_project_event_schema,
}
use hunsu.Codec.Objects.Events.{encode_domain_event}
use hunsu.Codec.Valid.Records.{IsEventMetadata}
use hunsu.Codec.Valid.Events.{IsDomainEvent}
use hunsu.Codec.Sound.Plans.{IsSteady}
use hunsu.Codec.Sound.Records.{decode_event_metadata-IsSound, decode_project-IsSound}
use hunsu.Codec.Sound.Evidence.{
  decode_checkpoint-IsSound, decode_evidence-IsSound, decode_verified_result-IsSound,
}
use hunsu.Codec.Sound.Runs.{decode_run-IsSound}
use hunsu.Codec.Sound.Coaching.{
  decode_coach_review-IsSound, decode_coaching_proposal-IsSound,
  decode_historical_v2_coaching_proposal-IsSound, decode_coaching_decision-IsSound,
}
use hunsu.Codec.Sound.Alternatives.{
  decode_comparison-IsSound, decode_historical_v2_comparison-IsSound,
  decode_alternative_decision-IsSound,
}
use hunsu.Codec.RoundTrip.Events.{decode_domain_event-encode_domain_event}
use hunsu.Codec.Sound.Fields.{decode_id-IsSound}
use hunsu.Codec.Sound.Steps.{IsSound, Gives, bind-Gives, refusal, if_Gives, sound_of}
use hunsu.Codec.Sound.Variants.{
  body-Gives, variant-Gives, ending-Gives, registration-Gives, root_of, run_child_of,
  coaching_child_of, running_of, confirmed_of, rejected_of, selection_of, rejection_of,
}

module _ ⦃dates : Dates⦄ ⦃digests : Digests⦄ (runner_types : RunnerValueTypeRegistry)
    (steady : All IsSteady runner_types) where
  event_body-Gives :
      (meta : EventMetadata) (value : Unknown) (path : String)
      → IsEventMetadata meta
      → Gives (IsDomainEvent runner_types) (decode_event_body runner_types meta value path)
  unfolding decode_event_body
  event_body-Gives meta value path m =
      let IsEvent = IsDomainEvent runner_types in
      if_Gives (has_tag "type" value "ProjectCreated") _ _
        (body-Gives decode_project-IsSound IsEvent "project" (project_created meta) value path
          (λ x v. (m, v)))
        (if_Gives (has_tag "type" value "ProjectMaterializationsRebuilt") _ _
          (body-Gives (decode_id-IsSound "projectId") IsEvent "projectId"
            (project_materializations_rebuilt meta) value path (λ x v. (m, v)))
          (if_Gives (has_tag "type" value "RootNodeRegistered") _ _
            (registration-Gives runner_types steady IsEvent as_root "root"
              (root_node_registered meta) value path
              (λ n x e v is w. (m, (root_of runner_types steady n x v is, w))))
            (if_Gives (has_tag "type" value "RunStarted") _ _
              (variant-Gives (decode_run-IsSound runner_types steady) IsEvent as_running "run"
                "status" _ (run_started meta) value path
                (λ r x v is. (m, running_of runner_types steady r x v is)))
              (if_Gives (has_tag "type" value "RunCheckpointed") _ _
                (body-Gives decode_checkpoint-IsSound IsEvent "checkpoint" (run_checkpointed meta)
                  value path (λ x v. (m, v)))
                (if_Gives (has_tag "type" value "RunEvidenceAttached") _ _
                  (body-Gives decode_evidence-IsSound IsEvent "evidence"
                    (run_evidence_attached meta) value path (λ x v. (m, v)))
                  (if_Gives (has_tag "type" value "RunCompleted") _ _
                    (body-Gives decode_verified_result-IsSound IsEvent "result" (run_completed meta)
                      value path (λ x v. (m, v)))
                    (if_Gives (has_tag "type" value "RunChildNodeRegistered") _ _
                      (registration-Gives runner_types steady IsEvent as_run_child "run_child"
                        (run_child_node_registered meta) value path
                        (λ n x e v is w. (m, (run_child_of runner_types steady n x v is, w))))
                      (if_Gives (has_tag "type" value "RunFailed") _ _
                        (ending-Gives IsEvent (run_failed meta) value path
                          (λ id reason v w. (m, (v, w))))
                        (if_Gives (has_tag "type" value "RunCanceled") _ _
                          (ending-Gives IsEvent (run_canceled meta) value path
                            (λ id reason v w. (m, (v, w))))
                          (if_Gives (has_tag "type" value "CoachReviewRecorded") _ _
                            (body-Gives decode_coach_review-IsSound IsEvent "review"
                              (coach_review_recorded meta) value path (λ x v. (m, v)))
                            (if_Gives (has_tag "type" value "CoachingProposalRecorded") _ _
                              (body-Gives (decode_coaching_proposal-IsSound runner_types steady)
                                IsEvent "proposal" (coaching_proposal_recorded meta) value path
                                (λ x v. (m, v)))
                              (if_Gives (has_tag "type" value "CoachingProposalConfirmed") _ _
                                (variant-Gives decode_coaching_decision-IsSound IsEvent as_confirmed
                                  "decision" "status" _ (coaching_proposal_confirmed meta) value
                                  path (λ d x v is. (m, confirmed_of runner_types steady d x v is)))
                                (if_Gives (has_tag "type" value "CoachingProposalRejected") _ _
                                  (variant-Gives decode_coaching_decision-IsSound IsEvent
                                    as_rejected "decision" "status" _
                                    (coaching_proposal_rejected meta) value path
                                    (λ d x v is. (m, rejected_of runner_types steady d x v is)))
                                  (if_Gives (has_tag "type" value "CoachingChildNodeRegistered") _ _
                                    (registration-Gives runner_types steady IsEvent
                                      as_coaching_child "coaching_child"
                                      (coaching_child_node_registered meta) value path
                                      (λ n x e v is w.
                                        (m, (coaching_child_of runner_types steady n x v is, w))))
                                    (if_Gives (has_tag "type" value "AlternativesCompared") _ _
                                      (body-Gives decode_comparison-IsSound IsEvent "comparison"
                                        (alternatives_compared meta) value path (λ x v. (m, v)))
                                      (if_Gives (has_tag "type" value "AlternativeSelected") _ _
                                        (variant-Gives decode_alternative_decision-IsSound IsEvent
                                          as_selection "decision" "type" _
                                          (alternative_selected meta) value path
                                          (λ d x v is.
                                            (m, selection_of runner_types steady d x v is)))
                                        (if_Gives (has_tag "type" value "AlternativesRejected") _ _
                                          (variant-Gives decode_alternative_decision-IsSound IsEvent
                                            as_rejection "decision" "type" _
                                            (alternatives_rejected meta) value path
                                            (λ d x v is.
                                              (m, rejection_of runner_types steady d x v is)))
                                          (refusal _ _))))))))))))))))))

  pub decode_event-IsSound : IsSound (decode_event runner_types) (IsDomainEvent runner_types)
  unfolding decode_event
  decode_event-IsSound = sound_of (decode_event runner_types) λ value path.
      if_Gives (not (is_tagged "type" value)) _ _ (refusal _ _) (
        bind-Gives (decode_event_metadata (property_of "meta" value) (at path "meta")) _
          λ meta of_meta.
            event_body-Gives meta value path (decode_event_metadata-IsSound.sound _ _ meta of_meta))

  pub decode_historical_v2_event-IsSound :
      IsSound (decode_historical_v2_event runner_types) (IsDomainEvent runner_types)
  unfolding decode_historical_v2_event
  decode_historical_v2_event-IsSound =
      let IsEvent = IsDomainEvent runner_types in
      sound_of (decode_historical_v2_event runner_types) λ value path.
        if_Gives (not (is_tagged "type" value)) _ _ (refusal _ _) (
          bind-Gives (decode_event_metadata (property_of "meta" value) (at path "meta")) _
            λ meta of_meta.
              let m = decode_event_metadata-IsSound.sound _ _ meta of_meta in
              if_Gives (has_tag "type" value "CoachingProposalRecorded") _ _
                (body-Gives (decode_historical_v2_coaching_proposal-IsSound runner_types steady)
                  IsEvent "proposal" (coaching_proposal_recorded meta) value path (λ x v. (m, v)))
                (if_Gives (has_tag "type" value "AlternativesCompared") _ _
                  (body-Gives decode_historical_v2_comparison-IsSound IsEvent "comparison"
                    (alternatives_compared meta) value path (λ x v. (m, v)))
                  (if_Gives (is_unchanged value unchanged_types) _ _
                    (record { gives = λ x h. decode_event-IsSound.sound value path x h })
                    (refusal _ _))))

  -- What a document of either version decodes to is a well-formed event, if the registered decoders use
  -- the path for their errors only.
  pub decode_domain_event-IsDomainEvent :
      (parsed : Unknown) (event : DomainEvent)
      → decode_domain_event runner_types parsed ≡ ok event
      → IsDomainEvent runner_types event
  unfolding decode_domain_event
  decode_domain_event-IsDomainEvent parsed event h =
      let IsEvent = IsDomainEvent runner_types in
      let whole : Gives IsEvent (decode_domain_event runner_types parsed) =
        bind-Gives (exact_record parsed "$" ("schema" ∷ "event" ∷ [])) _ λ fields of_fields.
          if_Gives (is_text (property "schema" fields) project_event_schema) _ _
            (record { gives = λ x h. decode_event-IsSound.sound _ _ x h })
            (if_Gives (is_text (property "schema" fields) historical_project_event_schema) _ _
              (record { gives = λ x h. decode_historical_v2_event-IsSound.sound _ _ x h })
              (refusal _ _)) in
      whole.gives event h

  -- An event that is decoded, also from a document of the earlier version, is written again by
  -- `encodeDomainEvent` as the document, by the grammar of JSON with objects as unordered collections,
  -- of a value that decodes to the same event, if the registered decoders use the path for their
  -- errors only.
  pub decode_domain_event-again :
      (parsed : Unknown) (event : DomainEvent)
      → decode_domain_event runner_types parsed ≡ ok event
      → (value : Unknown) × IsDocumentOf value (encode_domain_event event)
        × (decode_domain_event runner_types value ≡ ok event)
  decode_domain_event-again parsed event h =
      decode_domain_event-encode_domain_event runner_types event
        (decode_domain_event-IsDomainEvent parsed event h)
