-- ===== src/Engine/Errors.antt =====
-- packages/core/src/engine.ts: error values, and the boundary that checks Node payloads.
use hunsu.Base.{String, [], ◌∷◌, Bool, true, false, template, ⊤}
use hunsu.Protocol.{Result, ok, err, NodePayload, NodePayloadEnvelope}

pub data ProjectDomainErrorCode : Type 0 where
  idempotency_conflict duplicate_id not_found_id invalid_transition : ProjectDomainErrorCode
  invariant_violation user_confirmation_required invalid_event_code : ProjectDomainErrorCode

pub record ProjectDomainError : Type 0 where
  pub code : ProjectDomainErrorCode
  pub message : String

abbrev pub Outcome {ℓ} : Type ℓ → Type ℓ
Outcome A = Result A ProjectDomainError

-- `NodePayloadVerificationError` has a message alone.
pub record ProjectIntegrityBoundary : Type 0 where
  pub verify_node_payload : NodePayload → NodePayloadEnvelope → Result ⊤ String

abbrev pub failure {ℓ} : {A : Type ℓ} → ProjectDomainErrorCode → String → Outcome A
failure code message = err (record { code = code; message = message })

abbrev pub invalid_event {ℓ} : {A : Type ℓ} → String → Outcome A
invalid_event message = failure invalid_event_code message

abbrev pub not_found {ℓ} : {A : Type ℓ} → String → String → Outcome A
not_found kind id = failure not_found_id (template (kind ∷ " " ∷ id ∷ " was not found" ∷ []))

abbrev pub duplicate {ℓ} : {A : Type ℓ} → String → String → Outcome A
duplicate kind id = failure duplicate_id (template (kind ∷ " " ∷ id ∷ " already exists" ∷ []))

abbrev pub as_invalid_event {ℓ κ} : {A : Type ℓ} {B : Type κ} → Outcome A → Outcome B
as_invalid_event (ok _) = invalid_event "Unexpected valid event result"
as_invalid_event (err e) = invalid_event e.message

-- `if (!r.ok) return asInvalidEvent(r)`
abbrev pub invalid_unless_ok {ℓ} : {A : Type ℓ} → Outcome A → Outcome A
invalid_unless_ok (ok a) = ok a
invalid_unless_ok (err e) = as_invalid_event {A = ⊤} (err e)

abbrev pub map_void {ℓ} : {A : Type ℓ} → Outcome A → Outcome ⊤
map_void (ok _) = ok tt
map_void (err e) = err e

-- `if (b) return failure(code, message)`
abbrev pub refuse_if : Bool → ProjectDomainErrorCode → String → Outcome ⊤
refuse_if true code message = failure code message
refuse_if false code message = ok tt

-- `if (b) return duplicate(kind, id)`
abbrev pub refuse_duplicate_if : Bool → String → String → Outcome ⊤
refuse_duplicate_if true kind id = duplicate kind id
refuse_duplicate_if false kind id = ok tt

-- `r.ok ? ok(f(r.value)) : r`
abbrev pub when_ok {ℓ κ} : {A : Type ℓ} {B : Type κ} → Outcome A → (A → B) → Outcome B
when_ok (ok a) f = ok (f a)
when_ok (err e) f = err e

-- `r.ok ? ok(f(r.value)) : asInvalidEvent(r)`, where `asInvalidEvent` meets a failure only
abbrev pub admit {ℓ κ} : {A : Type ℓ} {B : Type κ} → Outcome A → (A → B) → Outcome B
admit (ok a) f = ok (f a)
admit (err e) f = as_invalid_event {A = ⊤} (err e)
