-- ===== src/Protocol/Primitives.antt =====
-- packages/protocol/src/primitives.ts: the branded strings and numbers. A brand is erased at run
-- time, so each is a synonym; the constructors (`makeProjectId` and so on) stand in
-- Codec/Makers.antt.
use hunsu.Base.{String, ℕ}

abbrev pub ProjectId : Type 0
ProjectId = String

abbrev pub GoalKey : Type 0
GoalKey = String

abbrev pub RunId : Type 0
RunId = String

abbrev pub WorkspaceId : Type 0
WorkspaceId = String

abbrev pub EventId : Type 0
EventId = String

abbrev pub EvidenceId : Type 0
EvidenceId = String

abbrev pub CheckpointId : Type 0
CheckpointId = String

abbrev pub CoachReviewId : Type 0
CoachReviewId = String

abbrev pub CoachingProposalId : Type 0
CoachingProposalId = String

abbrev pub ComparisonId : Type 0
ComparisonId = String

abbrev pub DecisionId : Type 0
DecisionId = String

abbrev pub IdempotencyKey : Type 0
IdempotencyKey = String

abbrev pub CommandFingerprint : Type 0
CommandFingerprint = String

abbrev pub GitCommitSha : Type 0
GitCommitSha = String

abbrev pub GitTreeSha : Type 0
GitTreeSha = String

abbrev pub GitTreePath : Type 0
GitTreePath = String

abbrev pub GitRef : Type 0
GitRef = String

abbrev pub GitBranchName : Type 0
GitBranchName = String

abbrev pub RepositoryOwner : Type 0
RepositoryOwner = String

abbrev pub RepositoryName : Type 0
RepositoryName = String

abbrev pub IsoTimestamp : Type 0
IsoTimestamp = String

abbrev pub NonEmptyText : Type 0
NonEmptyText = String

abbrev pub ProjectTitle : Type 0
ProjectTitle = String

abbrev pub GoalTitle : Type 0
GoalTitle = String

abbrev pub DesiredOutcome : Type 0
DesiredOutcome = String

abbrev pub AcceptanceCriterion : Type 0
AcceptanceCriterion = String

abbrev pub GoalConstraint : Type 0
GoalConstraint = String

abbrev pub EvidenceSummary : Type 0
EvidenceSummary = String

abbrev pub Reason : Type 0
Reason = String

abbrev pub RunnerTypeOrigin : Type 0
RunnerTypeOrigin = String

abbrev pub RunnerTypeKey : Type 0
RunnerTypeKey = String

abbrev pub RunnerSchemaVersion : Type 0
RunnerSchemaVersion = String

abbrev pub RunnerTypeIntegrity : Type 0
RunnerTypeIntegrity = String

abbrev pub GoalDigest : Type 0
GoalDigest = String

abbrev pub RunnerDigest : Type 0
RunnerDigest = String

abbrev pub NodePlanDigest : Type 0
NodePlanDigest = String

abbrev pub NodePayloadDigest : Type 0
NodePayloadDigest = String

abbrev pub Base64Payload : Type 0
Base64Payload = String

abbrev pub NonNegativeInteger : Type 0
NonNegativeInteger = ℕ
