-- ===== src/Controls.antt =====
-- packages/domain/src/governance-controls.ts: time locks and rejections as decisions. An instant is
-- the milliseconds that `Date.parse` reads from it, and none stands for a null or unreadable text;
-- `toISOString`, which writes an instant in a message, is a parameter.
pub mod Decisions
mod Tests
use ai_neobank.Prelude.{
  ℕ, ◌+◌, ◌-◌, ◌*◌, ◌/◌, ◌≡◌, Bool, true, false, not, ◌&&◌, ◌||◌, String, Option, none, some, List,
  [], ◌∷◌, includes, leb, ltb, if◌then◌else◌,
}
use ai_neobank.Prelude.Equality.{◌==◌, nat_eq, string_eq}
use ai_neobank.Prelude.Text.{◌++ₜ◌, decimal}
use ai_neobank.Domain.{IntentStatus, status_eq, status_text, Governance, safe, squads, direct}
use ai_neobank.Payment.Rows.{RequestStatus}

pub data TimeLockSource : Type 0 where
  squads_multisig nothing : TimeLockSource

pub record TimeLockReading : Type 0 where
  pub source : TimeLockSource
  pub seconds : ℕ
  pub enforced_on_chain : Bool
  pub changeable : Bool
  pub note : String

abbrev named : String → List IntentStatus → Option IntentStatus
named value [] = none
named value (s ∷ ss) = if value == status_text s then some s else named value ss

-- `asIntentStatus`
unfoldable pub as_intent_status : String → Option IntentStatus
as_intent_status value = named value (
    IntentStatus.received ∷ IntentStatus.policy_evaluated ∷ IntentStatus.rejected
    ∷ IntentStatus.approval_required ∷ IntentStatus.auto_authorized ∷ IntentStatus.approved
    ∷ IntentStatus.executing ∷ IntentStatus.submitted ∷ IntentStatus.finalized
    ∷ IntentStatus.reconciled ∷ IntentStatus.failed ∷ IntentStatus.expired ∷ [])

abbrev squads_note : ℕ → String
squads_note seconds =
    if seconds == 0
    then "No delay. An approved payment can be executed as soon as it reaches the threshold."
    else "The Squads program refuses execution until "
      ++ₜ decimal seconds
      ++ₜ " seconds after the proposal is approved."

abbrev or_zero : Option ℕ → ℕ
or_zero none = 0
or_zero (some n) = n

-- `readTimeLock`; the observed lock is none unless it is a natural number.
unfoldable pub read_time_lock : Governance → Option ℕ → TimeLockReading
read_time_lock squads observed =
    let seconds = or_zero observed in
    record {
      source = squads_multisig;
      seconds = seconds;
      enforced_on_chain = true;
      changeable = true;
      note = squads_note seconds;
    }
read_time_lock safe observed = record {
  source = nothing;
  seconds = 0;
  enforced_on_chain = false;
  changeable = false;
  note =
      "A Safe has no time lock of its own, and Relay does not enforce one. A delay needs a guard or a delay module installed on the Safe outside Relay.";
}
read_time_lock direct observed = record {
  source = nothing;
  seconds = 0;
  enforced_on_chain = false;
  changeable = false;
  note = "A direct treasury has no governance, so nothing delays a payment from it.";
}

pub record TimeLockState : Type 0 where
  pub source : TimeLockSource
  pub seconds : ℕ
  pub started_at : Option ℕ
  pub executable_at : Option ℕ
  pub remaining_seconds : ℕ
  pub locked : Bool

-- `Math.max(0, Math.ceil((executable - now) / 1000))`
abbrev pub remaining : ℕ → ℕ → ℕ
remaining executable now = (executable - now + 999) / 1000

abbrev running_lock : TimeLockReading → Option ℕ → ℕ → TimeLockState
running_lock r none now = record {
  source = r.source;
  seconds = r.seconds;
  started_at = none;
  executable_at = none;
  remaining_seconds = r.seconds;
  locked = false;
}
running_lock r (some started) now =
    let executable = started + r.seconds * 1000 in
    record {
      source = r.source;
      seconds = r.seconds;
      started_at = some started;
      executable_at = some executable;
      remaining_seconds = remaining executable now;
      locked = ltb 0 (remaining executable now);
    }

-- `timeLockState`
unfoldable pub time_lock_state : TimeLockReading → Option ℕ → ℕ → TimeLockState
time_lock_state r approved_at now =
    if r.seconds == 0
    then record {
      source = r.source;
      seconds = r.seconds;
      started_at = approved_at;
      executable_at = approved_at;
      remaining_seconds = 0;
      locked = false;
    }
    else running_lock r approved_at now

pub data ControlRefusalCode : Type 0 where
  time_locked execution_not_approved intent_not_pending : ControlRefusalCode
  intent_already_approved intent_already_executing intent_already_executed : ControlRefusalCode
  intent_already_rejected approval_not_published approval_expired : ControlRefusalCode
  rejection_not_supported : ControlRefusalCode

-- `intentStatusPhrases` and `describeIntentStatus`
unfoldable pub describe_intent_status : IntentStatus → String
describe_intent_status IntentStatus.received = "waiting for policy to look at it"
describe_intent_status IntentStatus.policy_evaluated = "waiting for a decision"
describe_intent_status IntentStatus.rejected = "rejected"
describe_intent_status IntentStatus.approval_required = "waiting for an approval"
describe_intent_status IntentStatus.auto_authorized = "authorised by policy and not yet approved"
describe_intent_status IntentStatus.approved = "approved"
describe_intent_status IntentStatus.executing = "being executed"
describe_intent_status IntentStatus.submitted = "already sent, waiting for the chain"
describe_intent_status IntentStatus.finalized = "already settled"
describe_intent_status IntentStatus.reconciled = "already settled and reconciled"
describe_intent_status IntentStatus.failed = "failed"
describe_intent_status IntentStatus.expired = "expired"

pub data ExecutionDecision : Type 0 where
  execution_allowed : Option ℕ → ExecutionDecision
  execution_refused : ControlRefusalCode → String → ExecutionDecision

abbrev written : (ℕ → String) → Option ℕ → String
written iso none = "null"
written iso (some at) = iso at

-- `evaluateExecution`
unfoldable pub evaluate_execution : (ℕ → String) → IntentStatus → TimeLockState → ExecutionDecision
unfolding describe_intent_status
evaluate_execution iso status lock =
    if not (status == IntentStatus.approved) && not (status == IntentStatus.executing)
    then execution_refused execution_not_approved (
        "A payment is executed once it is approved. This one is "
        ++ₜ describe_intent_status status
        ++ₜ ".")
    else if lock.locked
    then execution_refused time_locked (
        "The treasury's time lock holds this payment until "
        ++ₜ written iso lock.executable_at
        ++ₜ ", "
        ++ₜ decimal lock.remaining_seconds
        ++ₜ " seconds from now.")
    else execution_allowed lock.executable_at

pub data RejectionKind : Type 0 where
  safe_nonce_burn squads_proposal_reject : RejectionKind

pub data RejectionDecision : Type 0 where
  rejection_allowed : RejectionKind → IntentStatus → RejectionDecision
  rejection_refused : ControlRefusalCode → String → RejectionDecision

abbrev pub is_direct : Governance → Bool
is_direct direct = true
is_direct _ = false

abbrev pub is_pending : Option RequestStatus → Bool
is_pending (some RequestStatus.pending) = true
is_pending _ = false

abbrev pub has_closed : Option ℕ → ℕ → Bool
has_closed none now = true
has_closed (some expires) now = leb expires now

abbrev pub rejection_kind : Governance → RejectionKind
rejection_kind safe = safe_nonce_burn
rejection_kind _ = squads_proposal_reject

-- `evaluateRejection`
unfoldable pub evaluate_rejection :
    IntentStatus → Governance → Option RequestStatus → Option ℕ → ℕ → RejectionDecision
evaluate_rejection status governance approval expires_at now =
    if status == IntentStatus.rejected
    then rejection_refused intent_already_rejected "This payment was already rejected."
    else if includes
        (IntentStatus.submitted ∷ IntentStatus.finalized ∷ IntentStatus.reconciled ∷ []) status
    then rejection_refused intent_already_executed
        "This payment is already on chain. A rejection cannot recall it."
    else if status == IntentStatus.executing
    then rejection_refused intent_already_executing
        "The executor is signing this payment. Freeze the treasury to stop it."
    else if status == IntentStatus.approved || status == IntentStatus.auto_authorized
    then rejection_refused intent_already_approved
        "This payment already has the approvals it needs and is queued for execution. Freeze the treasury to stop it."
    else if not (status == IntentStatus.approval_required)
    then rejection_refused intent_not_pending (
        "A payment can only be rejected while it is collecting approvals; this one is "
        ++ₜ status_text status
        ++ₜ ".")
    else if is_direct governance
    then rejection_refused rejection_not_supported
        "A direct treasury has no proposal to cancel on chain. Reject the payment in Relay instead."
    else if not (is_pending approval)
    then rejection_refused approval_not_published
        "This payment has no pending approval request to cancel."
    else if has_closed expires_at now
    then rejection_refused approval_expired
        "The approval window has closed, so the payment expires on its own."
    else rejection_allowed (rejection_kind governance) IntentStatus.rejected

-- `rejectionTransition`
unfoldable pub rejection_transition : IntentStatus → Option IntentStatus
rejection_transition from =
    if from == IntentStatus.approval_required then some IntentStatus.rejected else none

pub data TimeLockChangeStatus : Type 0 where
  draft active approved executing executed rejected cancelled : TimeLockChangeStatus

pub data TimeLockChangeEvent : Type 0 where
  approve reject cancel execute : TimeLockChangeEvent

-- `nextTimeLockChangeStatus`
unfoldable pub next_time_lock_change_status :
    TimeLockChangeStatus → TimeLockChangeEvent → Option TimeLockChangeStatus
next_time_lock_change_status active approve = some TimeLockChangeStatus.approved
next_time_lock_change_status active reject = some TimeLockChangeStatus.rejected
next_time_lock_change_status TimeLockChangeStatus.approved cancel = some cancelled
next_time_lock_change_status TimeLockChangeStatus.approved execute = some executed
next_time_lock_change_status TimeLockChangeStatus.executing execute = some executed
next_time_lock_change_status _ _ = none
