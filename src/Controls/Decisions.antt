-- ===== src/Controls/Decisions.antt =====
-- packages/domain/src/governance-controls.ts: exactly when an execution and a rejection are allowed.
use ai_neobank.Prelude.{
  ℕ, ◌+◌, ◌*◌, ◌≡◌, refl, inl, inr, Bool, true, false, not, ◌&&◌, ◌||◌, String, Option, some, leb,
  Bool-cases, arith,
}
use ai_neobank.Prelude.Equality.{◌==◌, nat_eq}
use ai_neobank.Domain.{IntentStatus, status_eq, status_text, Governance}
use ai_neobank.Payment.Rows.{RequestStatus}
use ai_neobank.Payment.Evolve.{Step}
use ai_neobank.Controls.{
  read_time_lock, time_lock_state, ExecutionDecision, execution_allowed, execution_refused,
  evaluate_execution, RejectionDecision, rejection_allowed, rejection_refused, evaluate_rejection,
  rejection_transition, is_direct, is_pending, has_closed, as_intent_status,
}

abbrev pub is_allowed : ExecutionDecision → Bool
is_allowed (execution_allowed _) = true
is_allowed (execution_refused _ _) = false

abbrev pub can_reject : RejectionDecision → Bool
can_reject (rejection_allowed _ _) = true
can_reject (rejection_refused _ _) = false

-- An approved payment of a vault with a lock may be executed exactly once the lock's seconds have
-- passed since the approval; with no lock, at once.
pub evaluate_execution_after_lock :
    (iso : ℕ → String) (governance : Governance) (observed : Option ℕ) (approved_at now : ℕ)
    → is_allowed (
        evaluate_execution iso IntentStatus.approved
          (time_lock_state (read_time_lock governance observed) (some approved_at) now))
      ≡ leb (approved_at + (read_time_lock governance observed).seconds * 1000) now
        || (read_time_lock governance observed).seconds == 0
unfolding evaluate_execution time_lock_state
evaluate_execution_after_lock iso governance observed approved_at now = ground (arith)

-- A rejection is allowed exactly for a payment that waits for approvals on chain, with a pending
-- request whose window is open.
pub evaluate_rejection_iff :
    (status : IntentStatus) (governance : Governance) (approval : Option RequestStatus)
    (expires_at : Option ℕ) (now : ℕ)
    → can_reject (evaluate_rejection status governance approval expires_at now)
      ≡ status == IntentStatus.approval_required
        && not (is_direct governance)
        && is_pending approval
        && not (has_closed expires_at now)
unfolding evaluate_rejection
evaluate_rejection_iff IntentStatus.approval_required governance approval expires_at now =
    ground arith
evaluate_rejection_iff _ governance approval expires_at now = refl

-- An allowed rejection ends the payment as `rejectionTransition` says, which is an edge of the
-- payment's lifecycle.
abbrev pub EndsWell : IntentStatus → RejectionDecision → Type 0
EndsWell status (rejection_refused _ _) = Unit
EndsWell status (rejection_allowed _ ends_as) =
    (rejection_transition status ≡ some ends_as) × Step status ends_as

pub evaluate_rejection-EndsWell :
    (status : IntentStatus) (governance : Governance) (approval : Option RequestStatus)
    (expires_at : Option ℕ) (now : ℕ)
    → EndsWell status (evaluate_rejection status governance approval expires_at now)
unfolding evaluate_rejection rejection_transition
evaluate_rejection-EndsWell IntentStatus.approval_required governance approval expires_at now =
    elim (Bool-cases (is_direct governance)) [
      | inl supported ↦ rw supported tt
      | inr on_chain ↦ rw on_chain (elim (Bool-cases (not (is_pending approval))) [
        | inl unpublished ↦ rw unpublished tt
        | inr pending ↦ rw pending (elim (Bool-cases (has_closed expires_at now)) [
          | inl closed ↦ rw closed tt
          | inr running ↦ rw running (refl, Step.refuse)
        ])
      ])
    ]
evaluate_rejection-EndsWell _ governance approval expires_at now = tt

-- Reading a status back from its text gives the status.
pub as_intent_status-status_text : (s : IntentStatus) → as_intent_status (status_text s) ≡ some s
unfolding as_intent_status
as_intent_status-status_text IntentStatus.received = refl
as_intent_status-status_text IntentStatus.policy_evaluated = refl
as_intent_status-status_text IntentStatus.rejected = refl
as_intent_status-status_text IntentStatus.approval_required = refl
as_intent_status-status_text IntentStatus.auto_authorized = refl
as_intent_status-status_text IntentStatus.approved = refl
as_intent_status-status_text IntentStatus.executing = refl
as_intent_status-status_text IntentStatus.submitted = refl
as_intent_status-status_text IntentStatus.finalized = refl
as_intent_status-status_text IntentStatus.reconciled = refl
as_intent_status-status_text IntentStatus.failed = refl
as_intent_status-status_text IntentStatus.expired = refl
