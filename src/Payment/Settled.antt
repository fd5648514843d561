-- ===== src/Payment/Settled.antt =====
-- The lifecycle of execution and settlement: `recordSimulation`, `markSigned`, `markSubmitted`,
-- `markFailed` and `markFinalized` of packages/database/src/jobs.ts.
use ai_neobank.Prelude.{
  ℕ, ◌≡◌, refl, ap, ◌∙◌, Bool, true, false, not, String, Option, none, some, List, [], ◌∷◌,
  if◌then◌else◌, arith, Bool-cases, not-false, inl, inr, includes,
}
use ai_neobank.Prelude.Equality.{◌==◌, nat_eq, option_eq, string_eq}
use ai_neobank.Prelude.Failure.{Tx, ◌>>◌, done, pure}
use ai_neobank.Domain.{IntentStatus, status_eq}
use ai_neobank.Ledger.{LedgerLine, pending_outbound, treasury_asset, settled_expense}
use ai_neobank.Ledger.Costs.{cost_lines}
use ai_neobank.Payment.Rows.{Payment, Intent, Execution}
use ai_neobank.Payment.Changes.{audit, add_event, set_status}
use ai_neobank.Payment.Execute.{ExecutionContext, record_simulation, SignedTransaction, mark_signed}
use ai_neobank.Payment.Settle.{
  Settlement, pair, reference, submit_with, submit_execution, hashed, mark_submitted, FailureFee,
  failed_row, ended, booked_amount, fail_execution, post_if_any, reverse, failure_costs, book_fee,
  mark_failed, ConfirmationContext, Receipt, is_matched, finalize_execution, confirmation_costs,
  outcome, settle_outcome, book_finality, settle_if_submitted, mark_finalized,
}
use ai_neobank.Payment.Evolve.{
  Step, Evolves, Evolves-refl, Evolves-aside, Evolves-trans, Kept, Kept-if, Kept-then, Kept-after,
  set_status-Evolves, add_event-Evolves, post-Kept, post-then,
}

-- A change of the execution row, then of the status, then an event.
moved :
    (p q : Payment) (to : IntentStatus) (event_type : String)
    → Evolves p q
    → Step q.intent.status to
    → Evolves p (add_event event_type none none (set_status to q))
moved p q to event_type e s = Evolves-trans p q _ e (
    Evolves-trans q (set_status to q) _ (set_status-Evolves to q s)
      (add_event-Evolves event_type none none (set_status to q)))

pub record_simulation-Kept :
    (fresh : ℕ) (c : ExecutionContext) (fee : ℕ) (details hash : String) (p : Payment)
    → Kept p (record_simulation fresh c fee details hash p)
unfolding record_simulation
record_simulation-Kept fresh c fee details hash p =
    elim (Bool-cases (p.intent.status == IntentStatus.approved)) [
      | inl here ↦ rw here (
          moved p _ IntentStatus.executing "intent.executing"
            (Evolves-aside p _ refl refl refl refl refl refl)
            (rw ((status_eq.beq_iff p.intent.status IntentStatus.approved).0 here) Step.execute))
      | inr elsewhere ↦ rw elsewhere (Evolves-aside p _ refl refl refl refl refl refl)
    ]

pub mark_signed-Kept :
    (id : ℕ) (signed : SignedTransaction) (p : Payment) → Kept p (mark_signed id signed p)
unfolding mark_signed
mark_signed-Kept id signed p = Evolves-aside p _ refl refl refl refl refl refl

submit_with-Kept :
    (now : ℕ) (settlement : Option Settlement) (found : Option (Execution × String)) (p : Payment)
    → Kept p (submit_with now settlement found p)
submit_with-Kept now settlement none p = tt
submit_with-Kept now settlement (some (e, hash)) p =
    elim (Bool-cases (not (p.intent.status == IntentStatus.executing))) [
      | inl elsewhere ↦ rw elsewhere tt
      | inr here ↦ rw here (
          post-then now (reference e.network hash "submitted") "Outbound transfer submitted"
            (pair p.intent.treasury_id p.intent.asset_id pending_outbound treasury_asset _) _ p _
            (moved p _ IntentStatus.submitted "intent.submitted"
              (Evolves-aside p _ refl refl refl refl refl refl)
              (rw ((status_eq.beq_iff p.intent.status IntentStatus.executing).0 (not-false _ here))
                Step.submit))
            (λ s _. Evolves-aside s _ refl refl refl refl refl refl))
    ]

pub mark_submitted-Kept :
    (now id : ℕ) (settlement : Option Settlement) (p : Payment)
    → Kept p (mark_submitted now id settlement p)
unfolding mark_submitted
mark_submitted-Kept now id settlement p =
    submit_with-Kept now settlement (hashed (submit_execution now id settlement p.execution)) p

post_if_any-Kept :
    (now : ℕ) (ref description : String) (lines : List LedgerLine) (p : Payment)
    → Kept p (post_if_any now ref description lines p)
post_if_any-Kept now ref description [] p = Evolves-refl p
post_if_any-Kept now ref description (line ∷ lines) p =
    post-Kept now ref description (line ∷ lines) p

reverse-Kept :
    (now : ℕ) (reason : String) (amount : ℕ) (i : Intent) (found : Option (Execution × String))
    (p : Payment)
    → Kept p (reverse now reason amount i found p)
reverse-Kept now reason amount i none p = Evolves-refl p
reverse-Kept now reason amount i (some (e, hash)) p = post-Kept now _ _ _ p

book_fee-Kept :
    (now : ℕ) (row : Payment) (fee : Option FailureFee) (p : Payment)
    → Kept p (book_fee now row fee p)
book_fee-Kept now row none p = Evolves-refl p
book_fee-Kept now row (some fee) p = post_if_any-Kept now _ _ (cost_lines (failure_costs row fee)) p

fail_step : (s : IntentStatus) → includes ended s ≡ false → Step s IntentStatus.failed
fail_step IntentStatus.received h = Step.fail_received
fail_step IntentStatus.policy_evaluated h = Step.fail_policy_evaluated
fail_step IntentStatus.approval_required h = Step.fail_approval_required
fail_step IntentStatus.auto_authorized h = Step.fail_auto_authorized
fail_step IntentStatus.approved h = Step.fail_approved
fail_step IntentStatus.executing h = Step.fail_executing
fail_step IntentStatus.submitted h = Step.fail_submitted
fail_step _ h = ground arith

reversal-Kept :
    (now : ℕ) (reason : String) (p s : Payment) (found : Option (Execution × String))
    → Kept s (
        (if p.intent.status == IntentStatus.submitted
            then reverse now reason (booked_amount p.execution p.intent) p.intent found
            else done)
          s)
reversal-Kept now reason p s found = elim (Bool-cases (p.intent.status == IntentStatus.submitted)) [
  | inl submitted ↦
      rw submitted (reverse-Kept now reason (booked_amount p.execution p.intent) p.intent found s)
  | inr elsewhere ↦ rw elsewhere (Evolves-refl s)
]

pub mark_failed-Kept :
    (now : ℕ) (reason : String) (fee : Option FailureFee) (p : Payment)
    → Kept p (mark_failed now reason fee p)
unfolding mark_failed
mark_failed-Kept now reason fee p =
    Kept-if {A = Unit {0}} (includes ended p.intent.status) _ _ p (λ _. Evolves-refl p)
      (λ alive.
        Kept-after p (failed_row reason p) _
          (moved p _ IntentStatus.failed "intent.failed"
            (Evolves-aside p _ refl refl refl refl refl refl) (fail_step p.intent.status alive))
          (Kept-then
            (if p.intent.status == IntentStatus.submitted
              then reverse now reason (booked_amount p.execution p.intent) p.intent
                  (hashed (fail_execution reason p.execution))
              else done)
            (book_fee now p fee >> audit none "intent.failed") (failed_row reason p)
            (reversal-Kept now reason p _ (hashed (fail_execution reason p.execution)))
            (λ s.
              Kept-then (book_fee now p fee) (audit none "intent.failed") s
                (book_fee-Kept now p fee s)
                (λ t. Evolves-aside t _ refl refl refl refl refl refl))))

settle_outcome-Kept :
    (b : Bool) (p : Payment)
    → p.intent.status ≡ IntentStatus.finalized
    → Kept p (settle_outcome b p)
settle_outcome-Kept true p h =
    moved p p IntentStatus.reconciled "intent.reconciled" (Evolves-refl p) (rw h Step.reconcile)
settle_outcome-Kept false p h =
    Evolves-trans p _ _ (add_event-Evolves "intent.reconciliation_break" none none p)
      (Evolves-aside _ _ refl refl refl refl refl refl)

fees-then :
    {A : Type 0} (now : ℕ) (ref : String) (lines : List LedgerLine) (k : Tx Payment A) (p : Payment)
    → ((s : Payment) → s.intent ≡ p.intent → Kept s (k s))
    → Kept p ((post_if_any now ref "Network fee" lines >> k) p)
fees-then now ref [] k p h = h p refl
fees-then now ref (line ∷ lines) k p h =
    post-then now ref "Network fee" (line ∷ lines) k p p (Evolves-refl p) h

book_finality-Kept :
    (now : ℕ) (c : ConfirmationContext) (r : Receipt) (p : Payment)
    → p.intent.status ≡ IntentStatus.submitted
    → Kept p (book_finality now c r p)
book_finality-Kept now c r p here =
    post-then now (reference c.intent.network c.transaction_hash "finalized")
      "Outbound transfer finalized"
      (pair c.intent.treasury_id c.intent.asset_id settled_expense pending_outbound _) _ p _
      (moved p p IntentStatus.finalized "intent.finalized" (Evolves-refl p) (rw here Step.finalize))
      (λ s at_finalized.
        fees-then now (reference c.intent.network c.transaction_hash "fee")
          (cost_lines (confirmation_costs c r)) _ s
          (λ t same.
            settle_outcome-Kept (is_matched c r) t (ap (λ i. i.status) (same ∙ at_finalized))))

pub mark_finalized-Kept :
    (now : ℕ) (c : ConfirmationContext) (r : Receipt) (p : Payment)
    → Kept p (mark_finalized now c r p)
unfolding mark_finalized
mark_finalized-Kept now c r p =
    let q = record p { execution = finalize_execution c r p.execution } in
    Kept-after p q _ (Evolves-aside p q refl refl refl refl refl refl) (
      Kept-then (settle_if_submitted now c r) (pure (outcome (is_matched c r))) q
        (Kept-if {A = Unit {0}} (not (q.intent.status == IntentStatus.submitted)) _ _ q
          (λ _. Evolves-refl q)
          (λ here.
            book_finality-Kept now c r q
              ((status_eq.beq_iff q.intent.status IntentStatus.submitted).0 (not-false _ here))))
        (λ s. Evolves-refl s))
