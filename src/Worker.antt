-- ===== src/Worker.antt =====
-- apps/worker/src/worker.ts: the worker's handlers as compositions of the transactions on a payment.
-- Each transaction commits by itself; `sent` holds what was handed to the network, oldest first.
pub mod Plan
pub mod Rows
pub mod Once
pub mod Signing
pub mod Built
pub mod Authorized
pub mod Sends
pub mod Loop
mod Tests
use ai_neobank.Prelude.{
  ℕ, Bool, true, false, not, ◌&&◌, String, Option, none, some, List, [], ◌∷◌, ◌++◌, if◌then◌else◌,
}
use ai_neobank.Prelude.Int.{ℤ}
use ai_neobank.Prelude.Text.{◌++ₜ◌, is_blank, decimal}
use ai_neobank.Prelude.Failure.{
  Exception, error, execution_rejected, deferred, approval_error, operations_error, Result, ok, err,
  Tx, Call,
}
use ai_neobank.Prelude.Calls.{◌>>=◌, ◌>>◌, continue, answer}
use ai_neobank.Payment.Rows.{Payment, Execution, ExecutionStatus}
use ai_neobank.Payment.Execute.{
  ExecutionContext, get_execution_context, record_simulation, SignedTransaction, mark_signed,
}
use ai_neobank.Payment.Settle.{
  Settlement, mark_submitted, FailureFee, mark_failed, ConfirmationContext,
  get_confirmation_context, Receipt, mark_finalized,
}
use ai_neobank.Worker.Plan.{
  Adapters, Build, failure, plan, ExecutionPlan, Recovery, resend, settled, dead, Mode,
  build_execution,
}

pub record World : Type 0 where
  pub payment : Payment
  pub sent : List SignedTransaction

abbrev pub settle : {A : Type 0} → World → Result (A × Payment) → Result A × World
settle w (ok (a, p)) = (ok a, record w { payment = p })
settle w (err e) = (err e, w)

-- A transaction on the payment's rows, committed or rolled back.
abbrev pub on_payment : {A : Type 0} → Tx Payment A → Call World A
on_payment m w = settle w (m w.payment)

-- The bytes leave; what the network answers is given.
abbrev pub send : ExecutionPlan → SignedTransaction → Call World (Option Settlement)
send build signed w = (build.broadcast signed, record w { sent = w.sent ++ signed ∷ [] })

abbrev status_text : ExecutionStatus → String
status_text ExecutionStatus.simulated = "simulated"
status_text ExecutionStatus.signed = "signed"
status_text ExecutionStatus.submitted = "submitted"
status_text ExecutionStatus.finalized = "finalized"
status_text ExecutionStatus.failed = "failed"

-- `["simulated", "signed"].includes(status)`
abbrev pub is_open : ExecutionStatus → Bool
is_open ExecutionStatus.simulated = true
is_open ExecutionStatus.signed = true
is_open _ = false

abbrev pub is_signed : ExecutionStatus → Bool
is_signed ExecutionStatus.signed = true
is_signed _ = false

abbrev or_empty : Option String → String
or_empty none = ""
or_empty (some s) = s

abbrev pub stored : Execution → String → String → SignedTransaction
stored e hash raw = record {
  hash = hash;
  raw = raw;
  nonce = or_empty e.nonce;
  valid_until = or_empty e.valid_until;
}

-- The stored transaction, where both the hash and the bytes are there and not blank.
abbrev pub stored_if : Execution → Option String → Option String → Option SignedTransaction
stored_if e (some hash) (some raw) =
    if is_blank hash then none else if is_blank raw then none else some (stored e hash raw)
stored_if e _ _ = none

abbrev pub with_row : Execution → Option SignedTransaction → Option (Execution × SignedTransaction)
with_row e none = none
with_row e (some signed) = some (e, signed)

-- What a retry recovers: the bytes that an earlier attempt signed and stored.
unfoldable pub recoverable : Option Execution → Option (Execution × SignedTransaction)
recoverable none = none
recoverable (some e) =
    if is_signed e.status
    then with_row e (stored_if e e.transaction_hash e.signed_payload)
    else none

module _ (a : Adapters) (now fresh : ℕ) where
  abbrev pub fail_payment : String → Call World (Unit {0})
  fail_payment reason = on_payment (mark_failed now reason none)

  abbrev pub submit : ℕ → Option Settlement → Call World (Unit {0})
  submit id settlement = on_payment (mark_submitted now id settlement)

  abbrev pub deliver : ExecutionPlan → ℕ → SignedTransaction → Call World (Unit {0})
  deliver build id signed = do settlement ← send build signed; submit id settlement

  -- On what the network says of the stored bytes.
  abbrev pub act_on :
      ExecutionPlan → Execution → SignedTransaction → Recovery → Call World (Unit {0})
  act_on build e signed resend = deliver build e.id signed
  act_on build e signed (settled settlement) = submit e.id settlement
  act_on build e signed (dead reason) =
      fail_payment ("Signed transaction can never land: " ++ₜ reason)

  abbrev pub recover_stored : ExecutionPlan → Execution → SignedTransaction → Call World (Unit {0})
  recover_stored build e signed = do
    recovery ← answer (build.recover signed)
    act_on build e signed recovery

  -- The identifier of the execution: the one in the context, or that of a new row.
  abbrev pub execution_id : ExecutionContext → ExecutionPlan → Option Execution → Call World ℕ
  execution_id c build (some e) = answer (ok e.id)
  execution_id c build none =
      on_payment
        (record_simulation fresh c build.fee_base_units build.compiled_payload build.compiled_hash)

  -- Sign, persist, then broadcast. `before` is what the hook before the broadcast does.
  abbrev pub sign_and_send :
      Result (Unit {0}) → ExecutionContext → ExecutionPlan → Call World (Unit {0})
  sign_and_send before c build = do
    id ← execution_id c build c.execution
    signed ← answer build.sign
    on_payment (mark_signed id signed)
    answer before
    deliver build id signed

  abbrev pub carry_out :
      Result (Unit {0})
      → ExecutionContext
      → Option (Execution × SignedTransaction)
      → Build
      → Call World (Unit {0})
  carry_out before c stored_bytes (failure reason) = fail_payment reason
  carry_out before c none (plan build) = sign_and_send before c build
  carry_out before c (some (e, signed)) (plan build) = recover_stored build e signed

  abbrev pub mode_of : Option (Execution × SignedTransaction) → Mode
  mode_of none = Mode.sign
  mode_of (some _) = Mode.recover

  abbrev pub already : Option Execution → Option String
  already none = none
  already (some e) = if is_open e.status then none else some (status_text e.status)

  abbrev pub execute_unless :
      Result (Unit {0}) → ExecutionContext → Option String → Call World (Unit {0})
  execute_unless before c (some status) = answer (err (error ("Execution is already " ++ₜ status)))
  execute_unless before c none = do
    build ← answer (build_execution a c (mode_of (recoverable c.execution)))
    carry_out before c (recoverable c.execution) build

  -- `execute`, once its context is read: other workers may have moved the rows since.
  unfoldable pub execute_in : Result (Unit {0}) → ExecutionContext → Call World (Unit {0})
  unfolding recoverable build_execution
  execute_in before c = execute_unless before c (already c.execution)

  abbrev pub execute_read : Result (Unit {0}) → Result ExecutionContext → Call World (Unit {0})
  execute_read before (ok c) = execute_in before c
  execute_read before (err (execution_rejected reason)) = fail_payment reason
  execute_read before (err e) = answer (err e)

  -- `execute`
  unfoldable pub execute : Result (Unit {0}) → Call World (Unit {0})
  unfolding execute_in
  execute before w = execute_read before (get_execution_context now w.payment) w

-- What the adapter reports of a transaction, or that it is not visible yet.
pub record Observed : Type 0 where
  pub failed : Bool
  pub finalized : Bool
  pub receipt : Receipt

abbrev pub failure_fee : ConfirmationContext → Receipt → FailureFee
failure_fee c r = record {
  fee_base_units = r.fee_base_units;
  network = c.intent.network;
  transaction_hash = c.transaction_hash;
}

-- `error.message`
abbrev pub message_of : Exception → String
message_of (error m) = m
message_of (execution_rejected m) = m
message_of (deferred m seconds) = m
message_of (approval_error m) = m
message_of (operations_error m) = m

module _ (now : ℕ) where
  abbrev pub drop_result : {A : Type 0} → A → Call World (Unit {0})
  drop_result a = answer (ok tt)

  abbrev pub confirm_with : ConfirmationContext → Observed → Call World (Unit {0})
  confirm_with c o =
      if o.failed
      then on_payment (
          mark_failed now "Transaction executed but failed on chain"
            (some (failure_fee c o.receipt)))
      else if not o.finalized
      then answer (
          err (
            deferred
              ("Awaiting finality (" ++ₜ decimal o.receipt.confirmations ++ₜ " confirmations)") 3))
      else on_payment (mark_finalized now c o.receipt) >>= drop_result

  -- A transaction that the adapter does not see yet is looked at again.
  abbrev pub confirm_seen : ConfirmationContext → Result Observed → Call World (Unit {0})
  confirm_seen c (err e) = answer (err (deferred (message_of e) 3))
  confirm_seen c (ok o) = confirm_with c o

  abbrev pub confirm_read :
      (ConfirmationContext → Result Observed) → Result ConfirmationContext → Call World (Unit {0})
  confirm_read wait (err e) = answer (err e)
  confirm_read wait (ok c) = confirm_seen c (wait c)

  -- `confirm`
  unfoldable pub confirm : (ConfirmationContext → Result Observed) → Call World (Unit {0})
  confirm wait w = confirm_read wait (get_confirmation_context w.payment) w
