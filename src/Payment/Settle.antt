-- ===== src/Payment/Settle.antt =====
-- packages/database/src/jobs.ts: `markSubmitted`, `markFailed`, `getConfirmationContext` and
-- `markFinalized`.
use ai_neobank.Prelude.{
  ℕ, Bool, true, false, not, ◌&&◌, String, Option, none, some, List, [], ◌∷◌, if◌then◌else◌,
  includes,
}
use ai_neobank.Prelude.Equality.{◌==◌, nat_eq, string_eq, option_eq}
use ai_neobank.Prelude.Int.{ℤ, pos, int_eq}
use ai_neobank.Prelude.Text.{◌++ₜ◌, is_blank, first}
use ai_neobank.Prelude.Failure.{error, Result, ok, err, Tx, ◌>>◌, pure, modify, throw_if, done}
use ai_neobank.Domain.{AssetKind, IntentStatus, status_eq, native_asset_ids}
use ai_neobank.Ledger.{
  LedgerLine, debit, credit, AccountCode, pending_outbound, treasury_asset, settled_expense,
}
use ai_neobank.Ledger.Costs.{CostInput, cost_lines}
use ai_neobank.Payment.Rows.{
  Payment, Context, Intent, AssetRow, Execution, ExecutionStatus, CompiledPayload, Topic,
}
use ai_neobank.Payment.Changes.{event, add_event, set_status, enqueue_at, audit, post}

-- A debit and a credit of the same amount, for one treasury and one asset.
abbrev pub pair : ℕ → String → AccountCode → AccountCode → ℤ → List LedgerLine
pair treasury asset debited credited amount =
    record {
      treasury_id = some treasury;
      code = debited;
      asset_id = asset;
      direction = debit;
      amount = amount;
    }
    ∷ record {
      treasury_id = some treasury;
      code = credited;
      asset_id = asset;
      direction = credit;
      amount = amount;
    }
    ∷ []

-- The settlement of an x402 payment, learned from the seller's response.
pub record Settlement : Type 0 where
  pub transaction_hash : String
  pub pay_to : String
  pub amount_base_units : ℕ

abbrev pub is_in_flight : ExecutionStatus → Bool
is_in_flight ExecutionStatus.signed = true
is_in_flight ExecutionStatus.submitted = true
is_in_flight _ = false

abbrev pub is_submitted : ExecutionStatus → Bool
is_submitted ExecutionStatus.submitted = true
is_submitted _ = false

abbrev settle_payload : Option Settlement → CompiledPayload → CompiledPayload
settle_payload none c = c
settle_payload (some s) c = record c {
  pay_to = some s.pay_to;
  settled_amount = some s.amount_base_units;
}

abbrev settled_hash : Option Settlement → Option String → Option String
settled_hash none hash = hash
settled_hash (some s) hash = some s.transaction_hash

-- The row that the update returns; none where no row is the signed or submitted one asked for.
abbrev pub submit_execution : ℕ → ℕ → Option Settlement → Option Execution → Option Execution
submit_execution now id settlement none = none
submit_execution now id settlement (some e) =
    if e.id == id && is_in_flight e.status
    then some (record e {
      status = ExecutionStatus.submitted;
      broadcast_at = some (elim e.broadcast_at [ none ↦ now | some at ↦ at ]);
      transaction_hash = settled_hash settlement e.transaction_hash;
      compiled_payload = settle_payload settlement e.compiled_payload;
    })
    else none

-- The execution with its hash; a blank hash counts as none.
abbrev pub hashed : Option Execution → Option (Execution × String)
hashed none = none
hashed (some e) = elim e.transaction_hash [
  | none ↦ none
  | some hash ↦ if is_blank hash then none else some (e, hash)
]

abbrev pub reference : String → String → String → String
reference network hash suffix = network ++ₜ ":" ++ₜ hash ++ₜ ":" ++ₜ suffix

abbrev pub submit_amount : Option Settlement → Intent → ℕ
submit_amount none i = i.amount_base_units
submit_amount (some s) i = s.amount_base_units

abbrev pub submit_with : ℕ → Option Settlement → Option (Execution × String) → Tx Payment (Unit {0})
submit_with now settlement none p = err (error "Execution has no signed transaction")
submit_with now settlement (some (e, hash)) p =
    (do
      throw_if (not (p.intent.status == IntentStatus.executing))
          (error "Intent was not executing during submission")
      modify (λ q. record q { execution = some e })
      modify (set_status IntentStatus.submitted)
      event "intent.submitted"
      post now (reference e.network hash "submitted") "Outbound transfer submitted" (
          pair p.intent.treasury_id p.intent.asset_id pending_outbound treasury_asset
            (pos (submit_amount settlement p.intent)))
      enqueue_at now Topic.transaction_confirm)
      p

-- `markSubmitted`
unfoldable pub mark_submitted : ℕ → ℕ → Option Settlement → Tx Payment (Unit {0})
unfolding post
mark_submitted now id settlement p =
    submit_with now settlement (hashed (submit_execution now id settlement p.execution)) p

-- The fee of a transaction that failed on chain.
pub record FailureFee : Type 0 where
  pub fee_base_units : ℤ
  pub network : String
  pub transaction_hash : String

abbrev pub ended : List IntentStatus
ended =
    IntentStatus.failed ∷ IntentStatus.reconciled ∷ IntentStatus.finalized ∷ IntentStatus.rejected
    ∷ IntentStatus.expired ∷ []

abbrev pub booked_amount : Option Execution → Intent → ℕ
booked_amount none i = i.amount_base_units
booked_amount (some e) i = elim e.compiled_payload.settled_amount [
  | none ↦ i.amount_base_units
  | some amount ↦ amount
]

abbrev pub fail_execution : String → Option Execution → Option Execution
fail_execution reason none = none
fail_execution reason (some e) =
    some (record e { status = ExecutionStatus.failed; error = some (first 2000 reason) })

abbrev pub post_if_any : ℕ → String → String → List LedgerLine → Tx Payment (Unit {0})
post_if_any now ref description [] = done
post_if_any now ref description lines = post now ref description lines

abbrev pub reverse : ℕ → String → ℕ → Intent → Option (Execution × String) → Tx Payment (Unit {0})
reverse now reason amount i none = done
reverse now reason amount i (some (e, hash)) =
    post now (reference e.network hash "reversal")
      ("Submitted transfer failed: " ++ₜ first 120 reason)
      (pair i.treasury_id i.asset_id treasury_asset pending_outbound (pos amount))

abbrev pub failure_costs : Payment → FailureFee → CostInput
failure_costs p fee = record {
  treasury_id = p.intent.treasury_id;
  governance = p.context.governance;
  kind = p.intent.kind;
  chain_family = p.context.chain_family;
  native_asset = fee.network ++ₜ "/" ++ₜ native_asset_ids p.context.chain_family;
  transfers_native = false;
  amount_base_units = pos 0;
  fee_base_units = fee.fee_base_units;
  source_native_spent = none;
}

abbrev pub book_fee : ℕ → Payment → Option FailureFee → Tx Payment (Unit {0})
book_fee now p none = done
book_fee now p (some fee) =
    post_if_any now (reference fee.network fee.transaction_hash "fee")
      "Network fee on failed transaction" (cost_lines (failure_costs p fee))

-- The rows after the two updates and the event.
abbrev pub failed_row : String → Payment → Payment
failed_row reason p = add_event "intent.failed" none none (
    set_status IntentStatus.failed (record p {
      intent = record (p.intent) { failure_reason = some (first 2000 reason) };
      execution = fail_execution reason p.execution;
    }))

-- `markFailed`
unfoldable pub mark_failed : ℕ → String → Option FailureFee → Tx Payment (Unit {0})
unfolding post cost_lines
mark_failed now reason fee p =
    if includes ended p.intent.status
    then done p
    else (do
      modify (λ _. failed_row reason p)
      if p.intent.status == IntentStatus.submitted
          then reverse now reason (booked_amount p.execution p.intent) p.intent
              (hashed (fail_execution reason p.execution))
          else done
      book_fee now p fee
      audit none "intent.failed")
        p

pub record ConfirmationContext : Type 0 where
  pub intent : Intent
  pub context : Context
  pub asset : AssetRow
  pub to : String
  pub amount_base_units : ℕ
  pub execution_id : ℕ
  pub transaction_hash : String

abbrev confirmation_with : Payment → Option AssetRow → Option Execution → Result ConfirmationContext
confirmation_with p (some asset) (some e) =
    if p.intent.status == IntentStatus.submitted && is_submitted e.status
    then ok (record {
      intent = p.intent;
      context = p.context;
      asset = asset;
      to = elim e.compiled_payload.pay_to [ none ↦ p.intent.destination | some payee ↦ payee ];
      amount_base_units = booked_amount (some e) p.intent;
      execution_id = e.id;
      transaction_hash = elim e.transaction_hash [ none ↦ "" | some hash ↦ hash ];
    })
    else err (error "Submitted execution not found")
confirmation_with p _ _ = err (error "Submitted execution not found")

-- `getConfirmationContext`
unfoldable pub get_confirmation_context : Payment → Result ConfirmationContext
get_confirmation_context p = confirmation_with p p.context.asset p.execution

-- What the chain adapter reports of a finalized transaction.
pub record Receipt : Type 0 where
  pub block_height : ℕ
  pub fee_base_units : ℤ
  pub confirmations : ℕ
  pub destination_delta : Option ℤ
  pub source_native_spent : Option ℤ

abbrev pub is_matched : ConfirmationContext → Receipt → Bool
is_matched c r = r.destination_delta == some (pos c.amount_base_units)

abbrev pub finalize_execution : ConfirmationContext → Receipt → Option Execution → Option Execution
finalize_execution c r none = none
finalize_execution c r (some e) =
    if e.id == c.execution_id && is_submitted e.status
    then some (record e {
      status = ExecutionStatus.finalized;
      block_cursor = some r.block_height;
      fee_base_units = some r.fee_base_units;
      confirmations = some r.confirmations;
    })
    else some e

abbrev is_native : AssetKind → Bool
is_native AssetKind.native = true
is_native _ = false

abbrev pub confirmation_costs : ConfirmationContext → Receipt → CostInput
confirmation_costs c r = record {
  treasury_id = c.intent.treasury_id;
  governance = c.context.governance;
  kind = c.intent.kind;
  chain_family = c.context.chain_family;
  native_asset = c.intent.network ++ₜ "/" ++ₜ native_asset_ids c.context.chain_family;
  transfers_native = is_native c.asset.kind;
  amount_base_units = pos c.amount_base_units;
  fee_base_units = r.fee_base_units;
  source_native_spent = r.source_native_spent;
}

abbrev pub outcome : Bool → IntentStatus
outcome true = IntentStatus.reconciled
outcome false = IntentStatus.finalized

abbrev pub settle_outcome : Bool → Tx Payment (Unit {0})
settle_outcome true = do modify (set_status IntentStatus.reconciled); event "intent.reconciled"
settle_outcome false = do event "intent.reconciliation_break"; audit none "reconciliation.break"

abbrev pub book_finality : ℕ → ConfirmationContext → Receipt → Tx Payment (Unit {0})
book_finality now c r = do
  modify (set_status IntentStatus.finalized)
  event "intent.finalized"
  post now (reference c.intent.network c.transaction_hash "finalized") "Outbound transfer finalized"
      (pair c.intent.treasury_id c.intent.asset_id settled_expense pending_outbound
        (pos c.amount_base_units))
  post_if_any now (reference c.intent.network c.transaction_hash "fee") "Network fee"
      (cost_lines (confirmation_costs c r))
  settle_outcome (is_matched c r)

-- `moved.count === 0`: the intent is not submitted any more, and nothing is booked.
abbrev pub settle_if_submitted : ℕ → ConfirmationContext → Receipt → Tx Payment (Unit {0})
settle_if_submitted now c r p =
    if not (p.intent.status == IntentStatus.submitted) then done p else book_finality now c r p

-- `markFinalized`: the context was read before the chain was asked.
unfoldable pub mark_finalized : ℕ → ConfirmationContext → Receipt → Tx Payment IntentStatus
unfolding post cost_lines
mark_finalized now c r = do
  modify (λ q. record q { execution = finalize_execution c r q.execution })
  settle_if_submitted now c r
  pure (outcome (is_matched c r))
