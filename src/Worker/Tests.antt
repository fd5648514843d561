-- ===== src/Worker/Tests.antt =====
-- An approved payment that is executed, interrupted before its broadcast and recovered, and the
-- witness; and what happens where two executions overlap or the organisation is frozen meanwhile.
use ai_neobank.Prelude.{◌≡◌, refl, ap, true, String, none, some, List, [], ◌∷◌, map, All, arith}
use ai_neobank.Prelude.Int.{◌+ℤ◌, neg}
use ai_neobank.Prelude.Text.{join, decimal, to_lower}
use ai_neobank.Prelude.Failure.{Result, ok, err, error}
use ai_neobank.Domain.{IntentStatus, safe}
use ai_neobank.Policy.{evaluate_payment_intent}
use ai_neobank.Ledger.{post_ledger}
use ai_neobank.Payment.Intake.{gate, load_policy, spent_today}
use ai_neobank.Payment.Evaluate.{evaluate_intent}
use ai_neobank.Payment.Decide.{create_intent, decide_intent}
use ai_neobank.Payment.Publish.{key_material}
use ai_neobank.Payment.Execute.{
  ExecutionContext, OwnerSignature, SignedTransaction, get_execution_context, record_simulation,
  mark_signed,
}
use ai_neobank.Payment.Settle.{mark_submitted, mark_failed}
use ai_neobank.Payment.Samples.{approved, ready, transaction}
use ai_neobank.Worker.{World, execute, execute_in}
use ai_neobank.Worker.Plan.{
  Adapters, ExecutionPlan, direct_compiled_hash, unseen_resendable, failure, plan_with,
  build_execution,
}
use ai_neobank.Worker.Authorized.{Authorized, build_execution-Authorized}
use ai_neobank.Worker.Rows.{payload_of}
use ai_neobank.Worker.Once.{SignsBytes}
use ai_neobank.Worker.Sends.{here, next, executes, WorksOn-sends_once}

-- A network that takes what it is sent, and a signer of the given transaction.
abbrev adapters : SignedTransaction → Adapters
adapters signed = record {
  sha256 = λ t. "0xc0";
  simulate_transfer = λ c. ok (record { ok = true; fee_base_units = 21; error = none });
  safe_ref = λ r. none;
  observe_safe = λ s. err (error "no Safe");
  recover_safe_signer = λ h s. none;
  simulate_safe = λ c r s. err (error "no Safe");
  squads_ref = λ r. none;
  observe_proposal = λ r. ok none;
  simulate_squads = λ c r. err (error "no multisig");
  describe = λ c. "transfer";
  sign = λ c. ok signed;
  broadcast = λ s. ok tt;
  broadcast_status = λ s. ok unseen_resendable;
  build_x402 = λ c m. ok (failure "Intent has no x402 quote");
}

abbrev signed_in : Result SignedTransaction → SignedTransaction
signed_in (ok s) = s
signed_in (err e) = transaction

signs : SignsBytes (adapters transaction)
signs = record {
  signs = λ c s e. rw (← ap signed_in e) (refl, refl);
  pays = λ c m b s e f. ground (arith, e);
}

abbrev begun : World
begun = record { payment = approved; sent = [] }

abbrev interrupted : World
interrupted = (execute (adapters transaction) 4000 11 (err (error "crash")) begun).1

abbrev recovered : World
recovered = (execute (adapters transaction) 5000 12 (ok tt) interrupted).1

abbrev raws : World → List String
raws w = map (λ s. s.raw) w.sent

resends : raws recovered ≡ "0xdd" ∷ []
unfolding direct_compiled_hash execute get_execution_context record_simulation mark_signed
    mark_submitted mark_failed decide_intent evaluate_intent create_intent gate load_policy
    evaluate_payment_intent spent_today join decimal ai_neobank.Payment.Execute.newest to_lower
    key_material post_ledger ◌+ℤ◌ neg
resends = refl

WorksOn-sends_once_example :
    All (λ s. payload_of recovered.payment.execution ≡ some s.raw) recovered.sent
unfolding decide_intent evaluate_intent create_intent gate load_policy evaluate_payment_intent
    spent_today join decimal
WorksOn-sends_once_example = WorksOn-sends_once begun recovered refl refl (
    next
      (next here (
        executes (adapters transaction) 4000 11 (err (error "crash")) begun interrupted signs refl))
      (executes (adapters transaction) 5000 12 (ok tt) interrupted recovered signs refl))

-- Two workers that read the payment before either has signed: each sends its own transaction, and
-- the second one is stored nowhere.
abbrev other_transaction : SignedTransaction
other_transaction = record { hash = "0xff"; raw = "0xee"; nonce = "2"; valid_until = "" }

abbrev first_sent : World
first_sent = (execute_in (adapters transaction) 4000 11 (ok tt) ready begun).1

abbrev both_sent : World
both_sent = (execute_in (adapters other_transaction) 4000 12 (ok tt) ready first_sent).1

overlapping_executions_send_twice : raws both_sent ≡ "0xdd" ∷ "0xee" ∷ []
unfolding direct_compiled_hash execute_in record_simulation mark_signed mark_submitted decide_intent
    evaluate_intent create_intent gate load_policy evaluate_payment_intent spent_today join decimal
    post_ledger ◌+ℤ◌ neg
overlapping_executions_send_twice = refl

-- The broadcast times out although the network takes the bytes, and the organisation is frozen
-- before the retry: the payment is marked as failed, and nothing asks the network about it.
abbrev timing_out : Adapters
timing_out = record (adapters transaction) { broadcast = λ s. err (error "timeout") }

abbrev timed_out : World
timed_out = (execute timing_out 4000 11 (ok tt) begun).1

abbrev freeze : World → World
freeze w = record w {
  payment = record (w.payment) {
    context = record (w.payment.context) { organization_frozen = true };
  };
}

abbrev retried : World
retried = (execute (adapters transaction) 5000 12 (ok tt) (freeze timed_out)).1

frozen_retry_fails_what_was_sent :
    (raws retried ≡ "0xdd" ∷ []) × (retried.payment.intent.status ≡ IntentStatus.failed)
unfolding direct_compiled_hash execute get_execution_context record_simulation mark_signed
    mark_submitted mark_failed decide_intent evaluate_intent create_intent gate load_policy
    evaluate_payment_intent spent_today join decimal ai_neobank.Payment.Execute.newest to_lower
    key_material post_ledger ◌+ℤ◌ neg
frozen_retry_fails_what_was_sent = (refl, refl)

-- A Safe with two owners that needs both, who have signed its next transaction; a third signature
-- is no owner's.
abbrev signature_by : String → OwnerSignature
signature_by address = record { signer_address = address; signed_payload = address }

abbrev safe_adapters : Adapters
safe_adapters = record (adapters transaction) {
  safe_ref = λ r. some (record { safe_tx_hash = "0xc0"; nonce = 4 });
  observe_safe = λ s. ok (record { nonce = 4; threshold = 2; owners = "0xada" ∷ "0xben" ∷ [] });
  recover_safe_signer = λ h payload. some payload;
  simulate_safe = λ c r s. ok (record { ok = true; fee_base_units = 30; error = none });
}

abbrev safe_ready : ExecutionContext
safe_ready = record ready {
  context = record (ready.context) { governance = safe };
  approval_compiled_hash = "c0";
  owner_signatures = signature_by "0xada" ∷ signature_by "0xeve" ∷ signature_by "0xben" ∷ [];
}

abbrev planned : ExecutionPlan
planned = plan_with safe_adapters safe_ready 30 "c0"

build_execution-Authorized_example :
    Authorized safe_adapters safe_ready safe_ready.context.governance
unfolding build_execution decide_intent evaluate_intent create_intent gate load_policy
    evaluate_payment_intent spent_today join decimal to_lower
build_execution-Authorized_example =
    build_execution-Authorized safe_adapters safe_ready planned refl refl
