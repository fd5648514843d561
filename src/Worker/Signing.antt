-- ===== src/Worker/Signing.antt =====
-- apps/worker/src/worker.ts: signing for the first time keeps the promise that only stored bytes are
-- sent.
use ai_neobank.Prelude.{ℕ, ◌≡◌, refl, ap, inl, inr, true, Option, none, some, [], Bool-cases, arith}
use ai_neobank.Prelude.Equality.{◌==◌, nat_eq, string_eq, beq_refl}
use ai_neobank.Prelude.Failure.{Result, ok, err}
use ai_neobank.Prelude.Calls.{continue}
use ai_neobank.Domain.{IntentStatus, status_eq}
use ai_neobank.Payment.Rows.{Payment, Execution, ExecutionStatus}
use ai_neobank.Payment.Execute.{
  ExecutionContext, record_simulation, new_execution, SignedTransaction, mark_signed, is_simulated,
  sign_execution,
}
use ai_neobank.Worker.{World, settle, on_payment, deliver, execution_id, sign_and_send}
use ai_neobank.Worker.Plan.{Adapters, ExecutionPlan}
use ai_neobank.Worker.Rows.{payload_of}
use ai_neobank.Worker.Once.{IsOnce, is_unsigned, NotBlank, signed_row-IsOnce, deliver-IsOnce}

-- A row that waits for its signature, and nothing sent.
pub record IsWaiting (e : Execution) (w : World) : Type 0 where
  pub row : w.payment.execution ≡ some e
  pub waits : is_simulated e.status ≡ true
  pub quiet : w.sent ≡ []

abbrev signed_by : SignedTransaction → Execution → Execution
signed_by s e = record e {
  status = ExecutionStatus.signed;
  transaction_hash = some s.hash;
  signed_payload = some s.raw;
  nonce = some s.nonce;
  valid_until = some s.valid_until;
}

sign_execution_lem :
    (s : SignedTransaction) (e : Execution)
    → is_simulated e.status ≡ true
    → sign_execution e.id s (some e) ≡ some (signed_by s e)
sign_execution_lem s e waits = rw (beq_refl e.id, waits)

module _ (a : Adapters) (now fresh : ℕ) (before : Result (Unit {0})) (c : ExecutionContext)
    (build : ExecutionPlan) (signs : (s : SignedTransaction) → build.sign ≡ ok s → NotBlank s) where
  waiting-IsOnce : (e : Execution) (w : World) → IsWaiting e w → IsOnce w
  waiting-IsOnce e w k = record {
    kept = rw k.quiet tt;
    unsent = λ u. k.quiet;
    recovers = λ u. rw k.row (ground (arith, k.waits));
  }

  -- The rest of an execution, once its row has an identifier.
  abbrev after_id : ℕ → World → Result (Unit {0}) × World
  after_id id w =
      continue (build.sign, w)
        (λ s v.
          continue (on_payment (mark_signed id s) v)
            (λ _ u. continue (before, u) (λ _ t. deliver a now fresh build id s t)))

  abbrev stored_in : Execution → SignedTransaction → World → World
  stored_in e s w = record w {
    payment = record (w.payment) { execution = sign_execution e.id s w.payment.execution };
  }

  stored_row :
      (e : Execution) (s : SignedTransaction) (w : World)
      → IsWaiting e w
      → (stored_in e s w).payment.execution ≡ some (signed_by s e)
  stored_row e s w k = rw k.row (sign_execution_lem s e k.waits)

  stored_in-IsOnce :
      (e : Execution) (s : SignedTransaction) (w : World)
      → IsWaiting e w
      → NotBlank s
      → IsOnce (stored_in e s w)
  stored_in-IsOnce e s w k blank =
      signed_row-IsOnce (stored_in e s w) e s blank (stored_row e s w k) k.quiet

  hooked-IsOnce :
      (e : Execution) (s : SignedTransaction) (w : World) (hook : Result (Unit {0}))
      → IsWaiting e w
      → NotBlank s
      → IsOnce (continue (hook, stored_in e s w) (λ _ t. deliver a now fresh build e.id s t)).1
  hooked-IsOnce e s w (ok _) k blank =
      deliver-IsOnce a now fresh build e.id s (stored_in e s w) (ap payload_of (stored_row e s w k))
        (ap is_unsigned (stored_row e s w k)) (stored_in-IsOnce e s w k blank)
  hooked-IsOnce e s w (err x) k blank = stored_in-IsOnce e s w k blank

  after_id-IsOnce : (e : Execution) (w : World) → IsWaiting e w → IsOnce (after_id e.id w).1
  unfolding mark_signed
  after_id-IsOnce e w k = on_signature build.sign signs
    where
      on_signature :
          (r : Result SignedTransaction)
          → ((s : SignedTransaction) → r ≡ ok s → NotBlank s)
          → IsOnce
              (continue
                (r, w)
                (λ s v.
                  continue
                    (on_payment (mark_signed e.id s) v)
                    (λ _ u. continue (before, u) (λ _ t. deliver a now fresh build e.id s t)))).1
      on_signature (ok s) n = hooked-IsOnce e s w before k (n s refl)
      on_signature (err x) n = waiting-IsOnce e w k

  -- `recordSimulation` inserts a row that waits for its signature, and returns its identifier.
  abbrev Begun : Result (ℕ × Payment) → Type 0
  Begun (ok (id, q)) =
      (q.execution
        ≡ some
            (new_execution fresh c build.fee_base_units build.compiled_payload build.compiled_hash))
      × (id ≡ fresh)
  Begun (err e) = Unit

  record_simulation-Begun :
      (p : Payment)
      → p.execution ≡ none
      → Begun (
          record_simulation fresh c build.fee_base_units build.compiled_payload build.compiled_hash
            p)
  unfolding record_simulation
  record_simulation-Begun p none_yet =
      elim (Bool-cases (p.intent.status == IntentStatus.approved)) [
        | inl first ↦ rw (first, none_yet) (refl, refl)
        | inr again ↦ rw (again, none_yet) (refl, refl)
      ]

  Begun-IsOnce :
      (w : World) (r : Result (ℕ × Payment))
      → w.sent ≡ []
      → IsOnce w
      → Begun r
      → IsOnce (continue (settle w r) after_id).1
  Begun-IsOnce w (ok (id, q)) quiet k b = rw b.1 (
      after_id-IsOnce
        (new_execution fresh c build.fee_base_units build.compiled_payload build.compiled_hash)
        (record w { payment = q }) (record { row = b.0; waits = refl; quiet = quiet }))
  Begun-IsOnce w (err e) quiet k b = k

  by_row-IsOnce :
      (row : Option Execution) (w : World)
      → w.payment.execution ≡ row
      → is_unsigned row ≡ true
      → IsOnce w
      → IsOnce (continue (execution_id a now fresh c build row w) after_id).1
  by_row-IsOnce none w here unsigned k =
      Begun-IsOnce w
        (record_simulation fresh c build.fee_base_units build.compiled_payload build.compiled_hash
          w.payment)
        (k.unsent (rw here refl)) k (record_simulation-Begun w.payment here)
  by_row-IsOnce (some e) w here unsigned k =
      after_id-IsOnce e w
        (record { row = here; waits = unsigned; quiet = k.unsent (rw here unsigned) })

  -- Signing, on a row that is not there yet or that waits for its signature.
  pub sign_and_send-IsOnce :
      (w : World)
      → w.payment.execution ≡ c.execution
      → is_unsigned c.execution ≡ true
      → IsOnce w
      → IsOnce (sign_and_send a now fresh before c build w).1
  sign_and_send-IsOnce w here unsigned k = by_row-IsOnce c.execution w here unsigned k
