-- ===== src/Worker/Sends.antt =====
-- apps/worker/src/worker.ts: over the whole life of a payment one signed transaction at most reaches
-- the network.
use mathlib.Core.Option.{some-ne-none}
use ai_neobank.Prelude.{
  ℕ, ◌≡◌, refl, ◌∙◌, ap, sym, inl, inr, true, false, not, ◌&&◌, String, Option, none, some, [], ◌∷◌,
  All, Bool-cases, Option-cases, arith, includes, leb,
}
use ai_neobank.Prelude.Equality.{◌==◌}
use ai_neobank.Prelude.Failure.{
  error, execution_rejected, deferred, approval_error, operations_error, Result, ok, err,
}
use ai_neobank.Prelude.Calls.{continue}
use ai_neobank.Domain.{IntentStatus, status_eq}
use ai_neobank.Payment.Rows.{Payment, Execution, ExecutionStatus, Signer, is_active}
use ai_neobank.Payment.Intake.{gate}
use ai_neobank.Payment.Publish.{KeyMaterial}
use ai_neobank.Payment.Execute.{
  ExecutionContext, get_execution_context, execute_with, sign_with, approved_hash, execution_signer,
  with_key, recheck, has_no_execution, SignedTransaction, is_simulated,
}
use ai_neobank.Payment.Settle.{ConfirmationContext, get_confirmation_context, mark_finalized}
use ai_neobank.Worker.{
  World, on_payment, recoverable, carry_out, mode_of, already, execute_unless, execute_in,
  execute_read, execute, Observed, confirm, confirm_with, confirm_seen, confirm_read, failure_fee,
  is_open, is_signed, stored_if, drop_result, with_row,
}
use ai_neobank.Worker.Plan.{Adapters, Build, failure, plan, build_execution}
use ai_neobank.Worker.Rows.{payload_of, mark_failed-AtMostCloses, mark_finalized-AtMostCloses}
use ai_neobank.Worker.Once.{
  IsOnce, is_unsigned, is_signed_row, SignsBytes, fail_payment-IsOnce, recover_stored-IsOnce,
  settle-IsOnce, continue-IsOnce, IsOnce-with,
}
use ai_neobank.Worker.Signing.{sign_and_send-IsOnce}
use ai_neobank.Worker.Built.{Signing, build_execution-Signing}

-- The context has the row that the payment has.
abbrev SameRow : Payment → Result ExecutionContext → Type 0
SameRow p (ok c) = p.execution ≡ c.execution
SameRow p (err e) = Unit

module _ (now : ℕ) (p : Payment) where
  sign_with-SameRow :
      (hash : String) (found : Option (Signer × KeyMaterial))
      → SameRow p (sign_with now p hash found)
  sign_with-SameRow hash none = tt
  sign_with-SameRow hash (some (s, k)) = elim (Bool-cases (not (is_active s.status))) [
    | inl idle ↦ rw idle tt
    | inr active ↦ rw active (elim (Bool-cases (not (p.intent.status == IntentStatus.approved))) [
      | inl again ↦ rw again refl
      | inr first ↦ rw first (elim (Bool-cases (leb p.intent.expires_at now)) [
        | inl late ↦ rw late tt
        | inr live ↦ rw live (elim (Option-cases (recheck now p)) [
          | inl passed ↦ rw passed refl
          | inr (why, refused) ↦ rw refused tt
        ])
      ])
    ])
  ]

  execute_with-SameRow : (hash : Option String) → SameRow p (execute_with now p hash)
  execute_with-SameRow none = tt
  execute_with-SameRow (some hash) =
      elim (Bool-cases
        (p.intent.status == IntentStatus.executing && has_no_execution p.execution)) [
          | inl lost ↦ rw lost tt
          | inr there ↦ rw there (elim (Option-cases (gate p.context p.intent)) [
            | inr (why, shut) ↦ rw shut tt
            | inl passes ↦
                rw passes (sign_with-SameRow hash (with_key (execution_signer p.context)))
          ])
        ]

  get_execution_context-SameRow : SameRow p (get_execution_context now p)
  unfolding get_execution_context
  get_execution_context-SameRow =
      elim (Bool-cases
        (not (includes (IntentStatus.approved ∷ IntentStatus.executing ∷ []) p.intent.status))) [
          | inl other ↦ rw other tt
          | inr may ↦ rw may (execute_with-SameRow (approved_hash p.request))
        ]

open_unsigned :
    (s : ExecutionStatus) → is_open s ≡ true → is_signed s ≡ false → is_simulated s ≡ true
open_unsigned ExecutionStatus.simulated h k = refl
open_unsigned ExecutionStatus.signed h k = cc
open_unsigned _ h k = ground (arith, h)

row_unsigned :
    (a : Adapters) (now fresh : ℕ) (row : Option Execution)
    → already a now fresh row ≡ none
    → is_signed_row row ≡ false
    → is_unsigned row ≡ true
row_unsigned a now fresh none h k = refl
row_unsigned a now fresh (some e) h k = open_unsigned e.status (ground (arith, h)) k

stored_if-raw :
    (e : Execution) (hash raw : Option String) (s : SignedTransaction)
    → stored_if e hash raw ≡ some s
    → raw ≡ some s.raw
stored_if-raw e (some hash) (some raw) s h = ground (arith, h)
stored_if-raw e none raw s h = ground (arith, h)
stored_if-raw e (some hash) none s h = ground (arith, h)

signed_unsigned : (s : ExecutionStatus) → is_signed s ≡ true → is_simulated s ≡ false
signed_unsigned ExecutionStatus.signed h = refl
signed_unsigned _ h = ground (arith, h)

found :
    (x e : Execution) (s : SignedTransaction) (o : Option SignedTransaction)
    → with_row x o ≡ some (e, s)
    → o ≡ some s
found x e s none h = ground (arith, h)
found x e s (some t) h = ground (arith, h)

recoverable_lem :
    (row : Option Execution) (e : Execution) (s : SignedTransaction)
    → recoverable row ≡ some (e, s)
    → (payload_of row ≡ some s.raw) × (is_unsigned row ≡ false)
unfolding recoverable
recoverable_lem none e s h = ground (arith, h)
recoverable_lem (some x) e s h = elim (Bool-cases (is_signed x.status)) [
  | inr other ↦ absurd (some-ne-none (e, s) (sym (rw other at h)))
  | inl signed ↦ (
    stored_if-raw x x.transaction_hash x.signed_payload s (found x e s _ (rw signed at h)),
    signed_unsigned x.status signed,
  )
]

abbrev Done : Result (Unit {0}) × World → Type 0
Done r = IsOnce r.1

module _ (a : Adapters) (h : SignsBytes a) (now fresh : ℕ) (before : Result (Unit {0})) where
  carry_out-IsOnce :
      (c : ExecutionContext) (found : Option (Execution × SignedTransaction)) (b : Build)
      (w : World)
      → w.payment.execution ≡ c.execution
      → recoverable c.execution ≡ found
      → already a now fresh c.execution ≡ none
      → Signing (ok b)
      → IsOnce w
      → IsOnce (carry_out a now fresh before c found b w).1
  carry_out-IsOnce c found (failure reason) w same rec opened signs k =
      fail_payment-IsOnce a now fresh reason w k
  carry_out-IsOnce c none (plan build) w same rec opened signs k =
      sign_and_send-IsOnce a now fresh before c build signs w same
        (row_unsigned a now fresh c.execution opened
          (rw same at (k.recovers (ap recoverable same ∙ rec))))
        k
  carry_out-IsOnce c (some (e, s)) (plan build) w same rec opened signs k =
      let r = recoverable_lem c.execution e s rec in
      recover_stored-IsOnce a now fresh build e s w (ap payload_of same ∙ r.0)
        (ap is_unsigned same ∙ r.1) k

  built-IsOnce :
      (c : ExecutionContext) (b : Result Build) (w : World)
      → w.payment.execution ≡ c.execution
      → already a now fresh c.execution ≡ none
      → Signing b
      → IsOnce w
      → IsOnce (continue (b, w) (carry_out a now fresh before c (recoverable c.execution))).1
  built-IsOnce c (ok b) w same opened signs k =
      carry_out-IsOnce c (recoverable c.execution) b w same refl opened signs k
  built-IsOnce c (err e) w same opened signs k = k

  execute_unless-IsOnce :
      (c : ExecutionContext) (o : Option String) (w : World)
      → w.payment.execution ≡ c.execution
      → already a now fresh c.execution ≡ o
      → IsOnce w
      → IsOnce (execute_unless a now fresh before c o w).1
  execute_unless-IsOnce c (some status) w same opened k = k
  execute_unless-IsOnce c none w same opened k =
      built-IsOnce c (build_execution a c (mode_of a now fresh (recoverable c.execution))) w same
        opened (build_execution-Signing a h c _) k

  execute_read-IsOnce :
      (r : Result ExecutionContext) (w : World)
      → SameRow w.payment r
      → IsOnce w
      → IsOnce (execute_read a now fresh before r w).1
  unfolding execute_in
  execute_read-IsOnce (ok c) w same k =
      execute_unless-IsOnce c (already a now fresh c.execution) w same refl k
  execute_read-IsOnce (err (execution_rejected reason)) w same k =
      fail_payment-IsOnce a now fresh reason w k
  execute_read-IsOnce (err (error m)) w same k = k
  execute_read-IsOnce (err (deferred m d)) w same k = k
  execute_read-IsOnce (err (approval_error m)) w same k = k
  execute_read-IsOnce (err (operations_error m)) w same k = k

  execute-IsOnce : (w : World) → IsOnce w → IsOnce (execute a now fresh before w).1
  unfolding execute
  execute-IsOnce w k =
      execute_read-IsOnce (get_execution_context now w.payment) w
        (get_execution_context-SameRow now w.payment) k

module _ (now : ℕ) where
  confirm_with-IsOnce :
      (c : ConfirmationContext) (o : Observed) (w : World)
      → IsOnce w
      → IsOnce (confirm_with now c o w).1
  confirm_with-IsOnce c o w k = elim (Bool-cases o.failed) [
    | inl broke ↦ rw broke (
        settle-IsOnce w _
          (mark_failed-AtMostCloses now _ (some (failure_fee c o.receipt)) w.payment) k)
    | inr fine ↦ rw fine (elim (Bool-cases (not o.finalized)) [
      | inl early ↦ rw early k
      | inr last ↦ rw last (
          continue-IsOnce (on_payment (mark_finalized now c o.receipt) w) (drop_result now)
            (settle-IsOnce w _ (mark_finalized-AtMostCloses now c o.receipt w.payment) k)
            (λ s v e.
              rw (sym (ap (λ r. r.1) e))
                (settle-IsOnce w _ (mark_finalized-AtMostCloses now c o.receipt w.payment) k)))
    ])
  ]

  confirm_seen-IsOnce :
      (c : ConfirmationContext) (r : Result Observed) (w : World)
      → IsOnce w
      → IsOnce (confirm_seen now c r w).1
  confirm_seen-IsOnce c (ok o) w k = confirm_with-IsOnce c o w k
  confirm_seen-IsOnce c (err e) w k = k

  confirm_read-IsOnce :
      (wait : ConfirmationContext → Result Observed) (r : Result ConfirmationContext) (w : World)
      → IsOnce w
      → IsOnce (confirm_read now wait r w).1
  confirm_read-IsOnce wait (ok c) w k = confirm_seen-IsOnce c (wait c) w k
  confirm_read-IsOnce wait (err e) w k = k

  confirm-IsOnce :
      (wait : ConfirmationContext → Result Observed) (w : World)
      → IsOnce w
      → IsOnce (confirm now wait w).1
  unfolding confirm
  confirm-IsOnce wait w k = confirm_read-IsOnce wait (get_confirmation_context w.payment) w k

-- What happens to a payment: an execution, which the network may interrupt and a later one takes up,
-- a confirmation, or any transaction that leaves the execution row as it is. Nothing else runs
-- between the reads and the writes of one execution.
pub data Works : World → World → Type 1 where
  executes :
      (a : Adapters) (now fresh : ℕ) (before : Result (Unit {0})) (w v : World)
      → SignsBytes a
      → (execute a now fresh before w).1 ≡ v
      → Works w v
  confirms :
      (now : ℕ) (wait : ConfirmationContext → Result Observed) (w v : World)
      → (confirm now wait w).1 ≡ v
      → Works w v
  leaves : (w v : World) → v.payment.execution ≡ w.payment.execution → v.sent ≡ w.sent → Works w v

pub data WorksOn (w : World) : World → Type 1 where
  here : WorksOn w w
  next : {v u : World} → WorksOn w v → Works v u → WorksOn w u

Works-IsOnce : {w v : World} → IsOnce w → Works w v → IsOnce v
Works-IsOnce k (executes a now fresh before w v h e) =
    rw (← e) (execute-IsOnce a h now fresh before w k)
Works-IsOnce k (confirms now wait w v e) = rw (← e) (confirm-IsOnce now wait w k)
Works-IsOnce k (leaves w v row sent) = IsOnce-with w v row sent k

WorksOn-IsOnce : {w v : World} → IsOnce w → WorksOn w v → IsOnce v
WorksOn-IsOnce k here = k
WorksOn-IsOnce k (next l s) = Works-IsOnce (WorksOn-IsOnce k l) s

-- From a payment without an execution on, however often it is executed, interrupted, recovered and
-- confirmed, everything that was handed to the network is the one signed transaction that is stored
-- with the execution, provided that no two executions of it overlap and adapters sign no blank bytes.
pub WorksOn-sends_once :
    (w v : World)
    → w.payment.execution ≡ none
    → w.sent ≡ []
    → WorksOn w v
    → All (λ s. payload_of v.payment.execution ≡ some s.raw) v.sent
WorksOn-sends_once w v row quiet l =
    let k =
      WorksOn-IsOnce
        (record { kept = rw quiet tt; unsent = λ u. quiet; recovers = λ u. rw row refl }) l in
    k.kept
