-- ===== src/Worker/Once.antt =====
-- apps/worker/src/worker.ts: however often a payment is executed and recovered, only the bytes that
-- are stored with its execution reach the network.
use ai_neobank.Prelude.{
  ℕ, ◌≡◌, refl, ap, sym, inl, inr, Bool, true, false, String, Option, none, some, [], ◌∷◌, ◌++◌,
  All, All-append_one, arith,
}
use ai_neobank.Prelude.Equality.{nat_eq, string_eq}
use ai_neobank.Prelude.Text.{is_blank}
use ai_neobank.Prelude.Failure.{Result, ok, err}
use ai_neobank.Prelude.Calls.{continue}
use ai_neobank.Domain.{status_eq}
use ai_neobank.Payment.Rows.{Payment, Execution, ExecutionStatus}
use ai_neobank.Payment.Execute.{ExecutionContext, SignedTransaction, is_simulated}
use ai_neobank.Payment.Settle.{Settlement, mark_submitted, mark_failed}
use ai_neobank.Worker.{
  World, settle, is_signed, recoverable, fail_payment, submit, deliver, act_on, recover_stored,
}
use ai_neobank.Worker.Plan.{Adapters, plan, ExecutionPlan, Recovery, resend, settled, dead, Mode}
use ai_neobank.Worker.Rows.{
  payload_of, is_live, Closes, AtMostCloses, mark_failed-AtMostCloses, mark_submitted-AtMostCloses,
}

abbrev pub is_unsigned : Option Execution → Bool
is_unsigned none = true
is_unsigned (some e) = is_simulated e.status

abbrev pub is_signed_row : Option Execution → Bool
is_signed_row none = false
is_signed_row (some e) = is_signed e.status

-- Everything that was sent is what the execution stores; nothing was sent before it was signed; and
-- what is signed can be recovered.
pub record IsOnce (w : World) : Type 0 where
  pub kept : All (λ s. payload_of w.payment.execution ≡ some s.raw) w.sent
  pub unsent : is_unsigned w.payment.execution ≡ true → w.sent ≡ []
  pub recovers : recoverable w.payment.execution ≡ none → is_signed_row w.payment.execution ≡ false

live_unsigned : (e : Option Execution) → is_live e ≡ false → is_unsigned e ≡ true → ⊥
live_unsigned none l u = cc
live_unsigned (some e) l u = ground (arith, l, u)

live_signed : (e : Option Execution) → is_live e ≡ false → is_signed_row e ≡ false
live_signed none l = refl
live_signed (some e) l = ground (arith, l)

-- The invariant speaks of the execution row and of what was sent only.
pub IsOnce-with :
    (w v : World)
    → v.payment.execution ≡ w.payment.execution
    → v.sent ≡ w.sent
    → IsOnce w
    → IsOnce v
IsOnce-with w v row sent k = record {
  kept = rw (row, sent) k.kept;
  unsent = rw (row, sent) k.unsent;
  recovers = rw row k.recovers;
}

pub Closes-IsOnce :
    (w v : World)
    → Closes w.payment.execution v.payment.execution
    → v.sent ≡ w.sent
    → IsOnce w
    → IsOnce v
Closes-IsOnce w v (inl same) sent k = IsOnce-with w v same sent k
Closes-IsOnce w v (inr (kept, closed)) sent k = record {
  kept = rw (kept, sent) k.kept;
  unsent = λ u. absurd (live_unsigned v.payment.execution closed u);
  recovers = λ _. live_signed v.payment.execution closed;
}

pub settle-IsOnce :
    {A : Type 0} (w : World) (r : Result (A × Payment))
    → AtMostCloses w.payment.execution r
    → IsOnce w
    → IsOnce (settle w r).1
settle-IsOnce w (ok (a, p)) c k = Closes-IsOnce w (record w { payment = p }) c refl k
settle-IsOnce w (err e) c k = k

pub continue-IsOnce :
    {A B : Type 0} (r : Result A × World) (f : A → World → Result B × World)
    → IsOnce r.1
    → ((a : A) (v : World) → r ≡ (ok a, v) → IsOnce (f a v).1)
    → IsOnce (continue r f).1
continue-IsOnce (ok a, v) f k next = next a v refl
continue-IsOnce (err e, v) f k next = k

-- Signed bytes are never blank.
abbrev pub NotBlank : SignedTransaction → Type 0
NotBlank s = (is_blank s.hash ≡ false) × (is_blank s.raw ≡ false)

-- What the adapters promise of the bytes that they sign.
pub record SignsBytes (a : Adapters) : Type 0 where
  pub signs : (c : ExecutionContext) (s : SignedTransaction) → a.sign c ≡ ok s → NotBlank s
  pub pays :
      (c : ExecutionContext) (mode : Mode) (b : ExecutionPlan) (s : SignedTransaction)
      → a.build_x402 c mode ≡ ok (plan b)
      → b.sign ≡ ok s
      → NotBlank s

pub signed_row-IsOnce :
    (w : World) (e : Execution) (s : SignedTransaction)
    → NotBlank s
    → w.payment.execution
      ≡ some (record e {
        status = ExecutionStatus.signed;
        transaction_hash = some s.hash;
        signed_payload = some s.raw;
        nonce = some s.nonce;
        valid_until = some s.valid_until;
      })
    → w.sent ≡ []
    → IsOnce w
unfolding recoverable
signed_row-IsOnce w e s blank row out = record {
  kept = rw out tt;
  unsent = rw row (λ u. cc);
  recovers = rw (row, blank.0, blank.1) (λ u. cc);
}

send-IsOnce :
    (w : World) (s : SignedTransaction)
    → payload_of w.payment.execution ≡ some s.raw
    → is_unsigned w.payment.execution ≡ false
    → IsOnce w
    → IsOnce (record w { sent = w.sent ++ s ∷ [] })
send-IsOnce w s payload signed k = record {
  kept = All-append_one _ w.sent s k.kept payload;
  unsent = λ u. cc;
  recovers = k.recovers;
}

module _ (a : Adapters) (now fresh : ℕ) where
  pub submit-IsOnce :
      (id : ℕ) (settlement : Option Settlement) (w : World)
      → IsOnce w
      → IsOnce (submit a now fresh id settlement w).1
  submit-IsOnce id settlement w k =
      settle-IsOnce w (mark_submitted now id settlement w.payment)
        (mark_submitted-AtMostCloses now id settlement w.payment) k

  pub fail_payment-IsOnce :
      (reason : String) (w : World) → IsOnce w → IsOnce (fail_payment a now fresh reason w).1
  fail_payment-IsOnce reason w k =
      settle-IsOnce w (mark_failed now reason none w.payment)
        (mark_failed-AtMostCloses now reason none w.payment) k

  pub deliver-IsOnce :
      (build : ExecutionPlan) (id : ℕ) (s : SignedTransaction) (w : World)
      → payload_of w.payment.execution ≡ some s.raw
      → is_unsigned w.payment.execution ≡ false
      → IsOnce w
      → IsOnce (deliver a now fresh build id s w).1
  deliver-IsOnce build id s w payload signed k =
      let v = record w { sent = w.sent ++ s ∷ [] } in
      continue-IsOnce (build.broadcast s, v) (submit a now fresh id)
        (send-IsOnce w s payload signed k)
        (λ settlement u e.
          rw (sym (ap (λ r. r.1) e))
            (submit-IsOnce id settlement v (send-IsOnce w s payload signed k)))

  act_on-IsOnce :
      (build : ExecutionPlan) (e : Execution) (s : SignedTransaction) (r : Recovery) (w : World)
      → payload_of w.payment.execution ≡ some s.raw
      → is_unsigned w.payment.execution ≡ false
      → IsOnce w
      → IsOnce (act_on a now fresh build e s r w).1
  act_on-IsOnce build e s resend w payload signed k = deliver-IsOnce build e.id s w payload signed k
  act_on-IsOnce build e s (settled settlement) w payload signed k =
      submit-IsOnce e.id settlement w k
  act_on-IsOnce build e s (dead reason) w payload signed k = fail_payment-IsOnce _ w k

  pub recover_stored-IsOnce :
      (build : ExecutionPlan) (e : Execution) (s : SignedTransaction) (w : World)
      → payload_of w.payment.execution ≡ some s.raw
      → is_unsigned w.payment.execution ≡ false
      → IsOnce w
      → IsOnce (recover_stored a now fresh build e s w).1
  recover_stored-IsOnce build e s w payload signed k = answered (build.recover s)
    where
      answered : (r : Result Recovery) → IsOnce (continue (r, w) (act_on a now fresh build e s)).1
      answered (ok r) = act_on-IsOnce build e s r w payload signed k
      answered (err x) = k
