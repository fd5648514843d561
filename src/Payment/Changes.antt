-- ===== src/Payment/Changes.antt =====
-- packages/database/src/jobs.ts: `event`, `transition`, and the inserts that handlers share.
use ai_neobank.Prelude.{
  ℕ, ◌+◌, max, Bool, ◌&&◌, String, Option, none, some, List, [], ◌∷◌, ◌++◌, if◌then◌else◌,
}
use ai_neobank.Prelude.Equality.{◌==◌, nat_eq}
use ai_neobank.Prelude.Text.{◌++ₜ◌}
use ai_neobank.Prelude.Failure.{error, Result, ok, err, Tx, modify}
use ai_neobank.Domain.{IntentStatus, status_eq, status_text}
use ai_neobank.Ledger.{Ledger, LedgerLine, post_ledger}
use ai_neobank.Payment.Rows.{Payment, Intent, IntentEvent, Topic, RequestStatus}

-- `coalesce(max(sequence), 0)`
unfoldable pub last_sequence : List IntentEvent → ℕ
last_sequence [] = 0
last_sequence (e ∷ es) = max e.sequence (last_sequence es)

abbrev pub add_event :
    String → Option ℕ → Option (IntentStatus × IntentStatus × ℕ) → Payment → Payment
add_event event_type actor move p = record p {
  events =
      p.events
      ++ record {
        sequence = last_sequence p.events + 1;
        event_type = event_type;
        actor = actor;
        move = move;
      }
        ∷ [];
}

abbrev pub event : String → Tx Payment (Unit {0})
event event_type = modify (add_event event_type none none)

abbrev pub set_status : IntentStatus → Payment → Payment
set_status to p = record p {
  intent = record (p.intent) { status = to; version = p.intent.version + 1 };
}

-- `transition`: the update is guarded by the status and the version that the caller read.
unfoldable pub transition : ℕ → IntentStatus → IntentStatus → String → Tx Payment (Unit {0})
transition version from to event_type p =
    if p.intent.status == from && p.intent.version == version
    then ok (tt, add_event event_type none (some (from, to, version + 1)) (set_status to p))
    else err (error ("Concurrent intent transition from " ++ₜ status_text from))

abbrev pub enqueue_at : ℕ → Topic → Tx Payment (Unit {0})
enqueue_at at topic =
    modify (λ p. record p { outbox = p.outbox ++ record { topic = topic; available_at = at } ∷ [] })

abbrev pub audit : Option ℕ → String → Tx Payment (Unit {0})
audit actor action =
    modify (λ p. record p { audit = p.audit ++ record { actor = actor; action = action } ∷ [] })

abbrev pub update_intent : (Intent → Intent) → Tx Payment (Unit {0})
update_intent f = modify (λ p. record p { intent = f p.intent })

abbrev pub set_request_status : RequestStatus → Payment → Payment
set_request_status status p = record p {
  request = elim p.request [ none ↦ none | some r ↦ some (record r { status = status }) ];
}

-- `postLedger` inside the payment's transaction.
abbrev pub keep_ledger : Payment → Result (Bool × Ledger) → Result (Unit {0} × Payment)
keep_ledger p (ok (posted, l)) = ok (tt, record p { ledger = l })
keep_ledger p (err e) = err e

unfoldable pub post : ℕ → String → String → List LedgerLine → Tx Payment (Unit {0})
post now reference description lines p = keep_ledger p (
    post_ledger now p.intent.organization_id (some p.intent.id) reference description lines
      p.ledger)
