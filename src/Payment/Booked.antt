-- ===== src/Payment/Booked.antt =====
-- packages/database/src/jobs.ts, `markSubmitted`: what a submission does to the books.
use ai_neobank.Prelude.{
  ℕ, ◌≡◌, refl, sym, ap, ◌∙◌, Bool, true, false, not, String, Option, none, some, List, Bool-cases,
  inl, inr,
}
use ai_neobank.Prelude.Equality.{◌==◌}
use ai_neobank.Prelude.Int.{pos, ◌+ℤ◌}
use ai_neobank.Prelude.Failure.{Result, ok, err}
use ai_neobank.Domain.{IntentStatus, status_eq}
use ai_neobank.Ledger.{
  Ledger, LedgerLine, AccountCode, pending_outbound, treasury_asset, is_posted, ledger_net,
  post_ledger,
}
use ai_neobank.Ledger.Balance.{IsBalanced, Posting, post_ledger-Posting}
use ai_neobank.Ledger.Net.{net_at, ledger_net-post_ledger}
use ai_neobank.Payment.Rows.{Payment, Execution, Topic}
use ai_neobank.Payment.Changes.{post, keep_ledger, enqueue_at, add_event, set_status}
use ai_neobank.Payment.Settle.{
  Settlement, pair, reference, submit_amount, submit_with, submit_execution, hashed, mark_submitted,
}

Posting-IsBalanced :
    (now organization : ℕ) (intent : Option ℕ) (ref description : String) (lines : List LedgerLine)
    (l l' : Ledger) (b : Bool)
    → Posting now organization intent ref description lines l (ok (b, l'))
    → IsBalanced lines
Posting-IsBalanced now organization intent ref description lines l l' true h = h.0
Posting-IsBalanced now organization intent ref description lines l l' false h = h.0

-- A result under which, if it returned, every account has gained what the lines say.
abbrev Books : List LedgerLine → Ledger → Result (Unit {0} × Payment) → Type 0
Books lines l (ok (_, q)) =
    (treasury : ℕ) (code : AccountCode) (asset : String)
    → ledger_net treasury code asset none q.ledger
      ≡ ledger_net treasury code asset none l +ℤ net_at treasury code asset lines
Books lines l (err _) = Unit

abbrev ledger_or : Ledger → Result (Bool × Ledger) → Ledger
ledger_or l (ok (_, k)) = k
ledger_or l (err _) = l

posted-Books :
    (now organization : ℕ) (intent : Option ℕ) (ref description : String) (lines : List LedgerLine)
    (p : Payment) (r : Result (Bool × Ledger))
    → is_posted organization ref p.ledger.transactions ≡ false
    → post_ledger now organization intent ref description lines p.ledger ≡ r
    → Books lines p.ledger (keep_ledger p r)
posted-Books now organization intent ref description lines p (err x) fresh e = tt
posted-Books now organization intent ref description lines p (ok (b, l)) fresh e =
    λ treasury code asset.
      let balanced =
        Posting-IsBalanced now organization intent ref description lines p.ledger l b
          (rw e at (post_ledger-Posting now organization intent ref description lines p.ledger)) in
      let (l', posted, net) =
        ledger_net-post_ledger treasury code asset now organization intent ref description lines
          p.ledger balanced fresh in
      ap (ledger_net treasury code asset none) (ap (ledger_or l) (sym e ∙ posted)) ∙ net

enqueued-Books :
    (at : ℕ) (topic : Topic) (lines : List LedgerLine) (l : Ledger)
    (r : Result (Unit {0} × Payment))
    → Books lines l r
    → Books lines l (elim r [ ok (_, s) ↦ enqueue_at at topic s | err x ↦ err x ])
enqueued-Books at topic lines l (ok (_, s)) h = h
enqueued-Books at topic lines l (err x) h = tt

submit_with-Books :
    (now : ℕ) (settlement : Option Settlement) (e : Execution) (hash : String) (p : Payment)
    → is_posted p.intent.organization_id
        (reference e.network hash "submitted")
        p.ledger.transactions
      ≡ false
    → Books
        (pair p.intent.treasury_id p.intent.asset_id pending_outbound treasury_asset
          (pos (submit_amount settlement p.intent)))
        p.ledger
        (submit_with now settlement (some (e, hash)) p)
unfolding post
submit_with-Books now settlement e hash p fresh =
    elim (Bool-cases (not (p.intent.status == IntentStatus.executing))) [
      | inl elsewhere ↦ rw elsewhere tt
      | inr here ↦
          let told =
            add_event "intent.submitted" none none
              (set_status IntentStatus.submitted (record p { execution = some e })) in
          let lines =
            pair p.intent.treasury_id p.intent.asset_id pending_outbound treasury_asset
              (pos (submit_amount settlement p.intent)) in
          rw here (
            enqueued-Books now Topic.transaction_confirm lines p.ledger
              (post now (reference e.network hash "submitted") "Outbound transfer submitted" lines
                told)
              (posted-Books now p.intent.organization_id (some p.intent.id)
                (reference e.network hash "submitted") "Outbound transfer submitted" lines told _
                fresh refl))
    ]

-- A submission that commits under a reference not yet used moves the amount, which is the settled
-- one if there is a settlement, from the treasury's asset account to its pending account, and
-- changes no other balance.
pub mark_submitted-net :
    (now id : ℕ) (settlement : Option Settlement) (e : Execution) (hash : String) (p q : Payment)
    → mark_submitted now id settlement p ≡ ok (tt, q)
    → hashed (submit_execution now id settlement p.execution) ≡ some (e, hash)
    → is_posted p.intent.organization_id
        (reference e.network hash "submitted")
        p.ledger.transactions
      ≡ false
    → (treasury : ℕ) (code : AccountCode) (asset : String)
    → ledger_net treasury code asset none q.ledger
      ≡ ledger_net treasury code asset none p.ledger
        +ℤ net_at treasury code asset (
            pair p.intent.treasury_id p.intent.asset_id pending_outbound treasury_asset
              (pos (submit_amount settlement p.intent)))
unfolding mark_submitted
mark_submitted-net now id settlement e hash p q returned found fresh =
    let known : submit_with now settlement (some (e, hash)) p ≡ ok (tt, q) =
      sym (ap (λ f. submit_with now settlement f p) found) ∙ returned in
    rw known at (submit_with-Books now settlement e hash p fresh)
