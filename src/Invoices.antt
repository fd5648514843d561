-- ===== src/Invoices.antt =====
-- packages/database/src/operations.ts: an invoice, a receipt that is applied to it, and their books:
-- `issueWithin`, `voidInvoice` and `allocateWithin`. The rows are those that the identifiers select.
pub mod Covered
pub mod Draft
mod Tests
use ai_neobank.Prelude.{
  ℕ, ◌+◌, ◌≡◌, Bool, true, false, not, ◌&&◌, ◌||◌, String, Option, none, some, List, [], ◌∷◌, ◌++◌,
  leb, ltb, if◌then◌else◌,
}
use ai_neobank.Prelude.Equality.{◌==◌, nat_eq, string_eq}
use ai_neobank.Prelude.Int.{pos}
use ai_neobank.Prelude.Text.{◌++ₜ◌, decimal}
use ai_neobank.Prelude.Failure.{
  Exception, operations_error, Result, ok, err, Tx, ◌>>=◌, ◌>>◌, modify, done,
}
use ai_neobank.Ledger.{
  Ledger, LedgerLine, post_ledger, accounts_receivable, revenue, inbound_unallocated,
}
use ai_neobank.Payment.Rows.{AuditEvent}
use ai_neobank.Payment.Settle.{pair}

pub data InvoiceStatus : Type 0 where
  draft issued paid void : InvoiceStatus

pub record Invoice : Type 0 where
  pub id : ℕ
  pub organization_id : ℕ
  pub number : String
  pub treasury_account_id : ℕ
  pub asset_id : String
  pub customer_name : String
  pub subtotal : ℕ
  pub amount_due : ℕ
  pub amount_paid : ℕ
  pub status : InvoiceStatus
  pub issued_at : Option ℕ
  pub paid_at : Option ℕ

pub record Inflow : Type 0 where
  pub id : ℕ
  pub treasury_account_id : ℕ
  pub asset_id : String
  pub amount : ℕ
  pub invoice_id : Option ℕ

pub record Receivable : Type 0 where
  pub invoice : Invoice
  pub inflow : Inflow
  pub ledger : Ledger
  pub audit : List AuditEvent

abbrev pub keep_books : Receivable → Result (Bool × Ledger) → Result (Unit {0} × Receivable)
keep_books s (ok (posted, l)) = ok (tt, record s { ledger = l })
keep_books s (err e) = err e

-- `postLedger` with no intent.
unfoldable pub book : ℕ → String → String → List LedgerLine → Tx Receivable (Unit {0})
book now reference description lines s =
    keep_books s
      (post_ledger now s.invoice.organization_id none reference description lines s.ledger)

abbrev pub write_audit : Option ℕ → String → Tx Receivable (Unit {0})
write_audit actor action =
    modify (λ s. record s { audit = s.audit ++ record { actor = actor; action = action } ∷ [] })

abbrev pub is_draft : InvoiceStatus → Bool
is_draft draft = true
is_draft _ = false

abbrev pub is_issued : InvoiceStatus → Bool
is_issued issued = true
is_issued _ = false

abbrev invoice_text : InvoiceStatus → String
invoice_text draft = "draft"
invoice_text issued = "open"
invoice_text paid = "paid"
invoice_text void = "void"

-- `issueWithin`
unfoldable pub issue_within : ℕ → Option ℕ → Tx Receivable (Unit {0})
unfolding book
issue_within now actor s =
    let i = s.invoice in
    if not (is_draft i.status)
    then err (operations_error "invoice_not_draft")
    else (do
      modify (λ q. record q { invoice = record i { status = issued; issued_at = some now } })
      book now ("invoice:" ++ₜ decimal i.id ++ₜ ":issued")
          ("Invoice " ++ₜ i.number ++ₜ " issued to " ++ₜ i.customer_name)
          (pair i.treasury_account_id i.asset_id accounts_receivable revenue (pos i.amount_due))
      write_audit actor "invoice.issued")
        s

abbrev pub reverse_issue : ℕ → Invoice → Option ℕ → Tx Receivable (Unit {0})
reverse_issue now i none = done
reverse_issue now i (some at) =
    book now ("invoice:" ++ₜ decimal i.id ++ₜ ":void") ("Invoice " ++ₜ i.number ++ₜ " voided")
      (pair i.treasury_account_id i.asset_id revenue accounts_receivable (pos i.amount_due))

-- `voidInvoice`
unfoldable pub void_invoice : ℕ → ℕ → Tx Receivable (Unit {0})
unfolding book
void_invoice now actor s =
    let i = s.invoice in
    if not ((is_draft i.status || is_issued i.status) && i.amount_paid == 0)
    then err (operations_error "invoice_not_voidable")
    else (do
      modify (λ q. record q { invoice = record i { status = void } })
      reverse_issue now i i.issued_at
      write_audit (some actor) "invoice.voided")
        s

-- The invoice after a receipt of this amount.
abbrev pub apply_receipt : ℕ → ℕ → Invoice → Invoice
apply_receipt now amount i =
    if leb i.subtotal (i.amount_paid + amount)
    then record i { amount_paid = i.amount_paid + amount; status = paid; paid_at = some now }
    else record i { amount_paid = i.amount_paid + amount }

abbrev receipt_event : Invoice → ℕ → String
receipt_event i amount =
    if leb i.subtotal (i.amount_paid + amount) then "invoice.paid" else "invoice.partially_paid"

abbrev pub is_allocated : Inflow → Bool
is_allocated f = elim f.invoice_id [ none ↦ false | some id ↦ true ]

-- `allocateWithin`
unfoldable pub allocate_within : ℕ → Option ℕ → Tx Receivable (Unit {0})
unfolding book
allocate_within now actor s =
    let i = s.invoice in
    let f = s.inflow in
    if is_allocated f
    then err (operations_error "inflow_already_allocated")
    else if not (is_issued i.status)
    then err (operations_error "invoice_not_open")
    else if not (i.asset_id == f.asset_id) || not (i.treasury_account_id == f.treasury_account_id)
    then err (operations_error "invoice_mismatch")
    else (do
      modify (λ q. record q { inflow = record f { invoice_id = some i.id } })
      book now ("inflow:" ++ₜ decimal f.id ++ₜ ":allocated:" ++ₜ decimal i.id)
          ("Receipt applied to " ++ₜ i.number)
          (pair f.treasury_account_id f.asset_id inbound_unallocated accounts_receivable
            (pos f.amount))
      modify (λ q. record q { invoice = apply_receipt now f.amount i })
      write_audit actor (receipt_event i f.amount))
        s
