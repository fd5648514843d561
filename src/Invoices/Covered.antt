-- ===== src/Invoices/Covered.antt =====
-- packages/database/src/operations.ts: an invoice is paid exactly when it is covered.
use ai_neobank.Prelude.{
  ℕ, ◌+◌, ◌<◌, ◌≡◌, refl, inl, inr, Bool, true, false, not, ◌&&◌, ◌||◌, String, Option, none, some,
  List, leb, ltb, Bool-cases, arith, not-false, both_right,
}
use ai_neobank.Prelude.Equality.{◌==◌, nat_eq, string_eq}
use ai_neobank.Prelude.Failure.{Result, ok, err, Tx, ◌>>◌}
use ai_neobank.Ledger.{Ledger, LedgerLine, post_ledger}
use ai_neobank.Ledger.Sound.{IsSound, post_ledger-IsSound}
use ai_neobank.Invoices.{
  InvoiceStatus, draft, issued, paid, void, Invoice, Receivable, keep_books, book, is_draft,
  is_issued, issue_within, reverse_issue, void_invoice, apply_receipt, is_allocated,
  allocate_within,
}

-- Nothing is paid on a draft or a void invoice, less than the subtotal on an issued one, and at
-- least the subtotal on a paid one.
abbrev pub is_covered : InvoiceStatus → ℕ → ℕ → Bool
is_covered draft subtotal amount = amount == 0
is_covered issued subtotal amount = ltb amount subtotal
is_covered paid subtotal amount = leb subtotal amount
is_covered void subtotal amount = amount == 0

pub record IsKept (s : Receivable) : Type 0 where
  pub positive : 0 < s.invoice.subtotal
  pub covered : is_covered s.invoice.status s.invoice.subtotal s.invoice.amount_paid ≡ true
  pub sound : IsSound s.ledger

abbrev pub Holds : (Receivable → Type 0) → Result (Unit {0} × Receivable) → Type 0
Holds P (ok (_, s)) = P s
Holds P (err _) = Unit

module _ (P : Receivable → Type 0) (k : Tx Receivable (Unit {0})) (s : Receivable) where
  books-Holds :
      (r : Result (Bool × Ledger))
      → ((l : Ledger) (b : Bool) → r ≡ ok (b, l) → Holds P (k (record s { ledger = l })))
      → Holds P (((λ q. keep_books q r) >> k) s)
  books-Holds (ok (b, l)) h = h l b refl
  books-Holds (err e) h = tt

  -- What holds after a posting and the rest, if it holds after the rest on whatever was posted.
  pub book-Holds :
      (now : ℕ) (reference description : String) (lines : List LedgerLine)
      → ((l : Ledger) (b : Bool)
          → post_ledger now s.invoice.organization_id none reference description lines s.ledger
            ≡ ok (b, l)
          → Holds P (k (record s { ledger = l })))
      → Holds P ((book now reference description lines >> k) s)
  unfolding book
  book-Holds now reference description lines h =
      books-Holds
        (post_ledger now s.invoice.organization_id none reference description lines s.ledger) h

abbrev Kept : Result (Unit {0} × Receivable) → Type 0
Kept r = Holds IsKept r

book-then :
    (now : ℕ) (reference description : String) (lines : List LedgerLine)
    (k : Tx Receivable (Unit {0})) (s : Receivable)
    → IsSound s.ledger
    → ((l : Ledger) → IsSound l → Kept (k (record s { ledger = l })))
    → Kept ((book now reference description lines >> k) s)
book-then now reference description lines k s sound h =
    book-Holds IsKept k s now reference description lines (λ l b e. h l (
      post_ledger-IsSound now s.invoice.organization_id none reference description lines s.ledger l
        b sound e))

issued_fine :
    (status : InvoiceStatus) (subtotal amount : ℕ)
    → is_draft status ≡ true
    → 0 < subtotal
    → is_covered status subtotal amount ≡ true
    → is_covered issued subtotal amount ≡ true
issued_fine draft subtotal amount h p c = ground (arith, p, c)
issued_fine _ subtotal amount h p c = ground (arith, h)

issue_within-Kept :
    (now : ℕ) (actor : Option ℕ) (s : Receivable) → IsKept s → Kept (issue_within now actor s)
unfolding issue_within
issue_within-Kept now actor s k = elim (Bool-cases (not (is_draft s.invoice.status))) [
  | inl other ↦ rw other tt
  | inr drafted ↦ rw drafted (
      book-then now _ _ _ _ _ k.sound (λ l sound. record {
        positive = k.positive;
        covered = issued_fine s.invoice.status _ _ (not-false _ drafted) k.positive k.covered;
        sound = sound;
      }))
]

voidable_fine :
    (status : InvoiceStatus) (subtotal amount : ℕ)
    → (is_draft status || is_issued status) && amount == 0 ≡ true
    → is_covered void subtotal amount ≡ true
voidable_fine status subtotal amount h =
    both_right (is_draft status || is_issued status) (amount == 0) h

reversed-Kept :
    (now : ℕ) (i : Invoice) (at : Option ℕ) (k : Tx Receivable (Unit {0})) (s : Receivable)
    → IsSound s.ledger
    → ((l : Ledger) → IsSound l → Kept (k (record s { ledger = l })))
    → Kept ((reverse_issue now i at >> k) s)
reversed-Kept now i none k s sound h = h s.ledger sound
reversed-Kept now i (some at) k s sound h = book-then now _ _ _ k s sound h

void_invoice-Kept : (now actor : ℕ) (s : Receivable) → IsKept s → Kept (void_invoice now actor s)
unfolding void_invoice
void_invoice-Kept now actor s k =
    elim (Bool-cases (
      not (
        (is_draft s.invoice.status || is_issued s.invoice.status) && s.invoice.amount_paid == 0))) [
          | inl other ↦ rw other tt
          | inr unpaid ↦ rw unpaid (
              reversed-Kept now s.invoice s.invoice.issued_at _ _ k.sound (λ l sound. record {
                positive = k.positive;
                covered = voidable_fine s.invoice.status s.invoice.subtotal _ (not-false _ unpaid);
                sound = sound;
              }))
        ]

still_short :
    (status : InvoiceStatus) (subtotal amount : ℕ)
    → is_issued status ≡ true
    → leb subtotal amount ≡ false
    → is_covered status subtotal amount ≡ true
still_short issued subtotal amount h short = ground (arith, short)
still_short _ subtotal amount h short = ground (arith, h)

applied-IsKept :
    (now amount : ℕ) (s : Receivable)
    → 0 < s.invoice.subtotal
    → is_issued s.invoice.status ≡ true
    → IsSound s.ledger
    → IsKept (record s { invoice = apply_receipt now amount s.invoice })
applied-IsKept now amount s p h sound =
    elim (Bool-cases (leb s.invoice.subtotal (s.invoice.amount_paid + amount))) [
      | inl enough ↦ rw enough (record { positive = p; covered = enough; sound = sound })
      | inr short ↦ rw short (record {
        positive = p;
        covered = still_short s.invoice.status s.invoice.subtotal _ h short;
        sound = sound;
      })
    ]

allocate_within-Kept :
    (now : ℕ) (actor : Option ℕ) (s : Receivable) → IsKept s → Kept (allocate_within now actor s)
unfolding allocate_within
allocate_within-Kept now actor s k = elim (Bool-cases (is_allocated s.inflow)) [
  | inl already ↦ rw already tt
  | inr free ↦ rw free (elim (Bool-cases (not (is_issued s.invoice.status))) [
    | inl closed ↦ rw closed tt
    | inr running ↦
        rw running
          (elim (Bool-cases (
            not (s.invoice.asset_id == s.inflow.asset_id)
            || not (s.invoice.treasury_account_id == s.inflow.treasury_account_id))) [
              | inl mismatch ↦ rw mismatch tt
              | inr fits ↦ rw fits (
                  book-then now _ _ _ _ _ k.sound (λ l sound.
                    let e =
                      applied-IsKept now s.inflow.amount (record s { ledger = l }) k.positive
                        (not-false _ running) sound in
                    record { positive = e.positive; covered = e.covered; sound = e.sound }))
            ])
  ])
]

-- An invoice's life: it is issued, voided or paid into, in any order.
pub data Acts : Receivable → Receivable → Type 0 where
  issues :
      (now : ℕ) (actor : Option ℕ) (s q : Receivable)
      → issue_within now actor s ≡ ok (tt, q)
      → Acts s q
  voids : (now actor : ℕ) (s q : Receivable) → void_invoice now actor s ≡ ok (tt, q) → Acts s q
  allocates :
      (now : ℕ) (actor : Option ℕ) (s q : Receivable)
      → allocate_within now actor s ≡ ok (tt, q)
      → Acts s q

-- Issuing, voiding and applying a receipt keep an invoice covered: nothing is paid on a draft or
-- void invoice, less than the subtotal on an issued one and at least the subtotal on a paid one;
-- and they keep the ledger sound.
pub Acts-IsKept : (s q : Receivable) → IsKept s → Acts s q → IsKept q
Acts-IsKept s q k (issues now actor _ _ e) = rw e at (issue_within-Kept now actor s k)
Acts-IsKept s q k (voids now actor _ _ e) = rw e at (void_invoice-Kept now actor s k)
Acts-IsKept s q k (allocates now actor _ _ e) = rw e at (allocate_within-Kept now actor s k)
