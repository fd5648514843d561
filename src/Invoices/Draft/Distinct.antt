-- ===== src/Invoices/Draft/Distinct.antt =====
-- packages/database/src/operations.ts: `createInvoice` keeps apart the amounts that identify invoices
-- on EVM networks.
use ai_neobank.Prelude.{
  ℕ, ◌<◌, ◌≡◌, ◌≢◌, refl, inl, inr, ◌⊎◌, true, false, ◌&&◌, ◌||◌, some, List, [], ◌∷◌, String, any,
  All, Bool-cases, both_left, both_right, both_true, or_left, or_right, arith,
}
use ai_neobank.Prelude.Equality.{◌==◌, nat_eq, string_eq}
use ai_neobank.Prelude.Failure.{Result, ok, err}
use ai_neobank.Domain.{evm}
use ai_neobank.Invoices.{Invoice, InvoiceStatus, draft, issued, is_draft, is_issued}
use ai_neobank.Invoices.Draft.{
  InvoiceInput, InvoiceContext, Office, is_payable_to, clashes, create_invoice,
}
use ai_neobank.Invoices.Draft.Clear.{IsClear, Cleared, create_invoice-Cleared}

-- An invoice of the treasury in the asset that may still be paid: a draft or an issued one.
pub record IsAwaited (treasury : ℕ) (asset : String) (i : Invoice) : Type 0 where
  pub own_treasury : i.treasury_account_id ≡ treasury
  pub own_asset : i.asset_id ≡ asset
  pub unpaid : (i.status ≡ draft) ⊎ (i.status ≡ issued)

-- No two of them have the same amount due.
abbrev pub IsDistinct : ℕ → String → List Invoice → Type 0
IsDistinct treasury asset [] = Unit
IsDistinct treasury asset (i ∷ invoices) =
    (IsAwaited treasury asset i
      → All (λ j. IsAwaited treasury asset j → j.amount_due ≢ i.amount_due) invoices)
    × IsDistinct treasury asset invoices

status-unpaid : (s : InvoiceStatus) → is_draft s || is_issued s ≡ true → (s ≡ draft) ⊎ (s ≡ issued)
status-unpaid s h = ground arith

unpaid-status : (s : InvoiceStatus) → (s ≡ draft) ⊎ (s ≡ issued) → is_draft s || is_issued s ≡ true
unpaid-status s (inl e) = rw e refl
unpaid-status s (inr e) = rw e refl

module _ (treasury : ℕ) (asset : String) where
  payable-IsAwaited :
      (i : Invoice) → is_payable_to treasury asset i ≡ true → IsAwaited treasury asset i
  payable-IsAwaited i h =
      let place = both_left _ _ h in
      record {
        own_treasury = (nat_eq.beq_iff i.treasury_account_id treasury).0 (both_left _ _ place);
        own_asset =
            (string_eq.beq_iff i.asset_id asset).0
              (both_right (i.treasury_account_id == treasury) _ place);
        unpaid =
            status-unpaid i.status
              (both_right (i.treasury_account_id == treasury && i.asset_id == asset) _ h);
      }

  IsAwaited-payable :
      (i : Invoice) → IsAwaited treasury asset i → is_payable_to treasury asset i ≡ true
  IsAwaited-payable i w =
      both_true _ _
        (both_true _ _ ((nat_eq.beq_iff i.treasury_account_id treasury).1 w.own_treasury)
          ((string_eq.beq_iff i.asset_id asset).1 w.own_asset))
        (unpaid-status i.status w.unpaid)

  apart :
      (due : ℕ) (invoices : List Invoice)
      → any (clashes treasury asset due) invoices ≡ false
      → All (λ j. IsAwaited treasury asset j → j.amount_due ≢ due) invoices
  apart due [] h = tt
  apart due (j ∷ invoices) h = (
    λ w same.
        let clash =
          both_true (is_payable_to treasury asset j) (j.amount_due == due) (IsAwaited-payable j w)
            ((nat_eq.beq_iff j.amount_due due).1 same) in
        cc (clash, or_left (clashes treasury asset due j) _ h),
    apart due invoices (or_right _ _ h),
  )

  no_clash :
      (due : ℕ) (invoices : List Invoice)
      → All (λ j. IsAwaited treasury asset j → j.amount_due ≢ due) invoices
      → any (clashes treasury asset due) invoices ≡ false
  no_clash due [] h = refl
  no_clash due (j ∷ invoices) h = elim (Bool-cases (clashes treasury asset due j)) [
    | inl clash ↦ absurd (
        h.0 (payable-IsAwaited j (both_left _ _ clash)) (
          (nat_eq.beq_iff j.amount_due due).0
            (both_right (is_payable_to treasury asset j) _ clash)))
    | inr free ↦ rw free (no_clash due invoices h.1)
  ]

  IsClear-IsDistinct :
      (invoices : List Invoice)
      → IsClear treasury asset invoices
      → IsDistinct treasury asset invoices
  IsClear-IsDistinct [] h = tt
  IsClear-IsDistinct (i ∷ invoices) h = (
    λ w. apart i.amount_due invoices (h.0 (IsAwaited-payable i w)),
    IsClear-IsDistinct invoices h.1,
  )

  IsDistinct-IsClear :
      (invoices : List Invoice)
      → IsDistinct treasury asset invoices
      → IsClear treasury asset invoices
  IsDistinct-IsClear [] h = tt
  IsDistinct-IsClear (i ∷ invoices) h = (
    λ p. no_clash i.amount_due invoices (h.0 (payable-IsAwaited i p)),
    IsDistinct-IsClear invoices h.1,
  )

  -- What a committed `createInvoice` returns and leaves.
  abbrev pub Created : Result (Invoice × Office) → Type 0
  Created (ok (i, o)) = (i.subtotal < i.amount_due) × IsDistinct treasury asset o.invoices
  Created (err e) = Unit

  Cleared-Created : (r : Result (Invoice × Office)) → Cleared treasury asset r → Created r
  Cleared-Created (ok (i, o)) h = (h.0, IsClear-IsDistinct o.invoices h.1)
  Cleared-Created (err e) h = tt

-- Where no two unpaid invoices (drafts or issued ones) of a treasury in an asset have the same
-- amount due, createInvoice on an EVM treasury, whichever it is, leaves it so if it commits,
-- whether the invoice is issued at once or not, and the amount due of the new invoice is more than
-- its subtotal.
pub create_invoice-Created :
    (now fresh organization actor : ℕ) (random : ℕ → ℕ → ℕ) (input : InvoiceInput) (treasury : ℕ)
    (asset : String) (c : InvoiceContext) (o : Office)
    → c.chain_family ≡ evm
    → IsDistinct treasury asset o.invoices
    → Created treasury asset (create_invoice now fresh organization actor random input (some c) o)
create_invoice-Created now fresh organization actor random input treasury asset c o evm_chain h =
    Cleared-Created treasury asset _ (
      create_invoice-Cleared now fresh organization actor random input treasury asset c o evm_chain
        (IsDistinct-IsClear treasury asset o.invoices h))
