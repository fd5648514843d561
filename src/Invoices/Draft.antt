-- ===== src/Invoices/Draft.antt =====
-- packages/database/src/operations.ts: `createInvoice`, on the rows of one organisation. The random
-- numbers that it draws, one per attempt, and the id of the new row are arguments. Unit amounts are
-- natural numbers, since the API admits digits only; that `randomInt` throws for a token of so many
-- decimals that its bound passes 2 ^ 48 is left out.
pub mod Clear
pub mod Distinct
use ai_neobank.Prelude.{
  ℕ, suc, ◌+◌, ◌-◌, ◌*◌, ◌^◌, ◌≡◌, Bool, true, false, not, ◌&&◌, ◌||◌, String, Option, none, some,
  List, [], ◌∷◌, ◌++◌, ltb, if◌then◌else◌, any,
}
use ai_neobank.Prelude.Equality.{◌==◌, nat_eq, string_eq, option_eq}
use ai_neobank.Prelude.Int.{ℤ, pos, negsuc}
use ai_neobank.Prelude.Text.{◌++ₜ◌, decimal, pad_start}
use ai_neobank.Prelude.Failure.{operations_error, Result, ok, err, Tx}
use ai_neobank.Domain.{ChainFamily, evm, svm, AssetKind, native, erc20, spl}
use ai_neobank.Ledger.{Ledger}
use ai_neobank.Payment.Rows.{AuditEvent}
use ai_neobank.Invoices.{
  Invoice, draft, Inflow, Receivable, InvoiceStatus, is_draft, is_issued, issue_within,
}

-- A number of the input: a whole one or another.
pub data Quantity : Type 0 where
  whole : ℤ → Quantity
  fractional : Quantity

pub record InvoiceLineItem : Type 0 where
  pub description : String
  pub quantity : Quantity
  pub unit_amount_base_units : ℕ

pub record InvoiceInput : Type 0 where
  pub treasury_account_id : ℕ
  pub asset_id : String
  pub customer_name : String
  pub line_items : List InvoiceLineItem
  pub issue : Bool

-- The treasury with the asset that is joined to it, if the asset exists.
pub record PaymentAsset : Type 0 where
  pub kind : AssetKind
  pub network : String
  pub decimals : ℕ

pub record InvoiceContext : Type 0 where
  pub chain_family : ChainFamily
  pub network : String
  pub asset : Option PaymentAsset

pub record Office : Type 0 where
  pub invoices : List Invoice
  pub invoice_sequence : ℕ
  pub ledger : Ledger
  pub audit : List AuditEvent

abbrev pub is_erc20 : AssetKind → Bool
is_erc20 erc20 = true
is_erc20 _ = false

-- A quantity that `createInvoice` accepts.
abbrev pub counted : Quantity → Option ℕ
counted fractional = none
counted (whole (negsuc n)) = none
counted (whole (pos n)) = if ltb n 1 then none else some n

abbrev pub add_item : ℕ → Option ℕ → Result ℕ → Result ℕ
add_item unit none rest = err (operations_error "invalid_quantity")
add_item unit (some quantity) (ok sum) = ok (unit * quantity + sum)
add_item unit (some quantity) (err e) = err e

-- The sum over the line items, or the refusal of the first that has no positive whole quantity.
unfoldable pub subtotal_of : List InvoiceLineItem → Result ℕ
subtotal_of [] = ok 0
subtotal_of (i ∷ items) = add_item i.unit_amount_base_units (counted i.quantity) (subtotal_of items)

-- `treasury_account_id = ... and asset_id = ... and status in ('draft', 'open')`
abbrev pub is_payable_to : ℕ → String → Invoice → Bool
is_payable_to treasury asset i =
    i.treasury_account_id == treasury
    && i.asset_id == asset
    && (is_draft i.status || is_issued i.status)

abbrev pub clashes : ℕ → String → ℕ → Invoice → Bool
clashes treasury asset amount i = is_payable_to treasury asset i && i.amount_due == amount

-- The attempts at an amount that no payable invoice has; `random` gives the number of an attempt.
-- Where all clash, the amount stays the subtotal.
unfoldable pub allocate_amount :
    ℕ → String → List Invoice → (ℕ → ℕ) → ℕ → (attempts attempt : ℕ) → ℕ
allocate_amount treasury asset invoices random subtotal ℕ.zero attempt = subtotal
allocate_amount treasury asset invoices random subtotal (suc attempts) attempt =
    let rest = allocate_amount treasury asset invoices random subtotal attempts (attempt + 1) in
    if any (clashes treasury asset (subtotal + random attempt)) invoices
    then rest
    else subtotal + random attempt

-- `10 ** (decimals - 2)`, the bound of a random number.
abbrev pub tag_ceiling : ℕ → ℕ
tag_ceiling decimals = 10 ^ (decimals - 2)

-- `issueWithin` reads no receipt.
abbrev pub no_receipt : Inflow
no_receipt = record {
  id = 0;
  treasury_account_id = 0;
  asset_id = "";
  amount = 0;
  invoice_id = none;
}

abbrev pub has_items : List InvoiceLineItem → Bool
has_items [] = false
has_items (i ∷ items) = true

-- `random ceiling attempt` is the number that `randomInt(1, ceiling)` returns in an attempt.
module _ (now fresh organization actor : ℕ) (random : ℕ → ℕ → ℕ) (input : InvoiceInput) where
  abbrev pub new_invoice : ℕ → ℕ → ℕ → Invoice
  new_invoice sequence subtotal due = record {
    id = fresh;
    organization_id = organization;
    number = "INV-" ++ₜ pad_start 5 "0" (decimal sequence);
    treasury_account_id = input.treasury_account_id;
    asset_id = input.asset_id;
    customer_name = input.customer_name;
    subtotal = subtotal;
    amount_due = due;
    amount_paid = 0;
    status = draft;
    issued_at = none;
    paid_at = none;
  }

  abbrev pub keep_issued : Office → Result (Unit {0} × Receivable) → Result (Invoice × Office)
  keep_issued o (err e) = err e
  keep_issued o (ok (_, s)) = ok (
    s.invoice,
    record o { invoices = o.invoices ++ s.invoice ∷ []; ledger = s.ledger; audit = s.audit },
  )

  abbrev pub store_draft : Invoice → Office → Office
  store_draft i o = record o { invoices = o.invoices ++ i ∷ [] }

  -- The new row, issued at once where the input asks for it.
  abbrev pub insert_invoice : Invoice → Office → Result (Invoice × Office)
  insert_invoice i o =
      if not input.issue
      then ok (i, store_draft i o)
      else keep_issued o (
          issue_within now (some actor)
            (record { invoice = i; inflow = no_receipt; ledger = o.ledger; audit = o.audit }))

  abbrev pub number_invoice : ℕ → ℕ → Office → Result (Invoice × Office)
  number_invoice subtotal due o =
      insert_invoice (new_invoice (o.invoice_sequence + 1) subtotal due) (record o {
        invoice_sequence = o.invoice_sequence + 1;
        audit = o.audit ++ record { actor = some actor; action = "invoice.created" } ∷ [];
      })

  -- The amount of an EVM invoice, which identifies it.
  abbrev pub amount_of : ℕ → ℕ → Office → ℕ
  amount_of subtotal decimals o =
      allocate_amount input.treasury_account_id input.asset_id o.invoices
        (random (tag_ceiling decimals)) subtotal 20 0

  abbrev pub tag_amount : ℕ → PaymentAsset → Tx Office Invoice
  tag_amount subtotal a o =
      if not (is_erc20 a.kind)
      then err (operations_error "evm_native_invoice_unsupported")
      else if ltb a.decimals 4
      then err (operations_error "asset_precision_too_low")
      else if amount_of subtotal a.decimals o == subtotal
      then err (operations_error "amount_identifier_exhausted")
      else number_invoice subtotal (amount_of subtotal a.decimals o) o

  abbrev pub by_family : ℕ → ChainFamily → PaymentAsset → Tx Office Invoice
  by_family subtotal svm a o = number_invoice subtotal subtotal o
  by_family subtotal evm a o = tag_amount subtotal a o

  abbrev pub on_asset : ℕ → InvoiceContext → Option PaymentAsset → Tx Office Invoice
  on_asset subtotal c none o = err (operations_error "asset_mismatch")
  on_asset subtotal c (some a) o =
      if not (a.network == c.network)
      then err (operations_error "asset_mismatch")
      else by_family subtotal c.chain_family a o

  abbrev pub on_context : ℕ → Option InvoiceContext → Tx Office Invoice
  on_context subtotal none o = err (operations_error "treasury_not_found")
  on_context subtotal (some c) o = on_asset subtotal c c.asset o

  abbrev pub on_subtotal : Option InvoiceContext → Result ℕ → Tx Office Invoice
  on_subtotal context (err e) o = err e
  on_subtotal context (ok subtotal) o =
      if ltb 0 subtotal
      then on_context subtotal context o
      else err (operations_error "invalid_amount")

  -- `createInvoice`
  unfoldable pub create_invoice : Option InvoiceContext → Tx Office Invoice
  unfolding subtotal_of allocate_amount decimal issue_within
  create_invoice context o =
      if has_items input.line_items
      then on_subtotal context (subtotal_of input.line_items) o
      else err (operations_error "no_line_items")
