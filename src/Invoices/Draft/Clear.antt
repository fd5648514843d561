-- ===== src/Invoices/Draft/Clear.antt =====
-- packages/database/src/operations.ts: what `createInvoice` does to the rows among which it looks for
-- an amount that is taken.
use ai_neobank.Prelude.{
  ℕ, suc, ◌+◌, ◌<◌, ◌≡◌, refl, inl, inr, Bool, true, false, not, ◌&&◌, Option, none, some, List, [],
  ◌∷◌, ◌++◌, String, if◌then◌else◌, ltb, any, any-append, arith, Bool-cases, or_left, or_right,
  zero, ◌≤◌,
}
use ai_neobank.Prelude.Equality.{◌==◌, nat_eq, string_eq}
use ai_neobank.Prelude.Failure.{Result, ok, err}
use ai_neobank.Domain.{evm}
use ai_neobank.Invoices.{Invoice, Receivable, issue_within, is_draft}
use ai_neobank.Invoices.Covered.{Holds, book-Holds}
use ai_neobank.Invoices.Draft.{
  InvoiceInput, InvoiceContext, PaymentAsset, Office, is_payable_to, clashes, allocate_amount,
  create_invoice, insert_invoice, tag_amount, on_asset, on_subtotal, has_items, subtotal_of,
  amount_of, keep_issued, is_erc20, tag_ceiling,
}

-- No row clashes with the amount of an earlier one.
abbrev pub IsClear : ℕ → String → List Invoice → Type 0
IsClear treasury asset [] = Unit
IsClear treasury asset (i ∷ invoices) =
    (is_payable_to treasury asset i ≡ true
      → any (clashes treasury asset i.amount_due) invoices ≡ false)
    × IsClear treasury asset invoices

-- One invoice has the treasury, the asset and the amounts of another.
pub record IsSameBill (i j : Invoice) : Type 0 where
  pub same_treasury : j.treasury_account_id ≡ i.treasury_account_id
  pub same_asset : j.asset_id ≡ i.asset_id
  pub same_due : j.amount_due ≡ i.amount_due
  pub same_subtotal : j.subtotal ≡ i.subtotal

same_bill : (i : Invoice) → IsSameBill i i
same_bill i = record {
  same_treasury = refl;
  same_asset = refl;
  same_due = refl;
  same_subtotal = refl;
}

issue_within-IsSameBill :
    (now : ℕ) (actor : Option ℕ) (s : Receivable)
    → Holds (λ q. IsSameBill s.invoice q.invoice) (issue_within now actor s)
unfolding issue_within
issue_within-IsSameBill now actor s = elim (Bool-cases (not (is_draft s.invoice.status))) [
  | inl other ↦ rw other tt
  | inr drafted ↦ rw drafted (
      book-Holds (λ q. IsSameBill s.invoice q.invoice) _ _ now _ _ _
        (λ l b e. record {
          same_treasury = refl;
          same_asset = refl;
          same_due = refl;
          same_subtotal = refl;
        }))
]

above : (subtotal due : ℕ) → subtotal ≤ due → (due == subtotal) ≡ false → subtotal < due
above subtotal due le other = ground (arith, le, other)

unlike_later :
    (a b : ℕ) (earlier later : Bool)
    → earlier ≡ true
    → earlier && a == b ≡ false
    → later && b == a ≡ false
unlike_later a b earlier later p h = ground arith

module _ (treasury : ℕ) (asset : String) (n : Invoice) where
  IsClear-append :
      (invoices : List Invoice)
      → any (clashes treasury asset n.amount_due) invoices ≡ false
      → IsClear treasury asset invoices
      → IsClear treasury asset (invoices ++ n ∷ [])
  IsClear-append [] fresh h = (λ p. refl, tt)
  IsClear-append (i ∷ invoices) fresh h = (
    λ p. rw (any-append (clashes treasury asset i.amount_due) invoices (n ∷ [])) (
        rw
          (
            h.0 p,
            unlike_later i.amount_due n.amount_due (is_payable_to treasury asset i)
                (is_payable_to treasury asset n) p (or_left _ _ fresh),
          )
          refl),
    IsClear-append invoices (or_right _ _ fresh) h.1,
  )

  -- An invoice that is not payable to the treasury in the asset is not compared.
  IsClear-append_elsewhere :
      (invoices : List Invoice)
      → is_payable_to treasury asset n ≡ false
      → IsClear treasury asset invoices
      → IsClear treasury asset (invoices ++ n ∷ [])
  IsClear-append_elsewhere [] away h = (λ p. refl, tt)
  IsClear-append_elsewhere (i ∷ invoices) away h = (
    λ p.
        rw (any-append (clashes treasury asset i.amount_due) invoices (n ∷ []))
          (rw (h.0 p, away) refl),
    IsClear-append_elsewhere invoices away h.1,
  )

module _ (treasury : ℕ) (asset : String) (invoices : List Invoice) (random : ℕ → ℕ)
    (subtotal : ℕ) where
  -- An amount that is not the subtotal clashes with no payable invoice.
  allocate_amount-fresh :
      (attempts attempt : ℕ)
      → (allocate_amount treasury asset invoices random subtotal attempts attempt == subtotal)
        ≡ false
      → any
          (clashes treasury asset
            (allocate_amount treasury asset invoices random subtotal attempts attempt))
          invoices
        ≡ false
  unfolding allocate_amount
  allocate_amount-fresh zero attempt h = absurd (ground (arith, h))
  allocate_amount-fresh (suc attempts) attempt h =
      elim (Bool-cases (any (clashes treasury asset (subtotal + random attempt)) invoices)) [
        | inl taken ↦ rw taken (allocate_amount-fresh attempts (attempt + 1) (rw taken at h))
        | inr free ↦ rw free free
      ]

  allocate_amount-ge :
      (attempts attempt : ℕ)
      → subtotal ≤ allocate_amount treasury asset invoices random subtotal attempts attempt
  unfolding allocate_amount
  allocate_amount-ge zero attempt = omega arith
  allocate_amount-ge (suc attempts) attempt =
      elim (Bool-cases (any (clashes treasury asset (subtotal + random attempt)) invoices)) [
        | inl taken ↦ rw taken (allocate_amount-ge attempts (attempt + 1))
        | inr free ↦ rw free (omega arith)
      ]

module _ (treasury : ℕ) (asset : String) (invoices : List Invoice) where
  IsClear-append_bill :
      (n q : Invoice)
      → IsSameBill n q
      → any (clashes n.treasury_account_id n.asset_id n.amount_due) invoices ≡ false
      → IsClear treasury asset invoices
      → IsClear treasury asset (invoices ++ q ∷ [])
  IsClear-append_bill n q b fresh h = elim (Bool-cases (q.treasury_account_id == treasury)) [
    | inr away ↦ IsClear-append_elsewhere treasury asset q invoices (rw away refl) h
    | inl here ↦ elim (Bool-cases (q.asset_id == asset)) [
      | inr away ↦ IsClear-append_elsewhere treasury asset q invoices (rw (here, away) refl) h
      | inl same ↦
          let at_treasury = (nat_eq.beq_iff q.treasury_account_id treasury).0 here in
          let of_asset = (string_eq.beq_iff q.asset_id asset).0 same in
          IsClear-append treasury asset q invoices
            (rw (← at_treasury, ← of_asset, b.same_treasury, b.same_asset, b.same_due) fresh) h
    ]
  ]

module _ (treasury : ℕ) (asset : String) where
  -- What a committed `createInvoice` returns and leaves.
  abbrev pub Cleared : Result (Invoice × Office) → Type 0
  Cleared (ok (i, o)) = (i.subtotal < i.amount_due) × IsClear treasury asset o.invoices
  Cleared (err e) = Unit

  if-Cleared :
      (b : Bool) (x y : Result (Invoice × Office))
      → (b ≡ true → Cleared x)
      → (b ≡ false → Cleared y)
      → Cleared (if b then x else y)
  if-Cleared true x y met unmet = met refl
  if-Cleared false x y met unmet = unmet refl

module _ (now fresh organization actor : ℕ) (random : ℕ → ℕ → ℕ) (input : InvoiceInput)
    (treasury : ℕ) (asset : String) where
  keep_issued-Cleared :
      (n : Invoice) (o : Office) (r : Result (Unit {0} × Receivable))
      → Holds (λ q. IsSameBill n q.invoice) r
      → n.subtotal < n.amount_due
      → any (clashes n.treasury_account_id n.asset_id n.amount_due) o.invoices ≡ false
      → IsClear treasury asset o.invoices
      → Cleared treasury asset (keep_issued now fresh organization actor random input o r)
  keep_issued-Cleared n o (ok (_, q)) b more clear h = (
    rw (b.same_due, b.same_subtotal) more,
    IsClear-append_bill treasury asset o.invoices n q.invoice b clear h,
  )
  keep_issued-Cleared n o (err e) b more clear h = tt

  insert_invoice-Cleared :
      (n : Invoice) (o : Office)
      → n.subtotal < n.amount_due
      → any (clashes n.treasury_account_id n.asset_id n.amount_due) o.invoices ≡ false
      → IsClear treasury asset o.invoices
      → Cleared treasury asset (insert_invoice now fresh organization actor random input n o)
  insert_invoice-Cleared n o more clear h =
      if-Cleared treasury asset (not input.issue) _ _
        (λ e. (more, IsClear-append_bill treasury asset o.invoices n n (same_bill n) clear h))
        (λ e. keep_issued-Cleared n o _ (issue_within-IsSameBill now (some actor) _) more clear h)

  tag_amount-Cleared :
      (subtotal : ℕ) (a : PaymentAsset) (o : Office)
      → IsClear treasury asset o.invoices
      → Cleared treasury asset (tag_amount now fresh organization actor random input subtotal a o)
  tag_amount-Cleared subtotal a o h =
      let due = amount_of now fresh organization actor random input subtotal a.decimals o in
      let draw = random (tag_ceiling a.decimals) in
      if-Cleared treasury asset (not (is_erc20 a.kind)) _ _ (λ e. tt)
        (λ e.
          if-Cleared treasury asset (ltb a.decimals 4) _ _ (λ e. tt)
            (λ e.
              if-Cleared treasury asset (due == subtotal) _ _ (λ e. tt)
                (λ other.
                  insert_invoice-Cleared _ _
                    (above subtotal due
                      (allocate_amount-ge input.treasury_account_id input.asset_id o.invoices draw
                        subtotal 20 0)
                      other)
                    (allocate_amount-fresh input.treasury_account_id input.asset_id o.invoices draw
                      subtotal 20 0 other)
                    h)))

  on_context-Cleared :
      (subtotal : ℕ) (c : InvoiceContext) (asset_row : Option PaymentAsset) (o : Office)
      → c.chain_family ≡ evm
      → IsClear treasury asset o.invoices
      → Cleared treasury asset
          (on_asset now fresh organization actor random input subtotal c asset_row o)
  on_context-Cleared subtotal c none o evm_chain h = tt
  on_context-Cleared subtotal c (some a) o evm_chain h =
      if-Cleared treasury asset (not (a.network == c.network)) _ _ (λ e. tt)
        (λ e. rw evm_chain (tag_amount-Cleared subtotal a o h))

  on_subtotal-Cleared :
      (c : InvoiceContext) (r : Result ℕ) (o : Office)
      → c.chain_family ≡ evm
      → IsClear treasury asset o.invoices
      → Cleared treasury asset (on_subtotal now fresh organization actor random input (some c) r o)
  on_subtotal-Cleared c (err e) o evm_chain h = tt
  on_subtotal-Cleared c (ok subtotal) o evm_chain h =
      if-Cleared treasury asset (ltb 0 subtotal) _ _
        (λ e. on_context-Cleared subtotal c c.asset o evm_chain h) (λ e. tt)

pub create_invoice-Cleared :
    (now fresh organization actor : ℕ) (random : ℕ → ℕ → ℕ) (input : InvoiceInput) (treasury : ℕ)
    (asset : String) (c : InvoiceContext) (o : Office)
    → c.chain_family ≡ evm
    → IsClear treasury asset o.invoices
    → Cleared treasury asset (create_invoice now fresh organization actor random input (some c) o)
unfolding create_invoice
create_invoice-Cleared now fresh organization actor random input treasury asset c o evm_chain h =
    if-Cleared treasury asset (has_items input.line_items) _ _
      (λ e.
        on_subtotal-Cleared now fresh organization actor random input treasury asset c
          (subtotal_of input.line_items) o evm_chain h)
      (λ e. tt)
