-- ===== src/Invoices/Tests.antt =====
-- An invoice that is issued and paid in one receipt, and the witnesses.
use ai_neobank.Prelude.{ℕ, ◌+◌, ◌≡◌, refl, none, some, [], ◌∷◌, false, arith}
use ai_neobank.Prelude.Int.{pos, ◌+ℤ◌, neg}
use ai_neobank.Prelude.Text.{decimal}
use ai_neobank.Ledger.{post_ledger}
use ai_neobank.Prelude.Failure.{Result, ok, err}
use ai_neobank.Domain.{evm, erc20}
use ai_neobank.Invoices.Draft.{
  InvoiceInput, InvoiceContext, Office, Quantity, subtotal_of, allocate_amount, create_invoice,
}
use ai_neobank.Invoices.Draft.Distinct.{Created, create_invoice-Created}
use ai_neobank.Invoices.{Invoice, Receivable, draft, paid, issue_within, allocate_within}
use ai_neobank.Invoices.Covered.{IsKept, allocates, issues, Acts-IsKept}

abbrev start : Receivable
start = record {
  invoice = record {
    id = 1;
    organization_id = 1;
    number = "INV-00001";
    treasury_account_id = 2;
    asset_id = "usdc";
    customer_name = "Acme";
    subtotal = 500;
    amount_due = 507;
    amount_paid = 0;
    status = draft;
    issued_at = none;
    paid_at = none;
  };
  inflow = record {
    id = 5;
    treasury_account_id = 2;
    asset_id = "usdc";
    amount = 507;
    invoice_id = none;
  };
  ledger = record { accounts = []; transactions = [] };
  audit = [];
}

abbrev after : Result (Unit {0} × Receivable) → Receivable
after (ok (_, s)) = s
after (err _) = start

abbrev sent : Receivable
sent = after (issue_within 1000 none start)

abbrev settled : Receivable
settled = after (allocate_within 2000 none sent)

settles : settled.invoice.status ≡ paid
unfolding allocate_within issue_within post_ledger ◌+ℤ◌ neg decimal
settles = refl

start-IsKept : IsKept start
start-IsKept = record {
  positive = omega arith;
  covered = refl;
  sound = record { transactions_sound = tt; unrepeated = tt };
}

sent-IsKept : IsKept sent
unfolding issue_within post_ledger ◌+ℤ◌ neg
sent-IsKept = Acts-IsKept start sent start-IsKept (issues 1000 none start sent refl)

Acts-IsKept_example : IsKept settled
unfolding allocate_within issue_within post_ledger ◌+ℤ◌ neg decimal
Acts-IsKept_example = Acts-IsKept sent settled sent-IsKept (allocates 2000 none sent settled refl)

abbrev hosting : InvoiceInput
hosting = record {
  treasury_account_id = 2;
  asset_id = "usdc";
  customer_name = "Acme";
  line_items =
      record {
        description = "Hosting";
        quantity = Quantity.whole (pos 2);
        unit_amount_base_units = 250;
      }
      ∷ [];
  issue = false;
}

abbrev on_base : InvoiceContext
on_base = record {
  chain_family = evm;
  network = "eip155:8453";
  asset = some (record { kind = erc20; network = "eip155:8453"; decimals = 6 });
}

abbrev desk : Office
desk = record {
  invoices = start.invoice ∷ [];
  invoice_sequence = 1;
  ledger = record { accounts = []; transactions = [] };
  audit = [];
}

-- The first draw clashes with the invoice that is there; the second does not.
abbrev draws : ℕ → ℕ → ℕ
draws ceiling attempt = 7 + attempt

abbrev due_of : Result (Invoice × Office) → ℕ
due_of (ok (i, o)) = i.amount_due
due_of (err e) = 0

takes_second_draw : due_of (create_invoice 0 9 1 3 draws hosting (some on_base) desk) ≡ 508
unfolding create_invoice subtotal_of allocate_amount
takes_second_draw = refl

create_invoice-Created_example :
    Created 2 "usdc" (create_invoice 0 9 1 3 draws hosting (some on_base) desk)
create_invoice-Created_example =
    create_invoice-Created 0 9 1 3 draws hosting 2 "usdc" on_base desk refl (λ p. tt, tt)
