-- ===== src/Reconcile/Tests.antt =====
-- A treasury whose cursor is opened at a balance of 1000, and the witnesses.
use ai_neobank.Prelude.{◌≡◌, refl, Bool, true, Option, none, some, []}
use ai_neobank.Prelude.Int.{pos, ◌+ℤ◌, ◌-ℤ◌, neg}
use ai_neobank.Prelude.Text.{decimal}
use ai_neobank.Prelude.Failure.{Result, ok, err}
use ai_neobank.Ledger.{post_ledger, ledger_net, is_posted}
use ai_neobank.Reconcile.{
  Books, ReconciliationRecord, ReconciliationStatus, open_cursor, get_cursor, record_reconciliation,
}
use ai_neobank.Reconcile.Opening.{
  IsOpened, open_cursor-IsOpened, Reconciled, record_reconciliation-Reconciled,
}

abbrev books : Books
books = record {
  cursors = [];
  ledger = record { accounts = []; transactions = [] };
  runs = [];
  breaks = [];
}

abbrev after : Result (Bool × Books) → Books
after (ok (_, b)) = b
after (err _) = books

abbrev opened : Books
opened = after (open_cursor 5 1 2 "usdc" "100" (pos 1000) books)

status_at : Result (ReconciliationRecord × Books) → Option ReconciliationStatus
status_at (ok (run, _)) = some run.status
status_at (err _) = none

matches :
    status_at (record_reconciliation 2 "usdc" (pos 1000) opened) ≡ some ReconciliationStatus.matched
unfolding status_at record_reconciliation open_cursor ledger_net post_ledger ◌+ℤ◌ ◌-ℤ◌ neg decimal
matches = refl

breaks_off :
    status_at (record_reconciliation 2 "usdc" (pos 999) opened) ≡ some ReconciliationStatus.break
unfolding status_at record_reconciliation open_cursor ledger_net post_ledger ◌+ℤ◌ ◌-ℤ◌ neg decimal
breaks_off = refl

open_cursor-IsOpened_example :
    (q : Books) × (open_cursor 5 1 2 "usdc" "100" (pos 1000) books ≡ ok (true, q))
    × IsOpened 5 1 2 "usdc" "100" (pos 1000) q
unfolding is_posted get_cursor
open_cursor-IsOpened_example = open_cursor-IsOpened 5 1 2 "usdc" "100" (pos 1000) books refl refl

record_reconciliation-Reconciled_example :
    Reconciled 2 "usdc" (pos 999) opened (record_reconciliation 2 "usdc" (pos 999) opened)
record_reconciliation-Reconciled_example =
    record_reconciliation-Reconciled 2 "usdc" (pos 999) opened
