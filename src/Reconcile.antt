-- ===== src/Reconcile.antt =====
-- packages/database/src/operations.ts: where the reading of a chain starts (`openCursor`,
-- `advanceCursor`) and the comparison of its balance with the ledger (`recordReconciliation`).
pub mod Opening
mod Tests
use ai_neobank.Prelude.{
  ℕ, Bool, true, false, not, ◌&&◌, String, Option, none, some, List, [], ◌∷◌, ◌++◌, if◌then◌else◌,
}
use ai_neobank.Prelude.Equality.{◌==◌, nat_eq, string_eq}
use ai_neobank.Prelude.Int.{ℤ, pos, ◌+ℤ◌, ◌-ℤ◌, neg, ltb_ℤ, int_eq}
use ai_neobank.Prelude.Text.{◌++ₜ◌, decimal}
use ai_neobank.Prelude.Failure.{error, Result, ok, err, Tx, ◌>>=◌, ◌>>◌, pure, modify, done}
use ai_neobank.Ledger.{
  Ledger, LedgerLine, Direction, debit, credit, treasury_asset, pending_outbound, opening_balance,
  post_ledger, ledger_net,
}

pub data ReconciliationStatus : Type 0 where
  matched break in_flight : ReconciliationStatus

pub record ReconciliationRecord : Type 0 where
  pub treasury_account_id : ℕ
  pub asset_id : String
  pub chain_balance : ℤ
  pub ledger_balance : ℤ
  pub pending_outbound : ℤ
  pub difference : ℤ
  pub status : ReconciliationStatus

pub record Cursor : Type 0 where
  pub treasury_id : ℕ
  pub asset_id : String
  pub cursor : String

-- The rows that these operations read and write.
pub record Books : Type 0 where
  pub cursors : List Cursor
  pub ledger : Ledger
  pub runs : List ReconciliationRecord
  pub breaks : List (ℕ × String)

abbrev pub is_cursor_of : ℕ → String → Cursor → Bool
is_cursor_of treasury asset c = c.treasury_id == treasury && c.asset_id == asset

-- `getCursor`
unfoldable pub get_cursor : ℕ → String → List Cursor → Option String
get_cursor treasury asset [] = none
get_cursor treasury asset (c ∷ cs) =
    if is_cursor_of treasury asset c then some c.cursor else get_cursor treasury asset cs

-- `advanceCursor`
unfoldable pub advance_cursor : ℕ → String → String → List Cursor → List Cursor
advance_cursor treasury asset cursor [] = []
advance_cursor treasury asset cursor (c ∷ cs) =
    (if is_cursor_of treasury asset c then record c { cursor = cursor } else c)
    ∷ advance_cursor treasury asset cursor cs

abbrev pub magnitude : ℤ → ℤ
magnitude n = if ltb_ℤ n (pos 0) then neg n else n

abbrev pub line : ℕ → String → Bool → ℤ → List LedgerLine
line treasury asset positive amount =
    record {
      treasury_id = some treasury;
      code = treasury_asset;
      asset_id = asset;
      direction = if positive then debit else credit;
      amount = amount;
    }
    ∷ record {
      treasury_id = some treasury;
      code = opening_balance;
      asset_id = asset;
      direction = if positive then credit else debit;
      amount = amount;
    }
    ∷ []

abbrev pub opening_lines : ℕ → String → ℤ → List LedgerLine
opening_lines treasury asset opening =
    line treasury asset (ltb_ℤ (pos 0) opening) (magnitude opening)

abbrev pub opening_reference : ℕ → String → String
opening_reference treasury asset = "opening:" ++ₜ decimal treasury ++ₜ ":" ++ₜ asset

abbrev pub net : ℕ → String → Ledger → ℤ
net treasury asset ledger = ledger_net treasury treasury_asset asset none ledger

abbrev pub pending : ℕ → String → Ledger → ℤ
pending treasury asset ledger = ledger_net treasury pending_outbound asset none ledger

abbrev pub keep_ledger : Books → Result (Bool × Ledger) → Result (Bool × Books)
keep_ledger b (ok (_, l)) = ok (true, record b { ledger = l })
keep_ledger b (err e) = err e

-- The opening balance: what the chain holds and the ledger does not explain.
abbrev pub opening : ℕ → String → ℤ → Ledger → ℤ
opening treasury asset chain l = chain -ℤ (net treasury asset l +ℤ pending treasury asset l)

-- `openCursor`, after the cursor is inserted.
unfoldable pub book_opening : ℕ → ℕ → ℕ → String → ℤ → Tx Books Bool
book_opening now organization treasury asset amount b =
    if amount == pos 0
    then ok (true, b)
    else keep_ledger b (
        post_ledger now organization none (opening_reference treasury asset)
          "Opening balance observed on chain" (opening_lines treasury asset amount) b.ledger)

abbrev pub with_cursor : ℕ → String → String → Books → Books
with_cursor treasury asset cursor b = record b {
  cursors = b.cursors ++ record { treasury_id = treasury; asset_id = asset; cursor = cursor } ∷ [];
}

-- `openCursor` on what the insert of the cursor finds: false where the cursor was there already.
abbrev pub open_new : ℕ → ℕ → ℕ → String → String → ℤ → Option String → Tx Books Bool
open_new now organization treasury asset cursor chain (some _) b = ok (false, b)
open_new now organization treasury asset cursor chain none b =
    book_opening now organization treasury asset (opening treasury asset chain b.ledger)
      (with_cursor treasury asset cursor b)

-- `openCursor`
unfoldable pub open_cursor : ℕ → ℕ → ℕ → String → String → ℤ → Tx Books Bool
unfolding book_opening get_cursor
open_cursor now organization treasury asset cursor chain b =
    open_new now organization treasury asset cursor chain (get_cursor treasury asset b.cursors) b

-- `difference === 0n ? "matched" : pending !== 0n ? "in_flight" : "break"`
abbrev pub reconciliation_status : ℤ → ℤ → ReconciliationStatus
reconciliation_status difference outbound =
    if difference == pos 0 then matched else if outbound == pos 0 then break else in_flight

abbrev pub is_break : ReconciliationStatus → Bool
is_break break = true
is_break _ = false

unfoldable pub reconcile : ℕ → String → ℤ → Ledger → ReconciliationRecord
reconcile treasury asset chain ledger = record {
  treasury_account_id = treasury;
  asset_id = asset;
  chain_balance = chain;
  ledger_balance = net treasury asset ledger;
  pending_outbound = pending treasury asset ledger;
  difference = chain -ℤ net treasury asset ledger;
  status =
      reconciliation_status (chain -ℤ net treasury asset ledger) (pending treasury asset ledger);
}

-- The check constraint of `reconciliation_runs`: `status in ('matched', 'break')`.
abbrev pub is_storable : ReconciliationStatus → Bool
is_storable in_flight = false
is_storable _ = true

abbrev pub store_run : ReconciliationRecord → Books → Books
store_run run b = record b {
  runs = b.runs ++ run ∷ [];
  breaks =
      if is_break run.status
      then b.breaks ++ (run.treasury_account_id, run.asset_id) ∷ []
      else b.breaks;
}

-- `recordReconciliation`: the insert throws where its row breaks the constraint.
unfoldable pub record_reconciliation : ℕ → String → ℤ → Tx Books ReconciliationRecord
unfolding reconcile
record_reconciliation treasury asset chain b =
    let run = reconcile treasury asset chain b.ledger in
    if is_storable run.status
    then ok (run, store_run run b)
    else err (error "reconciliation_runs_status_check")

-- `order by created_at desc limit 1`: the rows stand in the order of their creation.
unfoldable pub latest_of : ℕ → String → List ReconciliationRecord → Option ReconciliationRecord
latest_of treasury asset [] = none
latest_of treasury asset (r ∷ runs) = elim (latest_of treasury asset runs) [
  | some later ↦ some later
  | none ↦ if r.treasury_account_id == treasury && r.asset_id == asset then some r else none
]
