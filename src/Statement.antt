-- ===== src/Statement.antt =====
-- packages/database/src/operations.ts: `statement`, one account of a treasury over a period, read
-- from the rows of the ledger.
pub mod Balance
pub mod Categories
mod Tests
use ai_neobank.Prelude.{
  ℕ, Bool, true, false, not, ◌&&◌, ◌||◌, String, Option, none, some, List, [], ◌∷◌, ◌++◌, map, leb,
  ltb, includes, if◌then◌else◌,
}
use ai_neobank.Prelude.Equality.{◌==◌, nat_eq, string_eq}
use ai_neobank.Prelude.Int.{ℤ, pos, ◌+ℤ◌, ◌-ℤ◌, neg, ltb_ℤ}
use ai_neobank.Ledger.{
  AccountCode, treasury_asset, opening_balance, fee_expense, pending_outbound, inbound_unallocated,
  accounts_receivable, code_eq, Direction, Entry, Transaction, Ledger, signed, concerns, ledger_net,
}
use ai_neobank.Reconcile.{ReconciliationRecord, latest_of}

-- `StatementLine["category"]`
pub data Category : Type 0 where
  inflow outflow reversal fee opening other : Category

pub record StatementLine : Type 0 where
  pub effective_at : ℕ
  pub description : String
  pub reference : String
  pub intent_id : Option ℕ
  pub category : Category
  pub amount : ℤ
  pub running_balance : ℤ

-- A row of the query on entries, with the codes of the other entries of its transaction.
pub record EntryRow : Type 0 where
  pub effective_at : ℕ
  pub description : String
  pub reference : String
  pub intent_id : Option ℕ
  pub direction : Direction
  pub amount : ℤ
  pub counter_codes : List AccountCode

abbrev pub codes_of : List Entry → List AccountCode
codes_of es = map (λ e. e.account.code) es

abbrev pub entry_row : Transaction → List AccountCode → Entry → EntryRow
entry_row t counter e = record {
  effective_at = t.effective_at;
  description = t.description;
  reference = t.external_reference;
  intent_id = t.intent_id;
  direction = e.direction;
  amount = e.amount;
  counter_codes = counter;
}

-- The entries of a transaction that concern the account; `before` holds those already passed.
unfoldable pub rows_of : ℕ → String → Transaction → List Entry → List Entry → List EntryRow
rows_of treasury asset t before [] = []
rows_of treasury asset t before (e ∷ es) =
    let rest = rows_of treasury asset t (before ++ e ∷ []) es in
    if concerns treasury treasury_asset asset e.account
    then entry_row t (codes_of (before ++ es)) e ∷ rest
    else rest

-- `lt.effective_at >= from and lt.effective_at < to`
abbrev pub is_within : ℕ → ℕ → ℕ → Bool
is_within from to at = leb from at && ltb at to

unfoldable pub rows_within : ℕ → String → ℕ → ℕ → List Transaction → List EntryRow
unfolding rows_of
rows_within treasury asset from to [] = []
rows_within treasury asset from to (t ∷ ts) =
    if is_within from to t.effective_at
    then rows_of treasury asset t [] t.entries ++ rows_within treasury asset from to ts
    else rows_within treasury asset from to ts

-- `order by lt.effective_at, le.created_at`: rows of one instant keep the order of insertion.
unfoldable pub insert_row : EntryRow → List EntryRow → List EntryRow
insert_row r [] = r ∷ []
insert_row r (q ∷ rows) =
    if leb r.effective_at q.effective_at then r ∷ q ∷ rows else q ∷ insert_row r rows

unfoldable pub order_rows : List EntryRow → List EntryRow
unfolding insert_row
order_rows [] = []
order_rows (r ∷ rows) = insert_row r (order_rows rows)

abbrev pub is_negative : ℤ → Bool
is_negative n = ltb_ℤ n (pos 0)

unfoldable pub category_of : List AccountCode → ℤ → Category
category_of codes amount =
    if includes codes opening_balance
    then opening
    else if includes codes fee_expense
    then fee
    else if includes codes pending_outbound
    then (if is_negative amount then outflow else reversal)
    else if includes codes inbound_unallocated || includes codes accounts_receivable
    then inflow
    else other

-- The sums that the loop over the entries carries.
pub record Sums : Type 0 where
  pub running : ℤ
  pub inflows : ℤ
  pub outflows : ℤ
  pub fees : ℤ

-- `signed > 0n ? signed : 0n`
abbrev pub gain : ℤ → ℤ
gain amount = if ltb_ℤ (pos 0) amount then amount else pos 0

abbrev pub count_in : Category → ℤ → Sums → Sums
count_in inflow amount s = record s {
  running = s.running +ℤ amount;
  inflows = s.inflows +ℤ gain amount;
}
count_in opening amount s = record s {
  running = s.running +ℤ amount;
  inflows = s.inflows +ℤ gain amount;
}
count_in outflow amount s = record s {
  running = s.running +ℤ amount;
  outflows = s.outflows +ℤ neg amount;
}
count_in reversal amount s = record s {
  running = s.running +ℤ amount;
  outflows = s.outflows -ℤ amount;
}
count_in fee amount s = record s { running = s.running +ℤ amount; fees = s.fees +ℤ neg amount }
count_in other amount s = record s { running = s.running +ℤ amount }

abbrev pub amount_of : EntryRow → ℤ
amount_of r = signed r.direction r.amount

abbrev pub row_category : EntryRow → Category
row_category r = category_of r.counter_codes (amount_of r)

abbrev pub count_row : EntryRow → Sums → Sums
count_row r s = count_in (row_category r) (amount_of r) s

abbrev pub line_of : EntryRow → Sums → StatementLine
line_of r s = record {
  effective_at = r.effective_at;
  description = r.description;
  reference = r.reference;
  intent_id = r.intent_id;
  category = row_category r;
  amount = amount_of r;
  running_balance = s.running +ℤ amount_of r;
}

-- The loop over the ordered entries.
unfoldable pub lines_of : List EntryRow → Sums → List StatementLine × Sums
unfolding category_of
lines_of [] s = ([], s)
lines_of (r ∷ rows) s =
    let (lines, last) = lines_of rows (count_row r s) in (line_of r s ∷ lines, last)

pub record AssetInfo : Type 0 where
  pub symbol : String
  pub decimals : ℕ
  pub treasury_ok : Bool

pub record StatementRecord : Type 0 where
  pub treasury_account_id : ℕ
  pub asset_id : String
  pub symbol : String
  pub decimals : ℕ
  pub from : ℕ
  pub to : ℕ
  pub opening_balance : ℤ
  pub inflows : ℤ
  pub outflows : ℤ
  pub fees : ℤ
  pub closing_balance : ℤ
  pub lines : List StatementLine
  pub latest_reconciliation : Option ReconciliationRecord

unfoldable pub start_sums : ℕ → String → ℕ → Ledger → Sums
start_sums treasury asset from ledger = record {
  running = ledger_net treasury treasury_asset asset (some from) ledger;
  inflows = pos 0;
  outflows = pos 0;
  fees = pos 0;
}

unfoldable pub statement_record :
    ℕ → String → ℕ → ℕ → AssetInfo → Ledger → List ReconciliationRecord → StatementRecord
unfolding start_sums lines_of rows_within order_rows
statement_record treasury asset from to info ledger runs =
    let start = start_sums treasury asset from ledger in
    let r = lines_of (order_rows (rows_within treasury asset from to ledger.transactions)) start in
    record {
      treasury_account_id = treasury;
      asset_id = asset;
      symbol = info.symbol;
      decimals = info.decimals;
      from = from;
      to = to;
      opening_balance = start.running;
      inflows = r.1.inflows;
      outflows = r.1.outflows;
      fees = r.1.fees;
      closing_balance = r.1.running;
      lines = r.0;
      latest_reconciliation = latest_of treasury asset runs;
    }

-- `statement`, with the row of the asset and whether the treasury is the organisation's.
unfoldable pub statement :
    ℕ
    → String
    → ℕ
    → ℕ
    → Option AssetInfo
    → Ledger
    → List ReconciliationRecord
    → Option StatementRecord
unfolding statement_record
statement treasury asset from to none ledger runs = none
statement treasury asset from to (some info) ledger runs =
    if info.treasury_ok
    then some (statement_record treasury asset from to info ledger runs)
    else none
