-- ===== src/Statement/Balance.antt =====
-- packages/database/src/operations.ts: the balances of a statement are those of the ledger.
use ai_neobank.Prelude.{
  ℕ, ◌≤◌, ◌≡◌, refl, sym, ◌∙◌, inl, inr, Bool, true, false, String, Option, none, some, List, [],
  ◌∷◌, ◌++◌, leb, ltb, if◌then◌else◌, arith, Bool-cases,
}
use ai_neobank.Prelude.Int.{ℤ, pos, ◌+ℤ◌, int_laws, +ℤ-zero, zero-+ℤ, +ℤ_assoc}
use ai_neobank.Ledger.{
  treasury_asset, Entry, Transaction, Ledger, concerns, net_entries, net_transactions, ledger_net,
}
use ai_neobank.Reconcile.{ReconciliationRecord}
use ai_neobank.Statement.{
  StatementLine, EntryRow, Sums, StatementRecord, AssetInfo, rows_of, rows_within, insert_row,
  order_rows, amount_of, count_row, count_in, row_category, lines_of, is_within, start_sums,
  statement_record, statement, Category, inflow, opening, outflow, reversal, fee, other,
}

abbrev sum_rows : List EntryRow → ℤ
sum_rows [] = pos 0
sum_rows (r ∷ rows) = amount_of r +ℤ sum_rows rows

sum_rows-append : (xs ys : List EntryRow) → sum_rows (xs ++ ys) ≡ sum_rows xs +ℤ sum_rows ys
sum_rows-append [] ys = sym (zero-+ℤ (sum_rows ys))
sum_rows-append (x ∷ xs) ys = rw (sum_rows-append xs ys) (sym (+ℤ_assoc _ _ _))

sum_rows-insert_row :
    (r : EntryRow) (rows : List EntryRow)
    → sum_rows (insert_row r rows) ≡ amount_of r +ℤ sum_rows rows
unfolding insert_row
sum_rows-insert_row r [] = refl
sum_rows-insert_row r (q ∷ rows) = elim (Bool-cases (leb r.effective_at q.effective_at)) [
  | inl first ↦ rw first
  | inr later ↦ rw (later, sum_rows-insert_row r rows) (omega int_laws)
]

sum_rows-order_rows : (rows : List EntryRow) → sum_rows (order_rows rows) ≡ sum_rows rows
unfolding order_rows
sum_rows-order_rows [] = refl
sum_rows-order_rows (r ∷ rows) =
    sum_rows-insert_row r (order_rows rows) ∙ rw (sum_rows-order_rows rows)

module _ (treasury : ℕ) (asset : String) where
  sum_rows-rows_of :
      (t : Transaction) (before es : List Entry)
      → sum_rows (rows_of treasury asset t before es) ≡ net_entries treasury treasury_asset asset es
  unfolding rows_of net_entries
  sum_rows-rows_of t before [] = refl
  sum_rows-rows_of t before (e ∷ es) =
      elim (Bool-cases (concerns treasury treasury_asset asset e.account)) [
        | inl ours ↦ rw (ours, sum_rows-rows_of t (before ++ e ∷ []) es)
        | inr theirs ↦ rw (theirs, sum_rows-rows_of t (before ++ e ∷ []) es)
      ]

  -- What lies before the end of a period is what lies before its start, and the period.
  period :
      (from to at : ℕ) (n : ℤ)
      → from ≤ to
      → (if ltb at to then n else pos 0)
        ≡ (if ltb at from then n else pos 0) +ℤ (if is_within from to at then n else pos 0)
  unfolding ◌+ℤ◌
  period from to at n h = ground arith

  counted :
      (b : Bool) (n rest : ℤ) → (if b then n +ℤ rest else rest) ≡ (if b then n else pos 0) +ℤ rest
  counted true n rest = refl
  counted false n rest = sym (zero-+ℤ rest)

  regroup : (a b c d : ℤ) → a +ℤ b +ℤ (c +ℤ d) ≡ a +ℤ c +ℤ (b +ℤ d)
  regroup a b c d = omega int_laws

  sum_rows-period :
      (b : Bool) (xs ys : List EntryRow)
      → sum_rows (if b then xs ++ ys else ys) ≡ (if b then sum_rows xs else pos 0) +ℤ sum_rows ys
  sum_rows-period true xs ys = sum_rows-append xs ys
  sum_rows-period false xs ys = sym (zero-+ℤ (sum_rows ys))

  net_transactions-within :
      (from to : ℕ)
      → from ≤ to
      → (ts : List Transaction)
      → net_transactions treasury treasury_asset asset (some to) ts
        ≡ net_transactions treasury treasury_asset asset (some from) ts
          +ℤ sum_rows (rows_within treasury asset from to ts)
  unfolding net_transactions rows_within
  net_transactions-within from to h [] = sym (zero-+ℤ (pos 0))
  net_transactions-within from to h (t ∷ ts) =
      let n = net_entries treasury treasury_asset asset t.entries in
      rw
        (
          counted (ltb t.effective_at to) n
              (net_transactions treasury treasury_asset asset (some to) ts),
          counted (ltb t.effective_at from) n
              (net_transactions treasury treasury_asset asset (some from) ts),
          sum_rows-period (is_within from to t.effective_at) (rows_of treasury asset t [] t.entries)
              (rows_within treasury asset from to ts),
          sum_rows-rows_of t [] t.entries,
          period from to t.effective_at n h,
          net_transactions-within from to h ts,
        )
        (regroup _ _ _ _)

  running-count_in :
      (c : Category) (amount : ℤ) (s : Sums) → (count_in c amount s).running ≡ s.running +ℤ amount
  running-count_in inflow amount s = refl
  running-count_in opening amount s = refl
  running-count_in outflow amount s = refl
  running-count_in reversal amount s = refl
  running-count_in fee amount s = refl
  running-count_in other amount s = refl

  running-lines_of :
      (rows : List EntryRow) (s : Sums) → (lines_of rows s).1.running ≡ s.running +ℤ sum_rows rows
  unfolding lines_of
  running-lines_of [] s = sym (+ℤ-zero s.running)
  running-lines_of (r ∷ rows) s =
      running-lines_of rows (count_row r s)
      ∙ rw (running-count_in (row_category r) (amount_of r) s) (+ℤ_assoc _ _ _)

  -- Each line's balance is the balance before it and its amount, up to the closing balance.
  abbrev pub IsRunning : ℤ → List StatementLine → ℤ → Type 0
  IsRunning balance [] closing = balance ≡ closing
  IsRunning balance (l ∷ lines) closing =
      (l.running_balance ≡ balance +ℤ l.amount) × IsRunning l.running_balance lines closing

  lines_of-IsRunning :
      (rows : List EntryRow) (s : Sums)
      → IsRunning s.running (lines_of rows s).0 (lines_of rows s).1.running
  unfolding lines_of
  lines_of-IsRunning [] s = refl
  lines_of-IsRunning (r ∷ rows) s = (
    refl,
    rw (running-count_in (row_category r) (amount_of r) s) at
        (lines_of-IsRunning rows (count_row r s)),
  )

  pub record IsFaithful (from to : ℕ) (ledger : Ledger) (s : StatementRecord) : Type 0 where
    pub opens : s.opening_balance ≡ ledger_net treasury treasury_asset asset (some from) ledger
    pub closes : s.closing_balance ≡ ledger_net treasury treasury_asset asset (some to) ledger
    pub runs : IsRunning s.opening_balance s.lines s.closing_balance

  abbrev Faithful : ℕ → ℕ → Ledger → Option StatementRecord → Type 0
  Faithful from to ledger none = Unit
  Faithful from to ledger (some s) = IsFaithful from to ledger s

  closing_balance :
      (from to : ℕ) (ledger : Ledger)
      → from ≤ to
      → (lines_of
          (order_rows (rows_within treasury asset from to ledger.transactions))
          (start_sums treasury asset from ledger)).1.running
        ≡ ledger_net treasury treasury_asset asset (some to) ledger
  unfolding ledger_net start_sums
  closing_balance from to ledger h =
      running-lines_of (order_rows (rows_within treasury asset from to ledger.transactions)) _
      ∙ rw (sum_rows-order_rows (rows_within treasury asset from to ledger.transactions))
          (sym (net_transactions-within from to h ledger.transactions))

  statement_record-IsFaithful :
      (from to : ℕ) (info : AssetInfo) (ledger : Ledger) (runs : List ReconciliationRecord)
      → from ≤ to
      → IsFaithful from to ledger (statement_record treasury asset from to info ledger runs)
  unfolding statement_record
  statement_record-IsFaithful from to info ledger runs h = record {
    opens = unfold start_sums in refl;
    closes = closing_balance from to ledger h;
    runs = lines_of-IsRunning _ _;
  }

  statement-Faithful :
      (from to : ℕ) (info : Option AssetInfo) (ledger : Ledger) (runs : List ReconciliationRecord)
      → from ≤ to
      → Faithful from to ledger (statement treasury asset from to info ledger runs)
  unfolding statement
  statement-Faithful from to none ledger runs h = tt
  statement-Faithful from to (some info) ledger runs h = elim (Bool-cases info.treasury_ok) [
    | inl fine ↦ rw fine (statement_record-IsFaithful from to info ledger runs h)
    | inr foreign ↦ rw foreign tt
  ]

  -- A statement over a period that does not end before it starts opens with the ledger's net of
  -- the account at the start and closes with its net at the end, and the balance of each line is
  -- the one before it and the amount of the line.
  pub statement-IsFaithful :
      (from to : ℕ) (info : Option AssetInfo) (ledger : Ledger) (runs : List ReconciliationRecord)
      (s : StatementRecord)
      → from ≤ to
      → statement treasury asset from to info ledger runs ≡ some s
      → IsFaithful from to ledger s
  statement-IsFaithful from to info ledger runs s h e =
      rw e at (statement-Faithful from to info ledger runs h)
