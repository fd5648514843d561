-- ===== src/Statement/Categories.antt =====
-- packages/database/src/operations.ts: what the totals of a statement say of its balances.
use ai_neobank.Prelude.{
  ℕ, ◌≡◌, inl, inr, Bool, true, false, not, String, Option, none, some, List, [], ◌∷◌, All, arith,
  Bool-cases,
}
use ai_neobank.Prelude.Int.{ℤ, ◌+ℤ◌, ◌-ℤ◌, neg, int_laws}
use ai_neobank.Ledger.{Ledger}
use ai_neobank.Reconcile.{ReconciliationRecord}
use ai_neobank.Statement.{
  StatementLine, EntryRow, Sums, StatementRecord, AssetInfo, amount_of, count_row, count_in,
  row_category, lines_of, is_negative, gain, start_sums, statement_record, statement, Category,
  inflow, opening, outflow, reversal, fee, other,
}

-- Whether the totals take the whole amount of a line in.
abbrev pub is_totalled : Category → ℤ → Bool
is_totalled inflow amount = not (is_negative amount)
is_totalled opening amount = not (is_negative amount)
is_totalled other amount = false
is_totalled _ amount = true

abbrev pub IsLineTotalled : StatementLine → Type 0
IsLineTotalled l = is_totalled l.category l.amount ≡ true

abbrev total : ℤ → Sums → ℤ
total start s = start +ℤ s.inflows -ℤ s.outflows -ℤ s.fees

gain-eq : (amount : ℤ) → not (is_negative amount) ≡ true → gain amount ≡ amount
gain-eq amount h = ground arith

gained : (start r i o f a : ℤ) → r ≡ start +ℤ i -ℤ o -ℤ f → r +ℤ a ≡ start +ℤ (i +ℤ a) -ℤ o -ℤ f
gained start r i o f a e = rw e (omega int_laws)

sent : (start r i o f a : ℤ) → r ≡ start +ℤ i -ℤ o -ℤ f → r +ℤ a ≡ start +ℤ i -ℤ (o +ℤ neg a) -ℤ f
sent start r i o f a e = rw e (omega int_laws)

returned : (start r i o f a : ℤ) → r ≡ start +ℤ i -ℤ o -ℤ f → r +ℤ a ≡ start +ℤ i -ℤ (o -ℤ a) -ℤ f
returned start r i o f a e = rw e (omega int_laws)

charged :
    (start r i o f a : ℤ) → r ≡ start +ℤ i -ℤ o -ℤ f → r +ℤ a ≡ start +ℤ i -ℤ o -ℤ (f +ℤ neg a)
charged start r i o f a e = rw e (omega int_laws)

moved :
    (start : ℤ) (c : Category) (amount : ℤ) (s : Sums)
    → is_totalled c amount ≡ true
    → s.running ≡ total start s
    → (count_in c amount s).running ≡ total start (count_in c amount s)
moved start inflow amount s h e =
    rw (gain-eq amount h) (gained start s.running s.inflows s.outflows s.fees amount e)
moved start opening amount s h e =
    rw (gain-eq amount h) (gained start s.running s.inflows s.outflows s.fees amount e)
moved start outflow amount s h e = sent start s.running s.inflows s.outflows s.fees amount e
moved start reversal amount s h e = returned start s.running s.inflows s.outflows s.fees amount e
moved start fee amount s h e = charged start s.running s.inflows s.outflows s.fees amount e
moved start other amount s h e = ground (arith, h)

lines_of-total :
    (start : ℤ) (rows : List EntryRow) (s : Sums)
    → s.running ≡ total start s
    → All IsLineTotalled (lines_of rows s).0
    → (lines_of rows s).1.running ≡ total start (lines_of rows s).1
unfolding lines_of
lines_of-total start [] s e h = e
lines_of-total start (r ∷ rows) s e h =
    lines_of-total start rows (count_row r s) (moved start (row_category r) (amount_of r) s h.0 e)
      h.1

abbrev pub IsTotalled : StatementRecord → Type 0
IsTotalled s = s.closing_balance ≡ s.opening_balance +ℤ s.inflows -ℤ s.outflows -ℤ s.fees

abbrev Totalled : Option StatementRecord → Type 0
Totalled none = Unit
Totalled (some s) = All IsLineTotalled s.lines → IsTotalled s

statement-Totalled :
    (treasury : ℕ) (asset : String) (from to : ℕ) (info : Option AssetInfo) (ledger : Ledger)
    (runs : List ReconciliationRecord)
    → Totalled (statement treasury asset from to info ledger runs)
unfolding statement
statement-Totalled treasury asset from to none ledger runs = tt
statement-Totalled treasury asset from to (some info) ledger runs =
    elim (Bool-cases info.treasury_ok) [
      | inl fine ↦
          rw fine
            (λ h. unfold statement_record start_sums in lines_of-total _ _ _ (omega int_laws) h)
      | inr foreign ↦ rw foreign tt
    ]

-- Where no line is of another category and no receipt or opening balance is negative, the closing
-- balance of a statement is the opening balance and its inflows less its outflows and its fees.
pub statement-IsTotalled :
    (treasury : ℕ) (asset : String) (from to : ℕ) (info : Option AssetInfo) (ledger : Ledger)
    (runs : List ReconciliationRecord) (s : StatementRecord)
    → statement treasury asset from to info ledger runs ≡ some s
    → All IsLineTotalled s.lines
    → s.closing_balance ≡ s.opening_balance +ℤ s.inflows -ℤ s.outflows -ℤ s.fees
statement-IsTotalled treasury asset from to info ledger runs s e =
    rw e at (statement-Totalled treasury asset from to info ledger runs)
