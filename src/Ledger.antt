-- ===== src/Ledger.antt =====
-- packages/database/src/ledger.ts: the double-entry ledger. The tables `ledger_accounts`,
-- `ledger_transactions` and `ledger_entries` are lists, oldest first; an account is identified by
-- its unique key, so an entry carries that key.
pub mod Accounts
pub mod Balance
pub mod Sound
pub mod Net
pub mod Costs
mod Tests
pub use Accounts.*
use ai_neobank.Prelude.{
  ℕ, Bool, true, false, ◌&&◌, String, Option, none, some, List, [], ◌∷◌, ◌++◌, map, any, includes,
  if◌then◌else◌, ltb,
}
use ai_neobank.Prelude.Equality.{Eq, ◌==◌, nat_eq, string_eq, option_eq}
use ai_neobank.Prelude.Int.{ℤ, pos, ◌+ℤ◌, neg, leb_ℤ, int_eq}
use ai_neobank.Prelude.Text.{◌++ₜ◌}
use ai_neobank.Prelude.Failure.{
  Exception, error, Result, ok, err, Tx, ◌>>=◌, ◌>>◌, pure, throw, gets, modify, throw_if, done,
}

pub record LedgerLine : Type 0 where
  pub treasury_id : Option ℕ
  pub code : AccountCode
  pub asset_id : String
  pub direction : Direction
  pub amount : ℤ

pub record Entry : Type 0 where
  pub account : Account
  pub direction : Direction
  pub amount : ℤ

pub record Transaction : Type 0 where
  pub organization_id : ℕ
  pub intent_id : Option ℕ
  pub external_reference : String
  pub description : String
  pub effective_at : ℕ
  pub entries : List Entry

pub record Ledger : Type 0 where
  pub accounts : List Account
  pub transactions : List Transaction

-- `(direction === "debit" ? 1n : -1n) * amount`
abbrev pub signed : Direction → ℤ → ℤ
signed debit amount = amount
signed credit amount = neg amount

-- `perAsset.set(asset, (perAsset.get(asset) ?? 0n) + net)`, the map in insertion order.
unfoldable pub add_net : String → ℤ → List (String × ℤ) → List (String × ℤ)
add_net asset net [] = (asset, pos 0 +ℤ net) ∷ []
add_net asset net ((a, n) ∷ nets) =
    if a == asset then (a, n +ℤ net) ∷ nets else (a, n) ∷ add_net asset net nets

-- The first loop of `postLedger`: every amount is positive, and each asset has its net.
unfoldable pub net_lines : List LedgerLine → List (String × ℤ) → Result (List (String × ℤ))
net_lines [] nets = ok nets
net_lines (line ∷ lines) nets =
    if leb_ℤ line.amount (pos 0)
    then err (error ("Ledger amounts must be positive (" ++ₜ code_text line.code ++ₜ ")"))
    else net_lines lines (add_net line.asset_id (signed line.direction line.amount) nets)

-- The second loop: no asset is left with a net.
unfoldable pub check_nets : List (String × ℤ) → Result (Unit {0})
check_nets [] = ok tt
check_nets ((asset, net) ∷ nets) =
    if net == pos 0
    then check_nets nets
    else err (error ("Unbalanced ledger posting for " ++ₜ asset))

-- `account`: the row with this key, inserted if there is none.
unfoldable pub upsert_account : Account → List Account → List Account
upsert_account key accounts = if includes accounts key then accounts else accounts ++ key ∷ []

abbrev pub account_of : ℕ → LedgerLine → Account
account_of organization line = record {
  organization_id = organization;
  treasury_id = line.treasury_id;
  code = line.code;
  asset_id = line.asset_id;
}

abbrev pub entry_of : ℕ → LedgerLine → Entry
entry_of organization line = record {
  account = account_of organization line;
  direction = line.direction;
  amount = line.amount;
}

unfoldable pub upsert_accounts : ℕ → List LedgerLine → List Account → List Account
upsert_accounts organization [] accounts = accounts
upsert_accounts organization (line ∷ lines) accounts =
    upsert_accounts organization lines (upsert_account (account_of organization line) accounts)

-- `on conflict (organization_id, external_reference)`
unfoldable pub is_posted : ℕ → String → List Transaction → Bool
is_posted organization reference [] = false
is_posted organization reference (t ∷ ts) =
    if t.organization_id == organization && t.external_reference == reference
    then true
    else is_posted organization reference ts

abbrev pub lift : {S A : Type 0} → Result A → Tx S A
lift (ok a) s = ok (a, s)
lift (err e) s = err e

-- The row of `ledger_transactions` that a posting inserts, with its entries.
abbrev pub transaction_of : ℕ → ℕ → Option ℕ → String → String → List LedgerLine → Transaction
transaction_of now organization intent reference description lines = record {
  organization_id = organization;
  intent_id = intent;
  external_reference = reference;
  description = description;
  effective_at = now;
  entries = map (entry_of organization) lines;
}

-- The posting proper: the transaction row, its accounts and its entries.
unfoldable pub append_transaction :
    ℕ → ℕ → Option ℕ → String → String → List LedgerLine → Ledger → Ledger
unfolding upsert_accounts upsert_account
append_transaction now organization intent reference description lines ledger = record {
  accounts = upsert_accounts organization lines ledger.accounts;
  transactions =
      ledger.transactions
      ++ transaction_of now organization intent reference description lines ∷ [];
}

-- `postLedger`: the result is false where the reference was posted before.
unfoldable pub post_ledger : ℕ → ℕ → Option ℕ → String → String → List LedgerLine → Tx Ledger Bool
unfolding net_lines add_net check_nets is_posted append_transaction
post_ledger now organization intent reference description lines = do
  nets ← lift (net_lines lines [])
  lift (check_nets nets)
  posted ← gets (λ ledger. is_posted organization reference ledger.transactions)
  if posted
      then pure false
      else modify (append_transaction now organization intent reference description lines)
        >> pure true

-- `ledgerNet`: the net debit balance of one treasury's account, before an instant if one is given.
abbrev is_before : Option ℕ → ℕ → Bool
is_before none at = true
is_before (some before) at = ltb at before

abbrev pub concerns : ℕ → AccountCode → String → Account → Bool
concerns treasury code asset account =
    account.treasury_id == some treasury && account.code == code && account.asset_id == asset

unfoldable pub net_entries : ℕ → AccountCode → String → List Entry → ℤ
net_entries treasury code asset [] = pos 0
net_entries treasury code asset (e ∷ es) =
    if concerns treasury code asset e.account
    then signed e.direction e.amount +ℤ net_entries treasury code asset es
    else net_entries treasury code asset es

unfoldable pub net_transactions : ℕ → AccountCode → String → Option ℕ → List Transaction → ℤ
unfolding net_entries
net_transactions treasury code asset before [] = pos 0
net_transactions treasury code asset before (t ∷ ts) =
    if is_before before t.effective_at
    then net_entries treasury code asset t.entries +ℤ net_transactions treasury code asset before ts
    else net_transactions treasury code asset before ts

unfoldable pub ledger_net : ℕ → AccountCode → String → Option ℕ → Ledger → ℤ
unfolding net_transactions
ledger_net treasury code asset before ledger =
    net_transactions treasury code asset before ledger.transactions
