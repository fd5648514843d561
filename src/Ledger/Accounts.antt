-- ===== src/Ledger/Accounts.antt =====
-- packages/database/src/ledger.ts: account codes, directions and account keys.
use ai_neobank.Prelude.{
  ℕ, suc, ◌≡◌, refl, ◌↔◌, Bool, true, ◌&&◌, String, Option, arith, nat_beq_iff,
}
use ai_neobank.Prelude.Equality.{
  Eq, ◌==◌, nat_eq, string_eq, option_eq, enum_beq, enum_beq_iff, option_beq_iff, beq_refl,
}

pub data AccountCode : Type 0 where
  treasury_asset pending_outbound settled_expense fee_expense executor_fee_expense : AccountCode
  accounts_receivable revenue inbound_unallocated opening_balance : AccountCode

pub data Direction : Type 0 where
  debit credit : Direction

abbrev pub code_text : AccountCode → String
code_text treasury_asset = "treasury_asset"
code_text pending_outbound = "pending_outbound"
code_text settled_expense = "settled_expense"
code_text fee_expense = "fee_expense"
code_text executor_fee_expense = "executor_fee_expense"
code_text accounts_receivable = "accounts_receivable"
code_text revenue = "revenue"
code_text inbound_unallocated = "inbound_unallocated"
code_text opening_balance = "opening_balance"

abbrev code_index : AccountCode → ℕ
code_index treasury_asset = 0
code_index pending_outbound = 1
code_index settled_expense = 2
code_index fee_expense = 3
code_index executor_fee_expense = 4
code_index accounts_receivable = 5
code_index revenue = 6
code_index inbound_unallocated = 7
code_index opening_balance = 8

abbrev code_of : ℕ → AccountCode
code_of ℕ.zero = treasury_asset
code_of (suc ℕ.zero) = pending_outbound
code_of (suc (suc ℕ.zero)) = settled_expense
code_of (suc (suc (suc ℕ.zero))) = fee_expense
code_of (suc (suc (suc (suc ℕ.zero)))) = executor_fee_expense
code_of (suc (suc (suc (suc (suc ℕ.zero))))) = accounts_receivable
code_of (suc (suc (suc (suc (suc (suc ℕ.zero)))))) = revenue
code_of (suc (suc (suc (suc (suc (suc (suc ℕ.zero))))))) = inbound_unallocated
code_of _ = opening_balance

pub code_back : (c : AccountCode) → code_of (code_index c) ≡ c
code_back treasury_asset = refl
code_back pending_outbound = refl
code_back settled_expense = refl
code_back fee_expense = refl
code_back executor_fee_expense = refl
code_back accounts_receivable = refl
code_back revenue = refl
code_back inbound_unallocated = refl
code_back opening_balance = refl

instance abbrev pub code_eq : Eq AccountCode
code_eq = record {
  beq = enum_beq code_index code_of;
  beq_iff = enum_beq_iff code_index code_of code_back;
}

-- The unique key of `ledger_accounts`; a missing treasury is the organisation's own account.
pub record Account : Type 0 where
  pub organization_id : ℕ
  pub treasury_id : Option ℕ
  pub code : AccountCode
  pub asset_id : String

unfoldable pub account_beq : Account → Account → Bool
account_beq a b =
    a.organization_id == b.organization_id
    && a.treasury_id == b.treasury_id
    && a.code == b.code
    && a.asset_id == b.asset_id

pub account_beq_refl : (a : Account) → account_beq a a ≡ true
unfolding account_beq
account_beq_refl a =
    rw (beq_refl a.organization_id, beq_refl a.treasury_id, beq_refl a.code, beq_refl a.asset_id)

pub account_beq_iff : (a b : Account) → (account_beq a b ≡ true) ↔ (a ≡ b)
unfolding account_beq
account_beq_iff a b = (
  λ h. ground (
    arith,
    (nat_beq_iff a.organization_id b.organization_id).0,
    (option_beq_iff a.treasury_id b.treasury_id).0,
    (code_eq.beq_iff a.code b.code).0,
    (string_eq.beq_iff a.asset_id b.asset_id).0,
  ),
  λ h. rw h (account_beq_refl b),
)

instance abbrev pub account_eq : Eq Account
account_eq = record { beq = account_beq; beq_iff = account_beq_iff }
