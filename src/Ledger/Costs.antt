-- ===== src/Ledger/Costs.antt =====
-- packages/database/src/jobs.ts, `costLines`: what an execution cost beyond the transfer.
use ai_neobank.Prelude.{
  ℕ, refl, Bool, String, Option, none, some, List, [], ◌∷◌, ◌++◌, if◌then◌else◌, arith, inl, inr,
  Bool-cases,
}
use ai_neobank.Prelude.Int.{ℤ, pos, ◌-ℤ◌, leb_ℤ}
use ai_neobank.Domain.{ChainFamily, svm, Governance, direct, IntentKind, transfer, x402}
use ai_neobank.Ledger.{LedgerLine, debit, credit, fee_expense, executor_fee_expense, treasury_asset}
use ai_neobank.Ledger.Balance.{IsBalanced, net_of_pair, IsBalanced-append}

pub record CostInput : Type 0 where
  pub treasury_id : ℕ
  pub governance : Governance
  pub kind : IntentKind
  pub chain_family : ChainFamily
  pub native_asset : String
  pub transfers_native : Bool
  pub amount_base_units : ℤ
  pub fee_base_units : ℤ
  pub source_native_spent : Option ℤ

-- `treasuryLines` and `executorLines`: nothing for an amount that is not positive.
abbrev treasury_lines : CostInput → ℤ → List LedgerLine
treasury_lines input amount =
    if leb_ℤ amount (pos 0)
    then []
    else record {
      treasury_id = some input.treasury_id;
      code = fee_expense;
      asset_id = input.native_asset;
      direction = debit;
      amount = amount;
    }
      ∷ record {
        treasury_id = some input.treasury_id;
        code = treasury_asset;
        asset_id = input.native_asset;
        direction = credit;
        amount = amount;
      }
      ∷ []

abbrev executor_lines : CostInput → ℤ → List LedgerLine
executor_lines input amount =
    if leb_ℤ amount (pos 0)
    then []
    else record {
      treasury_id = none;
      code = executor_fee_expense;
      asset_id = input.native_asset;
      direction = debit;
      amount = amount;
    }
      ∷ record {
        treasury_id = none;
        code = treasury_asset;
        asset_id = input.native_asset;
        direction = credit;
        amount = amount;
      }
      ∷ []

-- Who pays the network fee, where the source's own spending is not known.
abbrev fee_lines : Governance → CostInput → List LedgerLine
fee_lines direct input = treasury_lines input input.fee_base_units
fee_lines _ input = executor_lines input input.fee_base_units

abbrev executor_part : Governance → CostInput → List LedgerLine
executor_part direct input = []
executor_part _ input = executor_lines input input.fee_base_units

abbrev spent_lines : CostInput → ℤ → List LedgerLine
spent_lines input spent =
    treasury_lines input
      (spent -ℤ (if input.transfers_native then input.amount_base_units else pos 0))
    ++ executor_part input.governance input

abbrev family_lines : ChainFamily → Option ℤ → CostInput → List LedgerLine
family_lines svm (some spent) input = spent_lines input spent
family_lines _ _ input = fee_lines input.governance input

abbrev kind_lines : IntentKind → CostInput → List LedgerLine
kind_lines x402 input = []
kind_lines transfer input = family_lines input.chain_family input.source_native_spent input

unfoldable pub cost_lines : CostInput → List LedgerLine
cost_lines input = kind_lines input.kind input

IsBalanced-nil : IsBalanced []
IsBalanced-nil = record { positive = tt; nets_to_zero = λ asset. refl }

treasury_lines-IsBalanced : (c : CostInput) (amount : ℤ) → IsBalanced (treasury_lines c amount)
treasury_lines-IsBalanced c amount = elim (Bool-cases (leb_ℤ amount (pos 0))) [
  | inl nothing ↦ rw nothing IsBalanced-nil
  | inr cost ↦ rw cost (record {
    positive = ground arith;
    nets_to_zero = λ asset. net_of_pair asset c.native_asset amount;
  })
]

executor_lines-IsBalanced : (c : CostInput) (amount : ℤ) → IsBalanced (executor_lines c amount)
executor_lines-IsBalanced c amount = elim (Bool-cases (leb_ℤ amount (pos 0))) [
  | inl nothing ↦ rw nothing IsBalanced-nil
  | inr cost ↦ rw cost (record {
    positive = ground arith;
    nets_to_zero = λ asset. net_of_pair asset c.native_asset amount;
  })
]

executor_part-IsBalanced : (g : Governance) (c : CostInput) → IsBalanced (executor_part g c)
executor_part-IsBalanced direct c = IsBalanced-nil
executor_part-IsBalanced _ c = executor_lines-IsBalanced c c.fee_base_units

fee_lines-IsBalanced : (g : Governance) (c : CostInput) → IsBalanced (fee_lines g c)
fee_lines-IsBalanced direct c = treasury_lines-IsBalanced c c.fee_base_units
fee_lines-IsBalanced _ c = executor_lines-IsBalanced c c.fee_base_units

family_lines-IsBalanced :
    (f : ChainFamily) (spent : Option ℤ) (c : CostInput) → IsBalanced (family_lines f spent c)
family_lines-IsBalanced svm (some spent) c =
    IsBalanced-append
      (treasury_lines-IsBalanced c
        (spent -ℤ (if c.transfers_native then c.amount_base_units else pos 0)))
      (executor_part-IsBalanced c.governance c)
family_lines-IsBalanced _ _ c = fee_lines-IsBalanced c.governance c

kind_lines-IsBalanced : (k : IntentKind) (c : CostInput) → IsBalanced (kind_lines k c)
kind_lines-IsBalanced x402 c = IsBalanced-nil
kind_lines-IsBalanced transfer c = family_lines-IsBalanced c.chain_family c.source_native_spent c

-- Whatever an execution cost, its lines are positive and balanced, so the ledger takes them.
pub cost_lines-IsBalanced : (c : CostInput) → IsBalanced (cost_lines c)
unfolding cost_lines
cost_lines-IsBalanced c = kind_lines-IsBalanced c.kind c
