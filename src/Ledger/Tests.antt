-- ===== src/Ledger/Tests.antt =====
-- A transfer that is booked twice, and the witnesses.
use ai_neobank.Prelude.{
  ℕ, ◌≡◌, refl, Bool, true, false, String, Option, none, some, List, [], ◌∷◌, All,
}
use ai_neobank.Prelude.Int.{ℤ, pos, ◌+ℤ◌}
use ai_neobank.Prelude.Failure.{Result, ok, err}
use ai_neobank.Domain.{evm, direct, transfer}
use ai_neobank.Ledger.{
  Ledger, LedgerLine, debit, credit, pending_outbound, treasury_asset, post_ledger, ledger_net,
}
use ai_neobank.Ledger.Balance.{IsBalanced, Posting, post_ledger-Posting}
use ai_neobank.Ledger.Sound.{IsSound, post_ledger-IsSound, post_ledger_twice}
use ai_neobank.Ledger.Net.{net_at, ledger_net-post_ledger}
use ai_neobank.Ledger.Costs.{CostInput, cost_lines, cost_lines-IsBalanced}

abbrev books : Ledger
books = record { accounts = []; transactions = [] }

abbrev lines : List LedgerLine
lines =
    record {
      treasury_id = some 2;
      code = pending_outbound;
      asset_id = "usdc";
      direction = debit;
      amount = pos 250;
    }
    ∷ record {
      treasury_id = some 2;
      code = treasury_asset;
      asset_id = "usdc";
      direction = credit;
      amount = pos 250;
    }
    ∷ []

abbrev after : Result (Bool × Ledger) → Ledger
after (ok (_, l)) = l
after (err _) = books

abbrev posted : Ledger
posted = after (post_ledger 5 1 (some 7) "0xfe:submitted" "Submitted" lines books)

books-IsSound : IsSound books
books-IsSound = record { transactions_sound = tt; unrepeated = tt }

posts : post_ledger 5 1 (some 7) "0xfe:submitted" "Submitted" lines books ≡ ok (true, posted)
unfolding post_ledger ◌+ℤ◌ ai_neobank.Prelude.Int.neg
posts = refl

post_ledger-Posting_example :
    Posting 5 1
      (some 7)
      "0xfe:submitted"
      "Submitted"
      lines
      books
      (post_ledger 5 1 (some 7) "0xfe:submitted" "Submitted" lines books)
post_ledger-Posting_example =
    post_ledger-Posting 5 1 (some 7) "0xfe:submitted" "Submitted" lines books

post_ledger-IsSound_example : IsSound posted
post_ledger-IsSound_example =
    post_ledger-IsSound 5 1 (some 7) "0xfe:submitted" "Submitted" lines books posted true
      books-IsSound posts

lines-IsBalanced : IsBalanced lines
unfolding post_ledger ◌+ℤ◌ ai_neobank.Prelude.Int.neg
lines-IsBalanced = (post_ledger-Posting 5 1 (some 7) "0xfe:submitted" "Submitted" lines books).0

post_ledger_twice_example :
    post_ledger 6 1 none "0xfe:submitted" "Again" lines posted ≡ ok (false, posted)
post_ledger_twice_example =
    post_ledger_twice 5 6 1 (some 7) none "0xfe:submitted" "Submitted" "Again" lines lines books
      posted true posts lines-IsBalanced

posted-IsSound : IsSound posted
posted-IsSound =
    post_ledger-IsSound 5 1 (some 7) "0xfe:submitted" "Submitted" lines books posted true
      books-IsSound posts

ledger_net-post_ledger_example :
    (l' : Ledger) × (post_ledger 5 1 (some 7) "0xfe:submitted" "Submitted" lines books
      ≡ ok (true, l'))
    × (ledger_net 2 pending_outbound "usdc" none l'
        ≡ ledger_net 2 pending_outbound "usdc" none books +ℤ net_at 2 pending_outbound "usdc" lines)
unfolding ai_neobank.Ledger.is_posted
ledger_net-post_ledger_example =
    ledger_net-post_ledger 2 pending_outbound "usdc" 5 1 (some 7) "0xfe:submitted" "Submitted" lines
      books lines-IsBalanced refl

abbrev costs : CostInput
costs = record {
  treasury_id = 2;
  governance = direct;
  kind = transfer;
  chain_family = evm;
  native_asset = "eip155:84532/slip44:60";
  transfers_native = false;
  amount_base_units = pos 250;
  fee_base_units = pos 21;
  source_native_spent = none;
}

cost_lines-IsBalanced_example : IsBalanced (cost_lines costs)
cost_lines-IsBalanced_example = cost_lines-IsBalanced costs
