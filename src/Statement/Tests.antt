-- ===== src/Statement/Tests.antt =====
-- A treasury that receives 300 and sends 120, and the witnesses.
use ai_neobank.Prelude.{◌≡◌, refl, Bool, true, none, some, List, [], ◌∷◌, map, arith}
use ai_neobank.Prelude.Int.{pos, ◌+ℤ◌, ◌-ℤ◌, neg}
use ai_neobank.Prelude.Failure.{Result, ok, err}
use ai_neobank.Ledger.{
  Ledger, post_ledger, ledger_net, treasury_asset, inbound_unallocated, pending_outbound,
}
use ai_neobank.Payment.Settle.{pair}
use ai_neobank.Statement.{
  AssetInfo, StatementRecord, Category, outflow, statement_record, statement,
}
use ai_neobank.Statement.Balance.{IsFaithful, statement-IsFaithful}
use ai_neobank.Statement.Categories.{statement-IsTotalled}

abbrev books : Ledger
books = record { accounts = []; transactions = [] }

abbrev after : Result (Bool × Ledger) → Ledger
after (ok (_, l)) = l
after (err _) = books

abbrev received : Ledger
received = after (
    post_ledger 20 1 none "in" "Receipt"
      (pair 2 "usdc" treasury_asset inbound_unallocated (pos 300)) books)

abbrev sent : Ledger
sent = after (
    post_ledger 40 1 (some 7) "out" "Outbound"
      (pair 2 "usdc" pending_outbound treasury_asset (pos 120)) received)

abbrev usdc : AssetInfo
usdc = record { symbol = "USDC"; decimals = 6; treasury_ok = true }

abbrev march : StatementRecord
march = statement_record 2 "usdc" 30 60 usdc sent []

categories_of : List Category
unfolding statement_record post_ledger ◌+ℤ◌ ◌-ℤ◌ neg ledger_net
categories_of = map (λ l. l.category) march.lines

one_payment : categories_of ≡ outflow ∷ []
unfolding categories_of statement_record post_ledger ◌+ℤ◌ ◌-ℤ◌ neg ledger_net
one_payment = refl

closing : march.closing_balance ≡ pos 180
unfolding statement_record post_ledger ◌+ℤ◌ ◌-ℤ◌ neg ledger_net
closing = refl

statement-IsFaithful_example : IsFaithful 2 "usdc" 30 60 sent march
unfolding statement
statement-IsFaithful_example =
    statement-IsFaithful 2 "usdc" 30 60 (some usdc) sent [] march (omega arith) refl

statement-IsTotalled_example :
    march.closing_balance ≡ march.opening_balance +ℤ march.inflows -ℤ march.outflows -ℤ march.fees
unfolding statement statement_record post_ledger ◌+ℤ◌ ◌-ℤ◌ neg
statement-IsTotalled_example =
    statement-IsTotalled 2 "usdc" 30 60 (some usdc) sent [] march refl (refl, tt)
