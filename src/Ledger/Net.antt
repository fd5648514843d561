-- ===== src/Ledger/Net.antt =====
-- How a posting moves `ledgerNet`.
use ai_neobank.Prelude.{
  ℕ, ◌≡◌, refl, sym, ◌∙◌, ap, inl, inr, true, false, String, Option, none, List, [], ◌∷◌, ◌++◌, map,
  if◌then◌else◌, Bool-cases,
}
use ai_neobank.Prelude.Equality.{nat_eq, string_eq, option_eq}
use ai_neobank.Prelude.Int.{ℤ, pos, ◌+ℤ◌, zero-+ℤ, +ℤ-zero, +ℤ_assoc}
use ai_neobank.Prelude.Failure.{ok}
use ai_neobank.Ledger.{
  AccountCode, LedgerLine, Transaction, Ledger, signed, entry_of, account_of, transaction_of,
  concerns, is_before, net_entries, net_transactions, ledger_net, append_transaction, post_ledger,
  is_posted,
}
use ai_neobank.Ledger.Balance.{IsBalanced, post_ledger_balanced}

module _ (treasury : ℕ) (code : AccountCode) (asset : String) where
  -- What some lines add to one account of a treasury.
  abbrev pub net_at : List LedgerLine → ℤ
  net_at [] = pos 0
  net_at (l ∷ lines) =
      if concerns treasury code asset (account_of 0 l)
      then signed l.direction l.amount +ℤ net_at lines
      else net_at lines

  net_entries-map :
      (organization : ℕ) (lines : List LedgerLine)
      → net_entries treasury code asset (map (entry_of organization) lines) ≡ net_at lines
  unfolding net_entries
  net_entries-map organization [] = refl
  net_entries-map organization (l ∷ lines) = rw (net_entries-map organization lines)

  net_transactions-append :
      (before : Option ℕ) (ts : List Transaction) (t : Transaction)
      → net_transactions treasury code asset before (ts ++ t ∷ [])
        ≡ net_transactions treasury code asset before ts
          +ℤ (if is_before before t.effective_at
              then net_entries treasury code asset t.entries
              else pos 0)
  unfolding net_transactions
  net_transactions-append before [] t = elim (Bool-cases (is_before before t.effective_at)) [
    | inl counted ↦
        rw counted (+ℤ-zero (net_entries treasury code asset t.entries) ∙ sym (zero-+ℤ _))
    | inr later ↦ rw later (sym (zero-+ℤ _))
  ]
  net_transactions-append before (u ∷ ts) t = elim (Bool-cases (is_before before u.effective_at)) [
    | inl counted ↦ rw (counted, net_transactions-append before ts t) (sym (+ℤ_assoc _ _ _))
    | inr later ↦ rw (later, net_transactions-append before ts t)
  ]

  pub ledger_net-append :
      (now organization : ℕ) (intent : Option ℕ) (reference description : String)
      (lines : List LedgerLine) (l : Ledger)
      → ledger_net treasury code asset none
          (append_transaction now organization intent reference description lines l)
        ≡ ledger_net treasury code asset none l +ℤ net_at lines
  unfolding ledger_net append_transaction
  ledger_net-append now organization intent reference description lines l =
      net_transactions-append none l.transactions
        (transaction_of now organization intent reference description lines)
      ∙ ap (λ n. net_transactions treasury code asset none l.transactions +ℤ n)
          (net_entries-map organization lines)

  -- A posting under a reference not yet used adds exactly its lines to every account, as seen with
  -- no bound on the instant.
  pub ledger_net-post_ledger :
      (now organization : ℕ) (intent : Option ℕ) (reference description : String)
      (lines : List LedgerLine) (l : Ledger)
      → IsBalanced lines
      → is_posted organization reference l.transactions ≡ false
      → (l' : Ledger) × (post_ledger now organization intent reference description lines l
          ≡ ok (true, l'))
        × (ledger_net treasury code asset none l'
            ≡ ledger_net treasury code asset none l +ℤ net_at lines)
  ledger_net-post_ledger now organization intent reference description lines l b fresh = (
    append_transaction now organization intent reference description lines l,
    rw (post_ledger_balanced now organization intent reference description lines l b, fresh),
    ledger_net-append now organization intent reference description lines l,
  )
