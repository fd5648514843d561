-- ===== src/Ledger/Sound.antt =====
-- The ledger between postings: the invariant that `postLedger` keeps, and what follows from it.
use text.Mathlib.TextEquality.{eq_iff}
use ai_neobank.Prelude.{
  ℕ, ◌≡◌, refl, ◌∙◌, Bool, true, false, ◌&&◌, ◌||◌, String, Option, List, [], ◌∷◌, ◌++◌, map,
  includes, All, if◌then◌else◌, arith, any-append, All-mono, All-append_one,
}
use ai_neobank.Prelude.Equality.{◌==◌, string_eq, nat_eq, beq_refl}
use ai_neobank.Prelude.Int.{ℤ, pos, ◌+ℤ◌, ◌<ℤ◌, zero-+ℤ}
use ai_neobank.Prelude.Failure.{ok}
use ai_neobank.Ledger.{
  Account, account_eq, account_beq_refl, LedgerLine, Entry, Transaction, Ledger, signed, entry_of,
  account_of, is_posted, transaction_of, append_transaction, post_ledger, upsert_account,
  upsert_accounts,
}
use ai_neobank.Ledger.Balance.{
  net_of, IsBalanced, Posting, post_ledger-Posting, post_ledger_balanced,
}

-- The net of one asset over some entries.
abbrev pub entries_net : String → List Entry → ℤ
entries_net asset [] = pos 0
entries_net asset (e ∷ es) =
    if e.account.asset_id == asset
    then signed e.direction e.amount +ℤ entries_net asset es
    else entries_net asset es

-- One booked transaction: positive entries, debits equal to credits in each asset, and every
-- account registered under the organisation of the transaction.
pub record IsSoundTransaction (accounts : List Account) (t : Transaction) : Type 0 where
  pub positive : All (λ e. pos 0 <ℤ e.amount) t.entries
  pub nets_to_zero : (asset : String) → entries_net asset t.entries ≡ pos 0
  pub registered : All (λ e. includes accounts e.account ≡ true) t.entries
  pub same_organization : All (λ e. e.account.organization_id ≡ t.organization_id) t.entries

-- No organisation has used a reference twice.
abbrev pub Unrepeated : List Transaction → Type 0
Unrepeated [] = Unit
Unrepeated (t ∷ ts) = (is_posted t.organization_id t.external_reference ts ≡ false) × Unrepeated ts

pub record IsSound (l : Ledger) : Type 0 where
  pub transactions_sound : All (IsSoundTransaction l.accounts) l.transactions
  pub unrepeated : Unrepeated l.transactions

entries_net-map :
    (organization : ℕ) (asset : String) (lines : List LedgerLine)
    → entries_net asset (map (entry_of organization) lines) ≡ net_of asset lines
entries_net-map organization asset [] = refl
entries_net-map organization asset (l ∷ lines) =
    ground (arith, entries_net-map organization asset lines)

positive-map :
    (organization : ℕ) (lines : List LedgerLine)
    → All (λ l. pos 0 <ℤ l.amount) lines
    → All (λ e. pos 0 <ℤ e.amount) (map (entry_of organization) lines)
positive-map organization [] h = tt
positive-map organization (l ∷ lines) h = (h.0, positive-map organization lines h.1)

same_organization-map :
    (organization : ℕ) (lines : List LedgerLine)
    → All (λ e. e.account.organization_id ≡ organization) (map (entry_of organization) lines)
same_organization-map organization [] = tt
same_organization-map organization (l ∷ lines) = (refl, same_organization-map organization lines)

-- Accounts are only added.
upsert_account-keeps :
    (a key : Account) (xs : List Account)
    → includes xs a ≡ true
    → includes (upsert_account key xs) a ≡ true
unfolding upsert_account
upsert_account-keeps a key xs h = ground (arith, any-append (λ x. x == a) xs (key ∷ []))

upsert_account-adds :
    (key : Account) (xs : List Account) → includes (upsert_account key xs) key ≡ true
unfolding upsert_account
upsert_account-adds key xs =
    ground (arith, any-append (λ x. x == key) xs (key ∷ []), account_beq_refl key)

upsert_accounts-keeps :
    (organization : ℕ) (a : Account) (lines : List LedgerLine) (xs : List Account)
    → includes xs a ≡ true
    → includes (upsert_accounts organization lines xs) a ≡ true
unfolding upsert_accounts
upsert_accounts-keeps organization a [] xs h = h
upsert_accounts-keeps organization a (l ∷ lines) xs h =
    upsert_accounts-keeps organization a lines (upsert_account (account_of organization l) xs)
      (upsert_account-keeps a (account_of organization l) xs h)

upsert_accounts-adds :
    (organization : ℕ) (lines : List LedgerLine) (xs : List Account)
    → All
        (λ e. includes (upsert_accounts organization lines xs) e.account ≡ true)
        (map (entry_of organization) lines)
unfolding upsert_accounts
upsert_accounts-adds organization [] xs = tt
upsert_accounts-adds organization (l ∷ lines) xs = (
  upsert_accounts-keeps organization (account_of organization l) lines
      (upsert_account (account_of organization l) xs)
      (upsert_account-adds (account_of organization l) xs),
  upsert_accounts-adds organization lines (upsert_account (account_of organization l) xs),
)

is_posted-append :
    (organization : ℕ) (reference : String) (ts : List Transaction) (t : Transaction)
    → is_posted organization reference (ts ++ t ∷ []) ≡ (
        is_posted organization reference ts
        || (t.organization_id == organization && t.external_reference == reference))
unfolding is_posted
is_posted-append organization reference [] t = ground arith
is_posted-append organization reference (u ∷ ts) t =
    ground (arith, is_posted-append organization reference ts t)

Unrepeated-append :
    (ts : List Transaction) (t : Transaction)
    → Unrepeated ts
    → is_posted t.organization_id t.external_reference ts ≡ false
    → Unrepeated (ts ++ t ∷ [])
unfolding is_posted
Unrepeated-append [] t u h = (refl, tt)
Unrepeated-append (x ∷ ts) t u h = ground (
  arith,
  is_posted-append x.organization_id x.external_reference ts t,
  eq_iff x.external_reference t.external_reference,
  eq_iff t.external_reference x.external_reference,
  Unrepeated-append ts t u.1,
)

IsSoundTransaction-keeps :
    (old new : List Account)
    → ((a : Account) → includes old a ≡ true → includes new a ≡ true)
    → (t : Transaction) → IsSoundTransaction old t
    → IsSoundTransaction new t
IsSoundTransaction-keeps old new keeps t s = record {
  positive = s.positive;
  nets_to_zero = s.nets_to_zero;
  registered = All-mono _ _ (λ e. keeps e.account) t.entries s.registered;
  same_organization = s.same_organization;
}

append_transaction-IsSound :
    (now organization : ℕ) (intent : Option ℕ) (reference description : String)
    (lines : List LedgerLine) (l : Ledger)
    → IsSound l
    → IsBalanced lines
    → is_posted organization reference l.transactions ≡ false
    → IsSound (append_transaction now organization intent reference description lines l)
unfolding append_transaction
append_transaction-IsSound now organization intent reference description lines l s b fresh =
    record {
      transactions_sound =
          All-append_one _ l.transactions _
            (All-mono _ _
              (IsSoundTransaction-keeps l.accounts _
                (λ a. upsert_accounts-keeps organization a lines l.accounts))
              l.transactions s.transactions_sound)
            (record {
              positive = positive-map organization lines b.positive;
              nets_to_zero =
                  λ asset. entries_net-map organization asset lines ∙ b.nets_to_zero asset;
              registered = upsert_accounts-adds organization lines l.accounts;
              same_organization = same_organization-map organization lines;
            });
      unrepeated = Unrepeated-append l.transactions _ s.unrepeated fresh;
    }

Posting-IsSound :
    (now organization : ℕ) (intent : Option ℕ) (reference description : String)
    (lines : List LedgerLine) (l l' : Ledger) (posted : Bool)
    → IsSound l
    → Posting now organization intent reference description lines l (ok (posted, l'))
    → IsSound l'
Posting-IsSound now organization intent reference description lines l l' true s p =
    rw p.2
      (append_transaction-IsSound now organization intent reference description lines l s p.0 p.1)
Posting-IsSound now organization intent reference description lines l l' false s p = rw p.2 s

-- A posting that returns keeps the ledger sound: every transaction in it is balanced in each asset
-- and has positive amounts on registered accounts of its organisation, and no organisation has
-- used a reference twice.
pub post_ledger-IsSound :
    (now organization : ℕ) (intent : Option ℕ) (reference description : String)
    (lines : List LedgerLine) (l l' : Ledger) (posted : Bool)
    → IsSound l
    → post_ledger now organization intent reference description lines l ≡ ok (posted, l')
    → IsSound l'
post_ledger-IsSound now organization intent reference description lines l l' posted s e =
    Posting-IsSound now organization intent reference description lines l l' posted s
      (rw e at (post_ledger-Posting now organization intent reference description lines l))

Posting-is_posted :
    (now organization : ℕ) (intent : Option ℕ) (reference description : String)
    (lines : List LedgerLine) (l l' : Ledger) (posted : Bool)
    → Posting now organization intent reference description lines l (ok (posted, l'))
    → is_posted organization reference l'.transactions ≡ true
unfolding append_transaction
Posting-is_posted now organization intent reference description lines l l' true p = rw p.2 (
    rw (
      is_posted-append organization reference l.transactions
          (transaction_of now organization intent reference description lines),
      beq_refl organization,
      beq_refl reference,
      p.1,
    ))
Posting-is_posted now organization intent reference description lines l l' false p = rw p.2 p.1

-- Repeating a call changes nothing, whatever its amounts are the second time.
pub post_ledger_twice :
    (now later organization : ℕ) (intent again : Option ℕ) (reference description retold : String)
    (lines lines' : List LedgerLine) (l l' : Ledger) (posted : Bool)
    → post_ledger now organization intent reference description lines l ≡ ok (posted, l')
    → IsBalanced lines'
    → post_ledger later organization again reference retold lines' l' ≡ ok (false, l')
post_ledger_twice now later organization intent again reference description retold lines lines' l l'
      posted e b =
    rw (
      post_ledger_balanced later organization again reference retold lines' l' b,
      Posting-is_posted now organization intent reference description lines l l' posted
          (rw e at (post_ledger-Posting now organization intent reference description lines l)),
    )

-- The trial balance of an asset over the whole ledger.
unfoldable pub trial_balance : String → List Transaction → ℤ
trial_balance asset [] = pos 0
trial_balance asset (t ∷ ts) = entries_net asset t.entries +ℤ trial_balance asset ts

-- In a sound ledger the debits equal the credits of every asset.
pub trial_balance_zero :
    (asset : String) (accounts : List Account) (ts : List Transaction)
    → All (IsSoundTransaction accounts) ts
    → trial_balance asset ts ≡ pos 0
unfolding trial_balance
trial_balance_zero asset accounts [] h = refl
trial_balance_zero asset accounts (t ∷ ts) h =
    rw (h.0.nets_to_zero asset)
      (zero-+ℤ (trial_balance asset ts) ∙ trial_balance_zero asset accounts ts h.1)
