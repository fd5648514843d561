-- ===== src/Reconcile/Opening.antt =====
-- packages/database/src/operations.ts: what opening a cursor and a reconciliation do to the books.
use mathlib.Core.Option.{some-ne-none}
use ai_neobank.Prelude.{
  ℕ, ◌≡◌, refl, sym, ap, ◌≢◌, ◌⊎◌, inl, inr, Bool, true, false, String, none, some, List, [], ◌∷◌,
  ◌++◌, if◌then◌else◌, arith, Bool-cases,
}
use ai_neobank.Prelude.Equality.{◌==◌, nat_eq, string_eq, beq_refl}
use ai_neobank.Prelude.Int.{
  ℤ, pos, ◌+ℤ◌, ◌-ℤ◌, neg, ltb_ℤ, ◌<ℤ◌, int_laws, int_eq, +ℤ-zero, int_beq_iff, pos_part, neg_part,
}
use ai_neobank.Prelude.Failure.{Result, ok, err}
use ai_neobank.Ledger.{
  debit, credit, signed, treasury_asset, pending_outbound, Ledger, append_transaction, is_posted,
}
use ai_neobank.Ledger.Balance.{IsBalanced, post_ledger_balanced, net_of_pair}
use ai_neobank.Ledger.Net.{net_at, ledger_net-append}
use ai_neobank.Reconcile.{
  Books, Cursor, ReconciliationStatus, matched, break, with_cursor, is_cursor_of,
  ReconciliationRecord, opening_lines, opening_reference, net, pending, opening, magnitude,
  book_opening, open_cursor, get_cursor, record_reconciliation, line,
}

net_of_reversed :
    (asset a : String) (n : ℤ)
    → (if a == asset
        then neg n +ℤ (if a == asset then n +ℤ pos 0 else pos 0)
        else (if a == asset then n +ℤ pos 0 else pos 0))
      ≡ pos 0
net_of_reversed asset a n = elim (Bool-cases (a == asset)) [
  | inl same ↦ rw same (omega int_laws)
  | inr other ↦ rw other
]

line-IsBalanced :
    (treasury : ℕ) (asset : String) (positive : Bool) (n : ℤ)
    → pos 0 <ℤ n
    → IsBalanced (line treasury asset positive n)
line-IsBalanced treasury asset true n h = record {
  positive = (h, (h, tt));
  nets_to_zero = λ a. net_of_pair a asset n;
}
line-IsBalanced treasury asset false n h = record {
  positive = (h, (h, tt));
  nets_to_zero = λ a. net_of_reversed a asset n;
}

magnitude-positive : (n : ℤ) → (n == pos 0) ≡ false → pos 0 <ℤ magnitude n
unfolding neg
magnitude-positive n h = ground arith

signed-magnitude :
    (n : ℤ)
    → (n == pos 0) ≡ false
    → signed (if ltb_ℤ (pos 0) n then debit else credit) (magnitude n) ≡ n
unfolding neg
signed-magnitude n h = ground arith

net_at-opening_lines :
    (treasury : ℕ) (asset : String) (n : ℤ)
    → (n == pos 0) ≡ false
    → net_at treasury treasury_asset asset (opening_lines treasury asset n) ≡ n
net_at-opening_lines treasury asset n h =
    rw (beq_refl treasury, beq_refl asset, signed-magnitude n h) (+ℤ-zero n)

net_at-pending :
    (treasury : ℕ) (asset : String) (n : ℤ)
    → net_at treasury pending_outbound asset (opening_lines treasury asset n) ≡ pos 0
net_at-pending treasury asset n = rw (beq_refl treasury)

book_opening_lem :
    (now organization treasury : ℕ) (asset : String) (n : ℤ) (b : Books)
    → (n == pos 0) ≡ false
    → is_posted organization (opening_reference treasury asset) b.ledger.transactions ≡ false
    → book_opening now organization treasury asset n b
      ≡ ok (
        true,
        record b {
          ledger =
              append_transaction now organization none
                (opening_reference treasury asset)
                "Opening balance observed on chain"
                (opening_lines treasury asset n)
                b.ledger;
        },
      )
unfolding book_opening
book_opening_lem now organization treasury asset n b h fresh = rw (
  h,
  post_ledger_balanced now organization none (opening_reference treasury asset)
      "Opening balance observed on chain" (opening_lines treasury asset n) b.ledger
      (line-IsBalanced treasury asset (ltb_ℤ (pos 0) n) (magnitude n) (magnitude-positive n h)),
  fresh,
)

get_cursor-append :
    (treasury : ℕ) (asset cursor : String) (cs : List Cursor)
    → get_cursor treasury asset cs ≡ none
    → get_cursor treasury asset
        (cs ++ record { treasury_id = treasury; asset_id = asset; cursor = cursor } ∷ [])
      ≡ some cursor
unfolding get_cursor
get_cursor-append treasury asset cursor [] h = rw (beq_refl treasury, beq_refl asset)
get_cursor-append treasury asset cursor (c ∷ cs) h =
    elim (Bool-cases (is_cursor_of treasury asset c)) [
      | inl ours ↦ absurd (some-ne-none c.cursor (rw ours at h))
      | inr theirs ↦ rw theirs (get_cursor-append treasury asset cursor cs (rw theirs at h))
    ]

difference-zero : (a b : ℤ) → a -ℤ b ≡ pos 0 → b ≡ a
difference-zero a b h = omega (int_laws, ap pos_part h, ap neg_part h)

module _ (now organization treasury : ℕ) (asset cursor : String) (chain : ℤ) where
  -- The cursor stands, the ledger explains the balance on chain, and opening again does nothing.
  pub record IsOpened (b : Books) : Type 0 where
    pub stands : get_cursor treasury asset b.cursors ≡ some cursor
    pub agrees : net treasury asset b.ledger +ℤ pending treasury asset b.ledger ≡ chain
    pub settled :
        (later : ℕ) (other : String) (observed : ℤ)
        → open_cursor later organization treasury asset other observed b ≡ ok (false, b)

  IsOpened-of :
      (b : Books)
      → get_cursor treasury asset b.cursors ≡ some cursor
      → net treasury asset b.ledger +ℤ pending treasury asset b.ledger ≡ chain
      → IsOpened b
  unfolding open_cursor
  IsOpened-of b stands agrees = record {
    stands = stands;
    agrees = agrees;
    settled = λ later other observed. rw stands;
  }

  gap_closed : (l p : ℤ) → l +ℤ (chain -ℤ (l +ℤ p)) +ℤ p ≡ chain
  gap_closed l p = omega int_laws

  no_gap : (l p : ℤ) → (chain -ℤ (l +ℤ p) == pos 0) ≡ true → l +ℤ p ≡ chain
  no_gap l p h = difference-zero chain (l +ℤ p) ((int_beq_iff (chain -ℤ (l +ℤ p)) (pos 0)).0 h)

  booked_agrees :
      (l : Ledger)
      → (opening treasury asset chain l == pos 0) ≡ false
      → let l' =
          append_transaction now organization none
            (opening_reference treasury asset)
            "Opening balance observed on chain"
            (opening_lines treasury asset (opening treasury asset chain l))
            l in
        net treasury asset l' +ℤ pending treasury asset l' ≡ chain
  booked_agrees l h =
      let gap = opening treasury asset chain l in
      rw
        (
          ledger_net-append treasury treasury_asset asset now organization none
              (opening_reference treasury asset) "Opening balance observed on chain"
              (opening_lines treasury asset gap) l,
          ledger_net-append treasury pending_outbound asset now organization none
              (opening_reference treasury asset) "Opening balance observed on chain"
              (opening_lines treasury asset gap) l,
          net_at-opening_lines treasury asset gap h,
          net_at-pending treasury asset gap,
          +ℤ-zero (pending treasury asset l),
        )
        (gap_closed (net treasury asset l) (pending treasury asset l))

  -- Opening the cursor of a treasury's asset for the first time sets the cursor, books an opening
  -- balance after which the ledger with the transfers under way equals the balance on chain, and
  -- any later opening of it changes nothing.
  pub open_cursor-IsOpened :
      (b : Books)
      → get_cursor treasury asset b.cursors ≡ none
      → is_posted organization (opening_reference treasury asset) b.ledger.transactions ≡ false
      → (q : Books) × (open_cursor now organization treasury asset cursor chain b ≡ ok (true, q))
        × IsOpened q
  unfolding open_cursor
  open_cursor-IsOpened b first fresh =
      let stands = get_cursor-append treasury asset cursor b.cursors first in
      elim (Bool-cases (opening treasury asset chain b.ledger == pos 0)) [
        | inl none_left ↦ (
          with_cursor treasury asset cursor b,
          rw first (unfold book_opening in rw none_left),
          IsOpened-of (with_cursor treasury asset cursor b) stands (no_gap _ _ none_left),
        )
        | inr gap ↦ (
          record (with_cursor treasury asset cursor b) {
            ledger =
                append_transaction now organization none (opening_reference treasury asset)
                  "Opening balance observed on chain"
                  (opening_lines treasury asset (opening treasury asset chain b.ledger)) b.ledger;
          },
          rw first (book_opening_lem now organization treasury asset _ _ gap fresh),
          IsOpened-of _ stands (booked_agrees b.ledger gap),
        )
      ]

-- The run of a comparison, with a given status.
abbrev pub run_of : ℕ → String → ℤ → Books → ReconciliationStatus → ReconciliationRecord
run_of treasury asset chain b status = record {
  treasury_account_id = treasury;
  asset_id = asset;
  chain_balance = chain;
  ledger_balance = net treasury asset b.ledger;
  pending_outbound = pending treasury asset b.ledger;
  difference = chain -ℤ net treasury asset b.ledger;
  status = status;
}

-- Balances that agree give a match; balances that differ while nothing is pending give a break,
-- which is noted too; and balances that differ while something is pending give an error.
abbrev pub Reconciled : ℕ → String → ℤ → Books → Result (ReconciliationRecord × Books) → Type 0
Reconciled treasury asset chain b (ok (run, q)) =
    ((chain ≡ net treasury asset b.ledger)
      × (run ≡ run_of treasury asset chain b matched)
      × (q ≡ record b { runs = b.runs ++ run ∷ [] }))
    ⊎ ((chain ≢ net treasury asset b.ledger)
        × (pending treasury asset b.ledger ≡ pos 0)
        × (run ≡ run_of treasury asset chain b break)
        × (q ≡ record b { runs = b.runs ++ run ∷ []; breaks = b.breaks ++ (treasury, asset) ∷ [] }))
Reconciled treasury asset chain b (err e) =
    (chain ≢ net treasury asset b.ledger) × (pending treasury asset b.ledger ≢ pos 0)

int_beq_false : (a b : ℤ) → (a == b) ≡ false → a ≢ b
int_beq_false a b h e = ground (arith, h, (int_beq_iff a b).1 e)

zero_difference : (a b : ℤ) → (a -ℤ b == pos 0) ≡ true → a ≡ b
zero_difference a b h = sym (difference-zero a b ((int_beq_iff (a -ℤ b) (pos 0)).0 h))

no_difference : (a b : ℤ) → a ≡ b → a -ℤ b ≡ pos 0
no_difference a b e = rw e (omega int_laws)

-- A reconciliation whose balances agree is stored as matched. One whose balances differ is stored
-- as a break, and noted among the breaks, if no outbound transfer is pending; while one is pending,
-- the insert fails. What is stored has both balances, the pending amount and the difference.
pub record_reconciliation-Reconciled :
    (treasury : ℕ) (asset : String) (chain : ℤ) (b : Books)
    → Reconciled treasury asset chain b (record_reconciliation treasury asset chain b)
unfolding record_reconciliation
record_reconciliation-Reconciled treasury asset chain b =
    elim (Bool-cases (chain -ℤ net treasury asset b.ledger == pos 0)) [
      | inl same ↦ rw same (inl (zero_difference chain _ same, refl, refl))
      | inr differ ↦
          let unlike : chain ≢ net treasury asset b.ledger =
            λ e. int_beq_false _ _ differ (no_difference chain _ e) in
          rw differ (elim (Bool-cases (pending treasury asset b.ledger == pos 0)) [
            | inl still ↦ rw still (inr (unlike, (int_beq_iff _ _).0 still, refl, refl))
            | inr under_way ↦ rw under_way (unlike, int_beq_false _ _ under_way)
          ])
    ]
