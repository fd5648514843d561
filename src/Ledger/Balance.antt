-- ===== src/Ledger/Balance.antt =====
-- Postings are balanced: what `postLedger` accepts, refuses and keeps true of the ledger.
use text.Mathlib.TextEquality.{eq_iff}
use ai_neobank.Prelude.{
  ℕ, ◌≡◌, refl, sym, ◌∙◌, inl, inr, Bool, true, false, String, Option, List, [], ◌∷◌, ◌++◌, All,
  if◌then◌else◌, arith, Bool-cases,
}
use ai_neobank.Prelude.Equality.{◌==◌, string_eq, nat_eq, beq_refl}
use ai_neobank.Prelude.Int.{
  ℤ, pos, ◌+ℤ◌, neg, ◌<ℤ◌, int_laws, int_beq_iff, int_eq, +ℤ-zero, zero-+ℤ, +ℤ_assoc,
}
use ai_neobank.Prelude.Failure.{Result, ok, err, Result-cases}
use ai_neobank.Ledger.{
  account_eq, LedgerLine, Ledger, signed, add_net, net_lines, check_nets, is_posted,
  append_transaction, post_ledger,
}

-- The net of one asset over some lines: debits less credits.
abbrev pub net_of : String → List LedgerLine → ℤ
net_of asset [] = pos 0
net_of asset (line ∷ lines) =
    if line.asset_id == asset
    then signed line.direction line.amount +ℤ net_of asset lines
    else net_of asset lines

-- What a posting must satisfy: positive amounts, and debits equal to credits in each asset.
pub record IsBalanced (lines : List LedgerLine) : Type 0 where
  pub positive : All (λ l. pos 0 <ℤ l.amount) lines
  pub nets_to_zero : (asset : String) → net_of asset lines ≡ pos 0

-- A debit and a credit of one amount in one asset cancel.
pub net_of_pair :
    (asset a : String) (n : ℤ)
    → (if a == asset
        then n +ℤ (if a == asset then neg n +ℤ pos 0 else pos 0)
        else (if a == asset then neg n +ℤ pos 0 else pos 0))
      ≡ pos 0
net_of_pair asset a n = elim (Bool-cases (a == asset)) [
  | inl same ↦ rw same (omega int_laws)
  | inr other ↦ rw other
]

net_of-append :
    (asset : String) (xs ys : List LedgerLine)
    → net_of asset (xs ++ ys) ≡ net_of asset xs +ℤ net_of asset ys
net_of-append asset [] ys = sym (zero-+ℤ (net_of asset ys))
net_of-append asset (x ∷ xs) ys = elim (Bool-cases (x.asset_id == asset)) [
  | inl same ↦ rw (same, net_of-append asset xs ys) (sym (+ℤ_assoc _ _ _))
  | inr other ↦ rw (other, net_of-append asset xs ys)
]

All-append {ℓ} :
    {A : Type ℓ} (P : A → Type 0) (xs ys : List A) → All P xs → All P ys → All P (xs ++ ys)
All-append P [] ys h k = k
All-append P (x ∷ xs) ys h k = (h.0, All-append P xs ys h.1 k)

pub IsBalanced-append :
    {xs ys : List LedgerLine} → IsBalanced xs → IsBalanced ys → IsBalanced (xs ++ ys)
IsBalanced-append {xs} {ys} h k = record {
  positive = All-append _ xs ys h.positive k.positive;
  nets_to_zero = λ asset.
      rw (net_of-append asset xs ys, h.nets_to_zero asset, k.nets_to_zero asset) (+ℤ-zero (pos 0));
}

abbrev net_get : String → List (String × ℤ) → ℤ
net_get asset [] = pos 0
net_get asset ((a, n) ∷ nets) = if a == asset then n else net_get asset nets

net_get-add_net :
    (asset a : String) (n : ℤ) (nets : List (String × ℤ))
    → net_get asset (add_net a n nets)
      ≡ (if a == asset then net_get asset nets +ℤ n else net_get asset nets)
unfolding add_net
net_get-add_net asset a n [] = refl
net_get-add_net asset a n ((b, m) ∷ nets) =
    ground (arith, eq_iff a asset, eq_iff b asset, eq_iff b a, net_get-add_net asset a n nets)

net_lines-net :
    (asset : String) (lines : List LedgerLine) (nets out : List (String × ℤ))
    → net_lines lines nets ≡ ok out
    → net_get asset out ≡ net_get asset nets +ℤ net_of asset lines
unfolding net_lines
net_lines-net asset [] nets out h = ground (arith, +ℤ-zero (net_get asset nets))
net_lines-net asset (l ∷ lines) nets out h =
    let n = signed l.direction l.amount in
    ground (
      arith,
      net_lines-net asset lines (add_net l.asset_id n nets) out,
      net_get-add_net asset l.asset_id n nets,
      +ℤ_assoc (net_get asset nets) n (net_of asset lines),
    )

net_lines-positive :
    (lines : List LedgerLine) (nets out : List (String × ℤ))
    → net_lines lines nets ≡ ok out
    → All (λ l. pos 0 <ℤ l.amount) lines
unfolding net_lines
net_lines-positive [] nets out h = tt
net_lines-positive (l ∷ lines) nets out h =
    ground
      (arith, net_lines-positive lines (add_net l.asset_id (signed l.direction l.amount) nets) out)

check_nets-zero :
    (asset : String) (nets : List (String × ℤ))
    → check_nets nets ≡ ok tt
    → net_get asset nets ≡ pos 0
unfolding check_nets
check_nets-zero asset [] h = refl
check_nets-zero asset ((a, n) ∷ nets) h =
    ground (arith, int_beq_iff n (pos 0), check_nets-zero asset nets)

-- Keys stay distinct, so the net that is looked up is the only one of its asset.
abbrev has : String → List (String × ℤ) → Bool
has a [] = false
has a ((b, _) ∷ nets) = if b == a then true else has a nets

abbrev Keyed : List (String × ℤ) → Type 0
Keyed [] = Unit
Keyed ((a, _) ∷ nets) = (has a nets ≡ false) × Keyed nets

has-add_net :
    (b a : String) (n : ℤ) (nets : List (String × ℤ))
    → has b (add_net a n nets) ≡ (if a == b then true else has b nets)
unfolding add_net
has-add_net b a n [] = refl
has-add_net b a n ((c, m) ∷ nets) =
    ground (arith, eq_iff a b, eq_iff c b, eq_iff c a, has-add_net b a n nets)

add_net-Keyed :
    (a : String) (n : ℤ) (nets : List (String × ℤ)) → Keyed nets → Keyed (add_net a n nets)
unfolding add_net
add_net-Keyed a n [] h = (refl, tt)
add_net-Keyed a n ((c, m) ∷ nets) h =
    ground (arith, eq_iff c a, eq_iff a c, has-add_net c a n nets, add_net-Keyed a n nets h.1)

check_nets_of_zero :
    (nets : List (String × ℤ))
    → Keyed nets
    → ((asset : String) → net_get asset nets ≡ pos 0)
    → check_nets nets ≡ ok tt
unfolding check_nets
check_nets_of_zero [] k h = refl
check_nets_of_zero ((a, n) ∷ nets) k h = ground (
  arith,
  int_beq_iff n (pos 0),
  h a,
  beq_refl a,
  check_nets_of_zero nets k.1
      (λ asset. ground (arith, h asset, h a, eq_iff a asset, net_get_missing asset nets)),
)
  where
    net_get_missing :
        (a : String) (nets : List (String × ℤ)) → has a nets ≡ false → net_get a nets ≡ pos 0
    net_get_missing a [] h = refl
    net_get_missing a ((b, m) ∷ nets) h = ground (arith, net_get_missing a nets)

-- Positive lines always net, to some table with distinct keys.
net_lines-total :
    (lines : List LedgerLine) (nets : List (String × ℤ))
    → All (λ l. pos 0 <ℤ l.amount) lines
    → Keyed nets
    → (out : List (String × ℤ)) × (net_lines lines nets ≡ ok out) × Keyed out
unfolding net_lines
net_lines-total [] nets p k = (nets, refl, k)
net_lines-total (l ∷ lines) nets p k =
    let n = signed l.direction l.amount in
    let (out, e, kept) =
      net_lines-total lines (add_net l.asset_id n nets) p.1 (add_net-Keyed l.asset_id n nets k) in
    (out, ground arith, kept)

net_lines-IsBalanced :
    (lines : List LedgerLine) (out : List (String × ℤ))
    → net_lines lines [] ≡ ok out
    → check_nets out ≡ ok tt
    → IsBalanced lines
net_lines-IsBalanced lines out e c = record {
  positive = net_lines-positive lines [] out e;
  nets_to_zero = λ asset.
      sym (zero-+ℤ (net_of asset lines))
      ∙ sym (net_lines-net asset lines [] out e)
      ∙ check_nets-zero asset out c;
}

IsBalanced-net_lines :
    (lines : List LedgerLine)
    → IsBalanced lines
    → (out : List (String × ℤ)) × (net_lines lines [] ≡ ok out) × (check_nets out ≡ ok tt)
IsBalanced-net_lines lines b =
    let (out, e, keyed) = net_lines-total lines [] b.positive tt in
    (
      out,
      e,
      check_nets_of_zero out keyed (λ asset.
          net_lines-net asset lines [] out e ∙ zero-+ℤ (net_of asset lines) ∙ b.nets_to_zero asset),
    )

module _ (now organization : ℕ) (intent : Option ℕ) (reference description : String) where
  -- What a call of `postLedger` did, by how it ended.
  abbrev pub Posting : List LedgerLine → Ledger → Result (Bool × Ledger) → Type 0
  Posting lines l (ok (true, l')) =
      IsBalanced lines
      × (is_posted organization reference l.transactions ≡ false)
      × (l' ≡ append_transaction now organization intent reference description lines l)
  Posting lines l (ok (false, l')) =
      IsBalanced lines × (is_posted organization reference l.transactions ≡ true) × (l' ≡ l)
  Posting lines l (err _) = ¬ IsBalanced lines

  -- `postLedger` throws exactly for lines that are not balanced; balanced lines are booked once, as
  -- one new transaction, and where the organisation has used the reference nothing changes.
  pub post_ledger-Posting :
      (lines : List LedgerLine) (l : Ledger)
      → Posting lines l (post_ledger now organization intent reference description lines l)
  unfolding post_ledger
  post_ledger-Posting lines l = elim (Result-cases (net_lines lines [])) [
    | inr (e, thrown) ↦ rw thrown (λ b. cc (thrown, (IsBalanced-net_lines lines b).1))
    | inl (nets, netted) ↦ elim (Result-cases (check_nets nets)) [
      | inr (e, thrown) ↦
          rw (netted, thrown)
            (λ b.
              let (out, same, zero) = IsBalanced-net_lines lines b in
              cc (thrown, netted, same, zero))
      | inl (tt, passed) ↦
          let balanced = net_lines-IsBalanced lines nets netted passed in
          rw (netted, passed)
            (elim (Bool-cases (is_posted organization reference l.transactions)) [
              | inl known ↦ rw known (balanced, known, refl)
              | inr fresh ↦ rw fresh (balanced, fresh, refl)
            ])
    ]
  ]

  -- The same as an equation, for balanced lines.
  pub post_ledger_balanced :
      (lines : List LedgerLine) (l : Ledger)
      → IsBalanced lines
      → post_ledger now organization intent reference description lines l ≡ (
          if is_posted organization reference l.transactions
          then ok (false, l)
          else ok (true, append_transaction now organization intent reference description lines l))
  unfolding post_ledger
  post_ledger_balanced lines l b =
      let (out, netted, passed) = IsBalanced-net_lines lines b in
      rw (netted, passed)
        (elim (Bool-cases (is_posted organization reference l.transactions)) [
          | inl known ↦ rw known
          | inr fresh ↦ rw fresh
        ])
