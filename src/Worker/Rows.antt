-- ===== src/Worker/Rows.antt =====
-- packages/database/src/jobs.ts: what the worker's transactions do to the execution row.
use ai_neobank.Prelude.{
  ℕ, ◌≡◌, refl, ◌⊎◌, inl, inr, Bool, true, false, not, String, Option, none, some, List, [], ◌∷◌,
  if◌then◌else◌, includes, Bool-cases, ◌&&◌, arith,
}
use ai_neobank.Prelude.Equality.{◌==◌, nat_eq}
use ai_neobank.Prelude.Failure.{Result, ok, err, Tx, ◌>>◌, done}
use ai_neobank.Domain.{IntentStatus, status_eq}
use ai_neobank.Ledger.{Ledger, LedgerLine}
use ai_neobank.Payment.Rows.{Payment, Execution, Intent, Topic}
use ai_neobank.Payment.Changes.{post, keep_ledger, audit, enqueue_at}
use ai_neobank.Payment.Settle.{
  Settlement, is_in_flight, is_submitted, submit_with, submit_execution, hashed, mark_submitted,
  FailureFee, failed_row, ended, booked_amount, fail_execution, post_if_any, reverse, book_fee,
  mark_failed, ConfirmationContext, Receipt, finalize_execution, settle_outcome, book_finality,
  settle_if_submitted, mark_finalized, is_matched,
}
use ai_neobank.Worker.{is_open}

abbrev pub payload_of : Option Execution → Option String
payload_of none = none
payload_of (some e) = e.signed_payload

abbrev pub is_live : Option Execution → Bool
is_live none = true
is_live (some e) = is_open e.status

-- The row is left as it is, or it is closed with the bytes it had.
abbrev pub Closes : Option Execution → Option Execution → Type 0
Closes e e' = (e' ≡ e) ⊎ ((payload_of e' ≡ payload_of e) × (is_live e' ≡ false))

-- A transaction at most closes the row that it began with.
abbrev pub AtMostCloses : {A : Type 0} → Option Execution → Result (A × Payment) → Type 0
AtMostCloses e (ok (_, q)) = Closes e q.execution
AtMostCloses e (err x) = Unit

module _ (e : Option Execution) where
  then-AtMostCloses :
      {A B : Type 0} (m : Tx Payment A) (k : Tx Payment B) (p : Payment)
      → AtMostCloses e (m p)
      → ((q : Payment) → Closes e q.execution → AtMostCloses e (k q))
      → AtMostCloses e ((m >> k) p)
  then-AtMostCloses m k p h next = after_result (m p) k h next
    where
      after_result :
          {A B : Type 0} (r : Result (A × Payment)) (k : Tx Payment B)
          → AtMostCloses e r
          → ((q : Payment) → Closes e q.execution → AtMostCloses e (k q))
          → AtMostCloses e (((λ _. r) >> k) p)
      after_result (ok (a, q)) k h next = next q h
      after_result (err x) k h next = tt

  if-AtMostCloses :
      {A : Type 0} (b : Bool) (r s : Result (A × Payment))
      → AtMostCloses e r
      → AtMostCloses e s
      → AtMostCloses e (if b then r else s)
  if-AtMostCloses true r s h k = h
  if-AtMostCloses false r s h k = k

  choose-AtMostCloses :
      (b : Bool) (m k : Tx Payment (Unit {0})) (p : Payment)
      → AtMostCloses e (m p)
      → AtMostCloses e (k p)
      → AtMostCloses e ((if b then m else k) p)
  choose-AtMostCloses true m k p h l = h
  choose-AtMostCloses false m k p h l = l

  posted-AtMostCloses :
      (p : Payment) (r : Result (Bool × Ledger))
      → Closes e p.execution
      → AtMostCloses e (keep_ledger p r)
  posted-AtMostCloses p (ok (b, l)) c = c
  posted-AtMostCloses p (err x) c = tt

  post-AtMostCloses :
      (now : ℕ) (reference description : String) (lines : List LedgerLine) (p : Payment)
      → Closes e p.execution
      → AtMostCloses e (post now reference description lines p)
  unfolding post
  post-AtMostCloses now reference description lines p c = posted-AtMostCloses p _ c

  post_if_any-AtMostCloses :
      (now : ℕ) (reference description : String) (lines : List LedgerLine) (p : Payment)
      → Closes e p.execution
      → AtMostCloses e (post_if_any now reference description lines p)
  post_if_any-AtMostCloses now reference description [] p c = c
  post_if_any-AtMostCloses now reference description (l ∷ lines) p c =
      post-AtMostCloses now reference description (l ∷ lines) p c

  reverse-AtMostCloses :
      (now : ℕ) (reason : String) (amount : ℕ) (i : Intent) (h : Option (Execution × String))
      (p : Payment)
      → Closes e p.execution
      → AtMostCloses e (reverse now reason amount i h p)
  reverse-AtMostCloses now reason amount i none p c = c
  reverse-AtMostCloses now reason amount i (some (x, hash)) p c = post-AtMostCloses now _ _ _ p c

  book_fee-AtMostCloses :
      (now : ℕ) (q : Payment) (fee : Option FailureFee) (p : Payment)
      → Closes e p.execution
      → AtMostCloses e (book_fee now q fee p)
  book_fee-AtMostCloses now q none p c = c
  book_fee-AtMostCloses now q (some fee) p c = post_if_any-AtMostCloses now _ _ _ p c

fail_execution-Closes :
    (reason : String) (e : Option Execution) → Closes e (fail_execution reason e)
fail_execution-Closes reason none = inl refl
fail_execution-Closes reason (some e) = inr (refl, refl)

-- `markFailed`
pub mark_failed-AtMostCloses :
    (now : ℕ) (reason : String) (fee : Option FailureFee) (p : Payment)
    → AtMostCloses p.execution (mark_failed now reason fee p)
unfolding mark_failed
mark_failed-AtMostCloses now reason fee p =
    if-AtMostCloses p.execution (includes ended p.intent.status) _ _ (inl refl) (
      then-AtMostCloses p.execution
        (if p.intent.status == IntentStatus.submitted
          then reverse now reason (booked_amount p.execution p.intent) p.intent
              (hashed (fail_execution reason p.execution))
          else done)
        (book_fee now p fee >> audit none "intent.failed") (failed_row reason p)
        (choose-AtMostCloses p.execution (p.intent.status == IntentStatus.submitted) _ _
          (failed_row reason p)
          (reverse-AtMostCloses p.execution now reason _ p.intent _ (failed_row reason p)
            (fail_execution-Closes reason p.execution))
          (fail_execution-Closes reason p.execution))
        (λ q c.
          then-AtMostCloses p.execution (book_fee now p fee) (audit none "intent.failed") q
            (book_fee-AtMostCloses p.execution now p fee q c) (λ r d. d)))

hashed-Closes :
    (e : Execution) (h : Option (Execution × String))
    → ((x : Execution) (hash : String) → h ≡ some (x, hash) → Closes (some e) (some x))
    → (now : ℕ) (settlement : Option Settlement) (p : Payment)
    → AtMostCloses (some e) (submit_with now settlement h p)
hashed-Closes e none c now settlement p = tt
hashed-Closes e (some (x, hash)) c now settlement p =
    elim (Bool-cases (not (p.intent.status == IntentStatus.executing))) [
      | inl other ↦ rw other tt
      | inr running ↦ rw running (
          then-AtMostCloses (some e) (post now _ _ _) (enqueue_at now Topic.transaction_confirm) _
            (post-AtMostCloses (some e) now _ _ _ _ (c x hash refl)) (λ q d. d))
    ]

hashed-some : (e x : Execution) (hash : String) → hashed (some e) ≡ some (x, hash) → x ≡ e
hashed-some e x hash h = ground (arith, h)

hashed_row-Closes :
    (e x : Execution)
    → Closes (some e) (some x)
    → (now : ℕ) (settlement : Option Settlement) (p : Payment)
    → AtMostCloses (some e) (submit_with now settlement (hashed (some x)) p)
hashed_row-Closes e x c now settlement p =
    hashed-Closes e (hashed (some x)) (λ y hash h. rw (hashed-some x y hash h) c) now settlement p

submit_execution-Closes :
    (now id : ℕ) (settlement : Option Settlement) (e : Option Execution) (p : Payment)
    → AtMostCloses e (submit_with now settlement (hashed (submit_execution now id settlement e)) p)
submit_execution-Closes now id settlement none p = tt
submit_execution-Closes now id settlement (some e) p =
    elim (Bool-cases (e.id == id && is_in_flight e.status)) [
      | inl ours ↦ rw ours (hashed_row-Closes e _ (inr (refl, refl)) now settlement p)
      | inr other ↦ rw other tt
    ]

-- `markSubmitted`
pub mark_submitted-AtMostCloses :
    (now id : ℕ) (settlement : Option Settlement) (p : Payment)
    → AtMostCloses p.execution (mark_submitted now id settlement p)
unfolding mark_submitted
mark_submitted-AtMostCloses now id settlement p =
    submit_execution-Closes now id settlement p.execution p

finalize_execution-Closes :
    (c : ConfirmationContext) (r : Receipt) (e : Option Execution)
    → Closes e (finalize_execution c r e)
finalize_execution-Closes c r none = inl refl
finalize_execution-Closes c r (some e) =
    elim (Bool-cases (e.id == c.execution_id && is_submitted e.status)) [
      | inl ours ↦ rw ours (inr (refl, refl))
      | inr other ↦ rw other (inl refl)
    ]

module _ (e : Option Execution) where
  settle_outcome-AtMostCloses :
      (b : Bool) (p : Payment) → Closes e p.execution → AtMostCloses e (settle_outcome b p)
  settle_outcome-AtMostCloses true p c = c
  settle_outcome-AtMostCloses false p c = c

  book_finality-AtMostCloses :
      (now : ℕ) (c : ConfirmationContext) (r : Receipt) (p : Payment)
      → Closes e p.execution
      → AtMostCloses e (book_finality now c r p)
  book_finality-AtMostCloses now c r p h =
      then-AtMostCloses e (post now _ _ _) _ _ (post-AtMostCloses e now _ _ _ _ h) (λ q d.
        then-AtMostCloses e (post_if_any now _ _ _) (settle_outcome (is_matched c r)) q
          (post_if_any-AtMostCloses e now _ _ _ q d)
          (λ s k. settle_outcome-AtMostCloses (is_matched c r) s k))

  settle_if_submitted-AtMostCloses :
      (now : ℕ) (c : ConfirmationContext) (r : Receipt) (p : Payment)
      → Closes e p.execution
      → AtMostCloses e (settle_if_submitted now c r p)
  settle_if_submitted-AtMostCloses now c r p h =
      if-AtMostCloses e (not (p.intent.status == IntentStatus.submitted)) _ _ h
        (book_finality-AtMostCloses now c r p h)

-- `markFinalized`
pub mark_finalized-AtMostCloses :
    (now : ℕ) (c : ConfirmationContext) (r : Receipt) (p : Payment)
    → AtMostCloses p.execution (mark_finalized now c r p)
unfolding mark_finalized
mark_finalized-AtMostCloses now c r p =
    let q = record p { execution = finalize_execution c r p.execution } in
    then-AtMostCloses p.execution (settle_if_submitted now c r) _ q
      (settle_if_submitted-AtMostCloses p.execution now c r q
        (finalize_execution-Closes c r p.execution))
      (λ s d. d)
