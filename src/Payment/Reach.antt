-- ===== src/Payment/Reach.antt =====
-- Whole lives of a payment: any handlers, in any order and with any snapshot, of
-- packages/database/src/jobs.ts and packages/database/src/index.ts, with other writers of the
-- joined rows and of the ledger between them.
use ai_neobank.Prelude.{
  List, ℕ, ◌+◌, ◌≤◌, ◌<◌, ◌≡◌, refl, ◌∙◌, Bool, true, false, String, Option, arith,
}
use ai_neobank.Prelude.Failure.{ok}
use ai_neobank.Domain.{IntentStatus, status_eq, PaymentIntent}
use ai_neobank.Ledger.{Ledger}
use ai_neobank.Ledger.Sound.{IsSound}
use ai_neobank.Payment.Rows.{Payment, Context, SimulationEvidence}
use ai_neobank.Payment.Intake.{intent_of}
use ai_neobank.Payment.Evaluate.{evaluate_intent}
use ai_neobank.Payment.Publish.{
  record_publication, Published, complete_publication, expire_approval,
}
use ai_neobank.Payment.Observe.{ProposalObservation, observe_proposal}
use ai_neobank.Payment.Decide.{
  create_intent, Principal, DecisionInput, ApprovalResult, decide_intent,
}
use ai_neobank.Payment.Execute.{ExecutionContext, record_simulation, SignedTransaction, mark_signed}
use ai_neobank.Payment.Settle.{
  Settlement, mark_submitted, FailureFee, mark_failed, ConfirmationContext, Receipt, mark_finalized,
}
use ai_neobank.Payment.Evolve.{Step, Moves, stay, move, Moves-trans, IsIncreasing, Evolves}
use ai_neobank.Payment.Lifecycle.{evaluate_intent-Kept}
use ai_neobank.Payment.Approvals.{
  record_publication-Kept, complete_publication-Kept, expire_approval-Kept, observe_proposal-Kept,
}
use ai_neobank.Payment.Votes.{decide_intent-Kept}
use ai_neobank.Payment.Settled.{
  record_simulation-Kept, mark_signed-Kept, mark_submitted-Kept, mark_failed-Kept,
  mark_finalized-Kept,
}

-- A handler that committed. A snapshot `row` may be any older reading, or none of this payment.
pub data Commits : Payment → Payment → Type 0 where
  evaluated :
      (sha256 : String → String) (now : ℕ) (simulate : Option (Payment → SimulationEvidence))
      (row p q : Payment)
      → evaluate_intent sha256 now simulate row p ≡ ok (tt, q)
      → Commits p q
  published :
      (publication : String) (p q : Payment)
      → record_publication publication p ≡ ok (tt, q)
      → Commits p q
  completed :
      (now : ℕ) (result : Published) (p q : Payment)
      → complete_publication now result p ≡ ok (tt, q)
      → Commits p q
  observed :
      (now : ℕ) (observation : Option ProposalObservation) (row p q : Payment)
      → observe_proposal now observation row p ≡ ok (tt, q)
      → Commits p q
  timed_out : (now : ℕ) (p q : Payment) → expire_approval now p ≡ ok (tt, q) → Commits p q
  decided :
      (now organization : ℕ) (principals : List Principal) (input : DecisionInput)
      (result : ApprovalResult) (p q : Payment)
      → decide_intent now organization principals input p ≡ ok (result, q)
      → Commits p q
  simulated :
      (fresh : ℕ) (c : ExecutionContext) (fee : ℕ) (details hash : String) (id : ℕ) (p q : Payment)
      → record_simulation fresh c fee details hash p ≡ ok (id, q)
      → Commits p q
  signed :
      (id : ℕ) (tx : SignedTransaction) (p q : Payment)
      → mark_signed id tx p ≡ ok (tt, q)
      → Commits p q
  submitted :
      (now id : ℕ) (settlement : Option Settlement) (p q : Payment)
      → mark_submitted now id settlement p ≡ ok (tt, q)
      → Commits p q
  failed :
      (now : ℕ) (reason : String) (fee : Option FailureFee) (p q : Payment)
      → mark_failed now reason fee p ≡ ok (tt, q)
      → Commits p q
  finalized :
      (now : ℕ) (c : ConfirmationContext) (r : Receipt) (result : IntentStatus) (p q : Payment)
      → mark_finalized now c r p ≡ ok (result, q)
      → Commits p q

-- Every committed handler evolves the payment.
pub Commits-Evolves : (p q : Payment) → Commits p q → Evolves p q
Commits-Evolves p q (evaluated sha256 now simulate row _ _ e) =
    rw e at (evaluate_intent-Kept sha256 now row simulate p)
Commits-Evolves p q (published publication _ _ e) = rw e at (record_publication-Kept publication p)
Commits-Evolves p q (completed now result _ _ e) = rw e at (complete_publication-Kept now result p)
Commits-Evolves p q (observed now observation row _ _ e) =
    rw e at (observe_proposal-Kept now observation row p)
Commits-Evolves p q (timed_out now _ _ e) = rw e at (expire_approval-Kept now p)
Commits-Evolves p q (decided now organization principals input result _ _ e) =
    rw e at (decide_intent-Kept now organization principals input p)
Commits-Evolves p q (simulated fresh c fee details hash id _ _ e) =
    rw e at (record_simulation-Kept fresh c fee details hash p)
Commits-Evolves p q (signed id tx _ _ e) = rw e at (mark_signed-Kept id tx p)
Commits-Evolves p q (submitted now id settlement _ _ e) =
    rw e at (mark_submitted-Kept now id settlement p)
Commits-Evolves p q (failed now reason fee _ _ e) = rw e at (mark_failed-Kept now reason fee p)
Commits-Evolves p q (finalized now c r result _ _ e) = rw e at (mark_finalized-Kept now c r p)

-- Commits in any order; between them others may change the joined rows and the ledger, which they
-- leave sound.
pub data Reaches (p : Payment) : Payment → Type 0 where
  start : Reaches p p
  commit : (q r : Payment) → Reaches p q → Commits q r → Reaches p r
  meanwhile :
      (q : Payment) (c : Context) (l : Ledger)
      → Reaches p q
      → (IsSound q.ledger → IsSound l)
      → Reaches p (record q { context = c; ledger = l })

-- What holds of a payment after any such life.
pub record Lives (p q : Payment) : Type 0 where
  pub moves : Moves p.intent.status p.intent.version q.intent.status q.intent.version
  pub same_terms : intent_of q.intent ≡ intent_of p.intent
  pub sequences : IsIncreasing p.events → IsIncreasing q.events
  pub sound : IsSound p.ledger → IsSound q.ledger

-- Whatever handlers commit, in whatever order and on whatever stale snapshots, a payment moves
-- along lifecycle edges only, each raising its version by one; its terms stay as submitted; its
-- event sequences stay strictly increasing; and a sound ledger stays sound.
pub Reaches-Lives : (p q : Payment) → Reaches p q → Lives p q
Reaches-Lives p q start = record {
  moves = stay _ _;
  same_terms = refl;
  sequences = λ h. h;
  sound = λ h. h;
}
Reaches-Lives p r (commit q _ before c) =
    let l = Reaches-Lives p q before in
    let e = Commits-Evolves q r c in
    record {
      moves = Moves-trans _ _ _ _ _ _ l.moves e.moves;
      same_terms = e.same_terms ∙ l.same_terms;
      sequences = λ h. e.sequences (l.sequences h);
      sound = λ h. e.sound (l.sound h);
    }
Reaches-Lives p _ (meanwhile q c led before sound) =
    let l = Reaches-Lives p q before in
    record {
      moves = l.moves;
      same_terms = l.same_terms;
      sequences = l.sequences;
      sound = λ h. sound (l.sound h);
    }

-- How many edges lie ahead of a status at most.
abbrev pub ahead : IntentStatus → ℕ
ahead IntentStatus.received = 7
ahead IntentStatus.policy_evaluated = 6
ahead IntentStatus.approval_required = 5
ahead IntentStatus.auto_authorized = 1
ahead IntentStatus.approved = 4
ahead IntentStatus.executing = 3
ahead IntentStatus.submitted = 2
ahead IntentStatus.finalized = 1
ahead _ = 0

Step-ahead : (s t : IntentStatus) → Step s t → ahead t < ahead s
Step-ahead _ _ Step.turn_down = omega arith
Step-ahead _ _ Step.lapse = omega arith
Step-ahead _ _ Step.evaluate = omega arith
Step-ahead _ _ Step.authorize = omega arith
Step-ahead _ _ Step.ask = omega arith
Step-ahead _ _ Step.publish = omega arith
Step-ahead _ _ Step.approve = omega arith
Step-ahead _ _ Step.refuse = omega arith
Step-ahead _ _ Step.time_out = omega arith
Step-ahead _ _ Step.execute = omega arith
Step-ahead _ _ Step.submit = omega arith
Step-ahead _ _ Step.finalize = omega arith
Step-ahead _ _ Step.reconcile = omega arith
Step-ahead _ _ Step.fail_received = omega arith
Step-ahead _ _ Step.fail_policy_evaluated = omega arith
Step-ahead _ _ Step.fail_approval_required = omega arith
Step-ahead _ _ Step.fail_auto_authorized = omega arith
Step-ahead _ _ Step.fail_approved = omega arith
Step-ahead _ _ Step.fail_executing = omega arith
Step-ahead _ _ Step.fail_submitted = omega arith

Moves-ahead : (s t : IntentStatus) (v w : ℕ) → Moves s v t w → (w + ahead t ≤ v + ahead s) × (v ≤ w)
Moves-ahead s t v w (stay _ _) = (omega arith, omega arith)
Moves-ahead s t v w (move _ r _ _ _ st m) =
    let (bound, grows) = Moves-ahead r t (v + 1) w m in
    let less = Step-ahead s r st in (omega arith, omega arith)

-- An intent is moved at most seven times: from its submission at version 1, its version never
-- passes 8, less the edges still ahead of it.
pub Reaches_bounded :
    (now : ℕ) (compiled_hash : String) (i : PaymentIntent) (c : Context) (l : Ledger) (p : Payment)
    → Reaches (create_intent now compiled_hash i c l) p
    → p.intent.version + ahead p.intent.status ≤ 8
unfolding create_intent
Reaches_bounded now compiled_hash i c l p r = (Moves-ahead _ _ _ _ (Reaches-Lives _ p r).moves).0

abbrev pub is_terminal : IntentStatus → Bool
is_terminal IntentStatus.rejected = true
is_terminal IntentStatus.expired = true
is_terminal IntentStatus.failed = true
is_terminal IntentStatus.reconciled = true
is_terminal _ = false

Step-terminal : (s t : IntentStatus) → Step s t → is_terminal s ≡ false
Step-terminal _ _ Step.turn_down = refl
Step-terminal _ _ Step.lapse = refl
Step-terminal _ _ Step.evaluate = refl
Step-terminal _ _ Step.authorize = refl
Step-terminal _ _ Step.ask = refl
Step-terminal _ _ Step.publish = refl
Step-terminal _ _ Step.approve = refl
Step-terminal _ _ Step.refuse = refl
Step-terminal _ _ Step.time_out = refl
Step-terminal _ _ Step.execute = refl
Step-terminal _ _ Step.submit = refl
Step-terminal _ _ Step.finalize = refl
Step-terminal _ _ Step.reconcile = refl
Step-terminal _ _ Step.fail_received = refl
Step-terminal _ _ Step.fail_policy_evaluated = refl
Step-terminal _ _ Step.fail_approval_required = refl
Step-terminal _ _ Step.fail_auto_authorized = refl
Step-terminal _ _ Step.fail_approved = refl
Step-terminal _ _ Step.fail_executing = refl
Step-terminal _ _ Step.fail_submitted = refl

Moves-terminal :
    (s t : IntentStatus) (v w : ℕ) → is_terminal s ≡ true → Moves s v t w → (t ≡ s) × (w ≡ v)
Moves-terminal s t v w h (stay _ _) = (refl, refl)
Moves-terminal s t v w h (move _ r _ _ _ st m) = ground (arith, Step-terminal s r st)

-- A rejected, expired, failed or reconciled intent keeps its status and its version for ever.
pub Reaches_terminal :
    (p q : Payment)
    → is_terminal p.intent.status ≡ true
    → Reaches p q
    → (q.intent.status ≡ p.intent.status) × (q.intent.version ≡ p.intent.version)
Reaches_terminal p q h r = Moves-terminal _ _ _ _ h (Reaches-Lives p q r).moves

-- A submitted intent's life: the terms are the submitted ones, its events are numbered in order,
-- and the ledger stays sound.
pub create_intent-Reaches :
    (now : ℕ) (compiled_hash : String) (i : PaymentIntent) (c : Context) (l : Ledger) (p : Payment)
    → IsSound l
    → Reaches (create_intent now compiled_hash i c l) p
    → Moves IntentStatus.received 1 p.intent.status p.intent.version
      × (intent_of p.intent ≡ i)
      × IsIncreasing p.events
      × IsSound p.ledger
unfolding create_intent
create_intent-Reaches now compiled_hash i c l p sound r =
    let lives = Reaches-Lives _ p r in
    (lives.moves, lives.same_terms, lives.sequences (tt, tt), lives.sound sound)
