-- ===== src/Payment/Evolve.antt =====
-- The lifecycle of a payment intent and what every committed handler keeps: the relation that the
-- handlers of packages/database/src/jobs.ts and decideIntent of packages/database/src/index.ts
-- are shown to follow.
use ai_neobank.Prelude.{
  ℕ, ◌+◌, ◌<◌, ◌≤◌, ◌≡◌, refl, ap, ◌∙◌, Bool, true, false, ◌&&◌, String, Option, none, some, List,
  [], ◌∷◌, ◌++◌, if◌then◌else◌, arith, both_left, All, All-mono, All-append_one,
}
use ai_neobank.Prelude.Equality.{◌==◌, nat_eq}
use ai_neobank.Prelude.Failure.{Result, ok, err, Tx, ◌>>=◌, ◌>>◌}
use ai_neobank.Domain.{IntentStatus, status_eq}
use ai_neobank.Ledger.{Ledger, LedgerLine, post_ledger}
use ai_neobank.Ledger.Sound.{IsSound, post_ledger-IsSound}
use ai_neobank.Payment.Rows.{Payment, IntentEvent}
use ai_neobank.Payment.Changes.{last_sequence, add_event, set_status, transition, post, keep_ledger}
use ai_neobank.Payment.Intake.{intent_of}

-- The edges of the lifecycle.
pub data Step : IntentStatus → IntentStatus → Type 0 where
  turn_down : Step IntentStatus.received IntentStatus.rejected
  lapse : Step IntentStatus.received IntentStatus.expired
  evaluate : Step IntentStatus.received IntentStatus.policy_evaluated
  authorize : Step IntentStatus.received IntentStatus.approved
  ask : Step IntentStatus.received IntentStatus.approval_required
  publish : Step IntentStatus.policy_evaluated IntentStatus.approval_required
  approve : Step IntentStatus.approval_required IntentStatus.approved
  refuse : Step IntentStatus.approval_required IntentStatus.rejected
  time_out : Step IntentStatus.approval_required IntentStatus.expired
  execute : Step IntentStatus.approved IntentStatus.executing
  submit : Step IntentStatus.executing IntentStatus.submitted
  finalize : Step IntentStatus.submitted IntentStatus.finalized
  reconcile : Step IntentStatus.finalized IntentStatus.reconciled
  fail_received : Step IntentStatus.received IntentStatus.failed
  fail_policy_evaluated : Step IntentStatus.policy_evaluated IntentStatus.failed
  fail_approval_required : Step IntentStatus.approval_required IntentStatus.failed
  fail_auto_authorized : Step IntentStatus.auto_authorized IntentStatus.failed
  fail_approved : Step IntentStatus.approved IntentStatus.failed
  fail_executing : Step IntentStatus.executing IntentStatus.failed
  fail_submitted : Step IntentStatus.submitted IntentStatus.failed

-- Steps of the lifecycle, each of which raises the version by one.
pub data Moves : IntentStatus → ℕ → IntentStatus → ℕ → Type 0 where
  stay : (s : IntentStatus) (v : ℕ) → Moves s v s v
  move : (s t u : IntentStatus) (v w : ℕ) → Step s t → Moves t (v + 1) u w → Moves s v u w

pub Moves-trans : (s t u : IntentStatus) (v w x : ℕ) → Moves s v t w → Moves t w u x → Moves s v u x
Moves-trans s t u v w x (stay _ _) n = n
Moves-trans s t u v w x (move _ r _ _ _ st m) n =
    move s r u v x st (Moves-trans r t u (v + 1) w x m n)

-- Event sequences that grow along the list.
abbrev pub IsIncreasing : List IntentEvent → Type 0
IsIncreasing [] = Unit
IsIncreasing (e ∷ es) = All (λ f. e.sequence < f.sequence) es × IsIncreasing es

-- What a commit keeps of a payment.
pub record Evolves (p q : Payment) : Type 0 where
  pub moves : Moves p.intent.status p.intent.version q.intent.status q.intent.version
  pub same_terms : intent_of q.intent ≡ intent_of p.intent
  pub same_context : q.context ≡ p.context
  pub history : (es : List IntentEvent) × (q.events ≡ p.events ++ es)
  pub sequences : IsIncreasing p.events → IsIncreasing q.events
  pub sound : IsSound p.ledger → IsSound q.ledger

append_nil : {A : Type 0} (xs : List A) → xs ≡ xs ++ []
append_nil [] = refl
append_nil (x ∷ xs) = ap (◌∷◌ x) (append_nil xs)

append_assoc : {A : Type 0} (xs ys zs : List A) → (xs ++ ys) ++ zs ≡ xs ++ (ys ++ zs)
append_assoc [] ys zs = refl
append_assoc (x ∷ xs) ys zs = ap (◌∷◌ x) (append_assoc xs ys zs)

pub Evolves-refl : (p : Payment) → Evolves p p
Evolves-refl p = record {
  moves = stay _ _;
  same_terms = refl;
  same_context = refl;
  history = ([], append_nil p.events);
  sequences = λ h. h;
  sound = λ h. h;
}

pub Evolves-trans : (p q r : Payment) → Evolves p q → Evolves q r → Evolves p r
Evolves-trans p q r e f = record {
  moves = Moves-trans _ _ _ _ _ _ e.moves f.moves;
  same_terms = f.same_terms ∙ e.same_terms;
  same_context = f.same_context ∙ e.same_context;
  history =
      let (es, past) = e.history in
      let (fs, more) = f.history in
      (es ++ fs, more ∙ ap (λ xs. xs ++ fs) past ∙ append_assoc p.events es fs);
  sequences = λ h. f.sequences (e.sequences h);
  sound = λ h. f.sound (e.sound h);
}

-- A result that, if the body returned, has only evolved the payment.
abbrev pub Kept : {A : Type 0} → Payment → Result (A × Payment) → Type 0
Kept p (ok (a, q)) = Evolves p q
Kept p (err e) = Unit

pub Kept-after :
    {A : Type 0} (p q : Payment) (r : Result (A × Payment)) → Evolves p q → Kept q r → Kept p r
Kept-after p q (ok (a, s)) e k = Evolves-trans p q s e k
Kept-after p q (err _) e k = tt

after_call :
    {A B : Type 0} (f : A → Tx Payment B) (p : Payment) (r : Result (A × Payment))
    → Kept p r
    → ((a : A) (q : Payment) → Kept q (f a q))
    → Kept p (elim r [ ok (a, q) ↦ f a q | err e ↦ err e ])
after_call f p (ok (a, q)) k l = Kept-after p q (f a q) k (l a q)
after_call f p (err e) k l = tt

pub Kept-bind :
    {A B : Type 0} (m : Tx Payment A) (f : A → Tx Payment B) (p : Payment)
    → Kept p (m p)
    → ((a : A) (q : Payment) → Kept q (f a q))
    → Kept p ((m >>= f) p)
Kept-bind m f p = after_call f p (m p)

pub Kept-then :
    {A B : Type 0} (m : Tx Payment A) (k : Tx Payment B) (p : Payment)
    → Kept p (m p)
    → ((q : Payment) → Kept q (k q))
    → Kept p ((m >> k) p)
Kept-then m k p h l = after_call (λ _. k) p (m p) h (λ _. l)

pub Kept-if :
    {A : Type 0} (b : Bool) (m k : Result (A × Payment)) (p : Payment)
    → (b ≡ true → Kept p m)
    → (b ≡ false → Kept p k)
    → Kept p (if b then m else k)
Kept-if true m k p h l = h refl
Kept-if false m k p h l = l refl

last_sequence-bound : (es : List IntentEvent) → All (λ e. e.sequence ≤ last_sequence es) es
unfolding last_sequence
last_sequence-bound [] = tt
last_sequence-bound (e ∷ es) =
    (omega arith, All-mono _ _ (λ f h. omega arith) es (last_sequence-bound es))

IsIncreasing-append_one :
    (es : List IntentEvent) (f : IntentEvent)
    → IsIncreasing es
    → All (λ e. e.sequence < f.sequence) es
    → IsIncreasing (es ++ f ∷ [])
IsIncreasing-append_one [] f i h = (tt, tt)
IsIncreasing-append_one (e ∷ es) f i h =
    (All-append_one _ es f i.0 h.0, IsIncreasing-append_one es f i.1 h.1)

pub add_event-Evolves :
    (event_type : String) (actor : Option ℕ) (m : Option (IntentStatus × IntentStatus × ℕ))
    (p : Payment)
    → Evolves p (add_event event_type actor m p)
add_event-Evolves event_type actor m p = record {
  moves = stay _ _;
  same_terms = refl;
  same_context = refl;
  history = (_, refl);
  sequences = λ h.
      IsIncreasing-append_one p.events _ h
        (All-mono _ _ (λ e b. omega arith) p.events (last_sequence-bound p.events));
  sound = λ h. h;
}

pub set_status-Evolves :
    (to : IntentStatus) (p : Payment) → Step p.intent.status to → Evolves p (set_status to p)
set_status-Evolves to p s = record {
  moves = move _ _ _ _ _ s (stay _ _);
  same_terms = refl;
  same_context = refl;
  history = ([], append_nil p.events);
  sequences = λ h. h;
  sound = λ h. h;
}

pub transition-Kept :
    (version : ℕ) (from to : IntentStatus) (event_type : String) (p : Payment)
    → Step from to
    → Kept p (transition version from to event_type p)
unfolding transition
transition-Kept version from to event_type p s =
    Kept-if (p.intent.status == from && p.intent.version == version) _ _ p
      (λ found.
        let here = (status_eq.beq_iff p.intent.status from).0 (both_left _ _ found) in
        Evolves-trans p (set_status to p) _ (set_status-Evolves to p (rw here s))
          (add_event-Evolves event_type none (some (from, to, version + 1)) (set_status to p)))
      (λ _. tt)

posted-Kept :
    (p : Payment) (r : Result (Bool × Ledger))
    → ((l : Ledger) (b : Bool) → r ≡ ok (b, l) → IsSound p.ledger → IsSound l)
    → Kept p (keep_ledger p r)
posted-Kept p (ok (b, l)) h = record {
  moves = stay _ _;
  same_terms = refl;
  same_context = refl;
  history = ([], append_nil p.events);
  sequences = λ i. i;
  sound = h l b refl;
}
posted-Kept p (err e) h = tt

pub post-Kept :
    (now : ℕ) (reference description : String) (lines : List LedgerLine) (p : Payment)
    → Kept p (post now reference description lines p)
unfolding post
post-Kept now reference description lines p = posted-Kept p _ (λ l b e s.
    post_ledger-IsSound now p.intent.organization_id (some p.intent.id) reference description lines
      p.ledger l b s e)

-- A change of other columns only.
pub Evolves-aside :
    (p q : Payment)
    → q.intent.status ≡ p.intent.status
    → q.intent.version ≡ p.intent.version
    → intent_of q.intent ≡ intent_of p.intent
    → q.context ≡ p.context
    → q.events ≡ p.events
    → q.ledger ≡ p.ledger
    → Evolves p q
Evolves-aside p q status version terms context events ledger = record {
  moves = rw (status, version) (stay _ _);
  same_terms = terms;
  same_context = context;
  history = ([], events ∙ append_nil p.events);
  sequences = λ h. rw events h;
  sound = λ h. rw ledger h;
}

-- The same where the payment has evolved before the call, alone and with a continuation.
pub transition-after :
    (version : ℕ) (from to : IntentStatus) (event_type : String) (p q : Payment)
    → Evolves p q
    → Step from to
    → Kept p (transition version from to event_type q)
transition-after version from to event_type p q e s =
    Kept-after p q (transition version from to event_type q) e
      (transition-Kept version from to event_type q s)

pub transition-then :
    {A : Type 0} (version : ℕ) (from to : IntentStatus) (event_type : String) (k : Tx Payment A)
    (p q : Payment)
    → Evolves p q
    → Step from to
    → ((s : Payment) → Kept s (k s))
    → Kept p ((transition version from to event_type >> k) q)
transition-then version from to event_type k p q e s h =
    after_call (λ _. k) p (transition version from to event_type q)
      (transition-after version from to event_type p q e s) (λ _. h)

posted-then :
    {A : Type 0} (k : Tx Payment A) (p q : Payment) (r : Result (Bool × Ledger))
    → Evolves p q
    → ((l : Ledger) (b : Bool) → r ≡ ok (b, l) → IsSound q.ledger → IsSound l)
    → ((s : Payment) → s.intent ≡ q.intent → Kept s (k s))
    → Kept p (((λ s. keep_ledger s r) >> k) q)
posted-then k p q (ok (b, l)) e sound h =
    let t = record q { ledger = l } in
    Kept-after p t (k t) (Evolves-trans p q t e (posted-Kept q (ok (b, l)) sound)) (h t refl)
posted-then k p q (err x) e sound h = tt

-- The continuation of a posting finds the intent as it was.
pub post-then :
    {A : Type 0} (now : ℕ) (reference description : String) (lines : List LedgerLine)
    (k : Tx Payment A) (p q : Payment)
    → Evolves p q
    → ((s : Payment) → s.intent ≡ q.intent → Kept s (k s))
    → Kept p ((post now reference description lines >> k) q)
unfolding post
post-then now reference description lines k p q e h =
    posted-then k p q
      (post_ledger now q.intent.organization_id (some q.intent.id) reference description lines
        q.ledger)
      e
      (λ l b f s.
        post_ledger-IsSound now q.intent.organization_id (some q.intent.id) reference description
          lines q.ledger l b s f)
      h
