-- ===== src/Queue/Outbox.antt =====
-- packages/database/src/jobs.ts: the outbox is pumped into jobs once.
use ai_neobank.Prelude.{
  ℕ, zero, suc, ◌≡◌, refl, ◌∙◌, ◌⊎◌, inl, inr, true, false, ◌||◌, String, Option, none, some, List,
  [], ◌∷◌, ◌++◌, Bool-cases, or_left, or_right, All, All-mono, All-append_one, arith,
}
use ai_neobank.Prelude.Equality.{◌==◌, string_eq, option_eq, beq_refl}
use ai_neobank.Queue.{
  Job, OutboxRow, Queue, has_key, enqueue_job, is_due, outbox_key, processed, pump_rows,
  pump_outbox,
}

-- No two jobs have one dedupe key, and every pumped event has its job.
abbrev pub Unrepeated : List Job → Type 0
Unrepeated [] = Unit
Unrepeated (j ∷ js) =
    ((key : String) → j.dedupe_key ≡ some key → has_key key js ≡ false) × Unrepeated js

abbrev pub HasJob : List Job → OutboxRow → Type 0
HasJob jobs o = (o.processed_at ≡ none) ⊎ (has_key (outbox_key o) jobs ≡ true)

pub record IsOnce (q : Queue) : Type 0 where
  pub unrepeated : Unrepeated q.jobs
  pub pumped : All (HasJob q.jobs) q.outbox

has_key-append :
    (key : String) (js : List Job) (j : Job)
    → has_key key (js ++ j ∷ []) ≡ has_key key js || (j.dedupe_key == some key)
has_key-append key [] j = ground arith
has_key-append key (k ∷ js) j = ground (arith, has_key-append key js j)

Unrepeated-append :
    (js : List Job) (j : Job) (own : String)
    → Unrepeated js
    → j.dedupe_key ≡ some own
    → has_key own js ≡ false
    → Unrepeated (js ++ j ∷ [])
Unrepeated-append [] j own u k h = (λ key e. refl, tt)
Unrepeated-append (i ∷ js) j own u k h = (
  λ key e.
      has_key-append key js j
      ∙ rw (u.0 key e) (elim (Bool-cases (j.dedupe_key == some key)) [
        | inr other ↦ other
        | inl same ↦
            let shared = (option_eq.beq_iff j.dedupe_key (some key)).0 same in
            cc (or_left (i.dedupe_key == some own) (has_key own js) h)
      ]),
  Unrepeated-append js j own u.1 k (or_right (i.dedupe_key == some own) (has_key own js) h),
)

HasJob-append : (js : List Job) (j : Job) (o : OutboxRow) → HasJob js o → HasJob (js ++ j ∷ []) o
HasJob-append js j o (inl waiting) = inl waiting
HasJob-append js j o (inr known) = inr (has_key-append (outbox_key o) js j ∙ rw known refl)

-- `enqueueJob` inserts a row exactly if no job has the key, and keeps the keys unrepeated.
pub enqueue_job-IsOnce :
    (now : ℕ) (organization : Option ℕ) (type payload dedupe_key : String) (q : Queue)
    → IsOnce q
    → IsOnce (enqueue_job now organization type payload dedupe_key q).1
unfolding enqueue_job
enqueue_job-IsOnce now organization type payload dedupe_key q i =
    elim (Bool-cases (has_key dedupe_key q.jobs)) [
      | inl known ↦ rw known i
      | inr fresh ↦ rw fresh (record {
        unrepeated = Unrepeated-append q.jobs _ dedupe_key i.unrepeated refl fresh;
        pumped = All-mono _ _ (HasJob-append q.jobs _) q.outbox i.pumped;
      })
    ]

enqueue_job-has_key :
    (now : ℕ) (organization : Option ℕ) (type payload dedupe_key : String) (q : Queue)
    → has_key dedupe_key (enqueue_job now organization type payload dedupe_key q).1.jobs ≡ true
unfolding enqueue_job
enqueue_job-has_key now organization type payload dedupe_key q =
    elim (Bool-cases (has_key dedupe_key q.jobs)) [
      | inl known ↦ rw (known, known) refl
      | inr fresh ↦
          rw fresh
            (has_key-append dedupe_key q.jobs _ ∙ rw (fresh, beq_refl (some dedupe_key)) refl)
    ]

enqueue_job-HasJob :
    (now : ℕ) (organization : Option ℕ) (type payload dedupe_key : String) (q : Queue)
    (o : OutboxRow)
    → HasJob q.jobs o
    → HasJob (enqueue_job now organization type payload dedupe_key q).1.jobs o
unfolding enqueue_job
enqueue_job-HasJob now organization type payload dedupe_key q o h =
    elim (Bool-cases (has_key dedupe_key q.jobs)) [
      | inl known ↦ rw known h
      | inr fresh ↦ rw fresh (HasJob-append q.jobs _ o h)
    ]

All-append : {A : Type 0} (P : A → Type 0) (xs ys : List A) → All P xs → All P ys → All P (xs ++ ys)
All-append P [] ys h k = k
All-append P (x ∷ xs) ys h k = (h.0, All-append P xs ys h.1 k)

IsOnce-append :
    (q : Queue) (o : OutboxRow)
    → IsOnce q
    → HasJob q.jobs o
    → IsOnce (record q { outbox = q.outbox ++ o ∷ [] })
IsOnce-append q o i h = record {
  unrepeated = i.unrepeated;
  pumped = All-append_one _ q.outbox o i.pumped h;
}

pump_rows-IsOnce :
    (now limit : ℕ) (os : List OutboxRow) (q : Queue)
    → IsOnce q
    → All (HasJob q.jobs) os
    → IsOnce (pump_rows now limit os q).1
unfolding pump_rows
pump_rows-IsOnce now limit [] q i h = i
pump_rows-IsOnce now zero (o ∷ os) q i h = record {
  unrepeated = i.unrepeated;
  pumped = All-append _ q.outbox (o ∷ os) i.pumped h;
}
pump_rows-IsOnce now (suc limit) (o ∷ os) q i h = elim (Bool-cases (is_due now o)) [
  | inr later ↦ rw later (
      pump_rows-IsOnce now (suc limit) os (record q { outbox = q.outbox ++ o ∷ [] })
        (IsOnce-append q o i h.0) h.1)
  | inl due ↦
      let added = (enqueue_job now o.organization_id o.topic o.payload (outbox_key o) q).1 in
      rw due (
        pump_rows-IsOnce now limit os
          (record added { outbox = added.outbox ++ processed now o ∷ [] })
          (IsOnce-append added (processed now o)
            (enqueue_job-IsOnce now o.organization_id o.topic o.payload (outbox_key o) q i)
            (inr (enqueue_job-has_key now o.organization_id o.topic o.payload (outbox_key o) q)))
          (All-mono _ _
            (enqueue_job-HasJob now o.organization_id o.topic o.payload (outbox_key o) q) os h.1))
]

-- `pumpOutbox` delivers once: it keeps every dedupe key on one job, and every event that is marked
-- as processed has its job.
pub pump_outbox-IsOnce : (now limit : ℕ) (q : Queue) → IsOnce q → IsOnce (pump_outbox now limit q).1
unfolding pump_outbox
pump_outbox-IsOnce now limit q i =
    pump_rows-IsOnce now limit q.outbox (record q { outbox = [] })
      (record { unrepeated = i.unrepeated; pumped = tt }) i.pumped
