-- ===== src/Queue/Lease.antt =====
-- packages/database/src/jobs.ts: leases, attempts and retries.
use mathlib.Core.List.{Memᴰ}
use mathlib.Core.List.Memᴰ.{head, tail}
use ai_neobank.Prelude.{
  ℕ, ◌+◌, ◌*◌, ◌≤◌, ◌≡◌, refl, sym, ap, ◌∙◌, ◌≢◌, inl, inr, Bool, true, false, not, ◌||◌, String,
  Option, none, some, List, [], ◌∷◌, Bool-cases, All, All-mono, arith,
}
use ai_neobank.Prelude.Text.{first}
use ai_neobank.Prelude.Equality.{◌==◌, nat_eq}
use ai_neobank.Queue.{
  Job, Queue, is_claimable, goes_before, prefer, candidate, lease, take_lease, update_job, claim,
}

-- What `candidate` finds: nothing, if no row is claimable; else a claimable row of the list that no
-- other claimable row precedes.
abbrev Chosen : ℕ → List Job → Option Job → Type 0
Chosen now js none = All (λ k. is_claimable now k ≡ false) js
Chosen now js (some j) =
    Memᴰ j js
    × (is_claimable now j ≡ true)
    × All (λ k. is_claimable now k ≡ true → goes_before j k ≡ true) js

goes_before_refl : (j : Job) → goes_before j j ≡ true
goes_before_refl j = ground arith

goes_before_trans :
    (i j k : Job) → goes_before i j ≡ true → goes_before j k ≡ true → goes_before i k ≡ true
goes_before_trans i j k h l = ground arith

goes_before_total : (j k : Job) → goes_before j k ≡ false → goes_before k j ≡ true
goes_before_total j k h = ground arith

prefer-Chosen :
    (now : ℕ) (j : Job) (js : List Job) (rest : Option Job)
    → is_claimable now j ≡ true
    → Chosen now js rest
    → Chosen now (j ∷ js) (prefer j rest)
prefer-Chosen now j js none ready none_ready = (
  head refl,
  ready,
  (λ _. goes_before_refl j, All-mono _ _ (λ k idle r. cc (idle, r)) js none_ready),
)
prefer-Chosen now j js (some k) ready c = elim (Bool-cases (goes_before j k)) [
  | inl sooner ↦ rw sooner (
    head refl,
    ready,
    (λ _. goes_before_refl j, All-mono _ _ (λ i h r. goes_before_trans j k i sooner (h r)) js c.2),
  )
  | inr later ↦ rw later (tail c.0, c.1, (λ _. goes_before_total j k later, c.2))
]

skip-Chosen :
    (now : ℕ) (j : Job) (js : List Job) (rest : Option Job)
    → is_claimable now j ≡ false
    → Chosen now js rest
    → Chosen now (j ∷ js) rest
skip-Chosen now j js none idle c = (idle, c)
skip-Chosen now j js (some k) idle c = (tail c.0, c.1, (λ ready. cc (idle, ready), c.2))

candidate-Chosen : (now : ℕ) (js : List Job) → Chosen now js (candidate now js)
unfolding candidate
candidate-Chosen now [] = tt
candidate-Chosen now (j ∷ js) = elim (Bool-cases (is_claimable now j)) [
  | inl ready ↦ rw ready (prefer-Chosen now j js (candidate now js) ready (candidate-Chosen now js))
  | inr idle ↦ rw idle (skip-Chosen now j js (candidate now js) idle (candidate-Chosen now js))
]

-- What `claim` returns and leaves.
pub record IsLeased (now : ℕ) (worker : String) (lease_seconds : ℕ) (q : Queue) (j : Job)
    (q' : Queue) : Type 0 where
  pub row : Job
  pub was_there : Memᴰ row q.jobs
  pub was_claimable : is_claimable now row ≡ true
  pub was_first : All (λ k. not (is_claimable now k) || goes_before row k ≡ true) q.jobs
  pub result : j ≡ lease now worker lease_seconds row
  pub left : q' ≡ record q { jobs = update_job row.id (lease now worker lease_seconds) q.jobs }

abbrev pub Claimed : ℕ → String → ℕ → Queue → Option Job × Queue → Type 0
Claimed now worker lease_seconds q (none, q') =
    (q' ≡ q) × All (λ k. is_claimable now k ≡ false) q.jobs
Claimed now worker lease_seconds q (some j, q') = IsLeased now worker lease_seconds q j q'

precedes : (a b : Bool) → (a ≡ true → b ≡ true) → not a || b ≡ true
precedes true b h = h refl
precedes false b h = refl

take_lease-Claimed :
    (now : ℕ) (worker : String) (lease_seconds : ℕ) (q : Queue) (found : Option Job)
    → Chosen now q.jobs found
    → Claimed now worker lease_seconds q (take_lease now worker lease_seconds q found)
take_lease-Claimed now worker lease_seconds q none c = (refl, c)
take_lease-Claimed now worker lease_seconds q (some j) c = record {
  row = j;
  was_there = c.0;
  was_claimable = c.1;
  was_first = All-mono _ _ (λ k h. precedes (is_claimable now k) (goes_before j k) h) q.jobs c.2;
  result = refl;
  left = refl;
}

-- `claim` returns nothing only if no job is claimable, and then changes nothing; else it leases a
-- claimable job of the queue that no other claimable one precedes by `run_at` and then
-- `created_at`.
pub claim-Claimed :
    (now : ℕ) (worker : String) (lease_seconds : ℕ) (q : Queue)
    → Claimed now worker lease_seconds q (claim now worker lease_seconds q)
unfolding claim
claim-Claimed now worker lease_seconds q =
    take_lease-Claimed now worker lease_seconds q (candidate now q.jobs)
      (candidate-Chosen now q.jobs)

-- What holds of every row holds of the candidate.
abbrev OfSome : (Job → Type 0) → Option Job → Type 0
OfSome P none = Unit
OfSome P (some j) = P j

prefer-OfSome :
    (P : Job → Type 0) (j : Job) (rest : Option Job)
    → P j
    → OfSome P rest
    → OfSome P (prefer j rest)
prefer-OfSome P j none h l = h
prefer-OfSome P j (some k) h l = elim (Bool-cases (goes_before j k)) [
  | inl sooner ↦ rw sooner h
  | inr later ↦ rw later l
]

candidate-OfSome :
    (P : Job → Type 0) (now : ℕ) (js : List Job) → All P js → OfSome P (candidate now js)
unfolding candidate
candidate-OfSome P now [] h = tt
candidate-OfSome P now (j ∷ js) h = elim (Bool-cases (is_claimable now j)) [
  | inl ready ↦ rw ready (prefer-OfSome P j (candidate now js) h.0 (candidate-OfSome P now js h.1))
  | inr idle ↦ rw idle (candidate-OfSome P now js h.1)
]

-- A row under a lease that has not lapsed is not claimable.
update_job-leased :
    (now later : ℕ) (worker : String) (lease_seconds id : ℕ) (js : List Job)
    → later ≤ now + lease_seconds * 1000
    → All
        (λ k. k.id ≡ id → is_claimable later k ≡ false)
        (update_job id (lease now worker lease_seconds) js)
unfolding update_job
update_job-leased now later worker lease_seconds id [] h = tt
update_job-leased now later worker lease_seconds id (j ∷ js) h = (
  elim (Bool-cases (j.id == id)) [
    | inl own ↦ rw own (λ _. ground (arith, h))
    | inr other ↦ rw other (λ same. cc (other, (nat_eq.beq_iff j.id id).1 same))
  ],
  update_job-leased now later worker lease_seconds id js h,
)

-- The leased row is one of the queue's.
abbrev Takes : (Job → Type 0) → ℕ → String → ℕ → Option Job × Queue → Type 0
Takes P now worker lease_seconds (none, _) = Unit
Takes P now worker lease_seconds (some j, _) =
    (row : Job) × (is_claimable now row ≡ true) × P row × (j ≡ lease now worker lease_seconds row)

take_lease-Takes :
    (P : Job → Type 0) (now : ℕ) (worker : String) (lease_seconds : ℕ) (q : Queue)
    (found : Option Job)
    → Chosen now q.jobs found
    → OfSome P found
    → Takes P now worker lease_seconds (take_lease now worker lease_seconds q found)
take_lease-Takes P now worker lease_seconds q none c h = tt
take_lease-Takes P now worker lease_seconds q (some j) c h = (j, c.1, h, refl)

claim-Takes :
    (P : Job → Type 0) (now : ℕ) (worker : String) (lease_seconds : ℕ) (q : Queue)
    → All P q.jobs
    → Takes P now worker lease_seconds (claim now worker lease_seconds q)
unfolding claim
claim-Takes P now worker lease_seconds q h =
    take_lease-Takes P now worker lease_seconds q (candidate now q.jobs)
      (candidate-Chosen now q.jobs) (candidate-OfSome P now q.jobs h)

-- A lease excludes other workers: once a worker has claimed a job, no claim up to the end of its
-- lease, with nothing between them, returns a job with that identifier.
pub claim_exclusive :
    (now later : ℕ) (worker other : String) (lease_seconds again : ℕ) (q q' q'' : Queue) (j k : Job)
    → claim now worker lease_seconds q ≡ (some j, q')
    → later ≤ now + lease_seconds * 1000
    → claim later other again q' ≡ (some k, q'')
    → k.id ≢ j.id
claim_exclusive now later worker other lease_seconds again q q' q'' j k first in_time second same =
    let l : IsLeased now worker lease_seconds q j q' =
      rw first at (claim-Claimed now worker lease_seconds q) in
    let kept : All (λ i. i.id ≡ l.row.id → is_claimable later i ≡ false) q'.jobs =
      rw l.left (update_job-leased now later worker lease_seconds l.row.id q.jobs in_time) in
    let (row, ready, idle, leased) : Takes (λ i. i.id ≡ l.row.id → is_claimable later i ≡ false)
        later other again (some k, q'') =
      rw second at (
        claim-Takes (λ i. i.id ≡ l.row.id → is_claimable later i ≡ false) later other again q'
          kept) in
    cc (ready, idle (sym (ap (λ i. i.id) leased) ∙ same ∙ ap (λ i. i.id) l.result))
