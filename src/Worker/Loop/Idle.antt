-- ===== src/Worker/Loop/Idle.antt =====
-- apps/worker/src/worker.ts: what a pass of the loop and a drain leave of the jobs.
use ai_neobank.Prelude.{
  ℕ, suc, ◌+◌, ◌<◌, ◌≡◌, refl, ap, inl, inr, Bool, true, false, ◌&&◌, String, Option, none, some,
  List, [], ◌∷◌, if◌then◌else◌, leb, All, arith, Bool-cases,
}
use ai_neobank.Prelude.Equality.{◌==◌, nat_eq}
use ai_neobank.Prelude.Failure.{deferred, Result, ok, err, Call}
use ai_neobank.Queue.{
  Job, JobStatus, running, Queue, if_running, is_claimable, update_job, pump_outbox, claim,
  complete, fail, defer,
}
use ai_neobank.Queue.Lease.{Claimed, claim-Claimed}
use ai_neobank.Worker.Loop.{
  Site, Maintenance, settle_job, run_claimed, run_once, drain_on, drain, maintain,
}

abbrev pub is_running : JobStatus → Bool
is_running running = true
is_running _ = false

-- No row with this id is running.
abbrev pub IsOver : ℕ → List Job → Type 0
IsOver id jobs = All (λ j. j.id == id && is_running j.status ≡ false) jobs

update_job-IsOver :
    (id : ℕ) (f : Job → Job) (js : List Job)
    → ((j : Job) → is_running (f j).status ≡ false)
    → IsOver id (update_job id f js)
unfolding update_job
update_job-IsOver id f [] over = tt
update_job-IsOver id f (j ∷ js) over = elim (Bool-cases (j.id == id)) [
  | inl own ↦ rw own (ground (arith, over j), update_job-IsOver id f js over)
  | inr other ↦ rw (other, other) (refl, update_job-IsOver id f js over)
]

completed_over :
    (f : Job → Job) (j : Job)
    → ((k : Job) → is_running (f k).status ≡ false)
    → is_running (if_running f j).status ≡ false
completed_over f j over = ground (arith, over j)

failed_over : (b : Bool) → is_running (if b then JobStatus.dead else JobStatus.retry) ≡ false
failed_over true = refl
failed_over false = refl

settle_job-IsOver :
    (now : ℕ) (job : Job) (r : Result (Unit {0})) (q : Queue)
    → IsOver job.id (settle_job now job r q).jobs
unfolding settle_job complete fail defer
settle_job-IsOver now job (ok _) q = update_job-IsOver job.id _ q.jobs (λ j.
    completed_over (λ k. record k { status = JobStatus.succeeded; leased_until = none }) j
      (λ k. refl))
settle_job-IsOver now job (err (deferred message seconds)) q =
    update_job-IsOver job.id _ q.jobs (λ j. refl)
settle_job-IsOver now job (err e) q =
    update_job-IsOver job.id _ q.jobs (λ j. failed_over (leb job.max_attempts job.attempts))

module _ {S : Type 0} where
  -- No job is claimable at this instant.
  abbrev pub IsIdle : ℕ → Site S → Type 0
  IsIdle now w = All (λ k. is_claimable now k ≡ false) w.queue.jobs

module _ {S : Type 0} (payload_of : ℕ → String) (maintenance : Option Maintenance)
    (handler : Job → Call (Site S) (Unit {0})) (worker : String) where
  -- What a pass of the loop leaves, by what it returns: with nothing handled, no job is claimable;
  -- else the job that was claimed is over.
  abbrev pub Passed : ℕ → Queue → Bool × Site S → Type 0
  Passed now q (false, w) = IsIdle now w
  Passed now q (true, w) =
      (job : Job) × ((claim now worker 60 q).0 ≡ some job) × IsOver job.id w.queue.jobs

  run_claimed-Passed :
      (now : ℕ) (w : Site S) (q : Queue) (c : Option Job × Queue)
      → claim now worker 60 q ≡ c
      → Claimed now worker 60 q c
      → Passed now q (run_claimed payload_of maintenance handler worker now w c)
  run_claimed-Passed now w q (none, left) e h = rw h.0 h.1
  run_claimed-Passed now w q (some job, left) e h =
      (job, ap (λ d. d.0) e, settle_job-IsOver now job _ _)

  -- The queue in which a pass looks for a job.
  abbrev pub pumped : ℕ → Site S → Queue
  pumped now w = (pump_outbox now 100 (maintain payload_of now maintenance w).queue).1

  -- A pass of the loop returns false only if no job is claimable at its instant; if it returns
  -- true, the job that it claimed is no longer running, however its handler ended.
  pub run_once-Passed :
      (now : ℕ) (w : Site S)
      → Passed now (pumped now w) (run_once payload_of maintenance handler worker now w)
  unfolding run_once
  run_once-Passed now w =
      run_claimed-Passed now (maintain payload_of now maintenance w) (pumped now w) _ refl
        (claim-Claimed now worker 60 (pumped now w))

  module _ (clock : ℕ → ℕ) where
    -- At the instant of the pass after the handled ones, no job is claimable.
    abbrev pub Drained : ℕ → ℕ × Site S → Type 0
    Drained pass x = IsIdle (clock (pass + x.0)) x.1

    drain_on-Drained :
        (m pass : ℕ) (q : Queue) (again : Site S → ℕ × Site S) (r : Bool × Site S)
        → Passed (clock pass) q r
        → ((v : Site S) → (again v).0 < m → Drained (suc pass) (again v))
        → (drain_on payload_of maintenance handler worker r again).0 < suc m
        → Drained pass (drain_on payload_of maintenance handler worker r again)
    drain_on-Drained m pass q again (false, v) h rest less =
        let here : pass + 0 ≡ pass = omega arith in rw here h
    drain_on-Drained m pass q again (true, v) h rest less =
        let later : pass + suc (again v).0 ≡ suc pass + (again v).0 = omega arith in
        rw later (rest v (omega (arith, less)))

    -- A drain that handles fewer jobs than its budget ends at an instant at which no job is
    -- claimable.
    pub drain-Drained :
        (max_jobs pass : ℕ) (w : Site S)
        → (drain payload_of maintenance handler worker clock max_jobs pass w).0 < max_jobs
        → Drained pass (drain payload_of maintenance handler worker clock max_jobs pass w)
    unfolding drain
    drain-Drained ℕ.zero pass w less = absurd (omega (arith, less))
    drain-Drained (suc max_jobs) pass w less =
        drain_on-Drained max_jobs pass (pumped (clock pass) w)
          (drain payload_of maintenance handler worker clock max_jobs (suc pass))
          (run_once payload_of maintenance handler worker (clock pass) w)
          (run_once-Passed (clock pass) w) (drain-Drained max_jobs (suc pass)) less
