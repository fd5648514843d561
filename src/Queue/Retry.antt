-- ===== src/Queue/Retry.antt =====
-- packages/database/src/jobs.ts: what `fail` and `defer` make of a job.
use ai_neobank.Prelude.{
  ℕ, suc, ◌+◌, ◌-◌, ◌*◌, ◌^◌, ◌≤◌, min, ◌≡◌, refl, ap, ◌∙◌, inl, inr, ◌&&◌, String, Option, none,
  some, List, [], ◌∷◌, find, ltb, leb, if◌then◌else◌, Bool-cases, arith,
}
use ai_neobank.Prelude.Text.{first}
use ai_neobank.Prelude.Equality.{◌==◌, nat_eq}
use ai_neobank.Queue.{
  Job, retry, dead, Queue, is_claimable, lease, update_job, claim, retry_delay, fail, defer,
}
use ai_neobank.Queue.Lease.{IsLeased, claim-Claimed}

-- The row with an identifier.
abbrev pub job_at : ℕ → List Job → Option Job
job_at id = find (λ j. j.id == id)

-- The row of a job after the updates that end a run.
abbrev apply_to : (Job → Job) → Option Job → Option Job
apply_to f none = none
apply_to f (some j) = some (f j)

job_at-update_job :
    (id : ℕ) (f : Job → Job) (js : List Job) (j : Job)
    → ((k : Job) → (f k).id ≡ k.id)
    → job_at id js ≡ some j
    → job_at id (update_job id f js) ≡ some (f j)
unfolding update_job
job_at-update_job id f [] j same h = ground (arith, h)
job_at-update_job id f (k ∷ js) j same h = elim (Bool-cases (k.id == id)) [
  | inl own ↦ rw (own, ap (λ i. i == id) (same k) ∙ own) (ap (apply_to f) (rw own at h))
  | inr other ↦ rw (other, other) (job_at-update_job id f js j same (rw other at h))
]

power_positive : (n : ℕ) → 1 ≤ 2 ^ n
power_positive ℕ.zero = omega arith
power_positive (suc n) = let h = power_positive n in omega arith

power_two : (n : ℕ) → 1 ≤ n → 2 ≤ 2 ^ n
power_two ℕ.zero h = omega (arith, h)
power_two (suc m) h = let p = power_positive m in omega arith

retry_delay_bounds : (n : ℕ) → 1 ≤ n → (2 ≤ retry_delay n) × (retry_delay n ≤ 300)
retry_delay_bounds n h = let p = power_two (min n 8) (omega arith) in (omega arith, omega arith)

abbrev failed_row : ℕ → Job → String → Job → Job
failed_row now job message j = record j {
  status = if leb job.max_attempts job.attempts then dead else retry;
  leased_until = none;
  run_at = now + retry_delay job.attempts * 1000;
  last_error = some (first 2000 message);
}

-- After `fail`, the job's row next runs between 2 and 300 seconds later, and is claimable from then
-- on if the job has attempts left; if it has used them up, the row is claimable at no instant.
pub fail_backoff :
    (now at : ℕ) (job row : Job) (message : String) (q : Queue)
    → 1 ≤ job.attempts
    → job_at job.id q.jobs ≡ some row
    → (after : Job) × (job_at job.id (fail now job message q).jobs ≡ some after)
      × (is_claimable at after ≡ ltb job.attempts job.max_attempts && leb after.run_at at)
      × (now + 2000 ≤ after.run_at)
      × (after.run_at ≤ now + 300000)
unfolding fail
fail_backoff now at job row message q tried found =
    let (slow, quick) = retry_delay_bounds job.attempts tried in
    (
      failed_row now job message row,
      job_at-update_job job.id (failed_row now job message) q.jobs row (λ k. refl) found,
      ground arith,
      omega arith,
      omega arith,
    )

abbrev deferred_row : ℕ → ℕ → String → Job → Job
deferred_row now delay_seconds note j = record j {
  status = retry;
  leased_until = none;
  attempts = j.attempts - 1;
  run_at = now + delay_seconds * 1000;
  last_error = some (first 2000 note);
}

-- Deferring a job that was just claimed gives the attempt back: its row has the attempts it had
-- before the claim, and it is claimable exactly from the deferred instant on.
pub defer-claim :
    (now later at : ℕ) (worker note : String) (lease_seconds delay : ℕ) (q q' : Queue) (j row : Job)
    → claim now worker lease_seconds q ≡ (some j, q')
    → job_at j.id q.jobs ≡ some row
    → (after : Job) × (job_at j.id (defer later j delay note q').jobs ≡ some after)
      × (after.attempts ≡ row.attempts)
      × (is_claimable at after ≡ leb (later + delay * 1000) at)
unfolding defer
defer-claim now later at worker note lease_seconds delay q q' j row claimed found =
    let l : IsLeased now worker lease_seconds q j q' =
      rw claimed at (claim-Claimed now worker lease_seconds q) in
    let same : j.id ≡ l.row.id = ap (λ i. i.id) l.result in
    let leased : job_at j.id q'.jobs ≡ some (lease now worker lease_seconds row) =
      rw (l.left, same)
        (job_at-update_job l.row.id (lease now worker lease_seconds) q.jobs row (λ k. refl)
          (rw same at found)) in
    (
      deferred_row later delay note (lease now worker lease_seconds row),
      job_at-update_job j.id (deferred_row later delay note) q'.jobs _ (λ k. refl) leased,
      omega arith,
      refl,
    )
