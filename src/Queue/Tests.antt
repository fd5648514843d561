-- ===== src/Queue/Tests.antt =====
-- Two jobs, one of which is claimed, fails or is deferred, and the witnesses.
use ai_neobank.Prelude.{
  ◌+◌, ◌≤◌, ◌≡◌, refl, ◌≢◌, ◌&&◌, ltb, leb, Option, none, some, [], ◌∷◌, arith, inl,
}
use ai_neobank.Queue.{Job, Queue, new_job, is_claimable, claim, fail, pump_outbox}
use ai_neobank.Queue.Lease.{Claimed, claim-Claimed, claim_exclusive}
use ai_neobank.Queue.Retry.{job_at, fail_backoff}
use ai_neobank.Queue.Outbox.{IsOnce, pump_outbox-IsOnce}

abbrev first_job : Job
first_job = new_job 1 1000 none "intent.evaluate" "7" "outbox:7"

abbrev second_job : Job
second_job = new_job 2 2000 none "intent.evaluate" "8" "outbox:8"

abbrev queue : Queue
queue = record {
  jobs = first_job ∷ second_job ∷ [];
  outbox =
      record {
        id = 9;
        organization_id = none;
        topic = "transaction.execute";
        payload = "7";
        available_at = 2000;
        processed_at = none;
        claimed_at = none;
        attempts = 0;
      }
      ∷ [];
  next_id = 3;
}

abbrev or_job : Option Job → Job
or_job (some j) = j
or_job none = first_job

abbrev claimed : Job
claimed = or_job (claim 3000 "a" 60 queue).0

abbrev leased : Queue
leased = (claim 3000 "a" 60 queue).1

abbrev other : Job
other = or_job (claim 4000 "b" 60 leased).0

claims : claim 3000 "a" 60 queue ≡ (some claimed, leased)
unfolding claim
claims = refl

claim-Claimed_example : Claimed 3000 "a" 60 queue (claim 3000 "a" 60 queue)
claim-Claimed_example = claim-Claimed 3000 "a" 60 queue

claim_exclusive_example : other.id ≢ claimed.id
unfolding claim
claim_exclusive_example =
    claim_exclusive 3000 4000 "a" "b" 60 60 queue leased (claim 4000 "b" 60 leased).1 claimed other
      claims (omega arith) refl

fail_backoff_example :
    (after : Job) × (job_at 1 (fail 3500 claimed "RPC" leased).jobs ≡ some after)
    × (is_claimable 9000 after ≡ ltb 1 10 && leb after.run_at 9000)
    × (3500 + 2000 ≤ after.run_at)
    × (after.run_at ≤ 3500 + 300000)
unfolding claim
fail_backoff_example = fail_backoff 3500 9000 claimed claimed "RPC" leased (omega arith) refl

abbrev empty_queue : Queue
empty_queue = record queue { jobs = [] }

empty_queue-IsOnce : IsOnce empty_queue
empty_queue-IsOnce = record { unrepeated = tt; pumped = (inl refl, tt) }

pump_outbox-IsOnce_example : IsOnce (pump_outbox 3000 100 empty_queue).1
pump_outbox-IsOnce_example = pump_outbox-IsOnce 3000 100 empty_queue empty_queue-IsOnce
