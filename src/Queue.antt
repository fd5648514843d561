-- ===== src/Queue.antt =====
-- packages/database/src/jobs.ts: the outbox and the leased jobs of `PostgresJobQueue`. The tables
-- are lists in the order of insertion, which is the order of `created_at`; the next identifier that
-- an insert generates is kept beside them. Instants are milliseconds.
pub mod Lease
pub mod Retry
pub mod Outbox
mod Tests
use ai_neobank.Prelude.{
  ℕ, zero, suc, ◌+◌, ◌-◌, ◌*◌, ◌^◌, min, ◌≡◌, Bool, true, false, ◌&&◌, ◌||◌, String, Option, none,
  some, List, [], ◌∷◌, ◌++◌, map, any, find, ltb, leb, if◌then◌else◌,
}
use ai_neobank.Prelude.Equality.{◌==◌, nat_eq, string_eq, option_eq}
use ai_neobank.Prelude.Text.{◌++ₜ◌, first, decimal}

pub data JobStatus : Type 0 where
  queued running succeeded retry dead : JobStatus

pub record Job : Type 0 where
  pub id : ℕ
  pub organization_id : Option ℕ
  pub type : String
  pub payload : String
  pub claimed_by : Option String
  pub dedupe_key : Option String
  pub status : JobStatus
  pub run_at : ℕ
  pub created_at : ℕ
  pub leased_until : Option ℕ
  pub attempts : ℕ
  pub max_attempts : ℕ
  pub last_error : Option String

pub record OutboxRow : Type 0 where
  pub id : ℕ
  pub organization_id : Option ℕ
  pub topic : String
  pub payload : String
  pub available_at : ℕ
  pub processed_at : Option ℕ
  pub claimed_at : Option ℕ
  pub attempts : ℕ

pub record Queue : Type 0 where
  pub jobs : List Job
  pub outbox : List OutboxRow
  pub next_id : ℕ

-- A row of `jobs` with the columns' defaults.
abbrev pub new_job : ℕ → ℕ → Option ℕ → String → String → String → Job
new_job id now organization type payload dedupe_key = record {
  id = id;
  organization_id = organization;
  type = type;
  payload = payload;
  claimed_by = none;
  dedupe_key = some dedupe_key;
  status = queued;
  run_at = now;
  created_at = now;
  leased_until = none;
  attempts = 0;
  max_attempts = 10;
  last_error = none;
}

abbrev pub has_key : String → List Job → Bool
has_key key = any (λ j. j.dedupe_key == some key)

-- `insert into jobs … on conflict (dedupe_key) do nothing`: whether a row was inserted.
unfoldable pub enqueue_job : ℕ → Option ℕ → String → String → String → Queue → Bool × Queue
enqueue_job now organization type payload dedupe_key q =
    if has_key dedupe_key q.jobs then (false, q) else (
      true,
      record q {
        jobs = q.jobs ++ new_job q.next_id now organization type payload dedupe_key ∷ [];
        next_id = q.next_id + 1;
      },
    )

abbrev pub is_due : ℕ → OutboxRow → Bool
is_due now o = elim o.processed_at [ none ↦ leb o.available_at now | some at ↦ false ]

abbrev pub outbox_key : OutboxRow → String
outbox_key o = "outbox:" ++ₜ decimal o.id

abbrev pub processed : ℕ → OutboxRow → OutboxRow
processed now o = record o {
  processed_at = some now;
  claimed_at = some (elim o.claimed_at [ none ↦ now | some at ↦ at ]);
  attempts = o.attempts + 1;
}

-- The rows of one pass of `pumpOutbox`: the due ones among them, up to the limit, become jobs.
unfoldable pub pump_rows : ℕ → ℕ → List OutboxRow → Queue → ℕ × Queue
unfolding enqueue_job
pump_rows now limit [] q = (0, q)
pump_rows now zero (o ∷ os) q = (0, record q { outbox = q.outbox ++ o ∷ os })
pump_rows now (suc limit) (o ∷ os) q =
    if is_due now o
    then (let (_, added) = enqueue_job now o.organization_id o.topic o.payload (outbox_key o) q in
        let (n, out) =
          pump_rows now limit os (record added { outbox = added.outbox ++ processed now o ∷ [] }) in
        (n + 1, out))
    else pump_rows now (suc limit) os (record q { outbox = q.outbox ++ o ∷ [] })

-- `pumpOutbox`: how many events were pumped.
unfoldable pub pump_outbox : ℕ → ℕ → Queue → ℕ × Queue
unfolding pump_rows
pump_outbox now limit q = pump_rows now limit q.outbox (record q { outbox = [] })

-- A waiting job that is due, or a running one whose lease has lapsed.
abbrev has_lapsed : ℕ → Option ℕ → Bool
has_lapsed now none = false
has_lapsed now (some until) = ltb until now

abbrev pub is_claimable : ℕ → Job → Bool
is_claimable now j = elim j.status [
  | queued ↦ leb j.run_at now
  | retry ↦ leb j.run_at now
  | running ↦ has_lapsed now j.leased_until
  | succeeded ↦ false
  | dead ↦ false
]

-- `order by run_at, created_at`
abbrev pub goes_before : Job → Job → Bool
goes_before a b = ltb a.run_at b.run_at || a.run_at == b.run_at && leb a.created_at b.created_at

abbrev pub prefer : Job → Option Job → Option Job
prefer j none = some j
prefer j (some k) = if goes_before j k then some j else some k

unfoldable pub candidate : ℕ → List Job → Option Job
candidate now [] = none
candidate now (j ∷ js) =
    let rest = candidate now js in if is_claimable now j then prefer j rest else rest

abbrev pub lease : ℕ → String → ℕ → Job → Job
lease now worker lease_seconds j = record j {
  status = running;
  leased_until = some (now + lease_seconds * 1000);
  attempts = j.attempts + 1;
  last_error = none;
  claimed_by = some worker;
}

-- `update jobs … where id = …`
unfoldable pub update_job : ℕ → (Job → Job) → List Job → List Job
update_job id f [] = []
update_job id f (j ∷ js) = (if j.id == id then f j else j) ∷ update_job id f js

abbrev pub take_lease : ℕ → String → ℕ → Queue → Option Job → Option Job × Queue
take_lease now worker lease_seconds q none = (none, q)
take_lease now worker lease_seconds q (some j) = (
  some (lease now worker lease_seconds j),
  record q { jobs = update_job j.id (lease now worker lease_seconds) q.jobs },
)

-- `claim`: the job as it is after the update, if there was a candidate.
unfoldable pub claim : ℕ → String → ℕ → Queue → Option Job × Queue
unfolding candidate update_job
claim now worker lease_seconds q = take_lease now worker lease_seconds q (candidate now q.jobs)

abbrev pub if_running : (Job → Job) → Job → Job
if_running f j = elim j.status [ running ↦ f j | _ ↦ j ]

-- `heartbeat`
unfoldable pub heartbeat : ℕ → ℕ → ℕ → Queue → Queue
unfolding update_job
heartbeat now id lease_seconds q = record q {
  jobs =
      update_job id
        (if_running (λ j. record j { leased_until = some (now + lease_seconds * 1000) })) q.jobs;
}

-- `complete`
unfoldable pub complete : ℕ → Queue → Queue
unfolding update_job
complete id q = record q {
  jobs =
      update_job id (if_running (λ j. record j { status = succeeded; leased_until = none })) q.jobs;
}

abbrev pub retry_delay : ℕ → ℕ
retry_delay attempts = min 300 (2 ^ min attempts 8)

-- `fail`: the attempts are those of the record that the worker claimed.
unfoldable pub fail : ℕ → Job → String → Queue → Queue
unfolding update_job
fail now job message q = record q {
  jobs =
      update_job job.id
        (λ j. record j {
          status = if leb job.max_attempts job.attempts then dead else retry;
          leased_until = none;
          run_at = now + retry_delay job.attempts * 1000;
          last_error = some (first 2000 message);
        })
        q.jobs;
}

-- `defer`
unfoldable pub defer : ℕ → Job → ℕ → String → Queue → Queue
unfolding update_job
defer now job delay_seconds note q = record q {
  jobs =
      update_job job.id
        (λ j. record j {
          status = retry;
          leased_until = none;
          attempts = j.attempts - 1;
          run_at = now + delay_seconds * 1000;
          last_error = some (first 2000 note);
        })
        q.jobs;
}
