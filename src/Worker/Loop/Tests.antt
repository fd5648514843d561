-- ===== src/Worker/Loop/Tests.antt =====
-- A queue with a job that succeeds and one that is deferred, and the witnesses.
use ai_neobank.Prelude.{ℕ, ◌+◌, ◌≡◌, refl, String, Option, none, some, [], ◌∷◌, map, arith}
use ai_neobank.Prelude.Text.{decimal}
use ai_neobank.Prelude.Failure.{deferred, ok, err, Call}
use ai_neobank.Prelude.Calls.{answer}
use ai_neobank.Queue.{Job, JobStatus, new_job}
use ai_neobank.Worker.Loop.{Site, Handlers, Maintenance, handle, run_once, drain}
use ai_neobank.Worker.Loop.Idle.{Passed, pumped, run_once-Passed, Drained, drain-Drained}

abbrev succeeds : Call (Site (Unit {0})) (Unit {0})
succeeds = answer (ok tt)

abbrev waits : Call (Site (Unit {0})) (Unit {0})
waits = answer (err (deferred "Awaiting finality" 3))

abbrev handlers : Handlers (Unit {0})
handlers = record {
  evaluate_intent = λ id. succeeds;
  expire_approval = λ id. succeeds;
  publish = λ id. succeeds;
  observe_proposal = λ id. succeeds;
  execute = λ id. succeeds;
  confirm = λ id. waits;
  publish_rotation = λ id. succeeds;
  observe_rotation = λ id. succeeds;
  execute_rotation = λ id. succeeds;
  fail_rotation = λ id reason. succeeds;
  sync_treasury = λ id. succeeds;
  enqueue_schedules = succeeds;
}

abbrev field_of : String → String → Option ℕ
field_of field payload = some 7

abbrev handler : Job → Call (Site (Unit {0})) (Unit {0})
handler = handle handlers field_of

abbrev hourly : Option Maintenance
hourly = some (record { schedule_interval = 3600; sync_interval = 3600; targets = [] })

abbrev site : Site (Unit {0})
site = record {
  queue = record {
    jobs =
        new_job 1 1000 none "intent.evaluate" "7" "outbox:7"
        ∷ new_job 2 2000 none "transaction.confirm" "7" "outbox:8"
        ∷ [];
    outbox = [];
    next_id = 3;
  };
  rest = tt;
  last_schedule_enqueue = 9000;
  last_sync_enqueue = 9000;
}

abbrev clock : ℕ → ℕ
clock pass = 10000 + pass

abbrev drained : ℕ × Site (Unit {0})
drained = drain decimal hourly handler "a" clock 50 0 site

handles_two : drained.0 ≡ 2
unfolding drain handle
handles_two = refl

one_is_left :
    map (λ (j : Job). j.status) drained.1.queue.jobs ≡ JobStatus.succeeded ∷ JobStatus.retry ∷ []
unfolding drain handle
one_is_left = refl

run_once-Passed_example :
    Passed decimal hourly handler "a" 10000
      (pumped decimal hourly handler "a" 10000 site)
      (run_once decimal hourly handler "a" 10000 site)
run_once-Passed_example = run_once-Passed decimal hourly handler "a" 10000 site

drain-Drained_example : Drained decimal hourly handler "a" clock 0 drained
unfolding drain handle
drain-Drained_example = drain-Drained decimal hourly handler "a" clock 50 0 site (omega arith)
