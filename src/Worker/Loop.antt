-- ===== src/Worker/Loop.antt =====
-- apps/worker/src/worker.ts: the worker's loop: `maintain`, `runOnce`, `drain` and the dispatch of
-- `handle`. One worker runs; a pass has one instant. The handlers are an interface, since each acts
-- on rows of its own besides the queue.
pub mod Idle
mod Tests
use ai_neobank.Prelude.{
  ℕ, suc, ◌+◌, ◌-◌, ◌/◌, ◌≡◌, Bool, true, false, not, String, Option, none, some, List, [], ◌∷◌,
  leb, if◌then◌else◌,
}
use ai_neobank.Prelude.Equality.{◌==◌, string_eq}
use ai_neobank.Prelude.Text.{◌++ₜ◌, starts_with, decimal}
use ai_neobank.Prelude.Failure.{
  Exception, error, execution_rejected, deferred, approval_error, operations_error, Result, ok, err,
  Call,
}
use ai_neobank.Prelude.Calls.{answer}
use ai_neobank.Queue.{Job, Queue, enqueue_job, pump_outbox, claim, complete, fail, defer}
use ai_neobank.Worker.{message_of}

-- The queue with the rows that the handlers act on besides.
pub record Site (S : Type 0) : Type 0 where
  pub queue : Queue
  pub rest : S
  pub last_schedule_enqueue : ℕ
  pub last_sync_enqueue : ℕ

-- A handler takes the id in the payload of the job.
pub record Handlers (S : Type 0) : Type 1 where
  pub evaluate_intent : ℕ → Call (Site S) (Unit {0})
  pub expire_approval : ℕ → Call (Site S) (Unit {0})
  pub publish : ℕ → Call (Site S) (Unit {0})
  pub observe_proposal : ℕ → Call (Site S) (Unit {0})
  pub execute : ℕ → Call (Site S) (Unit {0})
  pub confirm : ℕ → Call (Site S) (Unit {0})
  pub publish_rotation : ℕ → Call (Site S) (Unit {0})
  pub observe_rotation : ℕ → Call (Site S) (Unit {0})
  pub execute_rotation : ℕ → Call (Site S) (Unit {0})
  pub fail_rotation : ℕ → String → Call (Site S) (Unit {0})
  pub sync_treasury : ℕ → Call (Site S) (Unit {0})
  pub enqueue_schedules : Call (Site S) (Unit {0})

pub record SyncTarget : Type 0 where
  pub organization_id : ℕ
  pub treasury_id : ℕ

pub record Maintenance : Type 0 where
  pub schedule_interval : ℕ
  pub sync_interval : ℕ
  pub targets : List SyncTarget

-- What becomes of the job, by how its handler ended.
unfoldable pub settle_job : ℕ → Job → Result (Unit {0}) → Queue → Queue
unfolding complete fail defer
settle_job now job (ok _) q = complete job.id q
settle_job now job (err (deferred message seconds)) q = defer now job seconds message q
settle_job now job (err e) q = fail now job (message_of e) q

module _ {S : Type 0} where
  abbrev pub set_queue : Queue → Site S → Site S
  set_queue q w = record w { queue = q }

  abbrev enqueue : ℕ → Option ℕ → String → String → String → Site S → Site S
  enqueue now organization type payload key w =
      set_queue (enqueue_job now organization type payload key w.queue).1 w

  -- `payload_of` prints the payload of a synchronisation.
  abbrev enqueue_syncs : (ℕ → String) → ℕ → ℕ → List SyncTarget → Site S → Site S
  enqueue_syncs payload_of now bucket [] w = w
  enqueue_syncs payload_of now bucket (t ∷ ts) w = enqueue_syncs payload_of now bucket ts (
      enqueue now (some t.organization_id) "treasury.sync" (payload_of t.treasury_id)
        ("sync:" ++ₜ decimal t.treasury_id ++ₜ ":" ++ₜ decimal bucket) w)

  abbrev maintain_schedules : ℕ → Maintenance → Site S → Site S
  maintain_schedules now m w =
      if leb m.schedule_interval (now - w.last_schedule_enqueue)
      then enqueue now none "schedules.enqueue" "{}"
          ("schedules:" ++ₜ decimal (now / m.schedule_interval))
          (record w { last_schedule_enqueue = now })
      else w

  abbrev maintain_syncs : (ℕ → String) → ℕ → Maintenance → Site S → Site S
  maintain_syncs payload_of now m w =
      if leb m.sync_interval (now - w.last_sync_enqueue)
      then enqueue_syncs payload_of now (now / m.sync_interval) m.targets
          (record w { last_sync_enqueue = now })
      else w

  -- `maintain`
  unfoldable pub maintain : (ℕ → String) → ℕ → Option Maintenance → Site S → Site S
  unfolding enqueue_job decimal
  maintain payload_of now none w = w
  maintain payload_of now (some m) w = maintain_syncs payload_of now m (maintain_schedules now m w)

  -- A rotation that is rejected on the way fails; another exception goes on.
  abbrev pub or_fail_rotation :
      (String → Call (Site S) (Unit {0})) → Result (Unit {0}) × Site S → Result (Unit {0}) × Site S
  or_fail_rotation reject (err (execution_rejected reason), w) = reject reason w
  or_fail_rotation reject (r, w) = (r, w)

  abbrev pub with_id :
      String → String → Option ℕ → (ℕ → Call (Site S) (Unit {0})) → Call (Site S) (Unit {0})
  with_id type field none handler = answer (err (error (type ++ₜ " requires " ++ₜ field)))
  with_id type field (some id) handler = handler id

  abbrev unknown : String → Call (Site S) (Unit {0})
  unknown type = answer (err (error ("No handler registered for " ++ₜ type)))

  -- `handle`; `field_of` reads an id from a payload.
  module _ (h : Handlers S) (field_of : String → String → Option ℕ) where
    abbrev pub dispatch_rotation : String → ℕ → Call (Site S) (Unit {0})
    dispatch_rotation type id =
        if type == "rotation.publish"
        then h.publish_rotation id
        else if type == "rotation.observe"
        then h.observe_rotation id
        else if type == "rotation.execute"
        then h.execute_rotation id
        else unknown type

    abbrev pub handle_rotation : String → ℕ → Call (Site S) (Unit {0})
    handle_rotation type id w = or_fail_rotation (h.fail_rotation id) (dispatch_rotation type id w)

    abbrev pub dispatch_intent : String → ℕ → Call (Site S) (Unit {0})
    dispatch_intent type id =
        if type == "intent.evaluate"
        then h.evaluate_intent id
        else if type == "approval.expire"
        then h.expire_approval id
        else if type == "proposal.publish"
        then h.publish id
        else if type == "proposal.observe"
        then h.observe_proposal id
        else if type == "transaction.execute"
        then h.execute id
        else if type == "transaction.confirm"
        then h.confirm id
        else unknown type

    unfoldable pub handle : Job → Call (Site S) (Unit {0})
    handle job =
        if job.type == "schedules.enqueue"
        then h.enqueue_schedules
        else if starts_with job.type "rotation."
        then with_id job.type "rotationId" (field_of "rotationId" job.payload)
            (handle_rotation job.type)
        else if job.type == "treasury.sync"
        then with_id job.type "treasuryId" (field_of "treasuryId" job.payload) h.sync_treasury
        else with_id job.type "intentId" (field_of "intentId" job.payload)
            (dispatch_intent job.type)

  abbrev pub finish : ℕ → Job → Result (Unit {0}) × Site S → Site S
  finish now job (r, w) = set_queue (settle_job now job r w.queue) w

  abbrev one_more : ℕ × Site S → ℕ × Site S
  one_more (handled, w) = (suc handled, w)

  module _ (payload_of : ℕ → String) (maintenance : Option Maintenance)
      (handler : Job → Call (Site S) (Unit {0})) (worker : String) where
    abbrev pub run_claimed : ℕ → Site S → Option Job × Queue → Bool × Site S
    run_claimed now w (none, q) = (false, set_queue q w)
    run_claimed now w (some job, q) = (true, finish now job (handler job (set_queue q w)))

    -- `claim` after `pumpOutbox`: 100 events are pumped, and a lease is 60 seconds.
    abbrev pub run_maintained : ℕ → Site S → Bool × Site S
    run_maintained now w = run_claimed now w (claim now worker 60 (pump_outbox now 100 w.queue).1)

    -- `runOnce`
    unfoldable pub run_once : ℕ → Site S → Bool × Site S
    unfolding maintain claim pump_outbox settle_job
    run_once now w = run_maintained now (maintain payload_of now maintenance w)

    -- One more job is handled if a pass handled one.
    abbrev pub drain_on : Bool × Site S → (Site S → ℕ × Site S) → ℕ × Site S
    drain_on (false, w) again = (0, w)
    drain_on (true, w) again = one_more (again w)

    -- `drain`; `clock` gives the instant of each pass.
    unfoldable pub drain : (ℕ → ℕ) → (max_jobs pass : ℕ) → Site S → ℕ × Site S
    unfolding run_once
    drain clock ℕ.zero pass w = (0, w)
    drain clock (suc max_jobs) pass w =
        drain_on (run_once (clock pass) w) (drain clock max_jobs (suc pass))
