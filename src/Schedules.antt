-- ===== src/Schedules.antt =====
-- packages/database/src/operations.ts: recipients and recurring payments. The rows are those that
-- one schedule selects: itself, its beneficiary, its organisation and treasury, and its intents.
-- Interval arithmetic is PostgreSQL's: `after unit n start` is `start + n units`.
pub mod Due
pub mod Paced
mod Tests
use ai_neobank.Prelude.{
  ℕ, zero, suc, ◌+◌, ◌-◌, ◌*◌, max, Bool, true, false, not, ◌&&◌, ◌||◌, String, Option, none, some,
  List, [], ◌∷◌, ◌++◌, leb, ltb, any, includes, if◌then◌else◌,
}
use ai_neobank.Prelude.Equality.{◌==◌, nat_eq, string_eq, option_eq}
use ai_neobank.Prelude.Text.{◌++ₜ◌, decimal}
use ai_neobank.Prelude.Failure.{operations_error, error, Result, ok, err, Tx}
use ai_neobank.Payment.Rows.{AuditEvent}

pub data BeneficiaryStatus : Type 0 where
  pending active archived : BeneficiaryStatus

pub data IntervalUnit : Type 0 where
  day week month : IntervalUnit

pub data ScheduleStatus : Type 0 where
  active paused completed cancelled : ScheduleStatus

pub record ScheduleRecord : Type 0 where
  pub id : ℕ
  pub organization_id : ℕ
  pub requester_id : ℕ
  pub asset_id : String
  pub amount_base_units : ℕ
  pub purpose : String
  pub interval_unit : IntervalUnit
  pub interval_count : ℕ
  pub start_at : ℕ
  pub end_at : Option ℕ
  pub max_occurrences : Option ℕ
  pub next_run_at : ℕ
  pub occurrences_created : ℕ
  pub status : ScheduleStatus

-- An intent that a schedule inserts; it starts in `received`.
pub record Occurrence : Type 0 where
  pub occurrence : ℕ
  pub idempotency_key : String
  pub asset_id : String
  pub amount_base_units : ℕ
  pub destination : String
  pub purpose : String
  pub expires_at : ℕ
  pub skipped : ℕ

pub record Plan : Type 0 where
  pub schedule : ScheduleRecord
  pub beneficiary_status : BeneficiaryStatus
  pub destination : String
  pub organization_frozen : Bool
  -- the idempotency keys of the requester's other intents
  pub other_keys : List String
  pub intents : List Occurrence
  -- the occurrences whose evaluation is queued
  pub outbox : List ℕ
  pub audit : List AuditEvent

abbrev pub is_approved : BeneficiaryStatus → Bool
is_approved BeneficiaryStatus.active = true
is_approved _ = false

abbrev pub is_pending : BeneficiaryStatus → Bool
is_pending BeneficiaryStatus.pending = true
is_pending _ = false

abbrev pub is_running : ScheduleStatus → Bool
is_running ScheduleStatus.active = true
is_running _ = false

-- `status in ('active', 'paused')`
abbrev pub is_changeable : ScheduleStatus → Bool
is_changeable ScheduleStatus.active = true
is_changeable ScheduleStatus.paused = true
is_changeable _ = false

abbrev pub set_schedule : (ScheduleRecord → ScheduleRecord) → Plan → Plan
set_schedule f p = record p { schedule = f p.schedule }

abbrev pub set_status : ScheduleStatus → Plan → Plan
set_status status = set_schedule (λ s. record s { status = status })

abbrev pub add_audit : Option ℕ → String → Plan → Plan
add_audit actor action p = record p {
  audit = p.audit ++ record { actor = actor; action = action } ∷ [];
}

-- The row of the checks in `createSchedule`.
pub record ScheduleCheck : Type 0 where
  pub treasury_network : String
  pub beneficiary_network : String
  pub beneficiary_status : BeneficiaryStatus
  pub asset_network : Option String

pub record ScheduleInput : Type 0 where
  pub asset_id : String
  pub amount_base_units : ℕ
  pub purpose : String
  pub interval_unit : IntervalUnit
  pub interval_count : ℕ
  pub start_at : ℕ
  pub end_at : Option ℕ
  pub max_occurrences : Option ℕ

abbrev pub new_schedule : ℕ → ℕ → ℕ → ScheduleInput → ScheduleRecord
new_schedule id organization actor input = record {
  id = id;
  organization_id = organization;
  requester_id = actor;
  asset_id = input.asset_id;
  amount_base_units = input.amount_base_units;
  purpose = input.purpose;
  interval_unit = input.interval_unit;
  interval_count = input.interval_count;
  start_at = input.start_at;
  end_at = input.end_at;
  max_occurrences = input.max_occurrences;
  next_run_at = input.start_at;
  occurrences_created = 0;
  status = ScheduleStatus.active;
}

abbrev check_schedule : ScheduleCheck → ScheduleRecord → Result ScheduleRecord
check_schedule check row =
    if not (is_approved check.beneficiary_status)
    then err (operations_error "beneficiary_not_active")
    else if not (check.beneficiary_network == check.treasury_network)
    then err (operations_error "network_mismatch")
    else if not (check.asset_network == some check.treasury_network)
    then err (operations_error "asset_mismatch")
    else ok row

-- `createSchedule`
unfoldable pub create_schedule :
    ℕ → ℕ → ℕ → ScheduleInput → Option ScheduleCheck → Result ScheduleRecord
create_schedule id organization actor input none = err (operations_error "not_found")
create_schedule id organization actor input (some check) =
    check_schedule check (new_schedule id organization actor input)

-- `approveBeneficiary`
unfoldable pub approve_beneficiary : ℕ → Tx Plan (Unit {0})
approve_beneficiary actor p =
    if is_pending p.beneficiary_status
    then ok (
      tt,
      add_audit (some actor) "beneficiary.approved"
          (record p { beneficiary_status = BeneficiaryStatus.active }),
    )
    else err (operations_error "beneficiary_not_pending")

-- `archiveBeneficiary`: the running schedules of the beneficiary are paused.
unfoldable pub archive_beneficiary : ℕ → Plan → Plan
archive_beneficiary actor p = add_audit (some actor) "beneficiary.archived" (record p {
  beneficiary_status = BeneficiaryStatus.archived;
  schedule = record (p.schedule) {
    status = if is_running p.schedule.status then ScheduleStatus.paused else p.schedule.status;
  };
})

-- The statuses that `setScheduleStatus` takes.
pub data StatusChange : Type 0 where
  resume pause cancel : StatusChange

abbrev pub status_after : StatusChange → ScheduleStatus
status_after resume = ScheduleStatus.active
status_after pause = ScheduleStatus.paused
status_after cancel = ScheduleStatus.cancelled

abbrev change_text : StatusChange → String
change_text resume = "schedule.active"
change_text pause = "schedule.paused"
change_text cancel = "schedule.cancelled"

-- `case when $3 = 'active' and next_run_at < now() then now() else next_run_at end`
abbrev pub next_run_after : ℕ → StatusChange → ℕ → ℕ
next_run_after now resume next = if ltb next now then now else next
next_run_after now _ next = next

-- `setScheduleStatus`
unfoldable pub set_schedule_status : ℕ → StatusChange → ℕ → Tx Plan (Unit {0})
set_schedule_status now change actor p =
    if is_changeable p.schedule.status
    then ok (
      tt,
      add_audit (some actor) (change_text change) (
          set_schedule
            (λ s. record s {
              status = status_after change;
              next_run_at = next_run_after now change s.next_run_at;
            })
            p),
    )
    else err (operations_error "schedule_not_changeable")

-- `s.status = 'active' and s.next_run_at <= now() and not o.frozen`
abbrev pub is_due : ℕ → Plan → Bool
is_due now p =
    is_running p.schedule.status && leb p.schedule.next_run_at now && not p.organization_frozen

abbrev pub occurrence_key : ScheduleRecord → ℕ → String
occurrence_key s occurrence = "schedule:" ++ₜ decimal s.id ++ₜ ":" ++ₜ decimal occurrence

-- `interval '3 days'`, in milliseconds
abbrev three_days : ℕ
three_days = 259200000

abbrev pub occurrence_of : ℕ → Plan → ℕ → ℕ → Occurrence
occurrence_of now p occurrence skipped = record {
  occurrence = occurrence;
  idempotency_key = occurrence_key p.schedule occurrence;
  asset_id = p.schedule.asset_id;
  amount_base_units = p.schedule.amount_base_units;
  destination = p.destination;
  purpose = p.schedule.purpose ++ₜ " (payment " ++ₜ decimal occurrence ++ₜ ")";
  expires_at = now + three_days;
  skipped = skipped;
}

-- `on conflict do nothing`: the occurrence or the idempotency key is taken.
unfoldable pub is_taken : Plan → ℕ → Bool
is_taken p occurrence =
    any (λ (i : Occurrence). i.occurrence == occurrence) p.intents
    || includes p.other_keys (occurrence_key p.schedule occurrence)

unfoldable pub insert_occurrence : ℕ → ℕ → ℕ → Plan → Plan
unfolding is_taken
insert_occurrence now occurrence skipped p = if is_taken p occurrence then p else record p {
  intents = p.intents ++ occurrence_of now p occurrence skipped ∷ [];
  outbox = p.outbox ++ occurrence ∷ [];
}

abbrev pub exceeds : ℕ → Option ℕ → Bool
exceeds occurrence none = false
exceeds occurrence (some most) = ltb most occurrence

abbrev pub reaches : ℕ → Option ℕ → Bool
reaches occurrence none = false
reaches occurrence (some most) = leb most occurrence

-- `end_at is not null and end_at < at`
abbrev pub ends_before : Option ℕ → ℕ → Bool
ends_before none at = false
ends_before (some end_at) at = ltb end_at at

abbrev pub audit_skipped : ℕ → Plan → Plan
audit_skipped skipped p =
    if ltb 0 skipped then add_audit none "schedule.occurrences_skipped" p else p

module _ (after : IntervalUnit → ℕ → ℕ → ℕ) where
  abbrev pub occurrence_at : ScheduleRecord → ℕ → ℕ
  occurrence_at s n = after s.interval_unit (s.interval_count * n) s.start_at

  -- `count(*) from generate_series(0, 10000) n where ... <= now()`, over `n < bound`
  unfoldable pub count_due : ℕ → ScheduleRecord → ℕ → ℕ
  count_due now s zero = 0
  count_due now s (suc n) = count_due now s n + (if leb (occurrence_at s n) now then 1 else 0)

  abbrev pub latest_due : ℕ → ScheduleRecord → ℕ
  latest_due now s = count_due now s 10001

  -- The update after an occurrence.
  unfoldable pub advance : ℕ → ScheduleRecord → ScheduleRecord
  advance occurrence s = record s {
    occurrences_created = occurrence;
    next_run_at = occurrence_at s occurrence;
    status =
        if reaches occurrence s.max_occurrences
        then ScheduleStatus.completed
        else if ends_before s.end_at (occurrence_at s occurrence)
        then ScheduleStatus.completed
        else s.status;
  }

  abbrev pub create_occurrence : ℕ → ℕ → ℕ → Plan → Plan
  create_occurrence now occurrence skipped p =
      audit_skipped skipped
        (set_schedule (advance occurrence) (insert_occurrence now occurrence skipped p))

  -- The body of the loop on a schedule whose beneficiary is approved.
  unfoldable pub run_occurrence : ℕ → ℕ → Plan → Plan
  unfolding insert_occurrence advance
  run_occurrence now occurrence p =
      if exceeds occurrence p.schedule.max_occurrences || ends_before p.schedule.end_at now
      then set_status ScheduleStatus.completed p
      else create_occurrence now occurrence (occurrence - (p.schedule.occurrences_created + 1)) p

  abbrev pub next_occurrence : ℕ → ScheduleRecord → ℕ
  next_occurrence now s = max (s.occurrences_created + 1) (latest_due now s)

  -- `enqueueDueSchedules`, on the rows of one schedule.
  unfoldable pub enqueue_schedule : ℕ → Plan → Plan
  unfolding run_occurrence count_due
  enqueue_schedule now p =
      if not (is_due now p)
      then p
      else if not (is_approved p.beneficiary_status)
      then set_status ScheduleStatus.paused p
      else run_occurrence now (next_occurrence now p.schedule) p
