-- ===== src/Schedules/Tests.antt =====
-- A monthly payment that was missed three times, and the witnesses. A unit is counted as a day, a
-- week or thirty days.
use ai_neobank.Prelude.{ℕ, ◌+◌, ◌*◌, ◌≡◌, refl, false, none, some, [], map, ◌∷◌, length, arith}
use ai_neobank.Prelude.Text.{decimal}
use ai_neobank.Schedules.{
  IntervalUnit, day, week, month, ScheduleStatus, Occurrence, BeneficiaryStatus, Plan, is_due,
  enqueue_schedule,
}
use ai_neobank.Schedules.Due.{Increases, enqueue_schedule_caught_up}
use ai_neobank.Schedules.Paced.{Ascending, Within, here, next, runs, Lives-Within}

abbrev unit_length : IntervalUnit → ℕ
unit_length day = 1
unit_length week = 7
unit_length month = 30

abbrev after : IntervalUnit → ℕ → ℕ → ℕ
after unit n start = start + unit_length unit * n

after_grows : Increases after
after_grows day i j start h = omega arith
after_grows week i j start h = omega arith
after_grows month i j start h = omega arith

abbrev rent : Plan
rent = record {
  schedule = record {
    id = 4;
    organization_id = 1;
    requester_id = 2;
    asset_id = "usdc";
    amount_base_units = 900;
    purpose = "Rent";
    interval_unit = month;
    interval_count = 1;
    start_at = 10;
    end_at = none;
    max_occurrences = some 6;
    next_run_at = 10;
    occurrences_created = 0;
    status = ScheduleStatus.active;
  };
  beneficiary_status = BeneficiaryStatus.active;
  destination = "0xfeed";
  organization_frozen = false;
  other_keys = [];
  intents = [];
  outbox = [];
  audit = [];
}

abbrev caught_up : Plan
caught_up = enqueue_schedule after 75 rent

pays_the_third : map (λ (i : Occurrence). i.occurrence) caught_up.intents ≡ 3 ∷ []
unfolding enqueue_schedule decimal
pays_the_third = refl

enqueue_schedule_caught_up_example : is_due 75 (enqueue_schedule after 75 rent) ≡ false
enqueue_schedule_caught_up_example =
    enqueue_schedule_caught_up after after_grows 75 rent (omega arith) (omega arith)

Lives-Within_example :
    Ascending 0 caught_up.intents caught_up.schedule.occurrences_created
    × Within (length caught_up.intents) caught_up.schedule.max_occurrences
Lives-Within_example =
    Lives-Within after rent caught_up refl refl (next here (runs 75 rent caught_up refl))
