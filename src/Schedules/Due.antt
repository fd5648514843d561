-- ===== src/Schedules/Due.antt =====
-- packages/database/src/operations.ts: after a run of `enqueueDueSchedules` nothing is left due.
use native.Mathlib.Decide.{dec_lt}
use ai_neobank.Prelude.{
  ℕ, zero, suc, ◌+◌, ◌-◌, ◌*◌, ◌≤◌, ◌<◌, max, ◌≡◌, refl, inl, inr, false, ◌||◌, leb, if◌then◌else◌,
  arith, Bool-cases, leb→le,
}
use ai_neobank.Schedules.{
  IntervalUnit, ScheduleRecord, Plan, is_due, is_approved, exceeds, ends_before, set_schedule,
  audit_skipped, occurrence_at, count_due, latest_due, advance, create_occurrence,
  insert_occurrence, is_taken, run_occurrence, next_occurrence, enqueue_schedule,
}

-- A longer interval of the same unit, added to the same instant, ends later.
abbrev pub Increases : (IntervalUnit → ℕ → ℕ → ℕ) → Type 0
Increases after =
    (unit : IntervalUnit) (i j start : ℕ) → i < j → after unit i start < after unit j start

leb-lt : (a b : ℕ) → leb a b ≡ false → b < a
leb-lt a b h = ground arith

le_max : (a b : ℕ) → b ≤ max a b
le_max a b = omega arith

not_due : (now : ℕ) (p : Plan) → now < p.schedule.next_run_at → is_due now p ≡ false
not_due now p later = ground arith

pub schedule-audit_skipped :
    (skipped : ℕ) (p : Plan) → (audit_skipped skipped p).schedule ≡ p.schedule
schedule-audit_skipped skipped p = ground arith

pub schedule-insert_occurrence :
    (now occurrence skipped : ℕ) (p : Plan)
    → (insert_occurrence now occurrence skipped p).schedule ≡ p.schedule
unfolding insert_occurrence
schedule-insert_occurrence now occurrence skipped p = elim (Bool-cases (is_taken p occurrence)) [
  | inl taken ↦ rw taken
  | inr free ↦ rw free
]

module _ (after : IntervalUnit → ℕ → ℕ → ℕ) (grows : Increases after) where
  occurrence_at_mono :
      (s : ScheduleRecord) (i j : ℕ)
      → 0 < s.interval_count
      → i < j
      → occurrence_at after s i < occurrence_at after s j
  occurrence_at_mono s i j pos h =
      grows s.interval_unit (s.interval_count * i) (s.interval_count * j) s.start_at (grind arith)

  count_due-le : (now : ℕ) (s : ScheduleRecord) (bound : ℕ) → count_due after now s bound ≤ bound
  unfolding count_due
  count_due-le now s zero = omega arith
  count_due-le now s (suc n) = ground (arith, count_due-le now s n)

  last_not_due :
      (now : ℕ) (s : ScheduleRecord) (n c : ℕ)
      → c ≤ n
      → (c < n → now < occurrence_at after s c)
      → leb (occurrence_at after s n) now ≡ false
      → now < occurrence_at after s c
  last_not_due now s n c le earlier h = elim (dec_lt c n) [
    | yes below ↦ earlier below
    | no equal ↦ let e : c ≡ n = omega arith in rw e (leb-lt (occurrence_at after s n) now h)
  ]

  counted_later :
      (now : ℕ) (s : ScheduleRecord) (n c : ℕ)
      → 0 < s.interval_count
      → c ≤ n
      → (c < n → now < occurrence_at after s c)
      → c + (if leb (occurrence_at after s n) now then 1 else 0) < suc n
      → now < occurrence_at after s (c + (if leb (occurrence_at after s n) now then 1 else 0))
  counted_later now s n c pos le earlier h = elim (Bool-cases (leb (occurrence_at after s n) now)) [
    | inl due ↦
        let below : c < n = omega (arith, rw due at h) in
        let reached = leb→le (occurrence_at after s n) now due in
        absurd (omega (arith, earlier below, occurrence_at_mono s c n pos below))
    | inr later ↦
        let e : c + 0 ≡ c = omega arith in rw (later, e) (last_not_due now s n c le earlier later)
  ]

  -- The occurrences that are due come first, so the count of them is the first that is not.
  count_due-later :
      (now : ℕ) (s : ScheduleRecord) (bound : ℕ)
      → 0 < s.interval_count
      → count_due after now s bound < bound
      → now < occurrence_at after s (count_due after now s bound)
  unfolding count_due
  count_due-later now s zero pos h = absurd (omega arith)
  count_due-later now s (suc n) pos h =
      counted_later now s n (count_due after now s n) pos (count_due-le now s n)
        (count_due-later now s n pos) h

  count_due-unfilled :
      (now : ℕ) (s : ScheduleRecord) (n : ℕ)
      → now < occurrence_at after s n
      → count_due after now s (suc n) ≤ n
  unfolding count_due
  count_due-unfilled now s n later = ground (arith, count_due-le now s n)

  occurrence_at-later :
      (now : ℕ) (s : ScheduleRecord) (i j : ℕ)
      → 0 < s.interval_count
      → i ≤ j
      → now < occurrence_at after s i
      → now < occurrence_at after s j
  occurrence_at-later now s i j pos le h = elim (dec_lt i j) [
    | yes below ↦ omega (arith, occurrence_at_mono s i j pos below)
    | no equal ↦ let e : j ≡ i = omega arith in rw e h
  ]

  next_occurrence-later :
      (now : ℕ) (s : ScheduleRecord)
      → 0 < s.interval_count
      → now < occurrence_at after s 10000
      → now < occurrence_at after s (next_occurrence after now s)
  next_occurrence-later now s pos far =
      let few : count_due after now s 10001 < 10001 =
        omega (arith, count_due-unfilled now s 10000 far) in
      occurrence_at-later now s (latest_due after now s) (next_occurrence after now s) pos
        (le_max (s.occurrences_created + 1) (latest_due after now s))
        (count_due-later now s 10001 pos few)

  next_run_at-create_occurrence :
      (now occurrence skipped : ℕ) (p : Plan)
      → (create_occurrence after now occurrence skipped p).schedule.next_run_at
        ≡ occurrence_at after p.schedule occurrence
  unfolding advance
  next_run_at-create_occurrence now occurrence skipped p = rw (
    schedule-audit_skipped skipped
        (set_schedule (advance after occurrence) (insert_occurrence now occurrence skipped p)),
    schedule-insert_occurrence now occurrence skipped p,
  )

  run_occurrence_not_due :
      (now occurrence : ℕ) (p : Plan)
      → now < occurrence_at after p.schedule occurrence
      → is_due now (run_occurrence after now occurrence p) ≡ false
  unfolding run_occurrence
  run_occurrence_not_due now occurrence p later =
      let skipped = occurrence - (p.schedule.occurrences_created + 1) in
      elim (Bool-cases
        (exceeds occurrence p.schedule.max_occurrences || ends_before p.schedule.end_at now)) [
          | inl ended ↦ rw ended refl
          | inr runs ↦ rw runs (
              not_due now (create_occurrence after now occurrence skipped p)
                (rw (next_run_at-create_occurrence now occurrence skipped p) later))
        ]

  -- However many occurrences were missed, after one run nothing of the schedule is due at that
  -- instant, provided the instant is not past its ten thousandth interval.
  pub enqueue_schedule_caught_up :
      (now : ℕ) (p : Plan)
      → 0 < p.schedule.interval_count
      → now < occurrence_at after p.schedule 10000
      → is_due now (enqueue_schedule after now p) ≡ false
  unfolding enqueue_schedule
  enqueue_schedule_caught_up now p pos far = elim (Bool-cases (is_due now p)) [
    | inr idle ↦ rw idle idle
    | inl due ↦ rw due (elim (Bool-cases (is_approved p.beneficiary_status)) [
      | inr gone ↦ rw gone refl
      | inl fine ↦ rw fine (
          run_occurrence_not_due now (next_occurrence after now p.schedule) p
            (next_occurrence-later now p.schedule pos far))
    ])
  ]
