-- ===== src/Schedules/Paced.antt =====
-- packages/database/src/operations.ts: how often a schedule pays, over its whole life.
use ai_neobank.Prelude.{
  ℕ, ◌+◌, ◌≤◌, ◌<◌, max, ◌≡◌, refl, ap, inl, inr, Bool, false, ◌||◌, Option, none, some, List, [],
  ◌∷◌, ◌++◌, length, arith, Bool-cases, or_left,
}
use ai_neobank.Prelude.Failure.{Result, ok, err}
use ai_neobank.Schedules.{
  IntervalUnit, Occurrence, Plan, StatusChange, is_due, is_approved, is_pending, is_changeable,
  exceeds, ends_before, set_schedule, audit_skipped, advance, create_occurrence, insert_occurrence,
  is_taken, run_occurrence, next_occurrence, latest_due, enqueue_schedule, approve_beneficiary,
  archive_beneficiary, set_schedule_status, occurrence_of,
}
use ai_neobank.Schedules.Due.{schedule-audit_skipped, schedule-insert_occurrence}

-- The occurrences of some intents rise from above one number to at most another.
abbrev pub Ascending : ℕ → List Occurrence → ℕ → Type 0
Ascending low [] high = low ≤ high
Ascending low (i ∷ intents) high = (low < i.occurrence) × Ascending i.occurrence intents high

abbrev pub Within : ℕ → Option ℕ → Type 0
Within n none = Unit
Within n (some most) = n ≤ most

-- Each occurrence is paid at most once and in order, and no more of them than are allowed.
pub record IsPaced (p : Plan) : Type 0 where
  pub ascending : Ascending 0 p.intents p.schedule.occurrences_created
  pub within : Within p.schedule.occurrences_created p.schedule.max_occurrences

Ascending-mono :
    (low high higher : ℕ) (intents : List Occurrence)
    → high ≤ higher
    → Ascending low intents high
    → Ascending low intents higher
Ascending-mono low high higher [] le h = omega arith
Ascending-mono low high higher (i ∷ intents) le h =
    (h.0, Ascending-mono i.occurrence high higher intents le h.1)

Ascending-append :
    (low high : ℕ) (intents : List Occurrence) (i : Occurrence)
    → high < i.occurrence
    → Ascending low intents high
    → Ascending low (intents ++ i ∷ []) i.occurrence
Ascending-append low high [] i lt h = (omega arith, omega arith)
Ascending-append low high (j ∷ intents) i lt h =
    (h.0, Ascending-append j.occurrence high intents i lt h.1)

length-Ascending :
    (low high : ℕ) (intents : List Occurrence)
    → Ascending low intents high
    → length intents + low ≤ high
length-Ascending low high [] h = omega (arith, h)
length-Ascending low high (i ∷ intents) h =
    omega (arith, h.0, length-Ascending i.occurrence high intents h.1)

Within-exceeds : (n : ℕ) (most : Option ℕ) → exceeds n most ≡ false → Within n most
Within-exceeds n none h = tt
Within-exceeds n (some most) h = ground arith

Within-zero : (most : Option ℕ) → Within 0 most
Within-zero none = tt
Within-zero (some most) = omega arith

Within-le : (n m : ℕ) (most : Option ℕ) → n ≤ m → Within m most → Within n most
Within-le n m none le h = tt
Within-le n m (some most) le h = omega arith

next_larger : (n : ℕ) (m : ℕ) → n < max (n + 1) m
next_larger n m = omega arith

IsPaced-with :
    (p q : Plan)
    → q.intents ≡ p.intents
    → q.schedule.occurrences_created ≡ p.schedule.occurrences_created
    → q.schedule.max_occurrences ≡ p.schedule.max_occurrences
    → IsPaced p
    → IsPaced q
IsPaced-with p q same count most k = record {
  ascending = rw (same, count) k.ascending;
  within = rw (count, most) k.within;
}

module _ (after : IntervalUnit → ℕ → ℕ → ℕ) where
  intents-audit_skipped : (skipped : ℕ) (p : Plan) → (audit_skipped skipped p).intents ≡ p.intents
  intents-audit_skipped skipped p = ground arith

  inserted-Ascending :
      (now occurrence skipped : ℕ) (p : Plan)
      → p.schedule.occurrences_created < occurrence
      → IsPaced p
      → Ascending 0 (insert_occurrence now occurrence skipped p).intents occurrence
  unfolding insert_occurrence
  inserted-Ascending now occurrence skipped p next k = elim (Bool-cases (is_taken p occurrence)) [
    | inl taken ↦ rw taken (
        Ascending-mono 0 p.schedule.occurrences_created occurrence p.intents (omega arith)
          k.ascending)
    | inr free ↦ rw free (
        Ascending-append 0 p.schedule.occurrences_created p.intents
          (occurrence_of now p occurrence skipped) next k.ascending)
  ]

  create_occurrence-IsPaced :
      (now occurrence skipped : ℕ) (p : Plan)
      → p.schedule.occurrences_created < occurrence
      → exceeds occurrence p.schedule.max_occurrences ≡ false
      → IsPaced p
      → IsPaced (create_occurrence after now occurrence skipped p)
  unfolding advance
  create_occurrence-IsPaced now occurrence skipped p next fits k =
      let q = insert_occurrence now occurrence skipped p in
      let same = schedule-insert_occurrence now occurrence skipped p in
      IsPaced-with (set_schedule (advance after occurrence) q)
        (audit_skipped skipped (set_schedule (advance after occurrence) q))
        (intents-audit_skipped skipped _)
        (ap (λ s. s.occurrences_created) (schedule-audit_skipped skipped _))
        (ap (λ s. s.max_occurrences) (schedule-audit_skipped skipped _))
        (record {
          ascending = inserted-Ascending now occurrence skipped p next k;
          within = rw same (Within-exceeds occurrence p.schedule.max_occurrences fits);
        })

  run_occurrence-IsPaced :
      (now occurrence : ℕ) (p : Plan)
      → p.schedule.occurrences_created < occurrence
      → IsPaced p
      → IsPaced (run_occurrence after now occurrence p)
  unfolding run_occurrence
  run_occurrence-IsPaced now occurrence p next k =
      elim (Bool-cases
        (exceeds occurrence p.schedule.max_occurrences || ends_before p.schedule.end_at now)) [
          | inl ended ↦ rw ended (IsPaced-with p _ refl refl refl k)
          | inr runs ↦
              rw runs (create_occurrence-IsPaced now occurrence _ p next (or_left _ _ runs) k)
        ]

  enqueue_schedule-IsPaced :
      (now : ℕ) (p : Plan) → IsPaced p → IsPaced (enqueue_schedule after now p)
  unfolding enqueue_schedule
  enqueue_schedule-IsPaced now p k = elim (Bool-cases (is_due now p)) [
    | inr idle ↦ rw idle k
    | inl due ↦ rw due (elim (Bool-cases (is_approved p.beneficiary_status)) [
      | inr gone ↦ rw gone (IsPaced-with p _ refl refl refl k)
      | inl fine ↦ rw fine (
          run_occurrence-IsPaced now (next_occurrence after now p.schedule) p
            (next_larger p.schedule.occurrences_created (latest_due after now p.schedule)) k)
    ])
  ]

  -- What happens to a schedule: a run of the worker, a change of its status, and the approval or
  -- the archiving of its recipient; the organisation may be frozen or thawed between them.
  pub data Happens : Plan → Plan → Type 0 where
    runs : (now : ℕ) (p q : Plan) → enqueue_schedule after now p ≡ q → Happens p q
    changes :
        (now actor : ℕ) (change : StatusChange) (p q : Plan)
        → set_schedule_status now change actor p ≡ ok (tt, q)
        → Happens p q
    approves : (actor : ℕ) (p q : Plan) → approve_beneficiary actor p ≡ ok (tt, q) → Happens p q
    archives : (actor : ℕ) (p q : Plan) → archive_beneficiary actor p ≡ q → Happens p q
    freezes : (b : Bool) (p q : Plan) → record p { organization_frozen = b } ≡ q → Happens p q

  pub data Lives (p : Plan) : Plan → Type 0 where
    here : Lives p p
    next : {q r : Plan} → Lives p q → Happens q r → Lives p r

  abbrev Paced : Result (Unit {0} × Plan) → Type 0
  Paced (ok (_, q)) = IsPaced q
  Paced (err e) = Unit

  set_schedule_status-Paced :
      (now actor : ℕ) (change : StatusChange) (p : Plan)
      → IsPaced p
      → Paced (set_schedule_status now change actor p)
  unfolding set_schedule_status
  set_schedule_status-Paced now actor change p k =
      elim (Bool-cases (is_changeable p.schedule.status)) [
        | inl open_still ↦ rw open_still (IsPaced-with p _ refl refl refl k)
        | inr over ↦ rw over tt
      ]

  approve_beneficiary-Paced :
      (actor : ℕ) (p : Plan) → IsPaced p → Paced (approve_beneficiary actor p)
  unfolding approve_beneficiary
  approve_beneficiary-Paced actor p k = elim (Bool-cases (is_pending p.beneficiary_status)) [
    | inl waits ↦ rw waits (IsPaced-with p _ refl refl refl k)
    | inr over ↦ rw over tt
  ]

  Happens-IsPaced : {p q : Plan} → IsPaced p → Happens p q → IsPaced q
  unfolding archive_beneficiary
  Happens-IsPaced k (runs now p q e) = rw e at (enqueue_schedule-IsPaced now p k)
  Happens-IsPaced k (changes now actor change p q e) =
      rw e at (set_schedule_status-Paced now actor change p k)
  Happens-IsPaced k (approves actor p q e) = rw e at (approve_beneficiary-Paced actor p k)
  Happens-IsPaced k (archives actor p q e) = rw (← e) (IsPaced-with p _ refl refl refl k)
  Happens-IsPaced k (freezes b p q e) = rw (← e) (IsPaced-with p _ refl refl refl k)

  Lives-IsPaced : {p q : Plan} → IsPaced p → Lives p q → IsPaced q
  Lives-IsPaced k here = k
  Lives-IsPaced k (next l h) = Happens-IsPaced (Lives-IsPaced k l) h

  -- Whatever happens to a schedule from its creation on, its intents are for rising occurrences,
  -- so that none is paid twice, and there are at most as many of them as it allows.
  pub Lives-Within :
      (p q : Plan)
      → p.intents ≡ []
      → p.schedule.occurrences_created ≡ 0
      → Lives p q
      → Ascending 0 q.intents q.schedule.occurrences_created
        × Within (length q.intents) q.schedule.max_occurrences
  Lives-Within p q fresh none_yet l =
      let k =
        Lives-IsPaced
          (record {
            ascending = rw (fresh, none_yet) (omega arith);
            within = rw none_yet (Within-zero p.schedule.max_occurrences);
          })
          l in
      (
        k.ascending,
        Within-le (length q.intents) q.schedule.occurrences_created _
            (omega (arith, length-Ascending 0 q.schedule.occurrences_created q.intents k.ascending))
            k.within,
      )
