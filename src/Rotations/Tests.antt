-- ===== src/Rotations/Tests.antt =====
-- A Squads treasury whose executor is replaced, and the witnesses.
use ai_neobank.Prelude.{ℕ, ◌≡◌, refl, none, some, [], ◌∷◌, true, arith}
use ai_neobank.Prelude.Failure.{Result, ok, err, operations_error}
use ai_neobank.Domain.{svm, squads}
use ai_neobank.Rotations.{
  RotationStatus, ExecutorRotationRecord, Rows, Outcome, treasury_row, published, observed,
  complete,
}
use ai_neobank.Rotations.Start.{start}
use ai_neobank.Rotations.Single.{IsSingle, open_rotations}
use ai_neobank.Rotations.Kept.{executor_of, complete-hands_over}
use ai_neobank.Rotations.Started.{
  untouched, started, published_at, observed_as, completed_with, RotationEvents-IsSingle,
}

abbrev fleet : Rows
fleet = record {
  treasuries =
      record {
        id = 7;
        organization_id = 1;
        governance = squads;
        chain_family = svm;
        executor_signer_id = some 20;
        observed_configuration = [];
      }
      ∷ [];
  signers = record { id = 21; organization_id = 1; is_active = true; chain_family = svm } ∷ [];
  intents = [];
  rotations = [];
  outbox = [];
  audit = [];
}

abbrev rows_of : Result (ℕ × Rows) → Rows
rows_of (ok (id, w)) = w
rows_of (err e) = fleet

abbrev begun : Rows
begun = rows_of (start 50 1 7 21 3 fleet)

abbrev approved_rows : Rows
approved_rows = observed 50 Outcome.approved (published 50 "proposal" begun)

abbrev handed_over : Rows
handed_over = complete 50 "members" approved_rows

second_is_refused : start 51 1 7 21 3 begun ≡ err (operations_error "rotation_in_progress")
unfolding start
second_is_refused = refl

fleet-IsSingle : IsSingle fleet
fleet-IsSingle = record { single = λ treasury. omega arith; held = tt }

started_fleet : start 50 1 7 21 3 fleet ≡ ok (50, begun)
unfolding start
started_fleet = refl

RotationEvents-IsSingle_example : IsSingle handed_over
RotationEvents-IsSingle_example =
    RotationEvents-IsSingle fleet handed_over
      (completed_with 50 "members" approved_rows (
        observed_as 50 Outcome.approved (published 50 "proposal" begun) (
          published_at 50 "proposal" begun
            (started 50 1 7 21 3 50 fleet begun untouched started_fleet))))
      fleet-IsSingle

abbrev executing_rotation : ExecutorRotationRecord
executing_rotation = record {
  id = 50;
  organization_id = 1;
  treasury_account_id = 7;
  from_signer_id = 20;
  to_signer_id = 21;
  status = RotationStatus.executing;
  external_ref = some "proposal";
  publication = none;
  failure_reason = none;
  created_by = some 3;
}

abbrev approved_fleet : Rows
approved_fleet = record fleet { rotations = executing_rotation ∷ [] }

approved_fleet-IsSingle : IsSingle approved_fleet
unfolding treasury_row
approved_fleet-IsSingle = record {
  single = λ treasury. ground arith;
  held = (λ o. (refl, refl), tt);
}

complete-hands_over_example :
    (executor_of 7 (complete 50 "members" approved_fleet) ≡ some 21)
    × (open_rotations 7 (complete 50 "members" approved_fleet).rotations ≡ 0)
complete-hands_over_example =
    complete-hands_over 50 "members" executing_rotation approved_fleet approved_fleet-IsSingle refl
      refl
