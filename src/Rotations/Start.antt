-- ===== src/Rotations/Start.antt =====
-- packages/database/src/rotations.ts: `start`, which begins to replace a treasury's executor.
use ai_neobank.Prelude.{ℕ, not, ◌&&◌, Option, none, some, [], ◌∷◌, ◌++◌, if◌then◌else◌, any, find}
use ai_neobank.Prelude.Equality.{◌==◌, nat_eq}
use ai_neobank.Prelude.Failure.{ok, err, Tx, operations_error}
use ai_neobank.Rotations.{
  RotationStatus, ExecutorRotationRecord, Treasury, Signer, Rows, is_open_of, is_busy, is_safe,
  is_direct, same_family, treasury_row, in_organization, set_executor, add_event, add_audit,
}

-- `start`, one guard after the other; `fresh` is the id of the new row.
module _ (fresh organization treasury to actor : ℕ) where
  abbrev pub new_rotation : ℕ → RotationStatus → ExecutorRotationRecord
  new_rotation from status = record {
    id = fresh;
    organization_id = organization;
    treasury_account_id = treasury;
    from_signer_id = from;
    to_signer_id = to;
    status = status;
    external_ref = none;
    publication = none;
    failure_reason = none;
    created_by = some actor;
  }

  abbrev pub insert_rotation : ℕ → RotationStatus → Rows → Rows
  insert_rotation from status w = record w {
    rotations = w.rotations ++ new_rotation from status ∷ [];
  }

  abbrev pub rotate_now : ℕ → Rows → Rows
  rotate_now from w =
      let inserted = insert_rotation from RotationStatus.completed w in
      add_audit (some actor) "executor.rotated" fresh
        (record inserted { treasuries = set_executor treasury to [] inserted.treasuries })

  abbrev pub rotate_on_chain : ℕ → Rows → Rows
  rotate_on_chain from w =
      add_audit (some actor) "executor.rotation_started" fresh
        (add_event "rotation.publish" fresh 0 (insert_rotation from RotationStatus.publishing w))

  abbrev pub start_to : Treasury → ℕ → Option Signer → Tx Rows ℕ
  start_to t from none w = err (operations_error "signer_not_found")
  start_to t from (some s) w =
      if not (s.is_active && same_family s.chain_family t.chain_family)
      then err (operations_error "signer_not_usable")
      else if any (is_busy treasury) w.intents
      then err (operations_error "treasury_busy")
      else if any (is_open_of treasury) w.rotations
      then err (operations_error "rotation_in_progress")
      else if is_safe t.governance
      then ok (fresh, rotate_now from w)
      else ok (fresh, rotate_on_chain from w)

  abbrev pub start_from : Treasury → Option ℕ → Tx Rows ℕ
  start_from t none w = err (operations_error "treasury_not_governed")
  start_from t (some from) w =
      if is_direct t.governance
      then err (operations_error "treasury_not_governed")
      else if from == to
      then err (operations_error "same_executor")
      else start_to t from (find (λ s. s.organization_id == organization && s.id == to) w.signers) w

  abbrev pub start_at : Option Treasury → Tx Rows ℕ
  start_at none w = err (operations_error "treasury_not_found")
  start_at (some t) w = start_from t t.executor_signer_id w

  unfoldable pub start : Tx Rows ℕ
  unfolding treasury_row set_executor
  start w = start_at (in_organization organization (treasury_row treasury w.treasuries)) w
