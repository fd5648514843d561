-- ===== src/Rotations.antt =====
-- packages/database/src/rotations.ts: `RotationStore`, which replaces the key that executes for a
-- treasury. Ids are primary keys; a JSON object that is only stored is a text, and the merge of
-- objects into the observed configuration keeps them in order.
pub mod Start
pub mod Single
pub mod Kept
pub mod Started
mod Tests
use ai_neobank.Prelude.{
  ℕ, Bool, true, false, not, ◌&&◌, String, Option, none, some, List, [], ◌∷◌, ◌++◌, if◌then◌else◌,
  includes, any, find,
}
use ai_neobank.Prelude.Equality.{◌==◌, nat_eq}
use ai_neobank.Prelude.Text.{first}
use ai_neobank.Prelude.Failure.{Result, ok, err, Tx, operations_error}
use ai_neobank.Domain.{ChainFamily, evm, svm, Governance, safe, squads, direct}
use ai_neobank.Domain.Status.{IntentStatus, status_eq}

pub data RotationStatus : Type 0 where
  publishing approval_required executing completed rejected failed : RotationStatus

pub record ExecutorRotationRecord : Type 0 where
  pub id : ℕ
  pub organization_id : ℕ
  pub treasury_account_id : ℕ
  pub from_signer_id : ℕ
  pub to_signer_id : ℕ
  pub status : RotationStatus
  pub external_ref : Option String
  pub publication : Option String
  pub failure_reason : Option String
  pub created_by : Option ℕ

pub record Treasury : Type 0 where
  pub id : ℕ
  pub organization_id : ℕ
  pub governance : Governance
  pub chain_family : ChainFamily
  pub executor_signer_id : Option ℕ
  pub observed_configuration : List String

pub record Signer : Type 0 where
  pub id : ℕ
  pub organization_id : ℕ
  pub is_active : Bool
  pub chain_family : ChainFamily

pub record IntentRow : Type 0 where
  pub treasury_account_id : ℕ
  pub status : IntentStatus

-- `outbox_events`, with the delay in seconds before an event is available.
pub record RotationEvent : Type 0 where
  pub topic : String
  pub rotation_id : ℕ
  pub delay_seconds : ℕ

pub record RotationAudit : Type 0 where
  pub actor_principal_id : Option ℕ
  pub action : String
  pub rotation_id : ℕ

pub record Rows : Type 0 where
  pub treasuries : List Treasury
  pub signers : List Signer
  pub intents : List IntentRow
  pub rotations : List ExecutorRotationRecord
  pub outbox : List RotationEvent
  pub audit : List RotationAudit

-- Intent states in which a rotation would strand proposals or transactions.
abbrev pub in_flight_statuses : List IntentStatus
in_flight_statuses =
    IntentStatus.policy_evaluated ∷ IntentStatus.approval_required ∷ IntentStatus.approved
    ∷ IntentStatus.executing ∷ IntentStatus.submitted ∷ []

abbrev pub is_publishing : RotationStatus → Bool
is_publishing RotationStatus.publishing = true
is_publishing _ = false

abbrev pub is_approval_required : RotationStatus → Bool
is_approval_required RotationStatus.approval_required = true
is_approval_required _ = false

abbrev pub is_executing : RotationStatus → Bool
is_executing RotationStatus.executing = true
is_executing _ = false

-- `status in ('publishing', 'approval_required', 'executing')`
abbrev pub is_open : RotationStatus → Bool
is_open RotationStatus.publishing = true
is_open RotationStatus.approval_required = true
is_open RotationStatus.executing = true
is_open _ = false

abbrev pub is_safe : Governance → Bool
is_safe safe = true
is_safe _ = false

abbrev pub is_direct : Governance → Bool
is_direct direct = true
is_direct _ = false

abbrev pub same_family : ChainFamily → ChainFamily → Bool
same_family evm evm = true
same_family svm svm = true
same_family _ _ = false

-- The row with a given id.
unfoldable pub treasury_row : ℕ → List Treasury → Option Treasury
treasury_row id [] = none
treasury_row id (t ∷ ts) = if t.id == id then some t else treasury_row id ts

abbrev pub in_organization : ℕ → Option Treasury → Option Treasury
in_organization organization none = none
in_organization organization (some t) = if t.organization_id == organization then some t else none

abbrev pub is_busy : ℕ → IntentRow → Bool
is_busy treasury i = i.treasury_account_id == treasury && includes in_flight_statuses i.status

abbrev pub is_open_of : ℕ → ExecutorRotationRecord → Bool
is_open_of treasury r = is_open r.status && r.treasury_account_id == treasury

abbrev pub has_id : ℕ → ExecutorRotationRecord → Bool
has_id id r = r.id == id

-- `update executor_rotations set ... where id = ...`: the one row with that primary key.
unfoldable pub update_rotation :
    ℕ
    → (ExecutorRotationRecord → ExecutorRotationRecord)
    → List ExecutorRotationRecord
    → List ExecutorRotationRecord
update_rotation id f [] = []
update_rotation id f (r ∷ rs) = if has_id id r then f r ∷ rs else r ∷ update_rotation id f rs

-- `update treasury_accounts set executor_signer_id = ... where id = ...`
unfoldable pub set_executor : ℕ → ℕ → List String → List Treasury → List Treasury
set_executor id signer observed [] = []
set_executor id signer observed (t ∷ ts) =
    (if t.id == id
      then record t {
        executor_signer_id = some signer;
        observed_configuration = t.observed_configuration ++ observed;
      }
      else t)
    ∷ set_executor id signer observed ts

abbrev pub add_event : String → ℕ → ℕ → Rows → Rows
add_event topic rotation delay w = record w {
  outbox = w.outbox ++ record { topic = topic; rotation_id = rotation; delay_seconds = delay } ∷ [];
}

abbrev pub add_audit : Option ℕ → String → ℕ → Rows → Rows
add_audit actor action rotation w = record w {
  audit =
      w.audit
      ++ record { actor_principal_id = actor; action = action; rotation_id = rotation } ∷ [];
}

abbrev pub set_status : RotationStatus → ExecutorRotationRecord → ExecutorRotationRecord
set_status status r = record r { status = status }

abbrev pub update_row : ℕ → (ExecutorRotationRecord → ExecutorRotationRecord) → Rows → Rows
update_row id f w = record w { rotations = update_rotation id f w.rotations }

-- What a statement or a handler does with the row it finds, if its status passes a test.
abbrev pub on_found :
    (RotationStatus → Bool)
    → (ExecutorRotationRecord → Rows → Rows)
    → Option ExecutorRotationRecord
    → Rows
    → Rows
on_found p change none w = w
on_found p change (some r) w = if p r.status then change r w else w

abbrev pub on_row :
    ℕ → (RotationStatus → Bool) → (ExecutorRotationRecord → Rows → Rows) → Rows → Rows
on_row id p change w = on_found p change (find (has_id id) w.rotations) w

-- `recordPublication`
unfoldable pub record_publication : ℕ → String → Rows → Rows
unfolding update_rotation
record_publication id publication w =
    update_row id (λ r. record r { publication = some publication }) w

abbrev pub publish_row : String → ExecutorRotationRecord → ExecutorRotationRecord
publish_row external_ref r = record r {
  status = RotationStatus.approval_required;
  external_ref = some external_ref;
}

-- `published`
unfoldable pub published : ℕ → String → Rows → Rows
unfolding update_rotation
published id external_ref w =
    on_row id is_publishing
      (λ r v. add_event "rotation.observe" id 0 (update_row id (publish_row external_ref) v)) w

pub data Outcome : Type 0 where
  approved rejected pending : Outcome

abbrev pub move_on : ℕ → Outcome → Rows → Rows
move_on id Outcome.pending w = add_event "rotation.observe" id 5 w
move_on id Outcome.rejected w = update_row id (set_status RotationStatus.rejected) w
move_on id Outcome.approved w =
    add_event "rotation.execute" id 0 (update_row id (set_status RotationStatus.executing) w)

-- `observed`
unfoldable pub observed : ℕ → Outcome → Rows → Rows
unfolding update_rotation
observed id outcome w = on_row id is_approval_required (λ r v. move_on id outcome v) w

abbrev pub complete_row : ℕ → String → ExecutorRotationRecord → Rows → Rows
complete_row id configuration r w =
    let moved = update_row id (set_status RotationStatus.completed) w in
    add_audit none "executor.rotated" id (record moved {
      treasuries =
          set_executor r.treasury_account_id r.to_signer_id (configuration ∷ []) moved.treasuries;
    })

-- `complete`
unfoldable pub complete : ℕ → String → Rows → Rows
unfolding update_rotation set_executor
complete id configuration w = on_row id is_executing (complete_row id configuration) w

abbrev pub fail_row : String → ExecutorRotationRecord → ExecutorRotationRecord
fail_row reason r = record r {
  status = RotationStatus.failed;
  failure_reason = some (first 2000 reason);
}

-- `fail`
unfoldable pub fail : ℕ → String → Rows → Rows
unfolding update_rotation
fail id reason w = on_row id is_open (λ r v. update_row id (fail_row reason) v) w
