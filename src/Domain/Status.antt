-- ===== src/Domain/Status.antt =====
-- packages/domain/src/primitives.ts: the intent statuses and the principal roles.
use ai_neobank.Prelude.{ℕ, suc, ◌≡◌, refl, String}
use ai_neobank.Prelude.Equality.{Eq, enum_beq, enum_beq_iff}

pub data IntentStatus : Type 0 where
  received policy_evaluated rejected approval_required auto_authorized : IntentStatus
  approved executing submitted finalized reconciled failed expired : IntentStatus

pub data PrincipalRole : Type 0 where
  owner approver operator auditor developer agent : PrincipalRole

-- The position of a status in `intentStatuses`.
abbrev status_index : IntentStatus → ℕ
status_index received = 0
status_index policy_evaluated = 1
status_index rejected = 2
status_index approval_required = 3
status_index auto_authorized = 4
status_index approved = 5
status_index executing = 6
status_index submitted = 7
status_index finalized = 8
status_index reconciled = 9
status_index failed = 10
status_index expired = 11

abbrev status_of : ℕ → IntentStatus
status_of ℕ.zero = received
status_of (suc ℕ.zero) = policy_evaluated
status_of (suc (suc ℕ.zero)) = rejected
status_of (suc (suc (suc ℕ.zero))) = approval_required
status_of (suc (suc (suc (suc ℕ.zero)))) = auto_authorized
status_of (suc (suc (suc (suc (suc ℕ.zero))))) = approved
status_of (suc (suc (suc (suc (suc (suc ℕ.zero)))))) = executing
status_of (suc (suc (suc (suc (suc (suc (suc ℕ.zero))))))) = submitted
status_of (suc (suc (suc (suc (suc (suc (suc (suc ℕ.zero)))))))) = finalized
status_of (suc (suc (suc (suc (suc (suc (suc (suc (suc ℕ.zero))))))))) = reconciled
status_of (suc (suc (suc (suc (suc (suc (suc (suc (suc (suc ℕ.zero)))))))))) = failed
status_of _ = expired

pub status_back : (s : IntentStatus) → status_of (status_index s) ≡ s
status_back received = refl
status_back policy_evaluated = refl
status_back rejected = refl
status_back approval_required = refl
status_back auto_authorized = refl
status_back approved = refl
status_back executing = refl
status_back submitted = refl
status_back finalized = refl
status_back reconciled = refl
status_back failed = refl
status_back expired = refl

instance abbrev pub status_eq : Eq IntentStatus
status_eq = record {
  beq = enum_beq status_index status_of;
  beq_iff = enum_beq_iff status_index status_of status_back;
}

abbrev role_index : PrincipalRole → ℕ
role_index owner = 0
role_index approver = 1
role_index operator = 2
role_index auditor = 3
role_index developer = 4
role_index agent = 5

abbrev role_of : ℕ → PrincipalRole
role_of ℕ.zero = owner
role_of (suc ℕ.zero) = approver
role_of (suc (suc ℕ.zero)) = operator
role_of (suc (suc (suc ℕ.zero))) = auditor
role_of (suc (suc (suc (suc ℕ.zero)))) = developer
role_of _ = agent

pub role_back : (r : PrincipalRole) → role_of (role_index r) ≡ r
role_back owner = refl
role_back approver = refl
role_back operator = refl
role_back auditor = refl
role_back developer = refl
role_back agent = refl

instance abbrev pub role_eq : Eq PrincipalRole
role_eq = record {
  beq = enum_beq role_index role_of;
  beq_iff = enum_beq_iff role_index role_of role_back;
}

-- The text of a status, as the database and the messages spell it.
abbrev pub status_text : IntentStatus → String
status_text received = "received"
status_text policy_evaluated = "policy_evaluated"
status_text rejected = "rejected"
status_text approval_required = "approval_required"
status_text auto_authorized = "auto_authorized"
status_text approved = "approved"
status_text executing = "executing"
status_text submitted = "submitted"
status_text finalized = "finalized"
status_text reconciled = "reconciled"
status_text failed = "failed"
status_text expired = "expired"
