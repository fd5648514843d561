-- ===== src/Payment/Rows.antt =====
-- packages/database/src/jobs.ts and migrations: the rows that one intent id selects, with the
-- joined rows of its organisation, treasury, requester and asset, and the ledger. JSON columns are
-- records of the fields that some operation reads back.
use ai_neobank.Prelude.{ℕ, Bool, true, false, String, Option, List}
use ai_neobank.Prelude.Int.{ℤ}
use ai_neobank.Domain.{
  ChainFamily, Governance, IntentKind, AssetKind, IntentStatus, SpendingPolicy, PolicyDecision,
}
use ai_neobank.Ledger.{Ledger}

-- Principals, agents and signers.
pub data AccessStatus : Type 0 where
  active frozen revoked : AccessStatus

pub data PrincipalType : Type 0 where
  human agent service : PrincipalType

pub data TreasuryStatus : Type 0 where
  pending_verification active degraded frozen : TreasuryStatus

pub data RequestStatus : Type 0 where
  pending approved rejected expired : RequestStatus

pub data ExecutionStatus : Type 0 where
  simulated signed submitted finalized failed : ExecutionStatus

pub data Vote : Type 0 where
  approved rejected : Vote

pub data ProposalStatus : Type 0 where
  draft active rejected approved executing executed cancelled : ProposalStatus

pub data Custody : Type 0 where
  encrypted_software kms external_wallet : Custody

abbrev pub is_active : AccessStatus → Bool
is_active AccessStatus.active = true
is_active _ = false

abbrev pub access_text : AccessStatus → String
access_text AccessStatus.active = "active"
access_text AccessStatus.frozen = "frozen"
access_text AccessStatus.revoked = "revoked"

abbrev pub treasury_is_active : TreasuryStatus → Bool
treasury_is_active TreasuryStatus.active = true
treasury_is_active _ = false

abbrev pub treasury_is_frozen : TreasuryStatus → Bool
treasury_is_frozen TreasuryStatus.frozen = true
treasury_is_frozen _ = false

abbrev pub treasury_text : TreasuryStatus → String
treasury_text TreasuryStatus.pending_verification = "pending_verification"
treasury_text TreasuryStatus.active = "active"
treasury_text TreasuryStatus.degraded = "degraded"
treasury_text TreasuryStatus.frozen = "frozen"

abbrev pub is_pending : RequestStatus → Bool
is_pending RequestStatus.pending = true
is_pending _ = false

abbrev pub vote_beq : Vote → Vote → Bool
vote_beq Vote.approved Vote.approved = true
vote_beq Vote.rejected Vote.rejected = true
vote_beq _ _ = false

-- A row of `signers`, with the key columns that `keyMaterial` reads.
pub record Signer : Type 0 where
  pub id : ℕ
  pub address : String
  pub status : AccessStatus
  pub chain_family : ChainFamily
  pub custody : Custody
  pub encrypted_secret : String
  pub encryption_nonce : String
  pub auth_tag : String
  pub kms_key_id : String
  pub created_at : ℕ

pub record AssetRow : Type 0 where
  pub kind : AssetKind
  pub address : Option String
  pub decimals : ℕ
  pub network : String

-- A binding joined with its active policy version; a retired version has no row here.
pub record PolicyBinding : Type 0 where
  pub agent_principal : Option ℕ
  pub treasury_id : Option ℕ
  pub created_at : ℕ
  pub version_id : ℕ
  pub policy : SpendingPolicy

-- Another intent, as `spentToday` sees it.
pub record OtherIntent : Type 0 where
  pub organization_id : ℕ
  pub requester_id : ℕ
  pub asset_id : String
  pub amount_base_units : ℕ
  pub status : IntentStatus
  pub created_at : ℕ

pub record Beneficiary : Type 0 where
  pub organization_id : ℕ
  pub network : String
  pub address : String
  pub is_active : Bool

pub record HumanWallet : Type 0 where
  pub address : String
  pub principal_id : ℕ

-- The rows that the handlers of a payment read and never write.
pub record Context : Type 0 where
  pub organization_frozen : Bool
  pub autonomous_execution : Bool
  pub treasury_status : TreasuryStatus
  pub treasury_network : String
  pub chain_family : ChainFamily
  pub governance : Governance
  pub treasury_address : String
  pub executor_signer_id : Option ℕ
  pub requester_type : PrincipalType
  pub requester_status : AccessStatus
  pub agent_status : Option AccessStatus
  pub asset : Option AssetRow
  pub signers : List Signer
  pub policy_bindings : List PolicyBinding
  pub other_intents : List OtherIntent
  pub beneficiaries : List Beneficiary
  pub wallets : List HumanWallet

-- What a simulation brings back; the quote is the x402 offer that it saw.
pub record SimulationEvidence : Type 0 where
  pub ok : Bool
  pub fee_base_units : String
  pub source_balance_base_units : String
  pub error : Option String
  pub quote : Option String
  pub compiled_hash : Option String

-- `intents.policy_decision`.
pub record StoredDecision : Type 0 where
  pub decision : PolicyDecision
  pub spent_today : Option ℕ
  pub simulation : Option SimulationEvidence
  pub x402 : Option String
  pub simulation_hash : Option String
  pub min_approvals : Option ℕ

pub record Intent : Type 0 where
  pub id : ℕ
  pub organization_id : ℕ
  pub treasury_id : ℕ
  pub requester_id : ℕ
  pub idempotency_key : String
  pub kind : IntentKind
  pub network : String
  pub asset_id : String
  pub amount_base_units : ℕ
  pub destination : String
  pub purpose : String
  pub status : IntentStatus
  pub version : ℕ
  pub expires_at : ℕ
  pub compiled_hash : String
  pub policy_version_id : Option ℕ
  pub policy_decision : Option StoredDecision
  pub failure_reason : Option String
  pub publication : Option String

pub record ApprovalRequest : Type 0 where
  pub required_approvals : ℕ
  pub compiled_hash : String
  pub simulation_hash : String
  pub status : RequestStatus
  pub expires_at : ℕ
  pub external_ref : Option String

pub record Approval : Type 0 where
  pub principal_id : Option ℕ
  pub decision : Vote
  pub signer_address : Option String
  pub signed_payload : Option String

-- `compiled_payload`: the settled payee and amount, once known, and what the compiler wrote.
pub record CompiledPayload : Type 0 where
  pub pay_to : Option String
  pub settled_amount : Option ℕ
  pub details : String

pub record Execution : Type 0 where
  pub id : ℕ
  pub signer_id : ℕ
  pub network : String
  pub compiled_payload : CompiledPayload
  pub compiled_hash : String
  pub simulated_fee : ℕ
  pub status : ExecutionStatus
  pub transaction_hash : Option String
  pub signed_payload : Option String
  pub nonce : Option String
  pub valid_until : Option String
  pub broadcast_at : Option ℕ
  pub block_cursor : Option ℕ
  pub fee_base_units : Option ℤ
  pub confirmations : Option ℕ
  pub error : Option String

-- A row of `intent_events`; `move` is the from, to and version that `transition` records.
pub record IntentEvent : Type 0 where
  pub sequence : ℕ
  pub event_type : String
  pub actor : Option ℕ
  pub move : Option (IntentStatus × IntentStatus × ℕ)

pub data Topic : Type 0 where
  intent_evaluate approval_expire proposal_publish proposal_observe : Topic
  transaction_execute transaction_confirm : Topic

pub record OutboxEvent : Type 0 where
  pub topic : Topic
  pub available_at : ℕ

pub record AuditEvent : Type 0 where
  pub actor : Option ℕ
  pub action : String

-- One intent with all that hangs on it.
pub record Payment : Type 0 where
  pub intent : Intent
  pub context : Context
  pub request : Option ApprovalRequest
  pub approvals : List Approval
  pub execution : Option Execution
  pub events : List IntentEvent
  pub outbox : List OutboxEvent
  pub audit : List AuditEvent
  pub ledger : Ledger
