-- ===== src/Domain.antt =====
-- packages/domain/src/primitives.ts and index.ts: the shared types. Base units are natural
-- numbers (the schemas admit digits only), instants are milliseconds since the epoch, and the ids
-- of rows, which are only compared, are numbers. Networks, assets and addresses are texts.
pub mod Status
pub use Status.*
use ai_neobank.Prelude.{ℕ, Bool, String, List, ◌≡◌, refl, ◌++◌}
use ai_neobank.Prelude.Equality.{Eq, enum_beq, enum_beq_iff}

pub data ChainFamily : Type 0 where
  evm svm : ChainFamily

pub data Governance : Type 0 where
  safe squads direct : Governance

pub data IntentKind : Type 0 where
  transfer x402 : IntentKind

pub data AssetKind : Type 0 where
  native erc20 spl : AssetKind

pub record PaymentIntent : Type 0 where
  pub id : ℕ
  pub idempotency_key : String
  pub organization_id : ℕ
  pub treasury_account_id : ℕ
  pub requester_id : ℕ
  pub network : String
  pub asset_id : String
  pub amount_base_units : ℕ
  pub destination : String
  pub purpose : String
  pub expires_at : ℕ
  pub kind : IntentKind

pub record SpendingPolicy : Type 0 where
  pub id : ℕ
  pub version : ℕ
  pub frozen : Bool
  pub max_per_transaction : ℕ
  pub max_daily : ℕ
  pub auto_approve_up_to : ℕ
  pub allowed_networks : List String
  pub allowed_assets : List String
  pub allowed_destinations : List String
  pub allowed_kinds : List IntentKind
  pub human_approval_required : Bool
  pub min_approvals : ℕ
  pub require_beneficiary : Bool

pub data PolicyDecision : Type 0 where
  rejected approval_required auto_authorized : List String → PolicyDecision

abbrev pub reasons : PolicyDecision → List String
reasons (PolicyDecision.rejected rs) = rs
reasons (PolicyDecision.approval_required rs) = rs
reasons (PolicyDecision.auto_authorized rs) = rs

-- Native coin identifiers, SLIP-44 style.
abbrev pub native_asset_ids : ChainFamily → String
native_asset_ids evm = "slip44:60"
native_asset_ids svm = "slip44:501"

abbrev kind_index : IntentKind → ℕ
kind_index transfer = 0
kind_index x402 = 1

abbrev kind_of : ℕ → IntentKind
kind_of ℕ.zero = transfer
kind_of _ = x402

pub kind_back : (k : IntentKind) → kind_of (kind_index k) ≡ k
kind_back transfer = refl
kind_back x402 = refl

instance abbrev pub kind_eq : Eq IntentKind
kind_eq = record {
  beq = enum_beq kind_index kind_of;
  beq_iff = enum_beq_iff kind_index kind_of kind_back;
}
