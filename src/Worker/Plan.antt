-- ===== src/Worker/Plan.antt =====
-- apps/worker/src/worker.ts: `buildExecution`, what stands between an approved payment and its
-- signature, for direct, Safe and Squads treasuries. What the adapters, the network and the
-- hash functions answer are fields of `Adapters`.
use ai_neobank.Prelude.{
  ℕ, Bool, true, false, not, ◌&&◌, String, Option, none, some, List, [], ◌∷◌, length, any, ltb,
  if◌then◌else◌,
}
use ai_neobank.Prelude.Equality.{◌==◌, string_eq, nat_eq}
use ai_neobank.Prelude.Text.{◌++ₜ◌, starts_with, to_lower, is_blank, decimal, join}
use ai_neobank.Prelude.Failure.{error, Result, ok, err}
use ai_neobank.Domain.{Governance, direct, safe, squads, IntentKind}
use ai_neobank.Payment.Rows.{ProposalStatus}
use ai_neobank.Payment.Execute.{ExecutionContext, OwnerSignature, SignedTransaction}
use ai_neobank.Payment.Settle.{Settlement}

pub record Simulation : Type 0 where
  pub ok : Bool
  pub fee_base_units : ℕ
  pub error : Option String

-- What became of signed bytes.
pub data Recovery : Type 0 where
  resend : Recovery
  settled : Option Settlement → Recovery
  dead : String → Recovery

-- What the network knows of signed bytes.
pub data BroadcastStatus : Type 0 where
  seen unseen_resendable : BroadcastStatus
  unseen_dead : String → BroadcastStatus

-- `chainDelivery`: a broadcast brings no settlement, and the status says how to go on.
abbrev pub delivered : Result (Unit {0}) → Result (Option Settlement)
delivered (ok _) = ok none
delivered (err e) = err e

abbrev pub recovery_of : Result BroadcastStatus → Result Recovery
recovery_of (ok seen) = ok (settled none)
recovery_of (ok unseen_resendable) = ok resend
recovery_of (ok (unseen_dead reason)) = ok (dead reason)
recovery_of (err e) = err e

-- `ExecutionPlan`, with the answers that its functions get.
pub record ExecutionPlan : Type 0 where
  pub fee_base_units : ℕ
  pub compiled_payload : String
  pub compiled_hash : String
  pub sign : Result SignedTransaction
  pub broadcast : SignedTransaction → Result (Option Settlement)
  pub recover : SignedTransaction → Result Recovery

pub data Build : Type 0 where
  failure : String → Build
  plan : ExecutionPlan → Build

pub data Mode : Type 0 where
  sign recover : Mode

-- The Safe transaction and the Squads proposal of an approval request, read from its JSON.
pub record SafeRef : Type 0 where
  pub safe_tx_hash : String
  pub nonce : ℕ

pub record SafeState : Type 0 where
  pub nonce : ℕ
  pub threshold : ℕ
  pub owners : List String

pub record SquadsRef : Type 0 where
  pub multisig_pda : String
  pub transaction_index : ℕ

pub record Adapters : Type 0 where
  pub sha256 : String → String
  pub simulate_transfer : ExecutionContext → Result Simulation
  pub safe_ref : Option String → Option SafeRef
  pub observe_safe : String → Result SafeState
  pub recover_safe_signer : String → String → Option String
  pub simulate_safe : ExecutionContext → SafeRef → List OwnerSignature → Result Simulation
  pub squads_ref : Option String → Option SquadsRef
  pub observe_proposal : SquadsRef → Result (Option ProposalStatus)
  pub simulate_squads : ExecutionContext → SquadsRef → Result Simulation
  pub describe : ExecutionContext → String
  pub sign : ExecutionContext → Result SignedTransaction
  pub broadcast : SignedTransaction → Result (Unit {0})
  pub broadcast_status : SignedTransaction → Result BroadcastStatus
  -- `buildX402`
  pub build_x402 : ExecutionContext → Mode → Result Build

abbrev reason_of : Option String → String
reason_of none = "unknown"
reason_of (some why) = why

abbrev proposal_text : ProposalStatus → String
proposal_text ProposalStatus.draft = "draft"
proposal_text ProposalStatus.active = "active"
proposal_text ProposalStatus.rejected = "rejected"
proposal_text ProposalStatus.approved = "approved"
proposal_text ProposalStatus.executing = "executing"
proposal_text ProposalStatus.executed = "executed"
proposal_text ProposalStatus.cancelled = "cancelled"

abbrev pub is_approved : ProposalStatus → Bool
is_approved ProposalStatus.approved = true
is_approved _ = false

abbrev pub is_x402 : IntentKind → Bool
is_x402 IntentKind.x402 = true
is_x402 _ = false

-- `safeTxHash.replace(/^0x/, "")`
abbrev drop_two : String → String
drop_two String.[] = ""
drop_two (String.◌∷◌ c String.[]) = ""
drop_two (String.◌∷◌ c (String.◌∷◌ d rest)) = rest

abbrev pub without_prefix : String → String
without_prefix s = if starts_with s "0x" then drop_two s else s

-- The lower-case test of `owners.has` and of the signer that the signature names.
abbrev pub is_owner : List String → String → Bool
is_owner owners who = any (λ owner. to_lower owner == to_lower who) owners

abbrev pub is_valid : List String → OwnerSignature → Option String → Bool
is_valid owners entry none = false
is_valid owners entry (some who) =
    is_owner owners who && to_lower who == to_lower entry.signer_address

module _ (a : Adapters) (c : ExecutionContext) where
  -- `directCompiledHash`
  unfoldable pub direct_compiled_hash : String
  direct_compiled_hash = a.sha256 (
      join "|" (
        decimal c.intent.id
        ∷ c.intent.network
        ∷ c.intent.asset_id
        ∷ decimal c.intent.amount_base_units
        ∷ c.intent.destination
        ∷ "transfer"
        ∷ []))

  abbrev pub plan_with : ℕ → String → ExecutionPlan
  plan_with fee hash = record {
    fee_base_units = fee;
    compiled_payload = a.describe c;
    compiled_hash = hash;
    sign = a.sign c;
    broadcast = λ signed. delivered (a.broadcast signed);
    recover = λ signed. recovery_of (a.broadcast_status signed);
  }

  abbrev pub simulated : String → String → Result Simulation → Result Build
  simulated refusal hash (err e) = err e
  simulated refusal hash (ok s) =
      if s.ok
      then ok (plan (plan_with s.fee_base_units hash))
      else ok (failure (refusal ++ₜ reason_of s.error))

  -- `mode === "recover"`: only delivery matters now.
  abbrev pub build_recovery : Build
  build_recovery = plan (record {
    fee_base_units = 0;
    compiled_payload = "recovery";
    compiled_hash = c.approval_compiled_hash;
    sign = err (error "Recovery never signs; the signed transaction already exists");
    broadcast = λ signed. delivered (a.broadcast signed);
    recover = λ signed. recovery_of (a.broadcast_status signed);
  })

  unfoldable pub build_direct : Result Build
  build_direct =
      if not (direct_compiled_hash == c.approval_compiled_hash)
      then ok (failure "Compiled payload no longer matches the approved hash")
      else simulated "Simulation failed before signing: " (direct_compiled_hash)
          (a.simulate_transfer c)

  -- The loop over the owners' signatures.
  unfoldable pub valid_signatures : String → List String → List OwnerSignature → List OwnerSignature
  valid_signatures hash owners [] = []
  valid_signatures hash owners (entry ∷ entries) =
      if is_valid owners entry (a.recover_safe_signer hash entry.signed_payload)
      then entry ∷ valid_signatures hash owners entries
      else valid_signatures hash owners entries

  abbrev pub build_safe_with : SafeRef → SafeState → List OwnerSignature → Result Build
  build_safe_with ref state signatures =
      if ltb (length signatures) state.threshold
      then ok (
          failure (
            "Only "
            ++ₜ decimal (length signatures)
            ++ₜ " valid owner signatures for a threshold of "
            ++ₜ decimal state.threshold))
      else simulated "Safe execution simulation failed: " c.approval_compiled_hash
          (a.simulate_safe c ref signatures)

  abbrev pub build_safe_observed : SafeRef → Result SafeState → Result Build
  build_safe_observed ref (err e) = err e
  build_safe_observed ref (ok state) =
      if not (state.nonce == ref.nonce)
      then ok (
          failure (
            "Safe nonce moved to "
            ++ₜ decimal state.nonce
            ++ₜ " while "
            ++ₜ decimal ref.nonce
            ++ₜ " was approved; re-submit the intent"))
      else build_safe_with ref state
          (valid_signatures ref.safe_tx_hash state.owners c.owner_signatures)

  abbrev pub build_safe_ref : Option SafeRef → Result Build
  build_safe_ref none = ok (failure "Approval request has no Safe transaction")
  build_safe_ref (some ref) =
      if not (without_prefix ref.safe_tx_hash == c.approval_compiled_hash)
      then ok (failure "Safe transaction no longer matches the approved hash")
      else build_safe_observed ref (a.observe_safe c.context.treasury_address)

  unfoldable pub build_safe : Result Build
  unfolding valid_signatures
  build_safe = build_safe_ref (a.safe_ref c.external_ref)

  abbrev pub build_squads_observed : SquadsRef → Result (Option ProposalStatus) → Result Build
  build_squads_observed ref (err e) = err e
  build_squads_observed ref (ok none) = ok (failure "Squads proposal account is missing")
  build_squads_observed ref (ok (some status)) =
      if not (is_approved status)
      then ok (failure ("Squads proposal is " ++ₜ proposal_text status ++ₜ ", not approved"))
      else simulated "Squads execution simulation failed: " c.approval_compiled_hash
          (a.simulate_squads c ref)

  abbrev pub build_squads_ref : Option SquadsRef → Result Build
  build_squads_ref none = ok (failure "Approval request has no Squads proposal")
  build_squads_ref (some ref) =
      if is_blank ref.multisig_pda
      then ok (failure "Approval request has no Squads proposal")
      else build_squads_observed ref (a.observe_proposal ref)

  unfoldable pub build_squads : Result Build
  build_squads = build_squads_ref (a.squads_ref c.external_ref)

  abbrev pub build_governed : Governance → Result Build
  build_governed direct = build_direct
  build_governed safe = build_safe
  build_governed squads = build_squads

  abbrev pub build_transfer : Mode → Result Build
  build_transfer Mode.recover = ok build_recovery
  build_transfer Mode.sign = build_governed c.context.governance

  -- `buildExecution`
  unfoldable pub build_execution : Mode → Result Build
  unfolding build_direct build_safe build_squads
  build_execution mode = if is_x402 c.intent.kind then a.build_x402 c mode else build_transfer mode
