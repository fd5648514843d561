-- ===== src/Payment/Intake.antt =====
-- packages/database/src/jobs.ts: the gates, the bound policy, the beneficiaries and the spending
-- that `evaluateIntent` and `getExecutionContext` consult.
use ai_neobank.Prelude.{
  ℕ, ◌+◌, Bool, true, false, not, ◌&&◌, ◌||◌, String, Option, none, some, List, [], ◌∷◌,
  if◌then◌else◌, any, filter, ltb,
}
use ai_neobank.Prelude.Equality.{◌==◌, nat_eq, string_eq, option_eq}
use ai_neobank.Prelude.Text.{◌++ₜ◌, to_lower, starts_with}
use ai_neobank.Domain.{
  ChainFamily, evm, svm, Governance, safe, squads, transfer, x402, AssetKind, IntentStatus,
  status_eq, PaymentIntent, PolicyDecision,
}
use ai_neobank.Policy.{PolicyContext, evaluate_payment_intent}
use ai_neobank.Payment.Rows.{
  Payment, Context, Intent, AssetRow, PolicyBinding, OtherIntent, Beneficiary, AccessStatus,
  PrincipalType, is_active, access_text, treasury_is_active, treasury_text,
}

-- The x402 part of `gate`.
abbrev is_safe_off_evm : Governance → ChainFamily → Bool
is_safe_off_evm safe svm = true
is_safe_off_evm _ _ = false

abbrev pub is_squads : Governance → Bool
is_squads squads = true
is_squads _ = false

abbrev is_native : AssetKind → Bool
is_native AssetKind.native = true
is_native _ = false

abbrev is_http : String → Bool
is_http url = starts_with url "http://" || starts_with url "https://"

unfoldable pub x402_gate : Context → AssetRow → Intent → Option String
x402_gate c asset i =
    if is_squads c.governance
    then some "A Squads vault cannot sign an x402 payment; pay from a direct treasury or a Safe"
    else if is_safe_off_evm c.governance c.chain_family
    then some "Safe x402 payments are EVM only"
    else if is_native asset.kind
    then some "x402 pays in tokens, not the native coin"
    else if not (is_http i.destination)
    then some "x402 destination must be an http(s) resource URL"
    else none

abbrev is_unready_agent : PrincipalType → Option AccessStatus → Bool
is_unready_agent PrincipalType.agent (some s) = not (is_active s)
is_unready_agent PrincipalType.agent none = true
is_unready_agent _ _ = false

abbrev agent_text : Option AccessStatus → String
agent_text none = "unregistered"
agent_text (some s) = access_text s

abbrev asset_gate : Context → Intent → Option AssetRow → Option String
asset_gate c i none = some ("Unknown asset " ++ₜ i.asset_id)
asset_gate c i (some asset) =
    if not (asset.network == i.network)
    then some "Asset does not belong to the intent network"
    else elim i.kind [ x402 ↦ x402_gate c asset i | transfer ↦ none ]

-- `gate`: what stops an intent whatever its policy says; `none` lets it through.
unfoldable pub gate : Context → Intent → Option String
unfolding x402_gate
gate c i =
    if c.organization_frozen
    then some "Organization is frozen"
    else if not (treasury_is_active c.treasury_status)
    then some ("Treasury is " ++ₜ treasury_text c.treasury_status)
    else if not (is_active c.requester_status)
    then some ("Requester is " ++ₜ access_text c.requester_status)
    else if is_unready_agent c.requester_type c.agent_status
    then some ("Agent is " ++ₜ agent_text c.agent_status)
    else if not (c.treasury_network == i.network)
    then some "Intent network does not match the treasury network"
    else asset_gate c i c.asset

-- `loadPolicy`: an agent's own policy takes precedence over the treasury's; then the oldest binding.
unfoldable pub oldest : List PolicyBinding → Option PolicyBinding
oldest [] = none
oldest (b ∷ bs) = elim (oldest bs) [
  | none ↦ some b
  | some c ↦ if ltb c.created_at b.created_at then some c else some b
]

abbrev pub agent_bindings : Intent → List PolicyBinding → List PolicyBinding
agent_bindings i = filter (λ b. b.agent_principal == some i.requester_id && b.treasury_id == none)

abbrev pub treasury_bindings : Intent → List PolicyBinding → List PolicyBinding
treasury_bindings i = filter (λ b. b.treasury_id == some i.treasury_id && b.agent_principal == none)

unfoldable pub load_policy : Context → Intent → Option PolicyBinding
unfolding oldest
load_policy c i = elim (oldest (agent_bindings i c.policy_bindings)) [
  | some b ↦ some b
  | none ↦ oldest (treasury_bindings i c.policy_bindings)
]

-- `isBeneficiary`
abbrev same_lower : ChainFamily → String → String → Bool
same_lower evm a b = to_lower a == to_lower b
same_lower svm a b = false

abbrev is_recipient : Context → Intent → Beneficiary → Bool
is_recipient c i b =
    b.organization_id == i.organization_id
    && b.network == i.network
    && b.is_active
    && (b.address == i.destination || same_lower c.chain_family b.address i.destination)

unfoldable pub is_beneficiary : Context → Intent → Bool
is_beneficiary c i = any (is_recipient c i) c.beneficiaries

-- `spentToday`: what the requester has committed in this asset over the trailing 24 hours.
abbrev pub is_committed : IntentStatus → Bool
is_committed IntentStatus.approval_required = true
is_committed IntentStatus.auto_authorized = true
is_committed IntentStatus.approved = true
is_committed IntentStatus.executing = true
is_committed IntentStatus.submitted = true
is_committed IntentStatus.finalized = true
is_committed IntentStatus.reconciled = true
is_committed _ = false

abbrev pub day : ℕ
day = 86400000

abbrev pub counts_today : ℕ → Intent → OtherIntent → Bool
counts_today now i o =
    o.organization_id == i.organization_id
    && o.requester_id == i.requester_id
    && o.asset_id == i.asset_id
    && is_committed o.status
    && ltb now (o.created_at + day)

unfoldable pub spent_today : ℕ → Intent → List OtherIntent → ℕ
spent_today now i [] = 0
spent_today now i (o ∷ os) =
    (if counts_today now i o then o.amount_base_units else 0) + spent_today now i os

-- `intentOf`
abbrev pub intent_of : Intent → PaymentIntent
intent_of i = record {
  id = i.id;
  idempotency_key = i.idempotency_key;
  organization_id = i.organization_id;
  treasury_account_id = i.treasury_id;
  requester_id = i.requester_id;
  network = i.network;
  asset_id = i.asset_id;
  amount_base_units = i.amount_base_units;
  destination = i.destination;
  purpose = i.purpose;
  expires_at = i.expires_at;
  kind = i.kind;
}

abbrev pub policy_context : ℕ → Payment → PolicyContext
policy_context now p = record {
  spent_today = spent_today now p.intent p.context.other_intents;
  now = now;
  destination_is_beneficiary = is_beneficiary p.context p.intent;
}

abbrev pub decide : ℕ → Payment → Option PolicyBinding → PolicyDecision
decide now p none =
    PolicyDecision.approval_required
      ("No policy is bound to this agent or treasury; human approval is required" ∷ [])
decide now p (some b) = evaluate_payment_intent (intent_of p.intent) b.policy (policy_context now p)
