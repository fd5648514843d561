-- ===== src/Payment/Execute.antt =====
-- packages/database/src/jobs.ts: `getExecutionContext`, `recordSimulation` and `markSigned`.
use ai_neobank.Prelude.{
  ℕ, Bool, true, false, not, ◌&&◌, String, Option, none, some, List, [], ◌∷◌, if◌then◌else◌, filter,
  leb, ltb, includes,
}
use ai_neobank.Prelude.Equality.{◌==◌, nat_eq, string_eq, option_eq}
use ai_neobank.Prelude.Text.{◌++ₜ◌, is_blank, to_lower, join}
use ai_neobank.Prelude.Failure.{
  error, execution_rejected, Result, ok, err, Tx, ◌>>◌, pure, modify, done,
}
use ai_neobank.Domain.{
  ChainFamily, evm, svm, Governance, safe, direct, IntentStatus, status_eq, status_text,
  PolicyDecision,
}
use ai_neobank.Policy.{evaluate_payment_intent}
use ai_neobank.Payment.Rows.{
  Payment, Context, Intent, Signer, Custody, Approval, ApprovalRequest, RequestStatus, Execution,
  ExecutionStatus, Vote, is_active, access_text, vote_beq,
}
use ai_neobank.Payment.Changes.{event, set_status}
use ai_neobank.Payment.Intake.{gate, load_policy, policy_context, intent_of}
use ai_neobank.Payment.Evaluate.{is_direct}
use ai_neobank.Payment.Publish.{KeyMaterial, key_material, stored_quote}

pub record OwnerSignature : Type 0 where
  pub signer_address : String
  pub signed_payload : String

pub record ExecutionContext : Type 0 where
  pub intent : Intent
  pub context : Context
  pub signer : Signer
  pub key : KeyMaterial
  pub approval_compiled_hash : String
  pub external_ref : Option String
  pub owner_signatures : List OwnerSignature
  pub x402 : Option String
  pub execution : Option Execution

abbrev holds_key : Custody → Bool
holds_key Custody.external_wallet = false
holds_key _ = true

abbrev same_family : ChainFamily → ChainFamily → Bool
same_family evm evm = true
same_family svm svm = true
same_family _ _ = false

-- The signers that the lateral join may choose.
abbrev pub may_sign : Context → Signer → Bool
may_sign c s =
    holds_key s.custody
    && same_family s.chain_family c.chain_family
    && (if is_direct c.governance
        then to_lower s.address == to_lower c.treasury_address
        else c.executor_signer_id == some s.id)

-- `order by s.created_at desc limit 1`
unfoldable pub newest : List Signer → Option Signer
newest [] = none
newest (s ∷ rest) = elim (newest rest) [
  | none ↦ some s
  | some t ↦ if ltb s.created_at t.created_at then some t else some s
]

abbrev pub execution_signer : Context → Option Signer
execution_signer c = newest (filter (may_sign c) c.signers)

unfoldable pub owner_signatures : List Approval → List OwnerSignature
owner_signatures [] = []
owner_signatures (a ∷ rest) =
    if vote_beq a.decision Vote.approved
    then elim a.signer_address [
      | none ↦ owner_signatures rest
      | some address ↦ elim a.signed_payload [
        | none ↦ owner_signatures rest
        | some payload ↦
            record { signer_address = address; signed_payload = payload } ∷ owner_signatures rest
      ]
    ]
    else owner_signatures rest

abbrev is_safe : Governance → Bool
is_safe safe = true
is_safe _ = false

abbrev no_signer : Governance → String
no_signer direct = "No signer Relay holds matches the treasury address"
no_signer _ = "Treasury has no executor signer"

-- The compiled hash of an approved request; a blank column is a null one.
abbrev pub approved_hash : Option ApprovalRequest → Option String
approved_hash none = none
approved_hash (some r) = elim r.status [
  | RequestStatus.approved ↦ if is_blank r.compiled_hash then none else some r.compiled_hash
  | _ ↦ none
]

abbrev request_ref : Option ApprovalRequest → Option String
request_ref none = none
request_ref (some r) = r.external_ref

-- A signer with an address and a key.
abbrev pub with_key : Option Signer → Option (Signer × KeyMaterial)
with_key none = none
with_key (some s) = elim (key_material s) [
  | none ↦ none
  | some k ↦ if is_blank s.address then none else some (s, k)
]

-- The policy again, against what is spent now: only an outright rejection stops the payment.
abbrev pub recheck : ℕ → Payment → Option String
recheck now p = elim (load_policy p.context p.intent) [
  | none ↦ none
  | some b ↦ elim (evaluate_payment_intent (intent_of p.intent) b.policy (policy_context now p)) [
    | PolicyDecision.rejected why ↦ some ("Policy rejected at execution: " ++ₜ join "; " why)
    | _ ↦ none
  ]
]

abbrev pub execution_context : Payment → String → Signer → KeyMaterial → ExecutionContext
execution_context p hash s k = record {
  intent = p.intent;
  context = p.context;
  signer = s;
  key = k;
  approval_compiled_hash = hash;
  external_ref = request_ref p.request;
  owner_signatures = if is_safe p.context.governance then owner_signatures p.approvals else [];
  x402 = stored_quote p.intent.policy_decision;
  execution = p.execution;
}

abbrev pub sign_with :
    ℕ → Payment → String → Option (Signer × KeyMaterial) → Result ExecutionContext
sign_with now p hash none = err (execution_rejected (no_signer p.context.governance))
sign_with now p hash (some (s, k)) =
    if not (is_active s.status)
    then err (execution_rejected ("Signer is " ++ₜ access_text s.status))
    else if not (p.intent.status == IntentStatus.approved)
    then ok (execution_context p hash s k)
    else if leb p.intent.expires_at now
    then err (execution_rejected "Intent expired before execution")
    else elim (recheck now p) [
      | some why ↦ err (execution_rejected why)
      | none ↦ ok (execution_context p hash s k)
    ]

abbrev pub has_no_execution : Option Execution → Bool
has_no_execution none = true
has_no_execution (some e) = false

abbrev pub execute_with : ℕ → Payment → Option String → Result ExecutionContext
execute_with now p none = err (execution_rejected "No approved approval request")
execute_with now p (some hash) =
    if p.intent.status == IntentStatus.executing && has_no_execution p.execution
    then err (execution_rejected "Intent is executing without an execution record")
    else elim (gate p.context p.intent) [
      | some why ↦ err (execution_rejected why)
      | none ↦ sign_with now p hash (with_key (execution_signer p.context))
    ]

-- `getExecutionContext`
unfoldable pub get_execution_context : ℕ → Payment → Result ExecutionContext
get_execution_context now p =
    if not (includes (IntentStatus.approved ∷ IntentStatus.executing ∷ []) p.intent.status)
    then err (error ("Intent is " ++ₜ status_text p.intent.status ++ₜ ", not approved"))
    else execute_with now p (approved_hash p.request)

-- `recordSimulation`; `fresh` is the identifier that the insert would generate.
abbrev pub new_execution : ℕ → ExecutionContext → ℕ → String → String → Execution
new_execution fresh c fee details hash = record {
  id = fresh;
  signer_id = c.signer.id;
  network = c.intent.network;
  compiled_payload = record { pay_to = none; settled_amount = none; details = details };
  compiled_hash = hash;
  simulated_fee = fee;
  status = ExecutionStatus.simulated;
  transaction_hash = none;
  signed_payload = none;
  nonce = none;
  valid_until = none;
  broadcast_at = none;
  block_cursor = none;
  fee_base_units = none;
  confirmations = none;
  error = none;
}

abbrev pub upsert_execution : Execution → Option Execution → Execution
upsert_execution fresh none = fresh
upsert_execution fresh (some e) = record e { simulated_fee = fresh.simulated_fee }

unfoldable pub record_simulation : ℕ → ExecutionContext → ℕ → String → String → Tx Payment ℕ
record_simulation fresh c fee details hash p =
    let e = upsert_execution (new_execution fresh c fee details hash) p.execution in
    (do
      modify (λ q. record q { execution = some e })
      if p.intent.status == IntentStatus.approved
          then modify (set_status IntentStatus.executing) >> event "intent.executing"
          else done
      pure e.id)
      p

pub record SignedTransaction : Type 0 where
  pub hash : String
  pub raw : String
  pub nonce : String
  pub valid_until : String

abbrev pub is_simulated : ExecutionStatus → Bool
is_simulated ExecutionStatus.simulated = true
is_simulated _ = false

abbrev pub sign_execution : ℕ → SignedTransaction → Option Execution → Option Execution
sign_execution id signed none = none
sign_execution id signed (some e) =
    if e.id == id && is_simulated e.status
    then some (record e {
      status = ExecutionStatus.signed;
      transaction_hash = some signed.hash;
      signed_payload = some signed.raw;
      nonce = some signed.nonce;
      valid_until = some signed.valid_until;
    })
    else some e

-- `markSigned`
unfoldable pub mark_signed : ℕ → SignedTransaction → Tx Payment (Unit {0})
mark_signed id signed = modify (λ p. record p { execution = sign_execution id signed p.execution })
