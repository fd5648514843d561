-- ===== src/Payment/Publish.antt =====
-- packages/database/src/jobs.ts: `keyMaterial`, `getPublishContext`, `recordPublication`,
-- `completePublication` and `expireApproval`.
use ai_neobank.Prelude.{
  ℕ, ◌+◌, ◌-◌, ◌/◌, not, ◌||◌, String, Option, none, some, if◌then◌else◌, find, leb, ltb,
}
use ai_neobank.Prelude.Equality.{◌==◌, nat_eq}
use ai_neobank.Prelude.Text.{◌++ₜ◌, is_blank}
use ai_neobank.Prelude.Failure.{
  error, execution_rejected, deferred, Result, ok, err, Tx, ◌>>◌, modify, throw, done,
}
use ai_neobank.Domain.{Governance, IntentStatus, status_eq, status_text}
use ai_neobank.Payment.Rows.{
  Payment, Context, Intent, Signer, Custody, StoredDecision, ApprovalRequest, RequestStatus, Topic,
  is_active, access_text, is_pending,
}
use ai_neobank.Payment.Changes.{transition, enqueue_at, update_intent, set_request_status}
use ai_neobank.Payment.Intake.{gate, is_squads}
use ai_neobank.Payment.Evaluate.{is_direct}

-- How a signer's key is held; a blank column is a null one.
pub data KeyMaterial : Type 0 where
  sealed_secret : String → String → String → KeyMaterial
  kms_key : String → KeyMaterial

abbrev material : Custody → Signer → Option KeyMaterial
material Custody.kms s = if is_blank s.kms_key_id then none else some (kms_key s.kms_key_id)
material Custody.encrypted_software s =
    if is_blank s.encrypted_secret || is_blank s.encryption_nonce || is_blank s.auth_tag
    then none
    else some (sealed_secret s.encrypted_secret s.encryption_nonce s.auth_tag)
material Custody.external_wallet s = none

unfoldable pub key_material : Signer → Option KeyMaterial
key_material s = material s.custody s

pub record PublishContext : Type 0 where
  pub intent : Intent
  pub governance : Governance
  pub min_approvals : ℕ
  pub executor : Signer
  pub key : KeyMaterial
  pub x402 : Option String
  pub publication : Option String

abbrev pub stored_min_approvals : Option StoredDecision → ℕ
stored_min_approvals none = 1
stored_min_approvals (some d) = elim d.min_approvals [ none ↦ 1 | some n ↦ n ]

abbrev pub stored_quote : Option StoredDecision → Option String
stored_quote none = none
stored_quote (some d) = d.x402

-- The executor signer with its key, where it has an address and a key Relay can use.
abbrev pub usable : Option Signer → Option (Signer × KeyMaterial)
usable none = none
usable (some s) =
    if is_blank s.address
    then none
    else elim (key_material s) [ none ↦ none | some k ↦ some (s, k) ]

abbrev pub executor_row : Context → Option Signer
executor_row c = elim c.executor_signer_id [
  | none ↦ none
  | some id ↦ find (λ s. s.id == id) c.signers
]

abbrev publish_with : ℕ → Payment → Option (Signer × KeyMaterial) → Result PublishContext
publish_with now p none = err (execution_rejected "Treasury has no executor signer")
publish_with now p (some (s, k)) =
    if not (is_active s.status)
    then err (execution_rejected ("Executor signer is " ++ₜ access_text s.status))
    else if leb p.intent.expires_at now
    then err (execution_rejected "Intent expired before publication")
    else ok (record {
      intent = p.intent;
      governance = p.context.governance;
      min_approvals = stored_min_approvals p.intent.policy_decision;
      executor = s;
      key = k;
      x402 = stored_quote p.intent.policy_decision;
      publication = p.intent.publication;
    })

-- `getPublishContext`
unfoldable pub get_publish_context : ℕ → Payment → Result PublishContext
unfolding gate key_material
get_publish_context now p =
    if not (p.intent.status == IntentStatus.policy_evaluated)
    then err (error ("Intent is " ++ₜ status_text p.intent.status ++ₜ ", not policy_evaluated"))
    else if is_direct p.context.governance
    then err (execution_rejected "Direct treasuries do not publish proposals")
    else elim (gate p.context p.intent) [
      | some why ↦ err (execution_rejected why)
      | none ↦ publish_with now p (usable (executor_row p.context))
    ]

-- `recordPublication`
unfoldable pub record_publication : String → Tx Payment (Unit {0})
record_publication publication = update_intent (λ i. record i { publication = some publication })

-- What the publisher made: the Safe hash or the Squads proposal, and how many must approve.
pub record Published : Type 0 where
  pub compiled_hash : String
  pub required_approvals : ℕ
  pub external_ref : String

-- `insert … on conflict (intent_id) do update set required_approvals, compiled_hash, external_ref`
abbrev pub upsert_request : ApprovalRequest → Tx Payment (Unit {0})
upsert_request r = modify (λ p. record p {
  request = elim p.request [
    | none ↦ some r
    | some old ↦ some (record old {
      required_approvals = r.required_approvals;
      compiled_hash = r.compiled_hash;
      external_ref = r.external_ref;
    })
  ];
})

abbrev pub stored_simulation_hash : Option StoredDecision → String
stored_simulation_hash none = ""
stored_simulation_hash (some d) = elim d.simulation_hash [ none ↦ "" | some hash ↦ hash ]

-- `completePublication`
unfoldable pub complete_publication : ℕ → Published → Tx Payment (Unit {0})
unfolding transition
complete_publication now result p =
    let row = p.intent in
    if not (row.status == IntentStatus.policy_evaluated)
    then done p
    else (do
      transition row.version IntentStatus.policy_evaluated IntentStatus.approval_required
          "intent.approval_required"
      upsert_request (record {
        required_approvals = result.required_approvals;
        compiled_hash = result.compiled_hash;
        simulation_hash = stored_simulation_hash row.policy_decision;
        status = RequestStatus.pending;
        expires_at = row.expires_at;
        external_ref = some result.external_ref;
      })
      enqueue_at row.expires_at Topic.approval_expire
      if is_squads p.context.governance then enqueue_at now Topic.proposal_observe else done)
        p

abbrev pub expire_pending : ℕ → Intent → Option ApprovalRequest → Tx Payment (Unit {0})
expire_pending now i none = done
expire_pending now i (some r) =
    if not (i.status == IntentStatus.approval_required) || not (is_pending r.status)
    then done
    else if ltb now r.expires_at
    then throw
        (deferred "Approval expiry job ran before expiry" ((r.expires_at - now + 999) / 1000 + 1))
    else (do
      modify (set_request_status RequestStatus.expired)
      transition i.version IntentStatus.approval_required IntentStatus.expired "intent.expired")

-- `expireApproval`
unfoldable pub expire_approval : ℕ → Tx Payment (Unit {0})
unfolding transition
expire_approval now p = expire_pending now p.intent p.request p
