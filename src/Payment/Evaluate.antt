-- ===== src/Payment/Evaluate.antt =====
-- packages/database/src/jobs.ts: `evaluateIntent` and `reject`. The row is read first and the
-- transaction runs later, so the row is an argument beside the payment that the transaction finds.
use ai_neobank.Prelude.{
  ℕ, Bool, true, false, not, ◌&&◌, String, Option, none, some, List, [], ◌∷◌, ◌++◌, if◌then◌else◌,
  leb,
}
use ai_neobank.Prelude.Equality.{◌==◌}
use ai_neobank.Prelude.Text.{◌++ₜ◌, join, decimal}
use ai_neobank.Prelude.Failure.{Tx, ◌>>◌, modify, done}
use ai_neobank.Domain.{
  Governance, safe, direct, IntentKind, transfer, x402, IntentStatus, status_eq, PolicyDecision,
  reasons,
}
use ai_neobank.Payment.Rows.{
  Payment, Intent, PolicyBinding, SimulationEvidence, ApprovalRequest, RequestStatus, Topic,
}
use ai_neobank.Payment.Changes.{transition, enqueue_at, update_intent}
use ai_neobank.Payment.Intake.{gate, load_policy, spent_today, decide}

-- `insert into approval_requests … on conflict (intent_id) do nothing`
abbrev pub insert_request : ApprovalRequest → Tx Payment (Unit {0})
insert_request r =
    modify (λ p. record p { request = elim p.request [ none ↦ some r | some old ↦ some old ] })

abbrev pub version_of : Option PolicyBinding → Option ℕ
version_of none = none
version_of (some b) = some b.version_id

abbrev pub approvals_of : Option PolicyBinding → ℕ
approvals_of none = 1
approvals_of (some b) = b.policy.min_approvals

-- Runs only if the intent is still `received` under the lock.
abbrev pub if_received : Tx Payment (Unit {0}) → Tx Payment (Unit {0})
if_received body p = if p.intent.status == IntentStatus.received then body p else done p

-- `reject`
unfoldable pub reject : Payment → PolicyDecision → Option ℕ → Tx Payment (Unit {0})
unfolding transition
reject row decision policy_version = if_received do
  update_intent (λ i. record i {
    policy_version_id = policy_version;
    policy_decision = some (record {
      decision = decision;
      spent_today = none;
      simulation = none;
      x402 = none;
      simulation_hash = none;
      min_approvals = none;
    });
    failure_reason = some (join "; " (reasons decision));
  })
  transition row.intent.version IntentStatus.received IntentStatus.rejected "intent.rejected"

abbrev pub unsimulated : SimulationEvidence
unsimulated = record {
  ok = true;
  fee_base_units = "0";
  source_balance_base_units = "unknown";
  error = none;
  quote = none;
  compiled_hash = none;
}

abbrev pub simulation_failure : SimulationEvidence → String
simulation_failure e = "Simulation failed: " ++ₜ elim e.error [ none ↦ "unknown" | some why ↦ why ]

abbrev governance_reason : IntentKind → Governance → String
governance_reason x402 _ = "Safe treasury: owners authorise the payment with their signatures"
governance_reason transfer safe = "Safe treasury: owners approve on chain"
governance_reason transfer _ = "Squads vault: voting members approve on chain"

abbrev pub is_auto : PolicyDecision → Bool
is_auto (PolicyDecision.auto_authorized _) = true
is_auto _ = false

abbrev pub is_direct : Governance → Bool
is_direct direct = true
is_direct _ = false

-- What intake has found out when its transaction begins.
pub record Findings : Type 0 where
  pub binding : Option PolicyBinding
  pub decision : PolicyDecision
  pub spent : ℕ
  pub evidence : SimulationEvidence

module _ (sha256 : String → String) (now : ℕ) where
  abbrev pub simulation_hash : Intent → SimulationEvidence → String
  simulation_hash i e = sha256 (
      join "|" (
        "simulation-v1"
        ∷ decimal i.id
        ∷ i.network
        ∷ decimal i.amount_base_units
        ∷ i.destination
        ∷ e.fee_base_units
        ∷ e.source_balance_base_units
        ∷ []))

  -- Governed treasuries: the proposal is published first, and the approval request follows.
  unfoldable pub accept_governed : Payment → Findings → Tx Payment (Unit {0})
  unfolding transition
  accept_governed row f = if_received do
    update_intent (λ i. record i {
      policy_version_id = version_of f.binding;
      policy_decision = some (record {
        decision =
            PolicyDecision.approval_required
              (reasons f.decision ++ governance_reason row.intent.kind row.context.governance ∷ []);
        spent_today = some f.spent;
        simulation = some f.evidence;
        x402 = f.evidence.quote;
        simulation_hash = some (simulation_hash row.intent f.evidence);
        min_approvals = some (approvals_of f.binding);
      });
    })
    transition row.intent.version IntentStatus.received IntentStatus.policy_evaluated
        "intent.policy_evaluated"
    enqueue_at now Topic.proposal_publish

  abbrev direct_request : Payment → Findings → ℕ → RequestStatus → ApprovalRequest
  direct_request row f required status = record {
    required_approvals = required;
    compiled_hash = elim f.evidence.compiled_hash [
      | none ↦ row.intent.compiled_hash
      | some hash ↦ hash
    ];
    simulation_hash = simulation_hash row.intent f.evidence;
    status = status;
    expires_at = row.intent.expires_at;
    external_ref = none;
  }

  abbrev store_direct : Findings → PolicyDecision → Intent → Intent
  store_direct f decision i = record i {
    policy_version_id = version_of f.binding;
    policy_decision = some (record {
      decision = decision;
      spent_today = some f.spent;
      simulation = some f.evidence;
      x402 = f.evidence.quote;
      simulation_hash = none;
      min_approvals = none;
    });
  }

  abbrev direct_reasons : Payment → PolicyDecision → List String
  direct_reasons row decision =
      if is_auto decision && not row.context.autonomous_execution
      then reasons decision ++ "Autonomous execution is disabled for this organization" ∷ []
      else reasons decision

  unfoldable pub accept_autonomous : Payment → Findings → Tx Payment (Unit {0})
  unfolding transition
  accept_autonomous row f = if_received do
    update_intent (store_direct f (PolicyDecision.auto_authorized (direct_reasons row f.decision)))
    transition row.intent.version IntentStatus.received IntentStatus.approved
        "intent.auto_authorized"
    insert_request (direct_request row f 1 RequestStatus.approved)
    enqueue_at now Topic.transaction_execute

  unfoldable pub accept_for_approval : Payment → Findings → Tx Payment (Unit {0})
  unfolding transition
  accept_for_approval row f = if_received do
    update_intent
        (store_direct f (PolicyDecision.approval_required (direct_reasons row f.decision)))
    transition row.intent.version IntentStatus.received IntentStatus.approval_required
        "intent.approval_required"
    insert_request (direct_request row f (approvals_of f.binding) RequestStatus.pending)
    enqueue_at row.intent.expires_at Topic.approval_expire

  unfoldable pub accept : Payment → Findings → Tx Payment (Unit {0})
  unfolding accept_governed accept_autonomous accept_for_approval
  accept row f =
      if not (is_direct row.context.governance)
      then accept_governed row f
      else if is_auto f.decision && row.context.autonomous_execution
      then accept_autonomous row f
      else accept_for_approval row f

  abbrev pub simulated : Option (Payment → SimulationEvidence) → Payment → SimulationEvidence
  simulated none row = unsimulated
  simulated (some simulate) row = simulate row

  abbrev pub findings :
      Payment → Option PolicyBinding → PolicyDecision → SimulationEvidence → Findings
  findings row binding decision evidence = record {
    binding = binding;
    decision = decision;
    spent = spent_today now row.intent row.context.other_intents;
    evidence = evidence;
  }

  -- The part after the gates: the policy, the simulation, and the matching transaction.
  unfoldable pub evaluate_decided :
      Option (Payment → SimulationEvidence)
      → Payment
      → Option PolicyBinding
      → PolicyDecision
      → Tx Payment (Unit {0})
  unfolding reject accept
  evaluate_decided simulate row binding (PolicyDecision.rejected found) =
      reject row (PolicyDecision.rejected found) (version_of binding)
  evaluate_decided simulate row binding decision =
      let evidence = simulated simulate row in
      if not evidence.ok
      then reject row (PolicyDecision.rejected (simulation_failure evidence ∷ []))
          (version_of binding)
      else accept row (findings row binding decision evidence)

  -- `evaluateIntent`
  unfoldable pub evaluate_intent :
      Option (Payment → SimulationEvidence) → Payment → Tx Payment (Unit {0})
  unfolding reject evaluate_decided
  evaluate_intent simulate row =
      if not (row.intent.status == IntentStatus.received)
      then done
      else if leb row.intent.expires_at now
      then transition row.intent.version IntentStatus.received IntentStatus.expired "intent.expired"
      else elim (gate row.context row.intent) [
        | some why ↦ reject row (PolicyDecision.rejected (why ∷ [])) none
        | none ↦
            let binding = load_policy row.context row.intent in
            evaluate_decided simulate row binding (decide now row binding)
      ]
