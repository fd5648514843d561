-- ===== src/Payment/Lifecycle.antt =====
-- Every handler of a payment follows the lifecycle: packages/database/src/jobs.ts from
-- `evaluateIntent` to `markFinalized`, and `decideIntent` of packages/database/src/index.ts.
use ai_neobank.Prelude.{
  ℕ, refl, not, ◌&&◌, String, Option, [], ◌∷◌, if◌then◌else◌, Bool-cases, Option-cases, inl, inr,
  leb,
}
use ai_neobank.Prelude.Equality.{◌==◌, nat_eq}
use ai_neobank.Domain.{IntentStatus, status_eq, PolicyDecision}
use ai_neobank.Payment.Rows.{Payment, SimulationEvidence, PolicyBinding}
use ai_neobank.Payment.Intake.{gate}
use ai_neobank.Payment.Evaluate.{
  reject, Findings, accept_governed, accept_autonomous, is_direct, is_auto, simulated, findings,
  version_of, simulation_failure, accept_for_approval, accept, evaluate_decided, evaluate_intent,
}
use ai_neobank.Payment.Evolve.{
  Step, Evolves-refl, Evolves-aside, Kept, Kept-if, transition-Kept, transition-after,
  transition-then,
}

module _ (row : Payment) (decision : PolicyDecision) (policy_version : Option ℕ) where
  pub reject-Kept : (p : Payment) → Kept p (reject row decision policy_version p)
  unfolding reject
  reject-Kept p =
      Kept-if {A = Unit {0}} (p.intent.status == IntentStatus.received) _ _ p
        (λ _.
          transition-after _ _ _ _ p _ (Evolves-aside p _ refl refl refl refl refl refl)
            Step.turn_down)
        (λ _. Evolves-refl p)

module _ (sha256 : String → String) (now : ℕ) (row : Payment) where
  accept_governed-Kept : (f : Findings) (p : Payment) → Kept p (accept_governed sha256 now row f p)
  unfolding accept_governed
  accept_governed-Kept f p =
      Kept-if {A = Unit {0}} (p.intent.status == IntentStatus.received) _ _ p
        (λ _.
          transition-then _ _ _ _ _ p _ (Evolves-aside p _ refl refl refl refl refl refl)
            Step.evaluate (λ s. Evolves-aside s _ refl refl refl refl refl refl))
        (λ _. Evolves-refl p)

  accept_autonomous-Kept :
      (f : Findings) (p : Payment) → Kept p (accept_autonomous sha256 now row f p)
  unfolding accept_autonomous
  accept_autonomous-Kept f p =
      Kept-if {A = Unit {0}} (p.intent.status == IntentStatus.received) _ _ p
        (λ _.
          transition-then _ _ _ _ _ p _ (Evolves-aside p _ refl refl refl refl refl refl)
            Step.authorize (λ s. Evolves-aside s _ refl refl refl refl refl refl))
        (λ _. Evolves-refl p)

  accept_for_approval-Kept :
      (f : Findings) (p : Payment) → Kept p (accept_for_approval sha256 now row f p)
  unfolding accept_for_approval
  accept_for_approval-Kept f p =
      Kept-if {A = Unit {0}} (p.intent.status == IntentStatus.received) _ _ p
        (λ _.
          transition-then _ _ _ _ _ p _ (Evolves-aside p _ refl refl refl refl refl refl) Step.ask
            (λ s. Evolves-aside s _ refl refl refl refl refl refl))
        (λ _. Evolves-refl p)

  accept-Kept : (f : Findings) (p : Payment) → Kept p (accept sha256 now row f p)
  unfolding accept
  accept-Kept f p = elim (Bool-cases (not (is_direct row.context.governance))) [
    | inl governed ↦ rw governed (accept_governed-Kept f p)
    | inr ungoverned ↦
        rw ungoverned (elim (Bool-cases (is_auto f.decision && row.context.autonomous_execution)) [
          | inl auto ↦ rw auto (accept_autonomous-Kept f p)
          | inr manual ↦ rw manual (accept_for_approval-Kept f p)
        ])
  ]

  simulated-Kept :
      (evidence : SimulationEvidence) (binding : Option PolicyBinding) (decision : PolicyDecision)
      (p : Payment)
      → Kept p (
          (if not evidence.ok
              then reject row
                  (PolicyDecision.rejected (simulation_failure evidence ∷ []))
                  (version_of binding)
              else accept sha256 now row (findings sha256 now row binding decision evidence))
            p)
  simulated-Kept evidence binding decision p = elim (Bool-cases (not evidence.ok)) [
    | inl failed ↦ rw failed (reject-Kept row _ _ p)
    | inr fine ↦ rw fine (accept-Kept (findings sha256 now row binding decision evidence) p)
  ]

  evaluate_decided-Kept :
      (simulate : Option (Payment → SimulationEvidence)) (binding : Option PolicyBinding)
      (decision : PolicyDecision) (p : Payment)
      → Kept p (evaluate_decided sha256 now simulate row binding decision p)
  unfolding evaluate_decided
  evaluate_decided-Kept simulate binding (PolicyDecision.rejected why) p = reject-Kept row _ _ p
  evaluate_decided-Kept simulate binding decision p =
      simulated-Kept (simulated sha256 now simulate row) binding decision p

  pub evaluate_intent-Kept :
      (simulate : Option (Payment → SimulationEvidence)) (p : Payment)
      → Kept p (evaluate_intent sha256 now simulate row p)
  unfolding evaluate_intent
  evaluate_intent-Kept simulate p =
      elim (Bool-cases (not (row.intent.status == IntentStatus.received))) [
        | inl elsewhere ↦ rw elsewhere (Evolves-refl p)
        | inr here ↦ rw here (elim (Bool-cases (leb row.intent.expires_at now)) [
          | inl late ↦ rw late (transition-Kept row.intent.version _ _ _ p Step.lapse)
          | inr live ↦ rw live (elim (Option-cases (gate row.context row.intent)) [
            | inl open_gate ↦ rw open_gate (evaluate_decided-Kept simulate _ _ p)
            | inr (why, shut) ↦ rw shut (reject-Kept row _ _ p)
          ])
        ])
      ]
