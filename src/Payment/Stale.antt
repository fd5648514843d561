-- ===== src/Payment/Stale.antt =====
-- packages/database/src/jobs.ts, `evaluateIntent`: an evaluation that comes late, or twice.
use ai_neobank.Prelude.{
  ℕ, ◌≡◌, refl, false, not, ◌&&◌, String, Option, [], ◌∷◌, if◌then◌else◌, Bool-cases, Option-cases,
  inl, inr, leb,
}
use ai_neobank.Prelude.Equality.{◌==◌, nat_eq}
use ai_neobank.Prelude.Failure.{Result, ok, err, Tx, begin, commit}
use ai_neobank.Domain.{IntentStatus, status_eq, PolicyDecision}
use ai_neobank.Payment.Rows.{Payment, SimulationEvidence, PolicyBinding}
use ai_neobank.Payment.Changes.{transition}
use ai_neobank.Payment.Intake.{gate, load_policy, decide}
use ai_neobank.Payment.Evaluate.{
  reject, Findings, is_direct, is_auto, simulated, findings, version_of, simulation_failure,
  accept_governed, accept_autonomous, accept_for_approval, accept, evaluate_decided,
  evaluate_intent,
}

-- What the database holds after the call is what it held before.
abbrev Unchanged : Payment → Result (Unit {0} × Payment) → Type 0
Unchanged p (ok (_, q)) = q ≡ p
Unchanged p (err _) = Unit

module _ (sha256 : String → String) (now : ℕ) (row p : Payment)
    (moved_on : (p.intent.status == IntentStatus.received) ≡ false) where
  reject-Unchanged :
      (decision : PolicyDecision) (policy_version : Option ℕ)
      → Unchanged p (reject row decision policy_version p)
  unfolding reject
  reject-Unchanged decision policy_version = rw moved_on refl

  accept-Unchanged : (f : Findings) → Unchanged p (accept sha256 now row f p)
  unfolding accept accept_governed accept_autonomous accept_for_approval
  accept-Unchanged f = elim (Bool-cases (not (is_direct row.context.governance))) [
    | inl governed ↦ rw (governed, moved_on) refl
    | inr ungoverned ↦
        rw ungoverned (elim (Bool-cases (is_auto f.decision && row.context.autonomous_execution)) [
          | inl auto ↦ rw (auto, moved_on) refl
          | inr manual ↦ rw (manual, moved_on) refl
        ])
  ]

  simulated-Unchanged :
      (evidence : SimulationEvidence) (binding : Option PolicyBinding) (decision : PolicyDecision)
      → Unchanged p (
          (if not evidence.ok
              then reject row
                  (PolicyDecision.rejected (simulation_failure evidence ∷ []))
                  (version_of binding)
              else accept sha256 now row (findings sha256 now row binding decision evidence))
            p)
  simulated-Unchanged evidence binding decision = elim (Bool-cases (not evidence.ok)) [
    | inl failed ↦ rw failed (reject-Unchanged _ _)
    | inr fine ↦ rw fine (accept-Unchanged (findings sha256 now row binding decision evidence))
  ]

  decided-Unchanged :
      (simulate : Option (Payment → SimulationEvidence)) (binding : Option PolicyBinding)
      (decision : PolicyDecision)
      → Unchanged p (evaluate_decided sha256 now simulate row binding decision p)
  unfolding evaluate_decided
  decided-Unchanged simulate binding (PolicyDecision.rejected why) = reject-Unchanged _ _
  decided-Unchanged simulate binding decision =
      simulated-Unchanged (simulated sha256 now simulate row) binding decision

  evaluate-Unchanged :
      (simulate : Option (Payment → SimulationEvidence))
      → Unchanged p (evaluate_intent sha256 now simulate row p)
  unfolding evaluate_intent transition
  evaluate-Unchanged simulate =
      elim (Bool-cases (not (row.intent.status == IntentStatus.received))) [
        | inl elsewhere ↦ rw elsewhere refl
        | inr here ↦ rw here (elim (Bool-cases (leb row.intent.expires_at now)) [
          | inl late ↦ rw (late, moved_on) tt
          | inr live ↦ rw live (elim (Option-cases (gate row.context row.intent)) [
            | inl passed ↦ rw passed (
                decided-Unchanged simulate (load_policy row.context row.intent)
                  (decide now row (load_policy row.context row.intent)))
            | inr (why, shut) ↦ rw shut (reject-Unchanged _ _)
          ])
        ])
      ]

committed : (p : Payment) (r : Result (Unit {0} × Payment)) → Unchanged p r → (commit p r).1 ≡ p
committed p (ok (_, q)) h = h
committed p (err e) h = refl

begin-Unchanged : (m : Tx Payment (Unit {0})) (p : Payment) → Unchanged p (m p) → (begin m p).1 ≡ p
begin-Unchanged m p h = committed p (m p) h

-- `evaluateIntent` never changes a payment that is not in `received`: whatever snapshot it read
-- before, whatever policy and simulation say, the rows after the call are the rows before it. So a
-- second delivery of the job, or one that lost a race, is harmless.
pub evaluate_intent_stale :
    (sha256 : String → String) (now : ℕ) (simulate : Option (Payment → SimulationEvidence))
    (row p : Payment)
    → (p.intent.status == IntentStatus.received) ≡ false
    → (begin (evaluate_intent sha256 now simulate row) p).1 ≡ p
evaluate_intent_stale sha256 now simulate row p moved_on =
    begin-Unchanged (evaluate_intent sha256 now simulate row) p
      (evaluate-Unchanged sha256 now row p moved_on simulate)
