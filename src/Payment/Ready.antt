-- ===== src/Payment/Ready.antt =====
-- packages/database/src/jobs.ts, `getExecutionContext`: what is certain when a payment is signed.
use ai_neobank.Prelude.{
  ℕ, ◌<◌, ◌≡◌, refl, ◌⊎◌, true, false, not, ◌&&◌, String, Option, none, some, [], ◌∷◌, Bool-cases,
  Option-cases, not-false, not-true, inl, inr, leb, arith, includes,
}
use ai_neobank.Prelude.Equality.{◌==◌, nat_eq}
use ai_neobank.Prelude.Failure.{Result, ok, err}
use ai_neobank.Domain.{IntentStatus, status_eq}
use ai_neobank.Payment.Rows.{Payment, Signer, is_active}
use ai_neobank.Payment.Intake.{gate}
use ai_neobank.Payment.Publish.{KeyMaterial}
use ai_neobank.Payment.Execute.{
  ExecutionContext, execution_signer, approved_hash, with_key, recheck, sign_with, execute_with,
  get_execution_context, has_no_execution,
}

-- What `getExecutionContext` has established when it returns.
pub record IsReady (now : ℕ) (p : Payment) (c : ExecutionContext) : Type 0 where
  pub may_execute :
      includes (IntentStatus.approved ∷ IntentStatus.executing ∷ []) p.intent.status ≡ true
  pub approved : approved_hash p.request ≡ some c.approval_compiled_hash
  pub gates_pass : gate p.context p.intent ≡ none
  pub signer_holds_key : with_key (execution_signer p.context) ≡ some (c.signer, c.key)
  pub signer_active : is_active c.signer.status ≡ true
  pub begun_or_fresh :
      ((p.intent.status == IntentStatus.approved) ≡ false)
      ⊎ (now < p.intent.expires_at) × (recheck now p ≡ none)

abbrev Ready : ℕ → Payment → Result ExecutionContext → Type 0
Ready now p (ok c) = IsReady now p c
Ready now p (err _) = Unit

module _ (now : ℕ) (p : Payment)
    (may : includes (IntentStatus.approved ∷ IntentStatus.executing ∷ []) p.intent.status
      ≡ true) where
  sign_with-Ready :
      (hash : String) (found : Option (Signer × KeyMaterial))
      → approved_hash p.request ≡ some hash
      → gate p.context p.intent ≡ none
      → with_key (execution_signer p.context) ≡ found
      → Ready now p (sign_with now p hash found)
  sign_with-Ready hash none approved gates held = tt
  sign_with-Ready hash (some (s, k)) approved gates held =
      elim (Bool-cases (not (is_active s.status))) [
        | inl inactive ↦ rw inactive tt
        | inr active ↦
            rw active (elim (Bool-cases (not (p.intent.status == IntentStatus.approved))) [
              | inl again ↦ rw again (record {
                may_execute = may;
                approved = approved;
                gates_pass = gates;
                signer_holds_key = held;
                signer_active = not-false _ active;
                begun_or_fresh = inl (not-true _ again);
              })
              | inr first ↦ rw first (elim (Bool-cases (leb p.intent.expires_at now)) [
                | inl late ↦ rw late tt
                | inr live ↦ rw live (elim (Option-cases (recheck now p)) [
                  | inr (why, refused) ↦ rw refused tt
                  | inl passed ↦ rw passed (record {
                    may_execute = may;
                    approved = approved;
                    gates_pass = gates;
                    signer_holds_key = held;
                    signer_active = not-false _ active;
                    begun_or_fresh = inr (ground arith, passed);
                  })
                ])
              ])
            ])
      ]

  execute_with-Ready :
      (hash : Option String)
      → approved_hash p.request ≡ hash
      → Ready now p (execute_with now p hash)
  execute_with-Ready none approved = tt
  execute_with-Ready (some hash) approved =
      elim (Bool-cases
        (p.intent.status == IntentStatus.executing && has_no_execution p.execution)) [
          | inl lost ↦ rw lost tt
          | inr kept ↦ rw kept (elim (Option-cases (gate p.context p.intent)) [
            | inr (why, shut) ↦ rw shut tt
            | inl passed ↦
                rw passed (
                  sign_with-Ready hash (with_key (execution_signer p.context)) approved passed refl)
          ])
        ]

context-Ready : (now : ℕ) (p : Payment) → Ready now p (get_execution_context now p)
unfolding get_execution_context
context-Ready now p =
    elim (Bool-cases
      (not (includes (IntentStatus.approved ∷ IntentStatus.executing ∷ []) p.intent.status))) [
        | inl elsewhere ↦ rw elsewhere tt
        | inr may ↦
            rw may (execute_with-Ready now p (not-false _ may) (approved_hash p.request) refl)
      ]

-- `getExecutionContext` returns only for an approved or executing intent whose approval request is
-- approved with a compiled hash, which every gate lets through, and whose signer is active and has
-- a key; and, for an approved intent, which is not yet executing, only if it has not expired and the
-- bound policy, run again against current spending, does not reject it.
pub get_execution_context-IsReady :
    (now : ℕ) (p : Payment) (c : ExecutionContext)
    → get_execution_context now p ≡ ok c
    → IsReady now p c
get_execution_context-IsReady now p c e = rw e at (context-Ready now p)
