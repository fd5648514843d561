-- ===== src/Worker/Built.antt =====
-- apps/worker/src/worker.ts: every plan that `buildExecution` returns signs what its adapter signs.
use ai_neobank.Prelude.{
  ◌≡◌, refl, inl, inr, Bool, true, false, not, String, Option, none, some, if◌then◌else◌,
  Bool-cases, ltb, length,
}
use ai_neobank.Prelude.Equality.{◌==◌, nat_eq, string_eq}
use ai_neobank.Prelude.Text.{is_blank}
use ai_neobank.Prelude.Failure.{Result, ok, err}
use ai_neobank.Domain.{status_eq, Governance, direct, safe, squads}
use ai_neobank.Payment.Rows.{ProposalStatus}
use ai_neobank.Payment.Execute.{ExecutionContext, SignedTransaction}
use ai_neobank.Worker.Plan.{
  Adapters, Build, failure, plan, ExecutionPlan, Mode, Simulation, SafeRef, SafeState, SquadsRef,
  build_execution, simulated, build_direct, direct_compiled_hash, build_safe, build_safe_ref,
  build_safe_observed, build_squads, build_squads_ref, build_squads_observed, build_governed,
  build_transfer, valid_signatures, is_x402, is_approved, without_prefix,
}
use ai_neobank.Worker.Once.{NotBlank, SignsBytes}

abbrev pub Signing : Result Build → Type 0
Signing (ok (plan b)) = (s : SignedTransaction) → b.sign ≡ ok s → NotBlank s
Signing _ = Unit

module _ (a : Adapters) (h : SignsBytes a) (c : ExecutionContext) where
  simulated-Signing :
      (refusal hash : String) (r : Result Simulation) → Signing (simulated a c refusal hash r)
  simulated-Signing refusal hash (err e) = tt
  simulated-Signing refusal hash (ok s) = elim (Bool-cases s.ok) [
    | inl fine ↦ rw fine (h.signs c)
    | inr refused ↦ rw refused tt
  ]

  if-Signing :
      (b : Bool) (r s : Result Build) → Signing r → Signing s → Signing (if b then r else s)
  if-Signing true r s k l = k
  if-Signing false r s k l = l

  build_safe_observed-Signing :
      (ref : SafeRef) (r : Result SafeState) → Signing (build_safe_observed a c ref r)
  build_safe_observed-Signing ref (err e) = tt
  build_safe_observed-Signing ref (ok state) = if-Signing (not (state.nonce == ref.nonce)) _ _ tt (
      let signatures = valid_signatures a c ref.safe_tx_hash state.owners c.owner_signatures in
      if-Signing (ltb (length signatures) state.threshold) _ _ tt
        (simulated-Signing _ _ (a.simulate_safe c ref signatures)))

  build_safe_ref-Signing : (r : Option SafeRef) → Signing (build_safe_ref a c r)
  build_safe_ref-Signing none = tt
  build_safe_ref-Signing (some ref) =
      if-Signing (not (without_prefix ref.safe_tx_hash == c.approval_compiled_hash)) _ _ tt
        (build_safe_observed-Signing ref (a.observe_safe c.context.treasury_address))

  build_squads_observed-Signing :
      (ref : SquadsRef) (r : Result (Option ProposalStatus))
      → Signing (build_squads_observed a c ref r)
  build_squads_observed-Signing ref (err e) = tt
  build_squads_observed-Signing ref (ok none) = tt
  build_squads_observed-Signing ref (ok (some status)) =
      if-Signing (not (is_approved status)) _ _ tt (simulated-Signing _ _ (a.simulate_squads c ref))

  build_squads_ref-Signing : (r : Option SquadsRef) → Signing (build_squads_ref a c r)
  build_squads_ref-Signing none = tt
  build_squads_ref-Signing (some ref) =
      if-Signing (is_blank ref.multisig_pda) _ _ tt
        (build_squads_observed-Signing ref (a.observe_proposal ref))

  build_governed-Signing : (g : Governance) → Signing (build_governed a c g)
  unfolding build_direct build_safe build_squads
  build_governed-Signing direct =
      if-Signing (not (direct_compiled_hash a c == c.approval_compiled_hash)) _ _ tt
        (simulated-Signing _ _ (a.simulate_transfer c))
  build_governed-Signing safe = build_safe_ref-Signing (a.safe_ref c.external_ref)
  build_governed-Signing squads = build_squads_ref-Signing (a.squads_ref c.external_ref)

  build_transfer-Signing : (mode : Mode) → Signing (build_transfer a c mode)
  build_transfer-Signing Mode.recover = λ s e. cc
  build_transfer-Signing Mode.sign = build_governed-Signing c.context.governance

  paid-Signing :
      (r : Result Build)
      → ((b : ExecutionPlan) (s : SignedTransaction) → r ≡ ok (plan b) → b.sign ≡ ok s → NotBlank s)
      → Signing r
  paid-Signing (ok (plan b)) n = λ s. n b s refl
  paid-Signing (ok (failure reason)) n = tt
  paid-Signing (err e) n = tt

  pub build_execution-Signing : (mode : Mode) → Signing (build_execution a c mode)
  unfolding build_execution
  build_execution-Signing mode =
      if-Signing (is_x402 c.intent.kind) (a.build_x402 c mode) (build_transfer a c mode)
        (paid-Signing (a.build_x402 c mode) (h.pays c mode)) (build_transfer-Signing mode)
