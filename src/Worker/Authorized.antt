-- ===== src/Worker/Authorized.antt =====
-- apps/worker/src/worker.ts, `buildExecution`: what a treasury's own governance has said before a
-- transfer is planned for signing.
use mathlib.Core.List.{Sublistᴰ}
use mathlib.Core.List.Sublistᴰ.{slnil, cons, cons-cons}
use ai_neobank.Prelude.{
  ℕ, ◌≤◌, ◌≡◌, refl, ap, ◌∙◌, inl, inr, Bool, true, false, not, String, Option, none, some, List,
  [], ◌∷◌, All, length, ltb, if◌then◌else◌, any, both_left, both_right, Bool-cases, not-false,
  arith,
}
use ai_neobank.Prelude.Equality.{◌==◌, string_eq, nat_eq}
use ai_neobank.Prelude.Text.{is_blank, join, decimal, to_lower}
use ai_neobank.Prelude.Failure.{Result, ok, err}
use ai_neobank.Domain.{Governance, direct, safe, squads}
use ai_neobank.Payment.Rows.{ProposalStatus}
use ai_neobank.Payment.Execute.{ExecutionContext, OwnerSignature}
use ai_neobank.Worker.Plan.{
  Adapters, Build, failure, plan, ExecutionPlan, Mode, SafeRef, SafeState, SquadsRef,
  build_execution, build_direct, build_safe, build_safe_ref, build_safe_observed, build_squads,
  build_squads_ref, build_squads_observed, build_governed, valid_signatures, is_valid, is_owner,
  is_approved, direct_compiled_hash, is_x402, without_prefix,
}

module _ (a : Adapters) (c : ExecutionContext) where
  -- A signature of the hash by an owner, in whose name it was collected.
  pub record IsSignedByOwner (hash : String) (owners : List String) (s : OwnerSignature)
      : Type 0 where
    pub who : String
    pub recovered : a.recover_safe_signer hash s.signed_payload ≡ some who
    pub owns : any (λ owner. to_lower owner == to_lower who) owners ≡ true
    pub named : to_lower who ≡ to_lower s.signer_address

  -- The approved Safe transaction is next in line, and of the signatures that were collected, each
  -- counted once, as many as the threshold of today are those of owners of today.
  pub record IsSafeAuthorized (ref : SafeRef) (state : SafeState) (signatures : List OwnerSignature)
      : Type 0 where
    pub known : a.safe_ref c.external_ref ≡ some ref
    pub as_approved : without_prefix ref.safe_tx_hash ≡ c.approval_compiled_hash
    pub observed : a.observe_safe c.context.treasury_address ≡ ok state
    pub in_line : state.nonce ≡ ref.nonce
    pub collected : Sublistᴰ signatures c.owner_signatures
    pub enough : state.threshold ≤ length signatures
    pub valid : All (IsSignedByOwner ref.safe_tx_hash state.owners) signatures

  pub record IsSquadsAuthorized (ref : SquadsRef) : Type 0 where
    pub known : a.squads_ref c.external_ref ≡ some ref
    pub approved : a.observe_proposal ref ≡ ok (some ProposalStatus.approved)

  abbrev pub Authorized : Governance → Type 0
  Authorized direct =
      a.sha256 (
        join "|" (
          decimal c.intent.id
          ∷ c.intent.network
          ∷ c.intent.asset_id
          ∷ decimal c.intent.amount_base_units
          ∷ c.intent.destination
          ∷ "transfer"
          ∷ []))
      ≡ c.approval_compiled_hash
  Authorized safe =
      (ref : SafeRef) × (state : SafeState) × (signatures : List OwnerSignature) × IsSafeAuthorized
        ref state signatures
  Authorized squads = (ref : SquadsRef) × IsSquadsAuthorized ref

  abbrev Planned : Governance → Result Build → Type 0
  Planned g (ok (plan b)) = Authorized g
  Planned g _ = Unit

  given : (g : Governance) (r : Result Build) → Authorized g → Planned g r
  given g (ok (plan b)) h = h
  given g (ok (failure reason)) h = tt
  given g (err e) h = tt

  if-Planned :
      (g : Governance) (b : Bool) (r s : Result Build)
      → (b ≡ true → Planned g r)
      → (b ≡ false → Planned g s)
      → Planned g (if b then r else s)
  if-Planned g true r s h k = h refl
  if-Planned g false r s h k = k refl

  is_valid-IsSignedByOwner :
      (hash : String) (owners : List String) (s : OwnerSignature) (recovered : Option String)
      → a.recover_safe_signer hash s.signed_payload ≡ recovered
      → is_valid owners s recovered ≡ true
      → IsSignedByOwner hash owners s
  is_valid-IsSignedByOwner hash owners s none seen good = ground (arith, good)
  is_valid-IsSignedByOwner hash owners s (some who) seen good = record {
    who = who;
    recovered = seen;
    owns = both_left _ _ good;
    named =
        (string_eq.beq_iff (to_lower who) (to_lower s.signer_address)).0
          (both_right (is_owner owners who) _ good);
  }

  valid_signatures-All :
      (hash : String) (owners : List String) (entries : List OwnerSignature)
      → All (IsSignedByOwner hash owners) (valid_signatures a c hash owners entries)
  unfolding valid_signatures
  valid_signatures-All hash owners [] = tt
  valid_signatures-All hash owners (e ∷ entries) =
      elim (Bool-cases (is_valid owners e (a.recover_safe_signer hash e.signed_payload))) [
        | inl good ↦ rw good (
          is_valid-IsSignedByOwner hash owners e _ refl good,
          valid_signatures-All hash owners entries,
        )
        | inr bad ↦ rw bad (valid_signatures-All hash owners entries)
      ]

  valid_signatures-Sublist :
      (hash : String) (owners : List String) (entries : List OwnerSignature)
      → Sublistᴰ (valid_signatures a c hash owners entries) entries
  unfolding valid_signatures
  valid_signatures-Sublist hash owners [] = slnil
  valid_signatures-Sublist hash owners (e ∷ entries) =
      elim (Bool-cases (is_valid owners e (a.recover_safe_signer hash e.signed_payload))) [
        | inl good ↦ rw good (cons-cons refl (valid_signatures-Sublist hash owners entries))
        | inr bad ↦ rw bad (cons (valid_signatures-Sublist hash owners entries))
      ]

  not_fewer : (n m : ℕ) → ltb n m ≡ false → m ≤ n
  not_fewer n m h = ground arith

  build_safe_observed-Planned :
      (ref : SafeRef) (r : Result SafeState)
      → a.safe_ref c.external_ref ≡ some ref
      → without_prefix ref.safe_tx_hash ≡ c.approval_compiled_hash
      → a.observe_safe c.context.treasury_address ≡ r
      → Planned safe (build_safe_observed a c ref r)
  build_safe_observed-Planned ref (err e) known same seen = tt
  build_safe_observed-Planned ref (ok state) known same seen =
      let signatures = valid_signatures a c ref.safe_tx_hash state.owners c.owner_signatures in
      if-Planned safe (not (state.nonce == ref.nonce)) _ _ (λ moved. tt)
        (λ still.
          if-Planned safe (ltb (length signatures) state.threshold) _ _ (λ few. tt)
            (λ many. given safe _ (
              ref,
              state,
              signatures,
              record {
                known = known;
                as_approved = same;
                observed = seen;
                in_line = (nat_eq.beq_iff state.nonce ref.nonce).0 (not-false _ still);
                enough = not_fewer _ _ many;
                collected =
                    valid_signatures-Sublist ref.safe_tx_hash state.owners c.owner_signatures;
                valid = valid_signatures-All ref.safe_tx_hash state.owners c.owner_signatures;
              },
            )))

  build_safe_ref-Planned :
      (r : Option SafeRef) → a.safe_ref c.external_ref ≡ r → Planned safe (build_safe_ref a c r)
  build_safe_ref-Planned none known = tt
  build_safe_ref-Planned (some ref) known =
      if-Planned safe (not (without_prefix ref.safe_tx_hash == c.approval_compiled_hash)) _ _
        (λ other. tt)
        (λ same.
          build_safe_observed-Planned ref (a.observe_safe c.context.treasury_address) known
            ((string_eq.beq_iff _ _).0 (not-false _ same)) refl)

  is_approved-eq : (s : ProposalStatus) → is_approved s ≡ true → s ≡ ProposalStatus.approved
  is_approved-eq ProposalStatus.approved h = refl
  is_approved-eq _ h = ground (arith, h)

  build_squads_observed-Planned :
      (ref : SquadsRef) (r : Result (Option ProposalStatus))
      → a.squads_ref c.external_ref ≡ some ref
      → a.observe_proposal ref ≡ r
      → Planned squads (build_squads_observed a c ref r)
  build_squads_observed-Planned ref (err e) known seen = tt
  build_squads_observed-Planned ref (ok none) known seen = tt
  build_squads_observed-Planned ref (ok (some status)) known seen =
      if-Planned squads (not (is_approved status)) _ _ (λ other. tt)
        (λ fine. given squads _ (
          ref,
          record {
            known = known;
            approved = seen ∙ ap (λ s. ok (some s)) (is_approved-eq status (not-false _ fine));
          },
        ))

  build_squads_ref-Planned :
      (r : Option SquadsRef)
      → a.squads_ref c.external_ref ≡ r
      → Planned squads (build_squads_ref a c r)
  build_squads_ref-Planned none known = tt
  build_squads_ref-Planned (some ref) known =
      if-Planned squads (is_blank ref.multisig_pda) _ _ (λ blank. tt)
        (λ there. build_squads_observed-Planned ref (a.observe_proposal ref) known refl)

  build_governed-Planned : (g : Governance) → Planned g (build_governed a c g)
  unfolding build_direct direct_compiled_hash build_safe build_squads
  build_governed-Planned direct =
      if-Planned direct (not (direct_compiled_hash a c == c.approval_compiled_hash)) _ _
        (λ other. tt) (λ same. given direct _ ((string_eq.beq_iff _ _).0 (not-false _ same)))
  build_governed-Planned safe = build_safe_ref-Planned (a.safe_ref c.external_ref) refl
  build_governed-Planned squads = build_squads_ref-Planned (a.squads_ref c.external_ref) refl

  signed-Planned :
      Planned c.context.governance (build_execution a c Mode.sign)
      → (b : ExecutionPlan) → build_execution a c Mode.sign ≡ ok (plan b)
      → Authorized c.context.governance
  signed-Planned h b e = rw e at h

  -- A transfer is planned for signing only if the treasury's governance stands behind it: from a
  -- direct treasury, if the hash of its id, network, asset, amount and destination is the approved
  -- one; from a Safe, if its transaction is the approved one, the Safe's nonce is still that of it,
  -- and among the signatures collected from its owners, each counted once, at least as many as the
  -- present threshold are of present owners; from a Squads multisig, if its proposal is approved on
  -- chain.
  pub build_execution-Authorized :
      (b : ExecutionPlan)
      → is_x402 c.intent.kind ≡ false
      → build_execution a c Mode.sign ≡ ok (plan b)
      → Authorized c.context.governance
  unfolding build_execution
  build_execution-Authorized b transfer e =
      signed-Planned (rw transfer (build_governed-Planned c.context.governance)) b e
