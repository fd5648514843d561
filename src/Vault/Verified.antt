-- ===== src/Vault/Verified.antt =====
-- packages/domain/src/vaults.ts: what `planVault` and `verifyVaultDeployment` let through.
use ai_neobank.Prelude.{
  ℕ, ◌≤◌, ◌≡◌, refl, sym, ◌∙◌, inl, inr, Bool, true, false, not, String, List, [], ◌∷◌, any, all,
  length, includes, ltb, is_empty, Bool-cases, arith, not-false,
}
use ai_neobank.Prelude.Equality.{◌==◌, nat_eq, string_eq}
use ai_neobank.Prelude.Text.{starts_with}
use ai_neobank.Domain.{ChainFamily}
use ai_neobank.Vault.{
  VaultGovernance, safe, squads, vault_chain_families, vault_address_key, same_vault_address, keys,
  set_of, same_vault_address_set, VaultPlan, VaultPlanInput, VaultPlanProblem, VaultPlanResult,
  planned, problematic, push_if, executor_problems, threshold_problems, repeats_owner,
  duplicate_problems, owner_problems, vault_network_prefixes, plan_problems, plan_vault,
  SquadsVaultMember, VaultObservation, safe_observation, squads_observation, VaultVerification,
  verified, refused, VaultVerificationInput, is_among, executor_of, voters, cannot_submit, may_vote,
  verify_safe, verify_voters, verify_squads, verify_kind, verify_vault_deployment,
}
use ai_neobank.Vault.Address.{is_vault_address}
use ai_neobank.Vault.Sets.{SameMembers, same_vault_address_set_iff}

-- The addresses that can approve a payment of the deployed account.
abbrev pub approvers : VaultObservation → List String
approvers (safe_observation owners threshold) = owners
approvers (squads_observation vault_pda threshold members) = voters members

abbrev pub observed_threshold : VaultObservation → ℕ
observed_threshold (safe_observation owners threshold) = threshold
observed_threshold (squads_observation vault_pda threshold members) = threshold

-- What a recorded vault is known to be.
pub record IsAsPlanned (input : VaultVerificationInput) : Type 0 where
  pub same_approvers :
      SameMembers
        (keys input.plan.chain_family input.plan.owners)
        (keys input.plan.chain_family (approvers input.observed))
  pub same_threshold : observed_threshold input.observed ≡ input.plan.threshold
  pub claimed_by_approver :
      is_among input.plan.chain_family input.registering_wallets (approvers input.observed) ≡ true

abbrev Sound : VaultVerificationInput → List String → ℕ → VaultVerification → Type 0
Sound input owners threshold (refused _) = Unit
Sound input owners threshold verified =
    (same_vault_address_set input.plan.chain_family input.plan.owners owners ≡ true)
    × (threshold ≡ input.plan.threshold)
    × (is_among input.plan.chain_family input.registering_wallets owners ≡ true)

verify_safe-Sound :
    (input : VaultVerificationInput) (owners : List String) (threshold : ℕ)
    → Sound input owners threshold (verify_safe input owners threshold)
unfolding verify_safe
verify_safe-Sound input owners threshold =
    let family = input.plan.chain_family in
    elim (Bool-cases (any (λ owner. same_vault_address family owner input.plan.executor) owners)) [
      | inl executor ↦ rw executor tt
      | inr free ↦
          rw free
            (elim (Bool-cases (not (same_vault_address_set family input.plan.owners owners))) [
              | inl different ↦ rw different tt
              | inr same ↦ rw same (elim (Bool-cases (not (threshold == input.plan.threshold))) [
                | inl other ↦ rw other tt
                | inr equal ↦
                    rw equal
                      (elim (Bool-cases (not (is_among family input.registering_wallets owners))) [
                        | inl stranger ↦ rw stranger tt
                        | inr known ↦ rw known (
                          not-false _ same,
                          (nat_eq.beq_iff threshold input.plan.threshold).0 (not-false _ equal),
                          not-false _ known,
                        )
                      ])
              ])
            ])
    ]

voters-Sound :
    (input : VaultVerificationInput) (threshold : ℕ) (members : List SquadsVaultMember)
    → Sound input (voters members) threshold (verify_voters input threshold members)
unfolding verify_voters
voters-Sound input threshold members =
    let family = input.plan.chain_family in
    elim (Bool-cases (not (same_vault_address_set family input.plan.owners (voters members)))) [
      | inl different ↦ rw different tt
      | inr same ↦ rw same (elim (Bool-cases (not (threshold == input.plan.threshold))) [
        | inl other ↦ rw other tt
        | inr equal ↦
            rw equal
              (elim (Bool-cases
                (not (is_among family input.registering_wallets (voters members)))) [
                  | inl stranger ↦ rw stranger tt
                  | inr known ↦ rw known (
                    not-false _ same,
                    (nat_eq.beq_iff threshold input.plan.threshold).0 (not-false _ equal),
                    not-false _ known,
                  )
                ])
      ])
    ]

verify_squads-Sound :
    (input : VaultVerificationInput) (vault_pda : String) (threshold : ℕ)
    (members : List SquadsVaultMember)
    → Sound input (voters members) threshold (verify_squads input vault_pda threshold members)
unfolding verify_squads
verify_squads-Sound input vault_pda threshold members =
    let family = input.plan.chain_family in
    elim (Bool-cases (not (same_vault_address family vault_pda input.address))) [
      | inl elsewhere ↦ rw elsewhere tt
      | inr here ↦ rw here (elim (Bool-cases (cannot_submit (executor_of input.plan members))) [
        | inl unable ↦ rw unable tt
        | inr able ↦ rw able (elim (Bool-cases (may_vote (executor_of input.plan members))) [
          | inl votes ↦ rw votes tt
          | inr silent ↦ rw silent (voters-Sound input threshold members)
        ])
      ])
    ]

verify_kind-Sound :
    (input : VaultVerificationInput) (governance : VaultGovernance) (observed : VaultObservation)
    → Sound input
        (approvers observed)
        (observed_threshold observed)
        (verify_kind input governance observed)
verify_kind-Sound input safe (safe_observation owners threshold) =
    verify_safe-Sound input owners threshold
verify_kind-Sound input squads (squads_observation vault_pda threshold members) =
    verify_squads-Sound input vault_pda threshold members
verify_kind-Sound input safe (squads_observation vault_pda threshold members) = tt
verify_kind-Sound input squads (safe_observation owners threshold) = tt

-- A vault that `verifyVaultDeployment` lets be recorded has exactly the planned owners as those who
-- can approve, needs the planned number of them, and is registered by one of them.
pub verify_vault_deployment-IsAsPlanned :
    (input : VaultVerificationInput) → verify_vault_deployment input ≡ verified → IsAsPlanned input
unfolding verify_vault_deployment
verify_vault_deployment-IsAsPlanned input e =
    let (same, equal, known) : Sound input (approvers input.observed)
        (observed_threshold input.observed) verified =
      rw e at (verify_kind-Sound input input.plan.governance input.observed) in
    record {
      same_approvers =
          (same_vault_address_set_iff input.plan.chain_family input.plan.owners
              (approvers input.observed)).0
            same;
      same_threshold = equal;
      claimed_by_approver = known;
    }

push_if-empty :
    (b : Bool) (problem : VaultPlanProblem) (rest : List VaultPlanProblem)
    → is_empty (push_if b problem rest) ≡ true
    → (b ≡ false) × (is_empty rest ≡ true)
push_if-empty true problem rest h = ground (arith, h)
push_if-empty false problem rest h = (refl, h)

executor_problems-empty :
    (family : ChainFamily) (input : VaultPlanInput) (rest : List VaultPlanProblem)
    → is_empty (executor_problems family input rest) ≡ true
    → (any (λ owner. same_vault_address family owner input.executor) input.owners ≡ false)
      × (is_empty rest ≡ true)
executor_problems-empty family input rest h =
    elim (Bool-cases (not (is_vault_address family input.executor))) [
      | inl malformed ↦ cc (h, malformed)
      | inr formed ↦ push_if-empty _ _ rest (rw formed at h)
    ]

any-keys :
    (family : ChainFamily) (address : String) (owners : List String)
    → includes (keys family owners) (vault_address_key family address)
      ≡ any (λ owner. same_vault_address family owner address) owners
any-keys family address [] = refl
any-keys family address (o ∷ os) = rw (any-keys family address os) refl

-- What a plan must be: as many distinct owners as it lists, a threshold that they can meet, and
-- an executor who is none of them.
pub record IsSoundPlan (plan : VaultPlan) : Type 0 where
  pub distinct : length (set_of (keys plan.chain_family plan.owners)) ≡ length plan.owners
  pub can_meet : plan.threshold ≤ length plan.owners
  pub executor_apart :
      includes
        (keys plan.chain_family plan.owners)
        (vault_address_key plan.chain_family plan.executor)
      ≡ false

abbrev Planned : VaultPlanResult → Type 0
Planned (problematic _) = Unit
Planned (planned plan) = IsSoundPlan plan

plan_vault-Planned : (input : VaultPlanInput) → Planned (plan_vault input)
unfolding plan_vault
plan_vault-Planned input =
    let family = vault_chain_families input.governance in
    elim (Bool-cases (not (is_empty (plan_problems family input)))) [
      | inl problems ↦ rw problems tt
      | inr sound ↦
          let owners_fine =
            (push_if-empty (not (starts_with input.network (vault_network_prefixes family)))
              VaultPlanProblem.network_does_not_match_governance (owner_problems family input)
              (not-false (is_empty (plan_problems family input)) sound)).1 in
          let no_repeat =
            (push_if-empty (not (all (is_vault_address family) input.owners))
              VaultPlanProblem.owner_address_invalid (duplicate_problems family input)
              owners_fine).1 in
          let (distinct, executor_fine) =
            push_if-empty (repeats_owner family input) VaultPlanProblem.duplicate_owner
              (executor_problems family input (threshold_problems input)) no_repeat in
          let (apart, threshold_fine) =
            executor_problems-empty family input (threshold_problems input) executor_fine in
          let meets =
            (push_if-empty (ltb (length input.owners) input.threshold)
              VaultPlanProblem.threshold_above_owner_count [] threshold_fine).0 in
          rw sound (record {
            distinct =
                (nat_eq.beq_iff (length (set_of (keys family input.owners)))
                    (length input.owners)).0
                  (not-false _ distinct);
            can_meet = ground (arith, meets);
            executor_apart = any-keys family input.executor input.owners ∙ apart;
          })
    ]

-- A plan that `planVault` accepts has as many distinct owners as it lists, a threshold that they
-- can meet, and an executor who is none of them.
pub plan_vault-IsSoundPlan :
    (input : VaultPlanInput) (plan : VaultPlan) → plan_vault input ≡ planned plan → IsSoundPlan plan
plan_vault-IsSoundPlan input plan e = rw e at (plan_vault-Planned input)

-- The executor of a planned vault that was verified is never among those who can approve its
-- payments, even where the chain lists one key several times.
pub executor_never_approves :
    (asked : VaultPlanInput) (input : VaultVerificationInput)
    → plan_vault asked ≡ planned input.plan
    → verify_vault_deployment input ≡ verified
    → includes
        (keys input.plan.chain_family (approvers input.observed))
        (vault_address_key input.plan.chain_family input.plan.executor)
      ≡ false
executor_never_approves asked input plans verifies =
    sym (
      (verify_vault_deployment-IsAsPlanned input verifies).same_approvers
        (vault_address_key input.plan.chain_family input.plan.executor))
    ∙ (plan_vault-IsSoundPlan asked input.plan plans).executor_apart
