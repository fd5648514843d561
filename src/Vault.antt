-- ===== src/Vault.antt =====
-- packages/domain/src/vaults.ts: what a vault's deployment must look like before it is recorded.
pub mod Address
pub mod Sets
pub mod Verified
mod Tests
use ai_neobank.Prelude.{
  ℕ, ◌≡◌, Bool, true, false, not, ◌&&◌, ◌||◌, String, Option, none, some, List, [], ◌∷◌, ◌++◌, map,
  any, all, find, filter, length, includes, leb, ltb, is_empty, if◌then◌else◌,
}
use ai_neobank.Prelude.Equality.{◌==◌, nat_eq, string_eq}
use ai_neobank.Prelude.Text.{◌++ₜ◌, to_lower, starts_with, decimal}
use ai_neobank.Domain.{ChainFamily, evm, svm}
use ai_neobank.Vault.Address.{is_vault_address}

pub data VaultGovernance : Type 0 where
  safe squads : VaultGovernance

abbrev pub vault_chain_families : VaultGovernance → ChainFamily
vault_chain_families safe = evm
vault_chain_families squads = svm

abbrev pub vault_network_prefixes : ChainFamily → String
vault_network_prefixes evm = "eip155:"
vault_network_prefixes svm = "solana:"

-- EVM addresses differ only by checksum case; Solana addresses are compared exactly.
abbrev pub vault_address_key : ChainFamily → String → String
vault_address_key evm address = to_lower address
vault_address_key svm address = address

abbrev pub same_vault_address : ChainFamily → String → String → Bool
same_vault_address family left right =
    vault_address_key family left == vault_address_key family right

-- `new Set(values)`: each value once.
unfoldable pub set_of : List String → List String
set_of [] = []
set_of (x ∷ xs) = if includes (set_of xs) x then set_of xs else x ∷ set_of xs

abbrev pub keys : ChainFamily → List String → List String
keys family addresses = map (vault_address_key family) addresses

unfoldable pub same_vault_address_set : ChainFamily → List String → List String → Bool
unfolding set_of
same_vault_address_set family left right =
    let wanted = set_of (keys family left) in
    let found = set_of (keys family right) in
    length wanted == length found && all (includes found) wanted

pub record VaultPlan : Type 0 where
  pub governance : VaultGovernance
  pub chain_family : ChainFamily
  pub network : String
  pub owners : List String
  pub threshold : ℕ
  pub executor : String

pub record VaultPlanInput : Type 0 where
  pub governance : VaultGovernance
  pub network : String
  pub owners : List String
  pub threshold : ℕ
  pub executor : String

pub data VaultPlanProblem : Type 0 where
  network_does_not_match_governance owner_address_invalid duplicate_owner : VaultPlanProblem
  executor_address_invalid executor_must_not_be_an_owner : VaultPlanProblem
  threshold_above_owner_count : VaultPlanProblem

pub data VaultPlanResult : Type 0 where
  planned : VaultPlan → VaultPlanResult
  problematic : List VaultPlanProblem → VaultPlanResult

abbrev pub push_if : Bool → VaultPlanProblem → List VaultPlanProblem → List VaultPlanProblem
push_if true problem rest = problem ∷ rest
push_if false problem rest = rest

-- The two problems of an executor exclude each other.
abbrev pub executor_problems :
    ChainFamily → VaultPlanInput → List VaultPlanProblem → List VaultPlanProblem
executor_problems family input rest =
    if not (is_vault_address family input.executor)
    then VaultPlanProblem.executor_address_invalid ∷ rest
    else push_if (any (λ owner. same_vault_address family owner input.executor) input.owners)
        VaultPlanProblem.executor_must_not_be_an_owner rest

abbrev pub threshold_problems : VaultPlanInput → List VaultPlanProblem
threshold_problems input =
    push_if (ltb (length input.owners) input.threshold) threshold_above_owner_count []

abbrev pub repeats_owner : ChainFamily → VaultPlanInput → Bool
repeats_owner family input = not (length (set_of (keys family input.owners)) == length input.owners)

abbrev pub duplicate_problems : ChainFamily → VaultPlanInput → List VaultPlanProblem
duplicate_problems family input =
    push_if (repeats_owner family input) duplicate_owner
      (executor_problems family input (threshold_problems input))

abbrev pub owner_problems : ChainFamily → VaultPlanInput → List VaultPlanProblem
owner_problems family input =
    push_if (not (all (is_vault_address family) input.owners)) owner_address_invalid
      (duplicate_problems family input)

abbrev pub plan_problems : ChainFamily → VaultPlanInput → List VaultPlanProblem
plan_problems family input =
    push_if (not (starts_with input.network (vault_network_prefixes family)))
      network_does_not_match_governance (owner_problems family input)

-- `planVault`: every problem is reported.
unfoldable pub plan_vault : VaultPlanInput → VaultPlanResult
unfolding set_of
plan_vault input =
    let family = vault_chain_families input.governance in
    let problems = plan_problems family input in
    if not (is_empty problems)
    then problematic problems
    else planned (record {
      governance = input.governance;
      chain_family = family;
      network = input.network;
      owners = input.owners;
      threshold = input.threshold;
      executor = input.executor;
    })

pub record SquadsVaultMember : Type 0 where
  pub key : String
  pub can_initiate : Bool
  pub can_vote : Bool
  pub can_execute : Bool

pub data VaultObservation : Type 0 where
  safe_observation : List String → ℕ → VaultObservation
  squads_observation : String → ℕ → List SquadsVaultMember → VaultObservation

pub data VaultRefusalCode : Type 0 where
  observation_does_not_match_governance owners_do_not_match_plan : VaultRefusalCode
  threshold_does_not_match_plan executor_must_not_be_an_owner : VaultRefusalCode
  executor_needs_initiate_and_execute executor_must_not_vote : VaultRefusalCode
  registering_wallet_is_not_an_owner registering_wallet_is_not_a_voting_member : VaultRefusalCode
  address_is_not_vault_zero_of_multisig : VaultRefusalCode

pub record VaultRefusal : Type 0 where
  pub code : VaultRefusalCode
  pub message : String
  pub status : ℕ

pub data VaultVerification : Type 0 where
  verified : VaultVerification
  refused : VaultRefusal → VaultVerification

abbrev refuse : VaultRefusalCode → String → ℕ → VaultVerification
refuse code message status = refused (record { code = code; message = message; status = status })

pub record VaultVerificationInput : Type 0 where
  pub plan : VaultPlan
  pub address : String
  pub registering_wallets : List String
  pub observed : VaultObservation

-- Someone of the wallets is one of the addresses.
abbrev pub is_among : ChainFamily → List String → List String → Bool
is_among family wallets addresses =
    any (λ wallet. any (λ a. same_vault_address family a wallet) addresses) wallets

unfoldable pub verify_safe : VaultVerificationInput → List String → ℕ → VaultVerification
unfolding same_vault_address_set
verify_safe input owners threshold =
    let plan = input.plan in
    let family = plan.chain_family in
    if any (λ owner. same_vault_address family owner plan.executor) owners
    then refuse VaultRefusalCode.executor_must_not_be_an_owner
        "The Relay executor is an owner of this Safe. It submits approved transactions and must never be able to approve one."
        422
    else if not (same_vault_address_set family plan.owners owners)
    then refuse owners_do_not_match_plan
        "The Safe on chain has different owners from the ones that were asked for." 422
    else if not (threshold == plan.threshold)
    then refuse threshold_does_not_match_plan
        ("The Safe on chain needs "
          ++ₜ decimal threshold
          ++ₜ " of its owners to sign, not "
          ++ₜ decimal plan.threshold
          ++ₜ ".")
        422
    else if not (is_among family input.registering_wallets owners)
    then refuse registering_wallet_is_not_an_owner "Your wallet is not an owner of this Safe." 403
    else verified

abbrev pub executor_of : VaultPlan → List SquadsVaultMember → Option SquadsVaultMember
executor_of plan = find (λ m. same_vault_address plan.chain_family m.key plan.executor)

abbrev pub voters : List SquadsVaultMember → List String
voters members = map (λ m. m.key) (filter (λ m. m.can_vote) members)

-- No member, or one that lacks a permission it needs.
abbrev pub cannot_submit : Option SquadsVaultMember → Bool
cannot_submit none = true
cannot_submit (some m) = not m.can_initiate || not m.can_execute

abbrev pub may_vote : Option SquadsVaultMember → Bool
may_vote none = false
may_vote (some m) = m.can_vote

unfoldable pub verify_voters :
    VaultVerificationInput → ℕ → List SquadsVaultMember → VaultVerification
unfolding same_vault_address_set
verify_voters input threshold members =
    let plan = input.plan in
    let family = plan.chain_family in
    if not (same_vault_address_set family plan.owners (voters members))
    then refuse owners_do_not_match_plan
        "The multisig on chain has different voting members from the owners that were asked for."
        422
    else if not (threshold == plan.threshold)
    then refuse threshold_does_not_match_plan
        ("The multisig on chain needs "
          ++ₜ decimal threshold
          ++ₜ " votes, not "
          ++ₜ decimal plan.threshold
          ++ₜ ".")
        422
    else if not (is_among family input.registering_wallets (voters members))
    then refuse registering_wallet_is_not_a_voting_member
        "Your wallet is not a voting member of this multisig." 403
    else verified

unfoldable pub verify_squads :
    VaultVerificationInput → String → ℕ → List SquadsVaultMember → VaultVerification
unfolding verify_voters
verify_squads input vault_pda threshold members =
    let plan = input.plan in
    let family = plan.chain_family in
    if not (same_vault_address family vault_pda input.address)
    then refuse address_is_not_vault_zero_of_multisig
        "That address is not vault 0 of this multisig." 422
    else if cannot_submit (executor_of plan members)
    then refuse executor_needs_initiate_and_execute
        "The Relay executor needs Initiate and Execute on this multisig, or it cannot submit an approved payment."
        422
    else if may_vote (executor_of plan members)
    then refuse executor_must_not_vote
        "The Relay executor can vote on this multisig. It submits approved transactions and must never be able to approve one."
        422
    else verify_voters input threshold members

abbrev mismatch : VaultVerification
mismatch =
    refuse observation_does_not_match_governance
      "The account on chain is not the kind of vault that was planned." 422

abbrev pub verify_kind :
    VaultVerificationInput → VaultGovernance → VaultObservation → VaultVerification
verify_kind input safe (safe_observation owners threshold) = verify_safe input owners threshold
verify_kind input squads (squads_observation vault_pda threshold members) =
    verify_squads input vault_pda threshold members
verify_kind input _ _ = mismatch

-- `verifyVaultDeployment`
unfoldable pub verify_vault_deployment : VaultVerificationInput → VaultVerification
unfolding verify_safe verify_squads
verify_vault_deployment input = verify_kind input input.plan.governance input.observed
