-- ===== src/Vault/Tests.antt =====
-- A Squads vault of two owners, and the witnesses.
use ai_neobank.Prelude.{◌≡◌, ◌↔◌, refl, true, false, String, [], ◌∷◌, includes}
use ai_neobank.Prelude.Equality.{string_eq}
use ai_neobank.Domain.{svm, evm}
use ai_neobank.Vault.{
  squads, VaultPlan, VaultPlanInput, VaultVerificationInput, SquadsVaultMember, squads_observation,
  plan_vault, planned, verify_vault_deployment, verified, keys, vault_address_key,
  same_vault_address_set,
}
use ai_neobank.Vault.Sets.{SameMembers, same_vault_address_set_iff}
use ai_neobank.Vault.Verified.{
  IsAsPlanned, verify_vault_deployment-IsAsPlanned, IsSoundPlan, plan_vault-IsSoundPlan, approvers,
  executor_never_approves,
}

abbrev alice : String
alice = "A1111111111111111111111111111111"

abbrev bob : String
bob = "B1111111111111111111111111111111"

abbrev relay : String
relay = "R1111111111111111111111111111111"

abbrev asked : VaultPlanInput
asked = record {
  governance = squads;
  network = "solana:devnet";
  owners = alice ∷ bob ∷ [];
  threshold = 2;
  executor = relay;
}

abbrev plan : VaultPlan
plan = record {
  governance = squads;
  chain_family = svm;
  network = "solana:devnet";
  owners = alice ∷ bob ∷ [];
  threshold = 2;
  executor = relay;
}

abbrev voter : String → SquadsVaultMember
voter key = record { key = key; can_initiate = true; can_vote = true; can_execute = true }

abbrev input : VaultVerificationInput
input = record {
  plan = plan;
  address = "V1111111111111111111111111111111";
  registering_wallets = bob ∷ [];
  observed = squads_observation "V1111111111111111111111111111111" 2 (
      voter bob
      ∷ record { key = relay; can_initiate = true; can_vote = false; can_execute = true }
      ∷ voter alice
      ∷ []);
}

plans : plan_vault asked ≡ planned plan
unfolding plan_vault ai_neobank.Vault.Address.is_vault_address
plans = refl

verifies : verify_vault_deployment input ≡ verified
unfolding verify_vault_deployment
verifies = refl

plan_vault-IsSoundPlan_example : IsSoundPlan plan
plan_vault-IsSoundPlan_example = plan_vault-IsSoundPlan asked plan plans

verify_vault_deployment-IsAsPlanned_example : IsAsPlanned input
verify_vault_deployment-IsAsPlanned_example = verify_vault_deployment-IsAsPlanned input verifies

executor_never_approves_example :
    includes (keys svm (approvers input.observed)) (vault_address_key svm relay) ≡ false
executor_never_approves_example = executor_never_approves asked input plans verifies

same_vault_address_set_iff_example :
    (same_vault_address_set evm ("0xAB" ∷ "0xcd" ∷ []) ("0xCD" ∷ "0xab" ∷ []) ≡ true)
    ↔ SameMembers (keys evm ("0xAB" ∷ "0xcd" ∷ [])) (keys evm ("0xCD" ∷ "0xab" ∷ []))
same_vault_address_set_iff_example =
    same_vault_address_set_iff evm ("0xAB" ∷ "0xcd" ∷ []) ("0xCD" ∷ "0xab" ∷ [])
