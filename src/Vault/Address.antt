-- ===== src/Vault/Address.antt =====
-- packages/domain/src/vaults.ts, `isVaultAddress`: the shapes of addresses.
use Prim.Native.Char.{Char, code}
use Prim.Native.String.{String, [], ◌∷◌}
use ai_neobank.Prelude.{ℕ, ◌+◌, Bool, true, false, ◌&&◌, ◌||◌, leb}
use ai_neobank.Prelude.Equality.{◌==◌, nat_eq}
use ai_neobank.Prelude.Text.{starts_with}
use ai_neobank.Domain.{ChainFamily, evm, svm}

abbrev is_between : ℕ → ℕ → Char → Bool
is_between low high c = leb low (code c) && leb (code c) high

-- `[0-9a-fA-F]`
abbrev is_hex : Char → Bool
is_hex c = is_between b'0' b'9' c || is_between b'a' b'f' c || is_between b'A' b'F' c

-- `[1-9A-HJ-NP-Za-km-z]`
abbrev is_base58 : Char → Bool
is_base58 c =
    is_between b'1' b'9' c
    || is_between b'A' b'H' c
    || is_between b'J' b'N' c
    || is_between b'P' b'Z' c
    || is_between b'a' b'k' c
    || is_between b'm' b'z' c

unfoldable every : (Char → Bool) → String → Bool
every p [] = true
every p (c ∷ s) = p c && every p s

unfoldable size : String → ℕ
size [] = 0
size (c ∷ s) = size s + 1

-- `^0x[0-9a-fA-F]{40}$`: after its two first characters an address has forty hexadecimal digits.
abbrev is_evm_address : String → Bool
is_evm_address (a ∷ b ∷ digits) =
    starts_with (a ∷ b ∷ []) "0x" && every is_hex digits && size digits == 40
is_evm_address _ = false

-- `^[1-9A-HJ-NP-Za-km-z]{32,44}$`
abbrev is_svm_address : String → Bool
is_svm_address s = every is_base58 s && leb 32 (size s) && leb (size s) 44

unfoldable pub is_vault_address : ChainFamily → String → Bool
unfolding every size
is_vault_address evm address = is_evm_address address
is_vault_address svm address = is_svm_address address
