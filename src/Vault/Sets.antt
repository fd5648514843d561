-- ===== src/Vault/Sets.antt =====
-- packages/domain/src/vaults.ts, `sameVaultAddressSet`: equal sizes and one inclusion are equality.
use ai_neobank.Prelude.{
  ℕ, ◌+◌, ◌≤◌, ◌≡◌, refl, sym, ap, ◌∙◌, ◌↔◌, inl, inr, Bool, true, false, not, String, List, [],
  ◌∷◌, all, filter, length, includes, Bool-cases, arith, both_left, both_right, both_true, or_left,
  or_right, or_true,
}
use text.Mathlib.TextEquality.{eq_iff}
use ai_neobank.Prelude.Equality.{◌==◌, nat_eq, string_eq, beq_refl}
use ai_neobank.Domain.{ChainFamily}
use ai_neobank.Vault.{set_of, keys, same_vault_address_set}

abbrev Nodup : List String → Type 0
Nodup [] = Unit
Nodup (x ∷ xs) = (includes xs x ≡ false) × Nodup xs

set_of-includes : (xs : List String) (z : String) → includes (set_of xs) z ≡ includes xs z
unfolding set_of
set_of-includes [] z = refl
set_of-includes (x ∷ xs) z = ground (arith, set_of-includes xs z, set_of-includes xs x, eq_iff x z)

set_of-Nodup : (xs : List String) → Nodup (set_of xs)
unfolding set_of
set_of-Nodup [] = tt
set_of-Nodup (x ∷ xs) = elim (Bool-cases (includes (set_of xs) x)) [
  | inl known ↦ rw known (set_of-Nodup xs)
  | inr fresh ↦ rw fresh (fresh, set_of-Nodup xs)
]

abbrev remove : String → List String → List String
remove x = filter (λ y. not (y == x))

remove-length : (x : String) (ys : List String) → length (remove x ys) ≤ length ys
remove-length x [] = omega arith
remove-length x (y ∷ ys) = ground (arith, remove-length x ys)

remove-shorter :
    (x : String) (ys : List String) → includes ys x ≡ true → length (remove x ys) + 1 ≤ length ys
remove-shorter x [] h = ground (arith, h)
remove-shorter x (y ∷ ys) h = ground (arith, remove-shorter x ys, remove-length x ys, h, eq_iff y x)

remove-includes :
    (x z : String) (ys : List String)
    → includes ys z ≡ true
    → (z == x) ≡ false
    → includes (remove x ys) z ≡ true
remove-includes x z [] h k = h
remove-includes x z (y ∷ ys) h k =
    ground (arith, remove-includes x z ys, h, k, eq_iff y x, eq_iff y z, eq_iff z x)

abbrev Within : List String → List String → Type 0
Within [] ys = Unit
Within (x ∷ xs) ys = (includes ys x ≡ true) × Within xs ys

-- Members that are not removed stay within.
Within-remove :
    (x : String) (xs ys : List String)
    → includes xs x ≡ false
    → Within xs ys
    → Within xs (remove x ys)
Within-remove x [] ys h w = tt
Within-remove x (z ∷ xs) ys h w = (
  remove-includes x z ys w.0 (or_left (z == x) (includes xs x) h),
  Within-remove x xs ys (or_right (z == x) (includes xs x) h) w.1,
)

Within-length : (xs ys : List String) → Nodup xs → Within xs ys → length xs ≤ length ys
Within-length [] ys n w = omega arith
Within-length (x ∷ xs) ys n w =
    let shorter = remove-shorter x ys w.0 in
    let rest = Within-length xs (remove x ys) n.1 (Within-remove x xs ys n.0 w.1) in omega arith

-- A list without repetitions that lies within another of the same length has all its members.
Within-back :
    (xs ys : List String) (y : String)
    → Nodup xs
    → Within xs ys
    → length xs ≡ length ys
    → includes ys y ≡ true
    → includes xs y ≡ true
Within-back xs ys y n w same member = elim (Bool-cases (includes xs y)) [
  | inl found ↦ found
  | inr missing ↦
      let shorter = remove-shorter y ys member in
      let bound = Within-length xs (remove y ys) n (Within-remove y xs ys missing w) in
      ground (arith, same, shorter, bound)
]

all-Within : (xs ys : List String) → all (includes ys) xs ≡ true → Within xs ys
all-Within [] ys h = tt
all-Within (x ∷ xs) ys h = (both_left _ _ h, all-Within xs ys (both_right _ _ h))

Within-all : (xs ys : List String) → Within xs ys → all (includes ys) xs ≡ true
Within-all [] ys w = refl
Within-all (x ∷ xs) ys w = rw w.0 (Within-all xs ys w.1)

Within-includes :
    (xs ys : List String) (z : String) → Within xs ys → includes xs z ≡ true → includes ys z ≡ true
Within-includes [] ys z w h = ground (arith, h)
Within-includes (x ∷ xs) ys z w h = elim (Bool-cases (x == z)) [
  | inl same ↦ ap (includes ys) (sym ((eq_iff x z).0 same)) ∙ w.0
  | inr other ↦ Within-includes xs ys z w.1 (rw other at h)
]

-- What is included in one is included in the other.
abbrev pub SameMembers : List String → List String → Type 0
SameMembers xs ys = (z : String) → includes xs z ≡ includes ys z

equal_tests : (a b : Bool) → (a ≡ true → b ≡ true) → (b ≡ true → a ≡ true) → a ≡ b
equal_tests true b f g = sym (f refl)
equal_tests false false f g = refl
equal_tests false true f g = g refl

Within-SameMembers :
    (xs ys : List String) → Nodup xs → Within xs ys → length xs ≡ length ys → SameMembers xs ys
Within-SameMembers xs ys n w same z =
    equal_tests (includes xs z) (includes ys z) (Within-includes xs ys z w)
      (Within-back xs ys z n w same)

SameMembers-Within :
    (xs ys : List String)
    → ((z : String) → includes xs z ≡ true → includes ys z ≡ true)
    → Within xs ys
SameMembers-Within [] ys h = tt
SameMembers-Within (x ∷ xs) ys h = (
  h x (rw (beq_refl x) refl),
  SameMembers-Within xs ys (λ z member. h z (or_true (x == z) (includes xs z) member)),
)

antisymmetric : (m n : ℕ) → m ≤ n → n ≤ m → m ≡ n
antisymmetric m n h k = omega arith

-- `sameVaultAddressSet` holds exactly if the two lists have the same address keys, whatever their
-- order and repetitions.
pub same_vault_address_set_iff :
    (family : ChainFamily) (left right : List String)
    → (same_vault_address_set family left right ≡ true)
      ↔ SameMembers (keys family left) (keys family right)
unfolding same_vault_address_set
same_vault_address_set_iff family left right =
    let wanted = set_of (keys family left) in
    let found = set_of (keys family right) in
    (
      λ h z.
          sym (set_of-includes (keys family left) z)
          ∙ Within-SameMembers wanted found (set_of-Nodup (keys family left))
              (all-Within wanted found (both_right (length wanted == length found) _ h))
              ((nat_eq.beq_iff (length wanted) (length found)).0
                (both_left (length wanted == length found) (all (includes found) wanted) h))
              z
          ∙ set_of-includes (keys family right) z,
      λ same.
          let agree : SameMembers wanted found = λ z.
            set_of-includes (keys family left) z
            ∙ same z
            ∙ sym (set_of-includes (keys family right) z) in
          let there = SameMembers-Within wanted found (λ z m. sym (agree z) ∙ m) in
          let back = SameMembers-Within found wanted (λ z m. agree z ∙ m) in
          both_true (length wanted == length found) (all (includes found) wanted)
            ((nat_eq.beq_iff (length wanted) (length found)).1 (
              antisymmetric (length wanted) (length found)
                (Within-length wanted found (set_of-Nodup (keys family left)) there)
                (Within-length found wanted (set_of-Nodup (keys family right)) back)))
            (Within-all wanted found there),
    )
