-- ===== src/Payment/Voter.antt =====
-- packages/database/src/index.ts, `decideIntent`: whose votes are taken.
use mathlib.Core.List.{Memᴰ}
use mathlib.Core.List.Memᴰ.{head, tail}
use mathlib.Core.Option.{some-injective, none-ne-some}
use ai_neobank.Prelude.{
  ℕ, ◌≡◌, sym, ◌∙◌, ◌⊎◌, inl, inr, true, ◌&&◌, some, List, [], ◌∷◌, includes, Bool-cases, both_left,
  both_right, arith,
}
use ai_neobank.Prelude.Equality.{◌==◌, nat_eq}
use ai_neobank.Domain.{PrincipalRole, role_eq, owner, approver}
use ai_neobank.Payment.Rows.{Payment, AccessStatus, PrincipalType, is_active}
use ai_neobank.Payment.Decide.{Principal, DecisionInput, is_human, is_eligible, principal_row}

-- The row of the one who votes: an active human owner or approver of the payment's organisation.
pub record IsVoter (principals : List Principal) (input : DecisionInput) (p : Payment)
    (u : Principal) : Type 0 where
  pub listed : Memᴰ u principals
  pub same_id : u.id ≡ input.principal_id
  pub same_organization : u.organization_id ≡ p.intent.organization_id
  pub is_person : u.type ≡ PrincipalType.human
  pub in_force : u.status ≡ AccessStatus.active
  pub entitled : (u.role ≡ owner) ⊎ (u.role ≡ approver)

human_only : (t : PrincipalType) → is_human t ≡ true → t ≡ PrincipalType.human
human_only t h = ground arith

active_only : (s : AccessStatus) → is_active s ≡ true → s ≡ AccessStatus.active
active_only s h = ground arith

deciders_only :
    (r : PrincipalRole) → includes (owner ∷ approver ∷ []) r ≡ true → (r ≡ owner) ⊎ (r ≡ approver)
deciders_only r h = ground arith

principal_row-found :
    (organization id : ℕ) (principals : List Principal) (u : Principal)
    → principal_row organization id principals ≡ some u
    → Memᴰ u principals × (u.id ≡ id) × (u.organization_id ≡ organization)
principal_row-found organization id [] u found = absurd (none-ne-some u found)
principal_row-found organization id (v ∷ principals) u found =
    elim (Bool-cases (v.id == id && v.organization_id == organization)) [
      | inl met ↦
          let same = some-injective v u (rw met at found) in
          (
            head (sym same),
            rw (← same) ((nat_eq.beq_iff v.id id).0 (both_left _ _ met)),
            rw (← same) ((nat_eq.beq_iff v.organization_id organization).0 (both_right _ _ met)),
          )
      | inr unmet ↦
          let (there, same_id, own) =
            principal_row-found organization id principals u (rw unmet at found) in
          (tail there, same_id, own)
    ]

pub IsVoter-of :
    (organization : ℕ) (principals : List Principal) (input : DecisionInput) (p : Payment)
    (u : Principal)
    → principal_row organization input.principal_id principals ≡ some u
    → p.intent.organization_id ≡ organization
    → is_eligible u ≡ true
    → IsVoter principals input p u
IsVoter-of organization principals input p u found own eligible =
    let (there, same_id, member) =
      principal_row-found organization input.principal_id principals u found in
    record {
      listed = there;
      same_id = same_id;
      same_organization = member ∙ sym own;
      is_person = human_only u.type (both_left _ _ (both_left _ _ eligible));
      in_force = active_only u.status (both_right _ _ (both_left _ _ eligible));
      entitled = deciders_only u.role (both_right _ _ eligible);
    }
