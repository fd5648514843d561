-- ===== src/Verification/Access.antt =====
-- packages/domain/src/verification.ts: what a case and a capability need.
use ai_neobank.Prelude.{
  ◌≡◌, refl, inl, inr, Bool, true, false, not, ◌&&◌, String, List, includes, Bool-cases,
}
use ai_neobank.Prelude.Equality.{◌==◌, string_eq}
use ai_neobank.Verification.{
  VerificationStatus, unstarted, started, pending, verified, rejected, expired, verification_eq,
  can_transition_verification, can_submit_verification, GatedCapability, cards, CapabilityDecision,
  capability_allowed, capability_blocked, access_with, needs_provider,
}

-- A case can be submitted exactly if it is started and its profile is complete; that is the only
-- way into `pending` that the transitions know.
pub can_submit_verification_iff :
    (status : VerificationStatus) (profile_complete : Bool)
    → (can_submit_verification status profile_complete
        ≡ can_transition_verification status pending && profile_complete)
      × (can_submit_verification status profile_complete ≡ status == started && profile_complete)
unfolding can_submit_verification can_transition_verification
can_submit_verification_iff started true = (refl, refl)
can_submit_verification_iff started false = (refl, refl)
can_submit_verification_iff unstarted profile_complete = (refl, refl)
can_submit_verification_iff pending profile_complete = (refl, refl)
can_submit_verification_iff verified profile_complete = (refl, refl)
can_submit_verification_iff rejected profile_complete = (refl, refl)
can_submit_verification_iff expired profile_complete = (refl, refl)

abbrev pub opens : CapabilityDecision → Bool
opens (capability_allowed _) = true
opens (capability_blocked _ _ _) = false

-- A capability opens exactly for a verified organisation that is not frozen, and whose provider is
-- connected.
pub access_with_iff :
    (providers : List String) (capability : GatedCapability) (frozen : Bool)
    (status : VerificationStatus)
    → opens (access_with providers capability frozen status)
      ≡ not frozen && status == verified && includes providers (needs_provider capability)
unfolding access_with
access_with_iff providers cards true status = refl
access_with_iff providers cards false verified =
    elim (Bool-cases (includes providers "card_issuer")) [
      | inl connected ↦ rw connected refl
      | inr missing ↦ rw missing refl
    ]
access_with_iff providers cards false unstarted = refl
access_with_iff providers cards false started = refl
access_with_iff providers cards false pending = refl
access_with_iff providers cards false rejected = refl
access_with_iff providers cards false expired = refl
