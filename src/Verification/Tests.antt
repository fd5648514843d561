-- ===== src/Verification/Tests.antt =====
-- Cases of packages/domain/src/verification.test.ts, and the witnesses.
use ai_neobank.Prelude.{◌≡◌, refl, true, false, not, ◌&&◌, [], ◌∷◌, includes}
use ai_neobank.Prelude.Equality.{◌==◌, string_eq}
use ai_neobank.Verification.{
  verified, verification_eq, cards, access_with, needs_provider, capability_access,
  describe_verification, empty_verification_state,
}
use ai_neobank.Verification.Access.{opens, access_with_iff}

cards_stay_locked : opens (capability_access cards false verified) ≡ false
unfolding capability_access
cards_stay_locked = refl

can_start_at_first : (describe_verification empty_verification_state).can_start ≡ true
unfolding describe_verification
can_start_at_first = refl

access_with_iff_example :
    opens (access_with ("card_issuer" ∷ []) cards false verified)
    ≡ not false && verified == verified && includes ("card_issuer" ∷ []) (needs_provider cards)
access_with_iff_example = access_with_iff ("card_issuer" ∷ []) cards false verified
