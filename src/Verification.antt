-- ===== src/Verification.antt =====
-- packages/domain/src/verification.ts: the states of an organisation's verification, when a case can
-- be submitted, what stays locked, and the words of the console's banner. Parsing a profile is the
-- schema library's work: whether it succeeds is an argument.
pub mod Access
mod Tests
use ai_neobank.Prelude.{
  ℕ, suc, ◌≡◌, refl, Bool, true, false, not, ◌&&◌, String, Option, none, some, List, [], ◌∷◌,
  includes, is_empty, if◌then◌else◌,
}
use ai_neobank.Prelude.Equality.{Eq, ◌==◌, string_eq, enum_beq, enum_beq_iff}
use ai_neobank.Prelude.Text.{◌++ₜ◌, is_blank}
use ai_neobank.Domain.{PrincipalRole, role_eq, owner}

pub data VerificationStatus : Type 0 where
  unstarted started pending verified rejected expired : VerificationStatus

abbrev index : VerificationStatus → ℕ
index unstarted = 0
index started = 1
index pending = 2
index verified = 3
index rejected = 4
index expired = 5

abbrev of_index : ℕ → VerificationStatus
of_index ℕ.zero = unstarted
of_index (suc ℕ.zero) = started
of_index (suc (suc ℕ.zero)) = pending
of_index (suc (suc (suc ℕ.zero))) = verified
of_index (suc (suc (suc (suc ℕ.zero)))) = rejected
of_index _ = expired

pub index_back : (s : VerificationStatus) → of_index (index s) ≡ s
index_back unstarted = refl
index_back started = refl
index_back pending = refl
index_back verified = refl
index_back rejected = refl
index_back expired = refl

instance abbrev pub verification_eq : Eq VerificationStatus
verification_eq = record {
  beq = enum_beq index of_index;
  beq_iff = enum_beq_iff index of_index index_back;
}

pub data VerificationMethod : Type 0 where
  manual provider : VerificationMethod

pub record VerificationState : Type 0 where
  pub status : VerificationStatus
  pub provider : Option String
  pub reference : Option String
  pub method : Option VerificationMethod
  pub started_at : Option ℕ
  pub decided_at : Option ℕ
  pub decided_by : Option ℕ
  pub reason : Option String
  pub expires_at : Option ℕ

-- `verificationTransitions`
abbrev pub verification_transitions : VerificationStatus → List VerificationStatus
verification_transitions unstarted = started ∷ []
verification_transitions started = pending ∷ verified ∷ rejected ∷ expired ∷ []
verification_transitions pending = verified ∷ rejected ∷ expired ∷ []
verification_transitions verified = expired ∷ []
verification_transitions rejected = started ∷ []
verification_transitions expired = started ∷ []

-- `canTransitionVerification`
unfoldable pub can_transition_verification : VerificationStatus → VerificationStatus → Bool
can_transition_verification from to = includes (verification_transitions from) to

pub data VerificationAction : Type 0 where
  start decide : VerificationAction

abbrev pub verification_roles : VerificationAction → List PrincipalRole
verification_roles start = owner ∷ []
verification_roles decide = owner ∷ []

-- `canPerformVerification`
unfoldable pub can_perform_verification : VerificationAction → PrincipalRole → Bool
can_perform_verification action role = includes (verification_roles action) role

pub data VerificationSubmitBlock : Type 0 where
  verification_not_started verification_profile_incomplete : VerificationSubmitBlock
  verification_already_submitted verification_already_verified : VerificationSubmitBlock
  submit_rejected submit_expired : VerificationSubmitBlock

pub data VerificationSubmitCheck : Type 0 where
  can_submit : VerificationSubmitCheck
  blocked : VerificationSubmitBlock → String → VerificationSubmitCheck

-- `submitBlockForStatus`; a started case has no entry and is not looked up.
abbrev pub submit_block_for_status : VerificationStatus → VerificationSubmitCheck
submit_block_for_status unstarted =
    blocked verification_not_started
      "Verification has not been started, so there is no case to submit. An owner can start it in Settings."
submit_block_for_status pending =
    blocked verification_already_submitted
      "This case is already with a reviewer. It cannot be submitted again until it has been decided."
submit_block_for_status verified =
    blocked verification_already_verified
      "A decision is already on file for this case. Start verification again to replace it."
submit_block_for_status rejected =
    blocked submit_rejected "This case was rejected. Start verification again before submitting."
submit_block_for_status expired =
    blocked submit_expired "This case has expired. Start verification again before submitting."
submit_block_for_status started = can_submit

-- `verificationSubmitCheck`
unfoldable pub verification_submit_check : VerificationStatus → Bool → VerificationSubmitCheck
unfolding can_transition_verification
verification_submit_check status profile_complete =
    if not (can_transition_verification status pending)
    then submit_block_for_status status
    else if not profile_complete
    then blocked verification_profile_incomplete
        "The application is not finished. Every required answer has to be filled in before it can go to a reviewer."
    else can_submit

-- `canSubmitVerification`
unfoldable pub can_submit_verification : VerificationStatus → Bool → Bool
unfolding verification_submit_check
can_submit_verification status profile_complete =
    elim (verification_submit_check status profile_complete) [
      | can_submit ↦ true
      | blocked code why ↦ false
    ]

abbrev pub connected_providers : List String
connected_providers = []

pub data GatedCapability : Type 0 where
  cards : GatedCapability

pub data CapabilityBlock : Type 0 where
  organization_not_found organization_frozen verification_required : CapabilityBlock
  verification_in_review verification_rejected verification_expired : CapabilityBlock
  provider_not_connected : CapabilityBlock

pub data CapabilityDecision : Type 0 where
  capability_allowed : GatedCapability → CapabilityDecision
  capability_blocked : GatedCapability → CapabilityBlock → String → CapabilityDecision

abbrev pub needs_verification : GatedCapability → Bool
needs_verification cards = true

abbrev pub needs_provider : GatedCapability → String
needs_provider cards = "card_issuer"

-- `blockForStatus`; a verified organisation has no entry and is not looked up.
abbrev block_for_status : GatedCapability → VerificationStatus → CapabilityDecision
block_for_status capability unstarted =
    capability_blocked capability verification_required
      "Verification has not been started, so this stays locked. An owner can start it in Settings."
block_for_status capability started =
    capability_blocked capability verification_in_review
      "Verification is open and has not been decided yet."
block_for_status capability pending =
    capability_blocked capability verification_in_review
      "Verification is with a reviewer and has not been decided yet."
block_for_status capability rejected =
    capability_blocked capability verification_rejected
      "Verification was rejected, so this stays locked. An owner can start it again."
block_for_status capability expired =
    capability_blocked capability verification_expired
      "Verification has expired, so this stays locked until it is done again."
block_for_status capability verified = capability_allowed capability

-- `capabilityAccess`, for the providers that are connected.
unfoldable pub access_with :
    List String → GatedCapability → Bool → VerificationStatus → CapabilityDecision
access_with providers capability frozen status =
    if frozen
    then capability_blocked capability organization_frozen
        "The organisation is frozen, so nothing new can be opened."
    else if needs_verification capability && not (status == verified)
    then block_for_status capability status
    else if not (includes providers (needs_provider capability))
    then capability_blocked capability provider_not_connected
        "Verification is on file, but Floatlane has no card issuer connected. No card can be issued and there is none to show."
    else capability_allowed capability

unfoldable pub capability_access : GatedCapability → Bool → VerificationStatus → CapabilityDecision
unfolding access_with
capability_access = access_with connected_providers

-- `emptyVerificationState`
abbrev pub empty_verification_state : VerificationState
empty_verification_state = record {
  status = unstarted;
  provider = none;
  reference = none;
  method = none;
  started_at = none;
  decided_at = none;
  decided_by = none;
  reason = none;
  expires_at = none;
}

pub record Description : Type 0 where
  pub headline : String
  pub detail : String
  pub provider_connected : Bool
  pub can_start : Bool

abbrev unavailable : String
unavailable =
    "Floatlane has no verification provider connected, so nothing here has been checked against a register. An owner can record a decision by hand, and it is stored as exactly that."

abbrev headlines : VerificationStatus → String
headlines unstarted = "Verification has not been started"
headlines started = "Verification is open"
headlines pending = "Verification is with a reviewer"
headlines verified = "Verified by a recorded decision"
headlines rejected = "Verification was rejected"
headlines expired = "Verification has expired"

abbrev reason_given : Option String → String
reason_given none = "No reason was recorded."
reason_given (some reason) =
    if is_blank reason then "No reason was recorded." else "Reason given: " ++ₜ reason

abbrev details : VerificationState → VerificationStatus → String
details state unstarted =
    "Restricted parts of the console stay locked while this is undecided, and each of them has its own requirements on top of this one. "
    ++ₜ unavailable
details state started = "The case is open and nothing has been decided. " ++ₜ unavailable
details state pending =
    "Somebody has to decide it; nothing decides it automatically. " ++ₜ unavailable
details state verified = "Recorded by a person, not by a provider. " ++ₜ unavailable
details state rejected = reason_given state.reason
details state expired = "Start verification again to unlock the restricted parts of the console."

-- `describeVerification`
unfoldable pub describe_verification : VerificationState → Description
describe_verification state = record {
  headline = headlines state.status;
  detail = details state state.status;
  provider_connected = not (is_empty connected_providers);
  can_start = includes (verification_transitions state.status) started;
}
