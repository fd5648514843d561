-- ===== src/Policy.antt =====
-- packages/policy/src/index.ts: the spending policy's decision on a payment intent.
pub mod Laws
mod Tests
use ai_neobank.Prelude.{
  ℕ, ◌+◌, Bool, true, false, not, ◌&&◌, ◌||◌, String, List, [], ◌∷◌, if◌then◌else◌, ltb, leb, any,
  includes, is_empty,
}
use ai_neobank.Prelude.Equality.{◌==◌, string_eq}
use ai_neobank.Prelude.Text.{◌++ₜ◌, to_lower}
use ai_neobank.Domain.{
  PaymentIntent, SpendingPolicy, PolicyDecision, IntentKind, transfer, x402, kind_eq,
}

-- `destination_is_beneficiary` is false also where the source leaves the optional field out.
pub record PolicyContext : Type 0 where
  pub spent_today : ℕ
  pub now : ℕ
  pub destination_is_beneficiary : Bool

abbrev pub kind_text : IntentKind → String
kind_text transfer = "transfer"
kind_text x402 = "x402"

-- The reasons that a row of `if (broken) rejectionReasons.push(reason)` pushes.
unfoldable pub pushed : List (Bool × String) → List String
pushed [] = []
pushed ((broken, reason) ∷ checks) = if broken then reason ∷ pushed checks else pushed checks

abbrev pub destination_listed : SpendingPolicy → PaymentIntent → Bool
destination_listed policy intent =
    any (λ allowed. to_lower allowed == to_lower intent.destination) policy.allowed_destinations

-- The tests of `evaluatePaymentIntent`, in its order.
abbrev pub checks : PaymentIntent → SpendingPolicy → PolicyContext → List (Bool × String)
checks intent policy context =
    (policy.frozen, "Policy is frozen")
    ∷ (leb intent.expires_at context.now, "Intent has expired")
    ∷ (
      not (includes policy.allowed_kinds intent.kind),
      "Intent kind " ++ₜ kind_text intent.kind ++ₜ " is not allowed",
    )
    ∷ (not (includes policy.allowed_networks intent.network), "Network is not allowed")
    ∷ (not (includes policy.allowed_assets intent.asset_id), "Asset is not allowed")
    ∷ (ltb policy.max_per_transaction intent.amount_base_units, "Per-transaction limit exceeded")
    ∷ (
      ltb policy.max_daily (intent.amount_base_units + context.spent_today),
      "Daily limit exceeded",
    )
    ∷ (
      not (is_empty policy.allowed_destinations) && not (destination_listed policy intent),
      "Destination is not allowed",
    )
    ∷ (
      policy.require_beneficiary
          && intent.kind == transfer
          && not context.destination_is_beneficiary,
      "Destination is not an approved beneficiary",
    )
    ∷ []

unfoldable pub evaluate_payment_intent :
    PaymentIntent → SpendingPolicy → PolicyContext → PolicyDecision
unfolding pushed
evaluate_payment_intent intent policy context =
    let found = pushed (checks intent policy context) in
    if not (is_empty found)
    then PolicyDecision.rejected found
    else if policy.human_approval_required || ltb policy.auto_approve_up_to intent.amount_base_units
    then PolicyDecision.approval_required ("Human approval threshold reached" ∷ [])
    else PolicyDecision.auto_authorized ("Intent is within delegated authority" ∷ [])
