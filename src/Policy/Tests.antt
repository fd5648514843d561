-- ===== src/Policy/Tests.antt =====
-- The cases of packages/policy/src/index.test.ts.
use ai_neobank.Prelude.{◌≡◌, refl, false, [], ◌∷◌}
use ai_neobank.Prelude.Text.{to_lower}
use ai_neobank.Domain.{PaymentIntent, SpendingPolicy, PolicyDecision, transfer, x402}
use ai_neobank.Policy.{PolicyContext, evaluate_payment_intent}
use ai_neobank.Policy.Laws.{Justified, evaluate_payment_intent-Justified}

abbrev intent : PaymentIntent
intent = record {
  id = 1;
  idempotency_key = "request-001";
  organization_id = 1;
  treasury_account_id = 1;
  requester_id = 1;
  network = "eip155:84532";
  asset_id = "eip155:84532/erc20:0x01";
  amount_base_units = 25000000;
  destination = "0xAb02";
  purpose = "Purchase a market-data report";
  expires_at = 2000;
  kind = x402;
}

abbrev policy : SpendingPolicy
policy = record {
  id = 1;
  version = 1;
  frozen = false;
  max_per_transaction = 100000000;
  max_daily = 500000000;
  auto_approve_up_to = 50000000;
  allowed_networks = "eip155:84532" ∷ "solana:devnet" ∷ [];
  allowed_assets = "eip155:84532/erc20:0x01" ∷ [];
  allowed_destinations = [];
  allowed_kinds = transfer ∷ x402 ∷ [];
  human_approval_required = false;
  min_approvals = 1;
  require_beneficiary = false;
}

abbrev context : PolicyContext
context = record { spent_today = 0; now = 1000; destination_is_beneficiary = false }

auto_authorizes :
    evaluate_payment_intent intent policy context
    ≡ PolicyDecision.auto_authorized ("Intent is within delegated authority" ∷ [])
unfolding evaluate_payment_intent
auto_authorizes = refl

rejects_kind :
    evaluate_payment_intent intent (record policy { allowed_kinds = transfer ∷ [] }) context
    ≡ PolicyDecision.rejected ("Intent kind x402 is not allowed" ∷ [])
unfolding evaluate_payment_intent
rejects_kind = refl

destination_ignores_case :
    evaluate_payment_intent intent (record policy { allowed_destinations = "0xaB02" ∷ [] }) context
    ≡ PolicyDecision.auto_authorized ("Intent is within delegated authority" ∷ [])
unfolding evaluate_payment_intent to_lower
destination_ignores_case = refl

evaluate_payment_intent-Justified_example :
    Justified intent policy context (evaluate_payment_intent intent policy context)
evaluate_payment_intent-Justified_example = evaluate_payment_intent-Justified intent policy context
