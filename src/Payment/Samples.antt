-- ===== src/Payment/Samples.antt =====
-- A payment from a direct treasury at each stage of its life, as the tests use it.
use ai_neobank.Prelude.{List, false, String, Option, none, some, [], ◌∷◌}
use ai_neobank.Prelude.Failure.{Result, ok, err}
use ai_neobank.Domain.{
  PaymentIntent, SpendingPolicy, IntentStatus, status_eq, transfer, evm, direct, AssetKind,
  approver,
}
use ai_neobank.Ledger.{Ledger}
use ai_neobank.Payment.Rows.{
  Payment, Context, Signer, AccessStatus, PrincipalType, TreasuryStatus, Custody, Vote,
  RequestStatus, ApprovalRequest, Execution,
}
use ai_neobank.Payment.Evaluate.{evaluate_intent}
use ai_neobank.Payment.Decide.{
  create_intent, Principal, DecisionInput, ApprovalResult, decide_intent,
}
use ai_neobank.Payment.Execute.{
  ExecutionContext, new_execution, record_simulation, SignedTransaction, mark_signed,
}
use ai_neobank.Payment.Settle.{submit_execution, mark_submitted, mark_failed}
use ai_neobank.Payment.Publish.{kms_key}

abbrev pub intent : PaymentIntent
intent = record {
  id = 7;
  idempotency_key = "rent";
  organization_id = 1;
  treasury_account_id = 2;
  requester_id = 3;
  network = "eip155:84532";
  asset_id = "usdc";
  amount_base_units = 250;
  destination = "0xab02";
  purpose = "Rent";
  expires_at = 900000;
  kind = transfer;
}

abbrev pub policy : SpendingPolicy
policy = record {
  id = 1;
  version = 1;
  frozen = false;
  max_per_transaction = 1000;
  max_daily = 5000;
  auto_approve_up_to = 100;
  allowed_networks = "eip155:84532" ∷ [];
  allowed_assets = "usdc" ∷ [];
  allowed_destinations = [];
  allowed_kinds = transfer ∷ [];
  human_approval_required = false;
  min_approvals = 1;
  require_beneficiary = false;
}

abbrev pub signer : Signer
signer = record {
  id = 4;
  address = "0xAA01";
  status = AccessStatus.active;
  chain_family = evm;
  custody = Custody.kms;
  encrypted_secret = "";
  encryption_nonce = "";
  auth_tag = "";
  kms_key_id = "key";
  created_at = 1;
}

abbrev pub context : Context
context = record {
  organization_frozen = false;
  autonomous_execution = false;
  treasury_status = TreasuryStatus.active;
  treasury_network = "eip155:84532";
  chain_family = evm;
  governance = direct;
  treasury_address = "0xaa01";
  executor_signer_id = none;
  requester_type = PrincipalType.human;
  requester_status = AccessStatus.active;
  agent_status = none;
  asset = some (record {
    kind = AssetKind.erc20;
    address = some "0x01";
    decimals = 6;
    network = "eip155:84532";
  });
  signers = signer ∷ [];
  policy_bindings =
      record {
        agent_principal = none;
        treasury_id = some 2;
        created_at = 1;
        version_id = 5;
        policy = policy;
      }
      ∷ [];
  other_intents = [];
  beneficiaries = [];
  wallets = [];
}

abbrev pub books : Ledger
books = record { accounts = []; transactions = [] }

abbrev pub after : {A : Type 0} → Result (A × Payment) → Payment → Payment
after (ok (_, q)) p = q
after (err _) p = p

abbrev pub or_else : {A : Type 0} → Result A → A → A
or_else (ok a) b = a
or_else (err _) b = b

abbrev pub plain : String → String
plain s = s

abbrev pub submitted_intent : Payment
submitted_intent = create_intent 1000 "0xc0" intent context books

abbrev pub waiting : Payment
waiting = after (evaluate_intent plain 2000 none submitted_intent submitted_intent) submitted_intent

abbrev pub or_request : Option ApprovalRequest → ApprovalRequest
or_request (some r) = r
or_request none = record {
  required_approvals = 0;
  compiled_hash = "";
  simulation_hash = "";
  status = RequestStatus.expired;
  expires_at = 0;
  external_ref = none;
}

abbrev pub request : ApprovalRequest
request = or_request waiting.request

abbrev pub alice : Principal
alice = record {
  id = 9;
  organization_id = 1;
  type = PrincipalType.human;
  role = approver;
  status = AccessStatus.active;
}

-- The organisation's approver, after a row of another organisation.
abbrev pub principals : List Principal
principals = record alice { id = 8; organization_id = 2 } ∷ alice ∷ []

abbrev pub vote : DecisionInput
vote = record {
  principal_id = 9;
  decision = Vote.approved;
  expected_intent_version = 2;
  compiled_hash = "0xc0";
  simulation_hash = request.simulation_hash;
  signed_payload = none;
  signer_address = none;
}

abbrev pub outcome : ApprovalResult
outcome = record {
  intent_status = IntentStatus.approved;
  request_status = RequestStatus.approved;
  approvals = 1;
  required_approvals = 1;
  idempotent_replay = false;
}

abbrev pub approved : Payment
approved = after (decide_intent 3000 1 principals vote waiting) waiting

abbrev pub approved_request : ApprovalRequest
approved_request = or_request approved.request

abbrev pub given_up : Payment
given_up = after (mark_failed 3000 "No gas" none waiting) waiting

abbrev pub ready : ExecutionContext
ready = record {
  intent = approved.intent;
  context = context;
  signer = signer;
  key = kms_key "key";
  approval_compiled_hash = "0xc0";
  external_ref = none;
  owner_signatures = [];
  x402 = none;
  execution = none;
}

abbrev pub or_execution : Option Execution → Execution
or_execution (some e) = e
or_execution none = new_execution 0 ready 0 "" ""

abbrev pub executing : Payment
executing = after (record_simulation 11 ready 21 "call" "0xc0" approved) approved

abbrev pub transaction : SignedTransaction
transaction = record { hash = "0xfe"; raw = "0xdd"; nonce = "1"; valid_until = "" }

abbrev pub signed_payment : Payment
signed_payment = after (mark_signed 11 transaction executing) executing

abbrev pub sent : Payment
sent = after (mark_submitted 5000 11 none signed_payment) signed_payment

abbrev pub sent_execution : Execution
sent_execution = or_execution (submit_execution 5000 11 none signed_payment.execution)
