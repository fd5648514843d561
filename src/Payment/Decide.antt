-- ===== src/Payment/Decide.antt =====
-- packages/database/src/index.ts: `createIntent`'s rows and `decideIntent`.
use ai_neobank.Prelude.{
  ℕ, ◌+◌, Bool, true, false, not, ◌&&◌, ◌||◌, String, Option, none, some, List, [], ◌∷◌, ◌++◌,
  if◌then◌else◌, find, leb, includes,
}
use ai_neobank.Prelude.Equality.{◌==◌, nat_eq, string_eq, option_eq}
use ai_neobank.Prelude.Text.{is_blank}
use ai_neobank.Prelude.Failure.{
  error, approval_error, ok, Tx, ◌>>◌, pure, modify, throw, throw_if, done,
}
use ai_neobank.Domain.{
  IntentStatus, status_eq, PrincipalRole, role_eq, owner, approver, PaymentIntent,
}
use ai_neobank.Ledger.{Ledger}
use ai_neobank.Payment.Rows.{
  Payment, Context, Approval, ApprovalRequest, AccessStatus, PrincipalType, RequestStatus, Vote,
  Topic, is_active, is_pending, treasury_is_frozen, vote_beq,
}
use ai_neobank.Payment.Changes.{add_event, set_status, enqueue_at, audit, set_request_status}
use ai_neobank.Payment.Observe.{has_signer}

-- `createIntent`, for a key the requester has not used: the row, its first event, and the outbox.
unfoldable pub create_intent : ℕ → String → PaymentIntent → Context → Ledger → Payment
create_intent now compiled_hash i context ledger = record {
  intent = record {
    id = i.id;
    organization_id = i.organization_id;
    treasury_id = i.treasury_account_id;
    requester_id = i.requester_id;
    idempotency_key = i.idempotency_key;
    kind = i.kind;
    network = i.network;
    asset_id = i.asset_id;
    amount_base_units = i.amount_base_units;
    destination = i.destination;
    purpose = i.purpose;
    status = IntentStatus.received;
    version = 1;
    expires_at = i.expires_at;
    compiled_hash = compiled_hash;
    policy_version_id = none;
    policy_decision = none;
    failure_reason = none;
    publication = none;
  };
  context = context;
  request = none;
  approvals = [];
  execution = none;
  events =
      record {
        sequence = 1;
        event_type = "intent.received";
        actor = some i.requester_id;
        move = none;
      }
      ∷ [];
  outbox = record { topic = Topic.intent_evaluate; available_at = now } ∷ [];
  audit = [];
  ledger = ledger;
}

pub record Principal : Type 0 where
  pub id : ℕ
  pub organization_id : ℕ
  pub type : PrincipalType
  pub role : PrincipalRole
  pub status : AccessStatus

pub record DecisionInput : Type 0 where
  pub principal_id : ℕ
  pub decision : Vote
  pub expected_intent_version : ℕ
  pub compiled_hash : String
  pub simulation_hash : String
  pub signed_payload : Option String
  pub signer_address : Option String

pub record ApprovalResult : Type 0 where
  pub intent_status : IntentStatus
  pub request_status : RequestStatus
  pub approvals : ℕ
  pub required_approvals : ℕ
  pub idempotent_replay : Bool

abbrev pub is_human : PrincipalType → Bool
is_human PrincipalType.human = true
is_human _ = false

-- Only an active human owner or approver decides.
abbrev pub is_eligible : Principal → Bool
is_eligible u = is_human u.type && is_active u.status && includes (owner ∷ approver ∷ []) u.role

-- `count(*) … where decision = 'approved'`
unfoldable pub count_approved : List Approval → ℕ
count_approved [] = 0
count_approved (a ∷ rest) =
    (if vote_beq a.decision Vote.approved then 1 else 0) + count_approved rest

abbrev pub decision_by : ℕ → List Approval → Option Approval
decision_by principal = find (λ a. a.principal_id == some principal)

abbrev refuse : String → Tx Payment ApprovalResult
refuse code = throw (approval_error code)

-- The statuses that a vote leads to.
abbrev pub next_status : Vote → Bool → IntentStatus
next_status Vote.rejected quorum = IntentStatus.rejected
next_status Vote.approved true = IntentStatus.approved
next_status Vote.approved false = IntentStatus.approval_required

abbrev pub next_request : Vote → Bool → RequestStatus
next_request Vote.rejected quorum = RequestStatus.rejected
next_request Vote.approved true = RequestStatus.approved
next_request Vote.approved false = RequestStatus.pending

abbrev pub vote_event : Vote → String
vote_event Vote.approved = "intent.approved"
vote_event Vote.rejected = "intent.rejected"

abbrev pub signer_taken : Option String → List Approval → Bool
signer_taken none approvals = false
signer_taken (some address) approvals = has_signer address approvals

-- The vote is inserted.
abbrev pub vote_of : DecisionInput → Payment → Payment
vote_of input p = record p {
  approvals =
      p.approvals
      ++ record {
        principal_id = some input.principal_id;
        decision = input.decision;
        signer_address = input.signer_address;
        signed_payload = input.signed_payload;
      }
        ∷ [];
}

-- The votes are counted again: whether the quorum is met.
abbrev pub recount : DecisionInput → ApprovalRequest → Payment → Bool
recount input r p = leb r.required_approvals (count_approved (vote_of input p).approvals)

-- The request and the intent move if the vote ends the request.
abbrev pub apply_vote : DecisionInput → Vote → Bool → Payment → Payment
apply_vote input vote quorum p =
    if next_status vote quorum == IntentStatus.approval_required
    then vote_of input p
    else set_status (next_status vote quorum)
        (set_request_status (next_request vote quorum) (vote_of input p))

unfoldable pub cast_vote : ℕ → DecisionInput → ApprovalRequest → Tx Payment ApprovalResult
unfolding count_approved
cast_vote now input r p =
    let quorum = recount input r p in
    (do
      throw_if (signer_taken input.signer_address p.approvals)
          (error "duplicate key value violates unique constraint \"approvals_signer_idx\"")
      modify (λ _. apply_vote input input.decision quorum p)
      modify (add_event (vote_event input.decision) (some input.principal_id) none)
      audit (some input.principal_id) (vote_event input.decision)
      if next_status input.decision quorum == IntentStatus.approved
          then enqueue_at now Topic.transaction_execute
          else done
      pure (record {
        intent_status = next_status input.decision quorum;
        request_status = next_request input.decision quorum;
        approvals = count_approved (vote_of input p).approvals;
        required_approvals = r.required_approvals;
        idempotent_replay = false;
      }))
      p

-- The expiry that `decideIntent` writes before it throws.
abbrev expire_and_throw : Tx Payment ApprovalResult
expire_and_throw = do
  modify (set_request_status RequestStatus.expired)
  modify (set_status IntentStatus.expired)
  throw (approval_error "expired")

abbrev pub has_changed : String → String → Bool
has_changed stored given = is_blank stored || not (stored == given)

-- A vote for approval is refused while something is frozen.
abbrev pub is_stopped : DecisionInput → Payment → Bool
is_stopped input p =
    vote_beq input.decision Vote.approved
    && (p.context.organization_frozen
        || treasury_is_frozen p.context.treasury_status
        || not (is_active p.context.requester_status))

abbrev pub is_other_evidence : DecisionInput → ApprovalRequest → Bool
is_other_evidence input r =
    has_changed r.compiled_hash input.compiled_hash
    || has_changed r.simulation_hash input.simulation_hash

abbrev pub decide_checked : ℕ → DecisionInput → ApprovalRequest → Tx Payment ApprovalResult
decide_checked now input r p =
    if is_stopped input p
    then refuse "frozen" p
    else if is_other_evidence input r
    then refuse "evidence_mismatch" p
    else cast_vote now input r p

unfoldable pub decide_new : ℕ → DecisionInput → ApprovalRequest → Tx Payment ApprovalResult
unfolding cast_vote
decide_new now input r p =
    if not (p.intent.status == IntentStatus.approval_required) || not (is_pending r.status)
    then refuse "invalid_state" p
    else if not (p.intent.version == input.expected_intent_version)
    then refuse "stale_version" p
    else if leb p.intent.expires_at now
    then expire_and_throw p
    else decide_checked now input r p

abbrev pub decide_again : DecisionInput → ApprovalRequest → Approval → Tx Payment ApprovalResult
decide_again input r existing p =
    if not (vote_beq existing.decision input.decision)
    then refuse "already_decided" p
    else ok (
      record {
        intent_status = p.intent.status;
        request_status = r.status;
        approvals = count_approved p.approvals;
        required_approvals = r.required_approvals;
        idempotent_replay = true;
      },
      p,
    )

abbrev pub decide_found :
    ℕ → DecisionInput → ApprovalRequest → Option Approval → Tx Payment ApprovalResult
decide_found now input r (some existing) = decide_again input r existing
decide_found now input r none = decide_new now input r

abbrev pub decide_request : ℕ → DecisionInput → Option ApprovalRequest → Tx Payment ApprovalResult
decide_request now input none p = refuse "not_found" p
decide_request now input (some r) p =
    decide_found now input r (decision_by input.principal_id p.approvals) p

-- `decideIntent`, with the row that is found for the caller.
unfoldable pub decide_as : ℕ → ℕ → Option Principal → DecisionInput → Tx Payment ApprovalResult
unfolding decide_new count_approved
decide_as now organization none input p = refuse "not_found" p
decide_as now organization (some u) input p =
    if not (is_eligible u)
    then refuse "not_eligible" p
    else if not (p.intent.organization_id == organization)
    then refuse "not_found" p
    else decide_request now input p.request p

-- `from principals where id = … and organization_id = …`
abbrev pub principal_row : ℕ → ℕ → List Principal → Option Principal
principal_row organization id = find (λ u. u.id == id && u.organization_id == organization)

-- `decideIntent`, with the rows of all principals.
unfoldable pub decide_intent : ℕ → ℕ → List Principal → DecisionInput → Tx Payment ApprovalResult
unfolding decide_as
decide_intent now organization principals input p =
    decide_as now organization (principal_row organization input.principal_id principals) input p
