-- ===== src/Payment/Votes.antt =====
-- The lifecycle under `decideIntent` of packages/database/src/index.ts.
use ai_neobank.Prelude.{
  List, ℕ, ◌≡◌, refl, Bool, true, false, not, ◌||◌, Option, none, some, Bool-cases, not_or_false,
  inl, inr, leb,
}
use ai_neobank.Prelude.Equality.{◌==◌, nat_eq, option_eq, string_eq}
use ai_neobank.Domain.{IntentStatus, status_eq}
use ai_neobank.Payment.Rows.{
  Payment, Approval, ApprovalRequest, RequestStatus, Vote, is_pending, vote_beq,
}
use ai_neobank.Payment.Changes.{add_event, set_request_status}
use ai_neobank.Payment.Decide.{
  Principal, is_eligible, DecisionInput, decision_by, cast_vote, decide_new, decide_found,
  decide_request, decide_as, decide_intent, principal_row, signer_taken, decide_checked, is_stopped,
  is_other_evidence, next_status, vote_event, vote_of, recount, apply_vote,
}
use ai_neobank.Payment.Evolve.{
  Step, Evolves, Evolves-refl, Evolves-aside, Evolves-trans, Kept, set_status-Evolves,
  add_event-Evolves,
}

-- A vote ends the request or leaves it open; either way it is an edge or none.
apply_vote-Evolves :
    (input : DecisionInput) (vote : Vote) (quorum : Bool) (p : Payment)
    → p.intent.status ≡ IntentStatus.approval_required
    → Evolves p (apply_vote input vote quorum p)
apply_vote-Evolves input Vote.rejected quorum p h =
    let voted = vote_of input p in
    let marked = set_request_status RequestStatus.rejected voted in
    Evolves-trans p marked _ (Evolves-aside p _ refl refl refl refl refl refl)
      (set_status-Evolves IntentStatus.rejected marked (rw h Step.refuse))
apply_vote-Evolves input Vote.approved true p h =
    let marked = set_request_status RequestStatus.approved (vote_of input p) in
    Evolves-trans p marked _ (Evolves-aside p _ refl refl refl refl refl refl)
      (set_status-Evolves IntentStatus.approved marked (rw h Step.approve))
apply_vote-Evolves input Vote.approved false p h = Evolves-aside p _ refl refl refl refl refl refl

cast_vote-Kept :
    (now : ℕ) (input : DecisionInput) (r : ApprovalRequest) (p : Payment)
    → p.intent.status ≡ IntentStatus.approval_required
    → Kept p (cast_vote now input r p)
unfolding cast_vote
cast_vote-Kept now input r p h = elim (Bool-cases (signer_taken input.signer_address p.approvals)) [
  | inl taken ↦ rw taken tt
  | inr free ↦
      let quorum = recount input r p in
      let moved = apply_vote input input.decision quorum p in
      let told = add_event (vote_event input.decision) (some input.principal_id) none moved in
      let e =
        Evolves-trans p moved told (apply_vote-Evolves input input.decision quorum p h)
          (add_event-Evolves (vote_event input.decision) (some input.principal_id) none moved) in
      rw free (elim (Bool-cases (next_status input.decision quorum == IntentStatus.approved)) [
        | inl approved ↦
            rw approved
              (Evolves-trans p told _ e (Evolves-aside told _ refl refl refl refl refl refl))
        | inr undecided ↦
            rw undecided
              (Evolves-trans p told _ e (Evolves-aside told _ refl refl refl refl refl refl))
      ])
]

is_approval_required :
    (s : IntentStatus) (b : Bool)
    → not (s == IntentStatus.approval_required) || b ≡ false
    → s ≡ IntentStatus.approval_required
is_approval_required s b h =
    (status_eq.beq_iff s IntentStatus.approval_required).0
      (not_or_false (s == IntentStatus.approval_required) b h)

checked-Kept :
    (now : ℕ) (input : DecisionInput) (r : ApprovalRequest) (p : Payment)
    → p.intent.status ≡ IntentStatus.approval_required
    → Kept p (decide_checked now input r p)
checked-Kept now input r p h = elim (Bool-cases (is_stopped input p)) [
  | inl frozen ↦ rw frozen tt
  | inr free ↦ rw free (elim (Bool-cases (is_other_evidence input r)) [
    | inl other ↦ rw other tt
    | inr same ↦ rw same (cast_vote-Kept now input r p h)
  ])
]

decide_new-Kept :
    (now : ℕ) (input : DecisionInput) (r : ApprovalRequest) (p : Payment)
    → Kept p (decide_new now input r p)
unfolding decide_new
decide_new-Kept now input r p =
    elim (Bool-cases
      (not (p.intent.status == IntentStatus.approval_required) || not (is_pending r.status))) [
        | inl ended ↦ rw ended tt
        | inr waiting ↦
            rw waiting
              (elim (Bool-cases (not (p.intent.version == input.expected_intent_version))) [
                | inl stale ↦ rw stale tt
                | inr fresh ↦ rw fresh (elim (Bool-cases (leb p.intent.expires_at now)) [
                  | inl late ↦ rw late tt
                  | inr live ↦
                      rw live (
                        checked-Kept now input r p (is_approval_required p.intent.status _ waiting))
                ])
              ])
      ]

decide_found-Kept :
    (now : ℕ) (input : DecisionInput) (r : ApprovalRequest) (found : Option Approval) (p : Payment)
    → Kept p (decide_found now input r found p)
decide_found-Kept now input r none p = decide_new-Kept now input r p
decide_found-Kept now input r (some existing) p =
    elim (Bool-cases (not (vote_beq existing.decision input.decision))) [
      | inl other ↦ rw other tt
      | inr same ↦ rw same (Evolves-refl p)
    ]

decide_request-Kept :
    (now : ℕ) (input : DecisionInput) (r : Option ApprovalRequest) (p : Payment)
    → Kept p (decide_request now input r p)
decide_request-Kept now input none p = tt
decide_request-Kept now input (some r) p =
    decide_found-Kept now input r (decision_by input.principal_id p.approvals) p

decide_as-Kept :
    (now organization : ℕ) (principal : Option Principal) (input : DecisionInput) (p : Payment)
    → Kept p (decide_as now organization principal input p)
unfolding decide_as
decide_as-Kept now organization none input p = tt
decide_as-Kept now organization (some u) input p = elim (Bool-cases (not (is_eligible u))) [
  | inl ineligible ↦ rw ineligible tt
  | inr eligible ↦ rw eligible (elim (Bool-cases (not (p.intent.organization_id == organization))) [
    | inl foreign ↦ rw foreign tt
    | inr own ↦ rw own (decide_request-Kept now input p.request p)
  ])
]

pub decide_intent-Kept :
    (now organization : ℕ) (principals : List Principal) (input : DecisionInput) (p : Payment)
    → Kept p (decide_intent now organization principals input p)
unfolding decide_intent
decide_intent-Kept now organization principals input p =
    decide_as-Kept now organization (principal_row organization input.principal_id principals) input
      p
