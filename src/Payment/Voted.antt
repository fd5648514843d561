-- ===== src/Payment/Voted.antt =====
-- packages/database/src/index.ts, `decideIntent`: what a first vote that is taken has passed, and
-- what it leaves.
use ai_neobank.Prelude.{
  ℕ, ◌<◌, ◌≡◌, refl, sym, ap, ◌∙◌, Bool, true, false, not, ◌||◌, Option, none, some, Bool-cases,
  not-false, not_or_false, or_right, inl, inr, leb, arith,
}
use ai_neobank.Prelude.Equality.{◌==◌, nat_eq, option_eq, string_eq}
use ai_neobank.Prelude.Failure.{Result, ok, err}
use ai_neobank.Domain.{IntentStatus, status_eq}
use ai_neobank.Payment.Rows.{Payment, ApprovalRequest, Vote, is_pending}
use ai_neobank.Payment.Decide.{
  Principal, is_eligible, decide_as, DecisionInput, ApprovalResult, count_approved, decision_by,
  cast_vote, decide_new, decide_found, decide_request, decide_checked, is_stopped,
  is_other_evidence, signer_taken, next_status, vote_of, recount, apply_vote,
}

-- A new vote that was taken: all that was checked, and what it led to.
pub record IsVote (now : ℕ) (input : DecisionInput) (r : ApprovalRequest) (p q : Payment)
    (result : ApprovalResult) : Type 0 where
  pub was_open : p.intent.status ≡ IntentStatus.approval_required
  pub was_pending : is_pending r.status ≡ true
  pub same_version : p.intent.version ≡ input.expected_intent_version
  pub live : now < p.intent.expires_at
  pub not_stopped : is_stopped input p ≡ false
  pub same_evidence : is_other_evidence input r ≡ false
  pub recorded : q.approvals ≡ (vote_of input p).approvals
  pub outcome : q.intent.status ≡ next_status input.decision (recount input r p)
  pub told : result.intent_status ≡ q.intent.status
  pub counted : result.approvals ≡ count_approved q.approvals

abbrev Voted :
    ℕ → DecisionInput → ApprovalRequest → Payment → Result (ApprovalResult × Payment) → Type 0
Voted now input r p (ok (result, q)) = IsVote now input r p q result
Voted now input r p (err _) = Unit

apply_vote-status :
    (input : DecisionInput) (vote : Vote) (quorum : Bool) (p : Payment)
    → p.intent.status ≡ IntentStatus.approval_required
    → (apply_vote input vote quorum p).intent.status ≡ next_status vote quorum
apply_vote-status input Vote.rejected quorum p was_open = refl
apply_vote-status input Vote.approved true p was_open = refl
apply_vote-status input Vote.approved false p was_open = was_open

apply_vote-approvals :
    (input : DecisionInput) (vote : Vote) (quorum : Bool) (p : Payment)
    → (apply_vote input vote quorum p).approvals ≡ (vote_of input p).approvals
apply_vote-approvals input Vote.rejected quorum p = refl
apply_vote-approvals input Vote.approved true p = refl
apply_vote-approvals input Vote.approved false p = refl

module _ (now : ℕ) (input : DecisionInput) (r : ApprovalRequest) (p : Payment) where
  cast_vote-Voted :
      p.intent.status ≡ IntentStatus.approval_required
      → is_pending r.status ≡ true
      → p.intent.version ≡ input.expected_intent_version
      → now < p.intent.expires_at
      → is_stopped input p ≡ false
      → is_other_evidence input r ≡ false
      → Voted now input r p (cast_vote now input r p)
  unfolding cast_vote
  cast_vote-Voted was_open pending version live free same =
      let quorum = recount input r p in
      let status = apply_vote-status input input.decision quorum p was_open in
      let votes = apply_vote-approvals input input.decision quorum p in
      elim (Bool-cases (signer_taken input.signer_address p.approvals)) [
        | inl taken ↦ rw taken tt
        | inr unsigned ↦
            rw unsigned
              (elim (Bool-cases (next_status input.decision quorum == IntentStatus.approved)) [
                | inl approved ↦ rw approved (record {
                  was_open = was_open;
                  was_pending = pending;
                  same_version = version;
                  live = live;
                  not_stopped = free;
                  same_evidence = same;
                  recorded = votes;
                  outcome = status;
                  told = sym status;
                  counted = ap count_approved (sym votes);
                })
                | inr undecided ↦ rw undecided (record {
                  was_open = was_open;
                  was_pending = pending;
                  same_version = version;
                  live = live;
                  not_stopped = free;
                  same_evidence = same;
                  recorded = votes;
                  outcome = status;
                  told = sym status;
                  counted = ap count_approved (sym votes);
                })
              ])
      ]

  decide_checked-Voted :
      p.intent.status ≡ IntentStatus.approval_required
      → is_pending r.status ≡ true
      → p.intent.version ≡ input.expected_intent_version
      → now < p.intent.expires_at
      → Voted now input r p (decide_checked now input r p)
  decide_checked-Voted was_open pending version live = elim (Bool-cases (is_stopped input p)) [
    | inl stopped ↦ rw stopped tt
    | inr free ↦ rw free (elim (Bool-cases (is_other_evidence input r)) [
      | inl other ↦ rw other tt
      | inr same ↦ rw same (cast_vote-Voted was_open pending version live free same)
    ])
  ]

  decide_new-Voted : Voted now input r p (decide_new now input r p)
  unfolding decide_new
  decide_new-Voted =
      elim (Bool-cases
        (not (p.intent.status == IntentStatus.approval_required) || not (is_pending r.status))) [
          | inl ended ↦ rw ended tt
          | inr waiting ↦
              rw waiting
                (elim (Bool-cases (not (p.intent.version == input.expected_intent_version))) [
                  | inl stale ↦ rw stale tt
                  | inr fresh ↦ rw fresh (elim (Bool-cases (leb p.intent.expires_at now)) [
                    | inl late ↦ rw late tt
                    | inr live ↦ rw live (
                        decide_checked-Voted
                          ((status_eq.beq_iff p.intent.status IntentStatus.approval_required).0
                            (not_or_false _ _ waiting))
                          (not-false _ (or_right _ _ waiting))
                          ((nat_eq.beq_iff p.intent.version input.expected_intent_version).0
                            (not-false _ fresh))
                          (ground arith))
                  ])
                ])
        ]

pub asked :
    (now : ℕ) (input : DecisionInput) (r : ApprovalRequest) (p : Payment)
    → p.request ≡ some r
    → decision_by input.principal_id p.approvals ≡ none
    → decide_request now input p.request p ≡ decide_new now input r p
asked now input r p requested first_vote =
    ap (λ x. decide_request now input x p) requested
    ∙ ap (λ f. decide_found now input r f p) first_vote

pub decide_as-IsVote :
    (now organization : ℕ) (u : Principal) (input : DecisionInput) (r : ApprovalRequest)
    (p q : Payment) (result : ApprovalResult)
    → p.request ≡ some r
    → decision_by input.principal_id p.approvals ≡ none
    → decide_as now organization (some u) input p ≡ ok (result, q)
    → (is_eligible u ≡ true)
      × (p.intent.organization_id ≡ organization)
      × IsVote now input r p q result
unfolding decide_as
decide_as-IsVote now organization u input r p q result requested first_vote e =
    elim (Bool-cases (not (is_eligible u))) [
      | inl ineligible ↦ cc (e, ineligible)
      | inr eligible ↦ elim (Bool-cases (not (p.intent.organization_id == organization))) [
        | inl foreign ↦ cc (e, eligible, foreign)
        | inr own ↦ (
          not-false _ eligible,
          (nat_eq.beq_iff p.intent.organization_id organization).0 (not-false _ own),
          rw (sym (asked now input r p requested first_vote) ∙ rw (eligible, own) at e) at
              (decide_new-Voted now input r p),
        )
      ]
    ]

-- A call that commits has found the row of its caller.
pub decide_as-found :
    (now organization : ℕ) (found : Option Principal) (input : DecisionInput) (p q : Payment)
    (result : ApprovalResult)
    → decide_as now organization found input p ≡ ok (result, q)
    → (u : Principal) × (found ≡ some u)
unfolding decide_as
decide_as-found now organization none input p q result e = cc (e)
decide_as-found now organization (some u) input p q result e = (u, refl)
