-- ===== src/Payment/Quorum.antt =====
-- packages/database/src/index.ts, `decideIntent`: who may end a request, and a vote that is sent
-- twice.
use ai_neobank.Prelude.{
  ℕ, ◌≤◌, ◌≡◌, refl, sym, ap, ◌∙◌, Bool, true, false, none, some, List, [], ◌∷◌, ◌++◌, Bool-cases,
  inl, inr, find, arith,
}
use ai_neobank.Prelude.Equality.{◌==◌, nat_eq, option_eq, string_eq, beq_refl}
use ai_neobank.Prelude.Failure.{ok}
use ai_neobank.Domain.{IntentStatus, status_eq}
use ai_neobank.Payment.Rows.{Payment, Approval, ApprovalRequest, Vote, vote_beq}
use ai_neobank.Payment.Evolve.{Evolves}
use ai_neobank.Payment.Votes.{decide_intent-Kept}
use ai_neobank.Payment.Voter.{IsVoter, IsVoter-of}
use ai_neobank.Payment.Decide.{
  Principal, principal_row, decide_as, DecisionInput, ApprovalResult, count_approved, decision_by,
  decide_found, decide_request, decide_intent, next_status, recount,
}
use ai_neobank.Payment.Voted.{IsVote, decide_as-IsVote, decide_as-found}

-- A vote by a principal who has not voted on this payment is taken only if that principal has a row
-- of the payment's organisation, as an active human owner or approver, on a pending request of an
-- intent that waits for approval, at the version and with the evidence that the request has, before
-- it expires, and, if it is for approval, while nothing is frozen. The vote is then recorded, and
-- the intent's status is the one that the decision and the recount of the votes prescribe.
pub decide_intent-IsVote :
    (now organization : ℕ) (principals : List Principal) (input : DecisionInput)
    (r : ApprovalRequest) (p q : Payment) (result : ApprovalResult)
    → p.request ≡ some r
    → decision_by input.principal_id p.approvals ≡ none
    → decide_intent now organization principals input p ≡ ok (result, q)
    → ((u : Principal) × IsVoter principals input p u) × IsVote now input r p q result
unfolding decide_intent
decide_intent-IsVote now organization principals input r p q result requested first_vote e =
    let (u, found) = decide_as-found now organization _ input p q result e in
    let (eligible, own, v) =
      decide_as-IsVote now organization u input r p q result requested first_vote (rw found at e) in
    ((u, IsVoter-of organization principals input p u found own eligible), v)

approved_only :
    (vote : Vote) (quorum : Bool)
    → next_status vote quorum ≡ IntentStatus.approved
    → (vote ≡ Vote.approved) × (quorum ≡ true)
approved_only Vote.approved true h = (refl, refl)
approved_only Vote.approved false h = ground (arith, h)
approved_only Vote.rejected quorum h = ground (arith, h)

-- Where such a vote leaves the intent approved, it was a vote for approval, and at least as many
-- votes for approval are recorded as the request requires.
pub decide_intent_quorum :
    (now organization : ℕ) (principals : List Principal) (input : DecisionInput)
    (r : ApprovalRequest) (p q : Payment) (result : ApprovalResult)
    → p.request ≡ some r
    → decision_by input.principal_id p.approvals ≡ none
    → decide_intent now organization principals input p ≡ ok (result, q)
    → q.intent.status ≡ IntentStatus.approved
    → (input.decision ≡ Vote.approved) × (r.required_approvals ≤ count_approved q.approvals)
decide_intent_quorum now organization principals input r p q result requested first_vote e
      approved =
    let v =
      (decide_intent-IsVote now organization principals input r p q result requested first_vote
        e).1 in
    let (vote, quorum) =
      approved_only input.decision (recount input r p) (sym v.outcome ∙ approved) in
    (vote, rw v.recorded (ground (arith, quorum)))

find-append :
    (f : Approval → Bool) (xs : List Approval) (y : Approval)
    → find f xs ≡ none
    → f y ≡ true
    → find f (xs ++ y ∷ []) ≡ some y
find-append f [] y h k = rw k refl
find-append f (x ∷ xs) y h k = elim (Bool-cases (f x)) [
  | inl found ↦ cc (h, found)
  | inr other ↦ rw other (find-append f xs y (rw other at h) k)
]

vote_beq_refl : (v : Vote) → vote_beq v v ≡ true
vote_beq_refl Vote.approved = refl
vote_beq_refl Vote.rejected = refl

replayed :
    (now : ℕ) (input : DecisionInput) (mine : Approval) (r : ApprovalRequest) (q : Payment)
    → q.request ≡ some r
    → decision_by input.principal_id q.approvals ≡ some mine
    → vote_beq mine.decision input.decision ≡ true
    → decide_request now input q.request q
      ≡ ok (
        record {
          intent_status = q.intent.status;
          request_status = r.status;
          approvals = count_approved q.approvals;
          required_approvals = r.required_approvals;
          idempotent_replay = true;
        },
        q,
      )
replayed now input mine r q requested voted same =
    ap (λ x. decide_request now input x q) requested
    ∙ ap (λ f. decide_found now input r f q) voted
    ∙ rw same refl

-- Sending the same vote again, at any later time, changes nothing and reports the present state as
-- a replay.
pub decide_intent_twice :
    (now later organization : ℕ) (principals : List Principal) (input : DecisionInput)
    (r r' : ApprovalRequest) (p q : Payment) (result : ApprovalResult)
    → p.request ≡ some r
    → decision_by input.principal_id p.approvals ≡ none
    → decide_intent now organization principals input p ≡ ok (result, q)
    → q.request ≡ some r'
    → decide_intent later organization principals input q
      ≡ ok (
        record {
          intent_status = q.intent.status;
          request_status = r'.status;
          approvals = count_approved q.approvals;
          required_approvals = r'.required_approvals;
          idempotent_replay = true;
        },
        q,
      )
unfolding decide_intent decide_as
decide_intent_twice now later organization principals input r r' p q result requested first_vote e
      kept =
    let (u, found) =
      decide_as-found now organization (principal_row organization input.principal_id principals)
        input p q result e in
    let (eligible, foreign, v) =
      decide_as-IsVote now organization u input r p q result requested first_vote (rw found at e) in
    let evolved : Evolves p q = rw e at (decide_intent-Kept now organization principals input p) in
    let own = ap (λ i. i.organization_id) evolved.same_terms ∙ foreign in
    let mine : Approval = record {
      principal_id = some input.principal_id;
      decision = input.decision;
      signer_address = input.signer_address;
      signed_payload = input.signed_payload;
    } in
    let again =
      replayed later input mine r' q kept
        (ap (decision_by input.principal_id) v.recorded
          ∙ find-append (λ a. a.principal_id == some input.principal_id) p.approvals mine first_vote
              (beq_refl (some input.principal_id)))
        (vote_beq_refl input.decision) in
    rw (found, eligible, (nat_eq.beq_iff q.intent.organization_id organization).1 own) again
