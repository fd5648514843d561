-- ===== src/Payment/Approvals.antt =====
-- The lifecycle between evaluation and execution: `recordPublication`, `completePublication`,
-- `expireApproval` and `observeProposal` of packages/database/src/jobs.ts, and `decideIntent` of
-- packages/database/src/index.ts.
use ai_neobank.Prelude.{
  ℕ, refl, not, ◌||◌, String, Option, none, some, List, [], ◌∷◌, Bool-cases, Option-cases, inl, inr,
  ltb,
}
use ai_neobank.Prelude.Equality.{◌==◌, nat_eq, option_eq, string_eq}
use ai_neobank.Prelude.Failure.{◌>>◌}
use ai_neobank.Domain.{IntentStatus, status_eq}
use ai_neobank.Payment.Rows.{
  Payment, Context, Intent, ApprovalRequest, Vote, ProposalStatus, is_pending,
}
use ai_neobank.Payment.Intake.{is_squads}
use ai_neobank.Payment.Publish.{
  record_publication, Published, complete_publication, expire_pending, expire_approval,
}
use ai_neobank.Payment.Observe.{
  ProposalObservation, has_signer, has_principal, principal_for, mirror_vote, mirror_votes,
  follow_proposal, look_again, end_rejected, mirror, observe_request, observe_proposal,
}
use ai_neobank.Payment.Evolve.{
  Step, Evolves-refl, Evolves-aside, Kept, Kept-if, Kept-then, transition-after, transition-then,
}

pub record_publication-Kept :
    (publication : String) (p : Payment) → Kept p (record_publication publication p)
unfolding record_publication
record_publication-Kept publication p = Evolves-aside p _ refl refl refl refl refl refl

pub complete_publication-Kept :
    (now : ℕ) (result : Published) (p : Payment) → Kept p (complete_publication now result p)
unfolding complete_publication
complete_publication-Kept now result p =
    Kept-if {A = Unit {0}} (not (p.intent.status == IntentStatus.policy_evaluated)) _ _ p
      (λ _. Evolves-refl p)
      (λ _. transition-then _ _ _ _ _ p p (Evolves-refl p) Step.publish (λ s.
        elim (Bool-cases (is_squads p.context.governance)) [
          | inl squads ↦ rw squads (Evolves-aside s _ refl refl refl refl refl refl)
          | inr other ↦ rw other (Evolves-aside s _ refl refl refl refl refl refl)
        ]))

expire_pending-Kept :
    (now : ℕ) (i : Intent) (r : Option ApprovalRequest) (p : Payment)
    → Kept p (expire_pending now i r p)
expire_pending-Kept now i none p = Evolves-refl p
expire_pending-Kept now i (some r) p =
    elim (Bool-cases
      (not (i.status == IntentStatus.approval_required) || not (is_pending r.status))) [
        | inl ended ↦ rw ended (Evolves-refl p)
        | inr waiting ↦ rw waiting (elim (Bool-cases (ltb now r.expires_at)) [
          | inl early ↦ rw early tt
          | inr due ↦ rw due (
              transition-after _ _ _ _ p _ (Evolves-aside p _ refl refl refl refl refl refl)
                Step.time_out)
        ])
      ]

pub expire_approval-Kept : (now : ℕ) (p : Payment) → Kept p (expire_approval now p)
unfolding expire_approval
expire_approval-Kept now p = expire_pending-Kept now p.intent p.request p

mirror_vote-Kept :
    (c : Context) (vote : Vote) (address : String) (p : Payment)
    → Kept p (mirror_vote c vote address p)
unfolding mirror_vote
mirror_vote-Kept c vote address p =
    Kept-if {A = Unit {0}} (has_signer address p.approvals) _ _ p (λ _. Evolves-refl p)
      (λ _.
        Kept-if {A = Unit {0}} (has_principal (principal_for c address) p.approvals) _ _ p (λ _. tt)
          (λ _. Evolves-aside p _ refl refl refl refl refl refl))

mirror_votes-Kept :
    (c : Context) (vote : Vote) (addresses : List String) (p : Payment)
    → Kept p (mirror_votes c vote addresses p)
unfolding mirror_votes
mirror_votes-Kept c vote [] p = Evolves-refl p
mirror_votes-Kept c vote (address ∷ rest) p =
    Kept-then (mirror_vote c vote address) (mirror_votes c vote rest) p
      (mirror_vote-Kept c vote address p) (mirror_votes-Kept c vote rest)

end_rejected-Kept :
    (status : ProposalStatus) (version : ℕ) (p : Payment) → Kept p (end_rejected status version p)
end_rejected-Kept status version p =
    transition-after _ _ _ _ p _ (Evolves-aside p _ refl refl refl refl refl refl) Step.refuse

look_again-Kept : (now expires_at : ℕ) (p : Payment) → Kept p (look_again now expires_at p)
look_again-Kept now expires_at p = elim (Bool-cases (ltb now expires_at)) [
  | inl early ↦ rw early (Evolves-aside p _ refl refl refl refl refl refl)
  | inr late ↦ rw late (Evolves-refl p)
]

follow_proposal-Kept :
    (now expires_at version : ℕ) (status : ProposalStatus) (p : Payment)
    → Kept p (follow_proposal now expires_at version status p)
unfolding follow_proposal
follow_proposal-Kept now expires_at version ProposalStatus.approved p =
    transition-then _ _ _ _ _ p _ (Evolves-aside p _ refl refl refl refl refl refl) Step.approve
      (λ s. Evolves-aside s _ refl refl refl refl refl refl)
follow_proposal-Kept now expires_at version ProposalStatus.rejected p =
    end_rejected-Kept ProposalStatus.rejected version p
follow_proposal-Kept now expires_at version ProposalStatus.cancelled p =
    end_rejected-Kept ProposalStatus.cancelled version p
follow_proposal-Kept now expires_at version _ p = look_again-Kept now expires_at p

mirror-Kept :
    (now : ℕ) (c : Context) (expires_at : ℕ) (seen : ProposalObservation) (p : Payment)
    → Kept p (mirror now c expires_at seen p)
mirror-Kept now c expires_at seen p =
    Kept-if {A = Unit {0}} (not (p.intent.status == IntentStatus.approval_required)) _ _ p
      (λ _. Evolves-refl p)
      (λ _.
        Kept-then (mirror_votes c Vote.approved seen.approved)
          (mirror_votes c Vote.rejected seen.rejected
            >> follow_proposal now expires_at p.intent.version seen.status)
          p (mirror_votes-Kept c Vote.approved seen.approved p)
          (λ q.
            Kept-then (mirror_votes c Vote.rejected seen.rejected)
              (follow_proposal now expires_at p.intent.version seen.status) q
              (mirror_votes-Kept c Vote.rejected seen.rejected q)
              (follow_proposal-Kept now expires_at p.intent.version seen.status)))

observation-Kept :
    (now : ℕ) (c : Context) (expires_at : ℕ) (observation : Option ProposalObservation)
    (row : Payment) (r : ApprovalRequest) (p : Payment)
    → Kept p (observe_request now observation row (some r) p)
observation-Kept now c expires_at observation row r p =
    elim (Bool-cases (
      not (row.intent.status == IntentStatus.approval_required)
      || not (is_pending r.status)
      || r.external_ref == none)) [
        | inl ended ↦ rw ended (Evolves-refl p)
        | inr waiting ↦ rw waiting (elim (Option-cases observation) [
          | inl unseen ↦ rw unseen tt
          | inr (seen, e) ↦ rw e (mirror-Kept now row.context r.expires_at seen p)
        ])
      ]

pub observe_proposal-Kept :
    (now : ℕ) (observation : Option ProposalObservation) (row p : Payment)
    → Kept p (observe_proposal now observation row p)
unfolding observe_proposal
observe_proposal-Kept now observation row p = elim (Option-cases row.request) [
  | inl missing ↦ rw missing tt
  | inr (r, e) ↦ rw e (observation-Kept now row.context r.expires_at observation row r p)
]
