-- ===== src/Payment/Observe.antt =====
-- packages/database/src/jobs.ts: `observeProposal`, which mirrors on-chain votes.
use ai_neobank.Prelude.{
  ℕ, ◌+◌, Bool, false, not, ◌||◌, String, Option, none, some, List, [], ◌∷◌, ◌++◌, if◌then◌else◌,
  any, find, ltb,
}
use ai_neobank.Prelude.Equality.{◌==◌, nat_eq, string_eq, option_eq}
use ai_neobank.Prelude.Text.{◌++ₜ◌, to_lower}
use ai_neobank.Prelude.Failure.{Exception, error, deferred, ok, err, Tx, ◌>>◌, modify, throw, done}
use ai_neobank.Domain.{ChainFamily, evm, svm, IntentStatus, status_eq}
use ai_neobank.Payment.Rows.{
  Payment, Context, Approval, ApprovalRequest, HumanWallet, RequestStatus, Vote, ProposalStatus,
  Topic, is_pending,
}
use ai_neobank.Payment.Changes.{transition, enqueue_at, update_intent, set_request_status}

pub record ProposalObservation : Type 0 where
  pub status : ProposalStatus
  pub approved : List String
  pub rejected : List String

abbrev same_wallet : ChainFamily → String → HumanWallet → Bool
same_wallet evm address w = to_lower w.address == to_lower address
same_wallet svm address w = w.address == address

-- `principalFor`
unfoldable pub principal_for : Context → String → Option ℕ
principal_for c address = elim (find (same_wallet c.chain_family address) c.wallets) [
  | none ↦ none
  | some w ↦ some w.principal_id
]

abbrev pub has_signer : String → List Approval → Bool
has_signer address = any (λ a. a.signer_address == some address)

abbrev pub has_principal : Option ℕ → List Approval → Bool
has_principal none approvals = false
has_principal (some id) approvals = any (λ a. a.principal_id == some id) approvals

abbrev pub duplicate_approver : Exception
duplicate_approver =
    error
      "duplicate key value violates unique constraint \"approvals_intent_id_approver_principal_id_key\""

-- `insert into approvals … on conflict (intent_id, signer_address) do nothing`. The table is also
-- unique in (intent_id, approver_principal_id), and a clash there is an error.
unfoldable pub mirror_vote : Context → Vote → String → Tx Payment (Unit {0})
unfolding principal_for
mirror_vote c vote address p =
    if has_signer address p.approvals
    then ok (tt, p)
    else if has_principal (principal_for c address) p.approvals
    then err duplicate_approver
    else ok (
      tt,
      record p {
        approvals =
            p.approvals
            ++ record {
              principal_id = principal_for c address;
              decision = vote;
              signer_address = some address;
              signed_payload = some "on-chain vote";
            }
              ∷ [];
      },
    )

unfoldable pub mirror_votes : Context → Vote → List String → Tx Payment (Unit {0})
mirror_votes c vote [] p = ok (tt, p)
mirror_votes c vote (address ∷ rest) p = elim (mirror_vote c vote address p) [
  | ok (_, q) ↦ mirror_votes c vote rest q
  | err e ↦ err e
]

abbrev proposal_text : ProposalStatus → String
proposal_text ProposalStatus.cancelled = "cancelled"
proposal_text _ = "rejected"

abbrev pub end_rejected : ProposalStatus → ℕ → Tx Payment (Unit {0})
end_rejected status version = do
  modify (set_request_status RequestStatus.rejected)
  update_intent (λ i. record i {
    failure_reason = some ("Proposal " ++ₜ proposal_text status ++ₜ " on chain");
  })
  transition version IntentStatus.approval_required IntentStatus.rejected "intent.rejected"

abbrev pub look_again : ℕ → ℕ → Tx Payment (Unit {0})
look_again now expires_at =
    if ltb now expires_at then enqueue_at (now + 5000) Topic.proposal_observe else done

-- What the proposal's status leads to, once its votes are mirrored.
unfoldable pub follow_proposal : ℕ → ℕ → ℕ → ProposalStatus → Tx Payment (Unit {0})
unfolding transition
follow_proposal now expires_at version ProposalStatus.approved = do
  modify (set_request_status RequestStatus.approved)
  transition version IntentStatus.approval_required IntentStatus.approved "intent.approved"
  enqueue_at now Topic.transaction_execute
follow_proposal now expires_at version ProposalStatus.rejected =
    end_rejected ProposalStatus.rejected version
follow_proposal now expires_at version ProposalStatus.cancelled =
    end_rejected ProposalStatus.cancelled version
follow_proposal now expires_at version _ = look_again now expires_at

abbrev pub mirror : ℕ → Context → ℕ → ProposalObservation → Tx Payment (Unit {0})
mirror now c expires_at seen p =
    if not (p.intent.status == IntentStatus.approval_required)
    then done p
    else (do
      mirror_votes c Vote.approved seen.approved
      mirror_votes c Vote.rejected seen.rejected
      follow_proposal now expires_at p.intent.version seen.status)
        p

abbrev pub observe_request :
    ℕ → Option ProposalObservation → Payment → Option ApprovalRequest → Tx Payment (Unit {0})
observe_request now observation row none = throw (error "Intent not found")
observe_request now observation row (some r) =
    if not (row.intent.status == IntentStatus.approval_required)
      || not (is_pending r.status)
      || r.external_ref == none
    then done
    else elim observation [
      | none ↦ throw (deferred "Proposal account not yet visible" 3)
      | some seen ↦ mirror now row.context r.expires_at seen
    ]

-- `observeProposal`: the row is read, the chain is asked, and the transaction runs on what it finds.
unfoldable pub observe_proposal : ℕ → Option ProposalObservation → Payment → Tx Payment (Unit {0})
unfolding mirror_votes mirror_vote follow_proposal
observe_proposal now observation row = observe_request now observation row row.request
