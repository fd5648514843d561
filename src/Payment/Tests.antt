-- ===== src/Payment/Tests.antt =====
-- A payment from a direct treasury, from its submission to its settlement, and the witnesses.
use ai_neobank.Prelude.{
  ℕ, ◌+◌, ◌≤◌, ◌≡◌, refl, Bool, true, false, String, Option, none, some, List, [], ◌∷◌,
}
use ai_neobank.Prelude.Int.{ℤ, pos, ◌+ℤ◌}
use ai_neobank.Prelude.Text.{to_lower, join, decimal}
use ai_neobank.Prelude.Failure.{ok, begin}
use ai_neobank.Domain.{IntentStatus, status_eq}
use ai_neobank.Policy.{evaluate_payment_intent}
use ai_neobank.Ledger.{post_ledger, ledger_net, pending_outbound, treasury_asset}
use ai_neobank.Ledger.Sound.{IsSound}
use ai_neobank.Ledger.Net.{net_at}
use ai_neobank.Payment.Rows.{Vote}
use ai_neobank.Payment.Intake.{gate, load_policy, spent_today, intent_of}
use ai_neobank.Payment.Evaluate.{evaluate_intent}
use ai_neobank.Payment.Decide.{create_intent, Principal, decide_intent, count_approved}
use ai_neobank.Payment.Voter.{IsVoter}
use ai_neobank.Payment.Voted.{IsVote}
use ai_neobank.Payment.Quorum.{decide_intent-IsVote, decide_intent_quorum, decide_intent_twice}
use ai_neobank.Payment.Execute.{
  ExecutionContext, get_execution_context, new_execution, record_simulation, SignedTransaction,
  mark_signed,
}
use ai_neobank.Payment.Settle.{pair, mark_submitted, mark_failed}
use ai_neobank.Payment.Publish.{key_material}
use ai_neobank.Payment.Evolve.{Moves, IsIncreasing}
use ai_neobank.Payment.Reach.{
  Reaches, start, commit, evaluated, decided, failed, ahead, create_intent-Reaches, Reaches_bounded,
  Reaches_terminal,
}
use ai_neobank.Payment.Stale.{evaluate_intent_stale}
use ai_neobank.Payment.Ready.{IsReady, get_execution_context-IsReady}
use ai_neobank.Payment.Booked.{mark_submitted-net}
use ai_neobank.Payment.Samples.{
  intent, context, books, plain, submitted_intent, waiting, request, principals, vote, outcome,
  approved, approved_request, given_up, ready, signed_payment, sent, sent_execution,
}

waits : waiting.intent.status ≡ IntentStatus.approval_required
unfolding create_intent evaluate_intent gate load_policy evaluate_payment_intent spent_today
waits = refl

requested : waiting.request ≡ some request
unfolding create_intent evaluate_intent gate load_policy evaluate_payment_intent spent_today
requested = refl

approves : decide_intent 3000 1 principals vote waiting ≡ ok (outcome, approved)
unfolding decide_intent evaluate_intent create_intent gate load_policy evaluate_payment_intent
    spent_today join decimal
approves = refl

decide_intent-IsVote_example :
    ((u : Principal) × IsVoter principals vote waiting u)
    × IsVote 3000 vote request waiting approved outcome
unfolding evaluate_intent create_intent gate load_policy evaluate_payment_intent spent_today
decide_intent-IsVote_example =
    decide_intent-IsVote 3000 1 principals vote request waiting approved outcome requested refl
      approves

decide_intent_quorum_example :
    (vote.decision ≡ Vote.approved) × (1 ≤ count_approved approved.approvals)
unfolding evaluate_intent create_intent gate load_policy evaluate_payment_intent spent_today
    decide_intent join decimal
decide_intent_quorum_example =
    decide_intent_quorum 3000 1 principals vote request waiting approved outcome requested refl
      approves refl

decide_intent_twice_example :
    decide_intent 4000 1 principals vote approved
    ≡ ok (record outcome { idempotent_replay = true }, approved)
unfolding evaluate_intent create_intent gate load_policy evaluate_payment_intent spent_today
    decide_intent join decimal
decide_intent_twice_example =
    decide_intent_twice 3000 4000 1 principals vote request approved_request waiting approved
      outcome requested refl approves refl

reached : Reaches submitted_intent approved
unfolding evaluate_intent create_intent gate load_policy evaluate_payment_intent spent_today
reached =
    commit waiting approved
      (commit submitted_intent waiting start
        (evaluated plain 2000 none submitted_intent submitted_intent waiting refl))
      (decided 3000 1 principals vote outcome waiting approved approves)

create_intent-Reaches_example :
    Moves IntentStatus.received 1 approved.intent.status approved.intent.version
    × (intent_of approved.intent ≡ intent)
    × IsIncreasing approved.events
    × IsSound approved.ledger
create_intent-Reaches_example =
    create_intent-Reaches 1000 "0xc0" intent context books approved
      (record { transactions_sound = tt; unrepeated = tt }) reached

Reaches_bounded_example : approved.intent.version + ahead approved.intent.status ≤ 8
Reaches_bounded_example = Reaches_bounded 1000 "0xc0" intent context books approved reached

Reaches_terminal_example :
    (given_up.intent.status ≡ given_up.intent.status)
    × (given_up.intent.version ≡ given_up.intent.version)
unfolding mark_failed evaluate_intent create_intent gate load_policy evaluate_payment_intent
    spent_today
Reaches_terminal_example =
    Reaches_terminal given_up given_up refl
      (commit given_up given_up start (failed 4000 "Again" none given_up given_up refl))

evaluate_intent_stale_example :
    (begin (evaluate_intent plain 5000 none submitted_intent) waiting).1 ≡ waiting
unfolding evaluate_intent create_intent gate load_policy evaluate_payment_intent spent_today
evaluate_intent_stale_example = evaluate_intent_stale plain 5000 none submitted_intent waiting refl

get_execution_context-IsReady_example : IsReady 4000 approved ready
unfolding get_execution_context decide_intent evaluate_intent create_intent gate load_policy
    evaluate_payment_intent spent_today join decimal ai_neobank.Payment.Execute.newest to_lower
    key_material
get_execution_context-IsReady_example = get_execution_context-IsReady 4000 approved ready refl

mark_submitted-net_example :
    ledger_net 2 pending_outbound "usdc" none sent.ledger
    ≡ ledger_net 2 pending_outbound "usdc" none signed_payment.ledger
      +ℤ net_at 2 pending_outbound "usdc" (pair 2 "usdc" pending_outbound treasury_asset (pos 250))
unfolding mark_submitted mark_signed record_simulation decide_intent evaluate_intent create_intent
    gate load_policy evaluate_payment_intent spent_today join decimal post_ledger ◌+ℤ◌
    ai_neobank.Prelude.Int.neg
mark_submitted-net_example =
    mark_submitted-net 5000 11 none sent_execution "0xfe" signed_payment sent refl refl refl 2
      pending_outbound "usdc"
