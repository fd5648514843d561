-- ===== src/Lib.antt =====
-- Relay, a treasury for organisations and their agents: payments that a policy, people and chain
-- governance must let through before they are signed.
--
-- The parts, and how they interact. An intent to pay is submitted and put on the outbox; the outbox
-- is pumped into jobs, and a worker leases one job at a time. A job calls one handler of the intent:
-- evaluation (gates, policy, simulation), publication, observation, expiry, execution, confirmation.
-- People decide through the API. Each handler is one transaction on the intent's rows; submission,
-- failure and finality book on the ledger, and the outbox carries the intent to its next handler.
--
-- The files.
--   Domain     packages/domain/src/primitives.ts and index.ts: statuses, roles, intents, policies.
--   Policy     packages/policy/src/index.ts: evaluatePaymentIntent (Policy/Laws: its properties).
--   Ledger     packages/database/src/ledger.ts: postLedger, ledgerNet; and costLines of
--              packages/database/src/jobs.ts. Ledger/Accounts has account codes and keys, Balance
--              what a posting does, Sound the invariant, Net the balances, Costs the fees.
--   Payment    packages/database/src/jobs.ts and index.ts. Payment/Rows has the rows, Changes the
--              shared updates (event, transition, postLedger), Intake the gates, the bound policy
--              and the spending, Evaluate evaluateIntent, Publish the publication and the expiry,
--              Observe observeProposal, Decide createIntent and decideIntent, Execute the
--              execution context, simulation and signing, Settle markSubmitted, markFailed and
--              markFinalized. Evolve has the lifecycle and what a commit keeps; Lifecycle,
--              Approvals, Votes and Settled show that the handlers keep it; Voter, Voted,
--              Quorum, Reach, Ready, Stale and Booked have the properties.
--   Queue      packages/database/src/jobs.ts: PostgresJobQueue's outbox and leases; Queue/Lease is
--              about claim, Retry about fail and defer, Outbox about pumpOutbox.
--   Vault      packages/domain/src/vaults.ts: planVault and verifyVaultDeployment; Vault/Address
--              has the shapes of addresses, Sets the comparison of owners, Verified the rest.
--   Controls   packages/domain/src/governance-controls.ts: time locks and rejections.
--   Invoices   packages/database/src/operations.ts: issuing, voiding, applying a receipt; an open
--              invoice is called issued. Invoices/Draft has createInvoice,
--              Draft/Clear and Distinct its amounts.
--   Reconcile  packages/database/src/operations.ts: openCursor, advanceCursor, recordReconciliation;
--              Reconcile/Opening has what they do to the books.
--   Statement  packages/database/src/operations.ts: statement; Statement/Balance is about its
--              balances, Categories about its totals.
--   Schedules  packages/database/src/operations.ts: beneficiaries, createSchedule,
--              setScheduleStatus, enqueueDueSchedules; Schedules/Due is about one run, Paced about
--              the whole life of a schedule.
--   Rotations  packages/database/src/rotations.ts: RotationStore; Rotations/Start has start, Single
--              counts the open rotations of a treasury, Kept has one lemma per operation, Started
--              the life of all.
--   Worker     apps/worker/src/worker.ts: execute and confirm; Worker/Plan has buildExecution and
--              chainDelivery, Authorized what a plan presupposes, Rows what the transactions do to
--              the execution row; Once, Signing, Built and Sends follow the signed bytes.
--              Worker/Loop has maintain, runOnce, drain and handle, Loop/Idle what they leave.
--   Identity   packages/database/src/index.ts: members, challenges and sessions; Identity/Sessions is
--              about whose sessions are answered.
--   Verification  packages/domain/src/verification.ts: states of a case, submission, capabilities.
--   Prelude    tests, lists, equality, integers, texts, exceptions, transactions and calls.
--
-- The model. A transaction is a function of the rows that returns a result with the new rows or
-- throws, and a throw keeps nothing, which is what sql.begin does. A handler that reads a row before
-- its transaction takes that reading as a second argument, so that it may be stale. Identifiers are
-- numbers, instants are milliseconds, amounts are natural numbers, and ledger amounts are integers;
-- a JSON column is a record of the fields that some operation reads back. Names, networks and
-- addresses are texts, and lower case is that of ASCII, which covers addresses. Rows in an order of
-- created_at stand in lists in that order. sha256, the simulation and what the chain reports are
-- arguments. Recursion is structural throughout; the printing of a number takes as many steps as
-- the number's successor counts, which its digits never exceed.
--
-- In the worker a call is a sequence of transactions, each of which stays committed; what adapters,
-- signers and the network answer is an argument, and a chain is configured. In a schedule, interval
-- arithmetic is an argument, and the count of due occurrences ends at the ten thousandth, as in the
-- source.
--
-- Not modelled: intents that are not found, the replay of createIntent for a used key, listJobs, the
-- HTTP routes, agents, key management, the chain adapters, the plan of an x402 payment, the
-- worker's publication, rotation and synchronisation, recordInflow, attestations and the console.
-- They are reads, calls of other services and presentation, or remain to be done.
pub mod Prelude
pub mod Domain
pub mod Policy
pub mod Ledger
pub mod Payment
pub mod Queue
pub mod Vault
pub mod Controls
pub mod Identity
pub mod Invoices
pub mod Verification
pub mod Reconcile
pub mod Statement
pub mod Rotations
pub mod Schedules
pub mod Worker
