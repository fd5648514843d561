-- ===== src/Payment.antt =====
-- packages/database/src/jobs.ts (`PostgresJobQueue`) and the intent methods of
-- packages/database/src/index.ts: one payment intent from its submission to its settlement.
pub mod Rows
pub mod Changes
pub mod Intake
pub mod Evaluate
pub mod Publish
pub mod Observe
pub mod Decide
pub mod Execute
pub mod Settle
pub mod Evolve
pub mod Lifecycle
pub mod Approvals
pub mod Voter
pub mod Voted
pub mod Votes
pub mod Settled
pub mod Reach
pub mod Stale
pub mod Ready
pub mod Quorum
pub mod Booked
pub mod Samples
mod Tests
