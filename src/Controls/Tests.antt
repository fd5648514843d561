-- ===== src/Controls/Tests.antt =====
-- Cases of packages/domain/src/governance-controls.test.ts, and the witnesses.
use ai_neobank.Prelude.{◌+◌, ◌*◌, ◌≡◌, ◌||◌, some, leb}
use ai_neobank.Prelude.Equality.{◌==◌, nat_eq}
use ai_neobank.Prelude.Text.{decimal}
use ai_neobank.Domain.{IntentStatus, status_eq, squads}
use ai_neobank.Controls.{read_time_lock, time_lock_state, evaluate_execution}
use ai_neobank.Controls.Decisions.{is_allowed, evaluate_execution_after_lock}

evaluate_execution_after_lock_example :
    is_allowed (
      evaluate_execution decimal IntentStatus.approved
        (time_lock_state (read_time_lock squads (some 3600)) (some 1000) 5000))
    ≡ leb (1000 + (read_time_lock squads (some 3600)).seconds * 1000) 5000
      || (read_time_lock squads (some 3600)).seconds == 0
evaluate_execution_after_lock_example =
    evaluate_execution_after_lock decimal squads (some 3600) 1000 5000
