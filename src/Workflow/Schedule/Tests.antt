-- ===== src/Workflow/Schedule/Tests.antt =====
-- workflow-schedule.service.ts: a workflow that is to run once a day.
use micro_saas_api.Base.{ℕ, ◌≡◌, refl, true, false, [], ◌∷◌, Option, some, arith}
use micro_saas_api.Text.{Text, codes}
use micro_saas_api.Workflow.Schedule.{
  Scheduled, Board, should_run_now, run_scheduled_workflow, tick_cron, tick_workflow, process_tick,
}
use micro_saas_api.Workflow.Schedule.Ticks.{tick_workflow-twice}

-- Every day at 09:00: the last time is 1000000.
abbrev nine : Text → Text → ℕ → Option ℕ
nine cron timezone now = some 1000000

abbrev daily : Scheduled
daily = record {
  id = 5;
  user_id = 1;
  has_schedule = true;
  published = true;
  is_active = true;
  is_archived = false;
  cron = some (codes "0 9 * * *");
  timezone = codes "UTC";
}

abbrev board : Board
board = record { executions = []; queue = []; next_id = 1 }

-- The ticks at 09:00:40, 09:01:40 and 09:02:40 start it once.
once_late :
    (process_tick nine 1160000
      (daily ∷ [])
      (process_tick nine 1100000 (daily ∷ []) (process_tick nine 1040000 (daily ∷ []) board))).queue
    ≡ 1 ∷ []
unfolding tick_workflow tick_cron should_run_now run_scheduled_workflow
once_late = refl

tick_workflow-twice_example :
    (tick_workflow nine 1065000 daily (tick_workflow nine 1005000 daily board)).queue ≡ 1 ∷ (2 ∷ [])
tick_workflow-twice_example =
    tick_workflow-twice nine 1005000 1000000 daily (codes "0 9 * * *") board refl refl refl refl
      refl (omega arith) (omega arith) refl
