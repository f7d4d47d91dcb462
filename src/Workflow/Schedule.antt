-- ===== src/Workflow/Schedule.antt =====
-- workflow-schedule.service.ts: the tick that starts workflows by their cron expressions, once a minute.
pub mod Ticks
pub mod Tests
use micro_saas_api.Base.{
  ℕ, suc, ◌+◌, ◌-◌, Bool, false, not, ◌&&◌, List, [], ◌∷◌, ◌++◌, Option, none, some, if◌then◌else◌,
  any, leb, ◌==◌,
}
use micro_saas_api.Text.{Text}

-- The columns of a workflow that the schedule reads; `cron` is none where it is null or empty.
pub record Scheduled : Type 0 where
  pub id : ℕ
  pub user_id : ℕ
  pub has_schedule : Bool
  pub published : Bool
  pub is_active : Bool
  pub is_archived : Bool
  pub cron : Option Text
  pub timezone : Text

-- An execution, and the executions that were handed to the queue.
pub record Started : Type 0 where
  pub id : ℕ
  pub user_id : ℕ
  pub workflow_id : ℕ
  pub created_at : ℕ

pub record Board : Type 0 where
  pub executions : List Started
  pub queue : List ℕ
  pub next_id : ℕ

-- An execution of the workflow is created and queued.
abbrev pub enqueue_execution : (now user_id workflow_id : ℕ) → Board → Board
enqueue_execution now user_id workflow_id b = record {
  executions =
      b.executions
      ++ record { id = b.next_id; user_id = user_id; workflow_id = workflow_id; created_at = now }
        ∷ [];
  queue = b.queue ++ b.next_id ∷ [];
  next_id = suc b.next_id;
}

-- No more than 90 seconds since `prev`.
abbrev pub is_due : (prev now : ℕ) → Bool
is_due prev now = leb prev now && leb (now - prev) 90000

-- An execution of the workflow in the last 55 seconds.
abbrev pub is_recent : ℕ → ℕ → Started → Bool
is_recent workflow_id now e = e.workflow_id == workflow_id && leb now (e.created_at + 55000)

abbrev pub due_and_idle : ℕ → ℕ → Option ℕ → List Started → Bool
due_and_idle workflow_id now none es = false
due_and_idle workflow_id now (some prev) es =
    is_due prev now && not (any (is_recent workflow_id now) es)

abbrev pub is_runnable : Scheduled → Bool
is_runnable w = w.has_schedule && w.published && w.is_active

-- `prev_of` is cron-parser's `prev`: the last time that the expression names, none for a bad one.
module _ (prev_of : (cron timezone : Text) (now : ℕ) → Option ℕ) where
  -- shouldRunNow
  unfoldable pub should_run_now : ℕ → Text → Text → ℕ → List Started → Bool
  should_run_now workflow_id cron timezone now es =
      due_and_idle workflow_id now (prev_of cron timezone now) es

  -- runScheduledWorkflow, for the row that it finds again.
  unfoldable pub run_scheduled_workflow : ℕ → Scheduled → Board → Board
  run_scheduled_workflow now w b =
      let started = enqueue_execution now w.user_id w.id b in if is_runnable w then started else b

  unfoldable pub tick_cron : ℕ → Scheduled → Option Text → Board → Board
  tick_cron now w none b = b
  tick_cron now w (some cron) b =
      let started = run_scheduled_workflow now w b in
      if should_run_now w.id cron w.timezone now b.executions then started else b

  -- One round of the loop of processTick.
  unfoldable pub tick_workflow : ℕ → Scheduled → Board → Board
  tick_workflow now w b =
      let ticked = tick_cron now w w.cron b in
      if is_runnable w && not w.is_archived then ticked else b

  -- processTick
  abbrev pub process_tick : ℕ → List Scheduled → Board → Board
  process_tick now [] b = b
  process_tick now (w ∷ ws) b = process_tick now ws (tick_workflow now w b)
