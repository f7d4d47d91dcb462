-- ===== src/Workflow/Schedule/Ticks.antt =====
-- workflow-schedule.service.ts: two ticks that follow each other.
use micro_saas_api.Base.{
  ℕ, suc, ◌+◌, ◌≡◌, ◌≤◌, refl, ap, ◌∙◌, true, false, List, [], ◌∷◌, ◌++◌, Option, some, any, arith,
}
use micro_saas_api.Text.{Text}
use micro_saas_api.Workflow.Schedule.{
  Scheduled, Started, Board, is_due, is_recent, enqueue_execution, is_runnable, should_run_now,
  run_scheduled_workflow, tick_cron, tick_workflow,
}

recent-append :
    (id now : ℕ) (es : List Started) (e : Started)
    → any (is_recent id now) es ≡ false
    → is_recent id now e ≡ false
    → any (is_recent id now) (es ++ e ∷ []) ≡ false
recent-append id now [] e h k = ground (arith, k)
recent-append id now (x ∷ xs) e h k = ground (arith, recent-append id now xs e, h, k)

recent-later :
    (id now later : ℕ) (es : List Started)
    → now ≤ later
    → any (is_recent id now) es ≡ false
    → any (is_recent id later) es ≡ false
recent-later id now later [] le h = refl
recent-later id now later (x ∷ xs) le h = ground (arith, recent-later id now later xs le, h, le)

module _ (prev_of : (cron timezone : Text) (now : ℕ) → Option ℕ) where
  tick_workflow-runs :
      (now prev : ℕ) (w : Scheduled) (cron : Text) (b : Board)
      → is_runnable w ≡ true
      → w.is_archived ≡ false
      → w.cron ≡ some cron
      → prev_of cron w.timezone now ≡ some prev
      → is_due prev now ≡ true
      → any (is_recent w.id now) b.executions ≡ false
      → tick_workflow prev_of now w b ≡ enqueue_execution now w.user_id w.id b
  unfolding tick_workflow tick_cron should_run_now run_scheduled_workflow
  tick_workflow-runs now prev w cron b runnable kept c p due idle =
      simp
        (
          tick_workflow, tick_cron, should_run_now, run_scheduled_workflow, runnable, kept, c, p,
          due, idle,
        )
        refl

  -- A tick within half a minute of the time that the expression names starts the workflow, and the
  -- tick a minute later starts it again, when the expression names no time between them and nothing
  -- else had started it in the 55 seconds before the first.
  pub tick_workflow-twice :
      (now prev : ℕ) (w : Scheduled) (cron : Text) (b : Board)
      → is_runnable w ≡ true
      → w.is_archived ≡ false
      → w.cron ≡ some cron
      → prev_of cron w.timezone now ≡ some prev
      → prev_of cron w.timezone (now + 60000) ≡ some prev
      → prev ≤ now
      → now ≤ prev + 30000
      → any (is_recent w.id now) b.executions ≡ false
      → (tick_workflow prev_of (now + 60000) w (tick_workflow prev_of now w b)).queue
        ≡ (b.queue ++ b.next_id ∷ []) ++ suc b.next_id ∷ []
  tick_workflow-twice now prev w cron b runnable kept c p p_later after in_time idle =
      let first = enqueue_execution now w.user_id w.id b in
      let due : is_due prev now ≡ true = ground (arith, after, in_time) in
      let due_later : is_due prev (now + 60000) ≡ true = ground (arith, after, in_time) in
      let old : is_recent w.id (now + 60000)
            (record { id = b.next_id; user_id = w.user_id; workflow_id = w.id; created_at = now })
          ≡ false =
        ground arith in
      let idle_later : any (is_recent w.id (now + 60000)) first.executions ≡ false =
        recent-append w.id (now + 60000) b.executions _
          (recent-later w.id now (now + 60000) b.executions (omega arith) idle) old in
      let ran = tick_workflow-runs now prev w cron b runnable kept c p due idle in
      let again =
        tick_workflow-runs (now + 60000) prev w cron first runnable kept c p_later due_later
          idle_later in
      ap (λ x. (tick_workflow prev_of (now + 60000) w x).queue) ran ∙ ap (λ x. x.queue) again
