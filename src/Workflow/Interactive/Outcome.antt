-- ===== src/Workflow/Interactive/Outcome.antt =====
-- interactive-message-handler.service.ts: what an answer does, on every branch.
use micro_saas_api.Base.{
  ℕ, ◌≡◌, inl, inr, refl, subst, Bool, String, Member, Option-cases, arith, All-Member,
}
use micro_saas_api.Text.{Text}
use micro_saas_api.Database.{Client}
use micro_saas_api.Workflow.Context.{Value}
use micro_saas_api.Workflow.Interactive.{
  MessageOption, Tables, no_state, resumed, is_state_of, get_user_state,
}
use micro_saas_api.Workflow.Interactive.Answer.{handle_button_response}
use micro_saas_api.Workflow.Interactive.Start.{SparesMarks}
use micro_saas_api.Workflow.Interactive.Promises.{
  AnswersWith, StartsAt, HasAnswered, answers_weaker,
}
use micro_saas_api.Workflow.Interactive.Branches.{StartsIfSpared, answer-Holds}

module _ (db : Client) (text_of : Value → String) (show_id : ℕ → String) where
  -- What an answer does on every branch: a failed check changes nothing; when the queue refuses, the
  -- states stay and nothing is queued; otherwise the user's state is gone, and either nothing has been
  -- resumed, or the user had an answerable state, the option with the id is one of the template in
  -- that state and has a next node, and an execution of the user that waited in the state's workflow
  -- is queued once, no longer waits, and goes on at that node. The metadata of the options name no
  -- mark.
  pub handle_button_response-HasAnswered :
      (queue_up : Bool) (user_id : ℕ) (phone : Text) (option_id : ℕ) (t : Tables)
      → ((o : MessageOption) → Member o t.options → SparesMarks text_of o.metadata)
      → let r = handle_button_response db text_of show_id queue_up user_id phone option_id t in
        HasAnswered user_id phone option_id t r.0 r.1
  handle_button_response-HasAnswered queue_up user_id phone option_id t spares =
      answers_weaker (StartsIfSpared db text_of show_id) StartsAt user_id phone option_id t _ _
        (λ o next e m starts. starts (spares o m))
        (answer-Holds db text_of show_id queue_up user_id phone option_id t)

  -- After an answer has resumed an execution, any further answer of the same user finds no state: it
  -- is refused and changes nothing.
  pub handle_button_response-once :
      (queue_up : Bool) (user_id : ℕ) (phone : Text) (option_id : ℕ) (t : Tables) (workflow_id : ℕ)
      (next : String) (again : ℕ)
      → (handle_button_response db text_of show_id queue_up user_id phone option_id t).0
        ≡ resumed workflow_id next
      → let after =
          (handle_button_response db text_of show_id queue_up user_id phone option_id t).1 in
        handle_button_response db text_of show_id queue_up user_id phone again after
        ≡ (no_state, after)
  unfolding handle_button_response get_user_state
  handle_button_response-once queue_up user_id phone option_id t workflow_id next again h =
      let after =
        (handle_button_response db text_of show_id queue_up user_id phone option_id t).1 in
      let answered : AnswersWith (StartsIfSpared db text_of show_id) user_id phone option_id t
          (resumed workflow_id next) after =
        subst
          (λ r. AnswersWith (StartsIfSpared db text_of show_id) user_id phone option_id t r after) h
          (answer-Holds db text_of show_id queue_up user_id phone option_id t) in
      elim (Option-cases (db.find_first (is_state_of user_id phone) after.states)) [
        | inl n ↦ rw (handle_button_response, n) refl
        | inr (s, f) ↦
            let (p, m) = db.find_first-some (is_state_of user_id phone) after.states s f in
            let gone = All-Member _ after.states answered.0 m in absurd (ground (arith, p, gone))
      ]
