-- ===== src/Workflow/Interactive/Answer.antt =====
-- user-state.service.ts: the states; interactive-message-handler.service.ts: handleButtonResponse.
use micro_saas_api.Base.{
  ℕ, ◌-◌, ◌*◌, Bool, true, false, not, ◌&&◌, [], ◌∷◌, ◌++◌, Option, none, some, String,
  if◌then◌else◌, filter, ltb, ◌==◌,
}
use micro_saas_api.Text.{Text, digits_only}
use micro_saas_api.Database.{Client}
use micro_saas_api.Workflow.Context.{Value}
use micro_saas_api.Workflow.Interactive.{
  UserState, MessageOption, Execution, Tables, Response, no_state, not_waiting, no_template,
  no_option, other_template, not_resumed, no_next_node, no_execution, resumed, is_state_of,
  some_nonzero, some_text, get_user_state, resume_workflow_at_node, find_execution,
}

-- clearUserState
unfoldable pub clear_user_state : ℕ → Text → Tables → Tables
clear_user_state user_id phone t = record t {
  states = filter (λ s. not (is_state_of user_id phone s)) t.states;
}

abbrev is_none : Option ℕ → Bool
is_none none = true
is_none (some n) = false

-- The row that saveUserState writes.
abbrev pub waiting_state : ℕ → Text → ℕ → String → Option ℕ → ℕ → UserState
waiting_state user_id phone workflow_id node_id template now = record {
  user_id = user_id;
  phone_number = digits_only phone;
  workflow_id = workflow_id;
  current_node_id = node_id;
  answerable = true;
  template_id = some_nonzero template;
  created_at = now;
}

abbrev pub renew_state : ℕ → String → Option ℕ → UserState → UserState
renew_state workflow_id node_id template s = record s {
  workflow_id = workflow_id;
  current_node_id = node_id;
  answerable = true;
  template_id = some_nonzero template;
}

-- timeoutUserState for a state that is there: the time since its creation, in seconds, against
-- `timeout`.
abbrev pub is_timed_out : ℕ → ℕ → UserState → Bool
is_timed_out now timeout s = ltb (timeout * 1000) (now - s.created_at)

-- saveUserSelection, for the state that has been read.
unfoldable pub save_user_selection : Text → ℕ → UserState → ℕ → Tables → Tables
save_user_selection phone option_id s template t = record t {
  clicks =
      t.clicks
      ++ record {
        template_id = template;
        option_id = option_id;
        phone_number = phone;
        workflow_id = s.workflow_id;
      }
        ∷ [];
}

-- After the execution has been resumed.
unfoldable pub finish_answer : ℕ → Text → UserState → String → Bool × Tables → Response × Tables
finish_answer user_id phone s next (ok_resumed, t) =
    if ok_resumed
    then (resumed s.workflow_id next, clear_user_state user_id phone t)
    else (not_resumed, t)

module _ (db : Client) where
  -- saveUserState, with its default status.
  unfoldable pub save_user_state :
      ℕ
      → Text
      → (workflow_id : ℕ) → (node_id : String) → (template : Option ℕ) → (now : ℕ) → Tables
      → Tables
  save_user_state user_id phone workflow_id node_id template now t = record t {
    states = elim (get_user_state db user_id phone t) [
      | none ↦ t.states ++ waiting_state user_id phone workflow_id node_id template now ∷ []
      | some s ↦
          (db.update_many (is_state_of user_id phone) (renew_state workflow_id node_id template)
            t.states).0
    ];
  }

  -- isWaitingForResponse
  abbrev pub is_waiting_for_response : ℕ → Text → Tables → Bool
  is_waiting_for_response user_id phone t = elim (get_user_state db user_id phone t) [
    | none ↦ false
    | some s ↦ s.answerable && not (is_none (some_nonzero s.template_id))
  ]

  -- timeoutUserState
  unfoldable pub timeout_user_state : ℕ → Text → (now timeout : ℕ) → Tables → Tables
  timeout_user_state user_id phone now timeout t =
      let cleared = clear_user_state user_id phone t in
      elim (get_user_state db user_id phone t) [
        | none ↦ t
        | some s ↦ if is_timed_out now timeout s then cleared else t
      ]

module _ (db : Client) (text_of : Value → String) (show_id : ℕ → String) where
  unfoldable pub resume_found :
      (queue_up : Bool)
      → ℕ
      → Text
      → UserState
      → MessageOption
      → String
      → Tables
      → Option Execution
      → Response × Tables
  resume_found queue_up user_id phone s o next t none =
      (no_execution, clear_user_state user_id phone t)
  resume_found queue_up user_id phone s o next t (some e) =
      finish_answer user_id phone s next
        (resume_workflow_at_node db text_of show_id queue_up e next o t)

  -- An option of the template that the user was sent.
  unfoldable pub answer_option :
      (queue_up : Bool) → ℕ → Text → UserState → ℕ → MessageOption → Tables → Response × Tables
  answer_option queue_up user_id phone s template o t = elim (some_text o.next_node_id) [
    | none ↦ (no_next_node, clear_user_state user_id phone t)
    | some next ↦
        let clicked = save_user_selection phone o.id s template t in
        resume_found queue_up user_id phone s o next clicked
          (find_execution db user_id s.workflow_id clicked)
  ]

  unfoldable pub check_option :
      (queue_up : Bool)
      → ℕ
      → Text
      → UserState
      → ℕ
      → Option MessageOption
      → Tables
      → Response × Tables
  check_option queue_up user_id phone s template none t = (no_option, t)
  check_option queue_up user_id phone s template (some o) t =
      let answered = answer_option queue_up user_id phone s template o t in
      if template == o.template_id then answered else (other_template, t)

  unfoldable pub with_template :
      (queue_up : Bool) → ℕ → Text → ℕ → UserState → Tables → Option ℕ → Response × Tables
  with_template queue_up user_id phone option_id s t none = (no_template, t)
  with_template queue_up user_id phone option_id s t (some template) =
      check_option queue_up user_id phone s template
        (db.find_first (λ (o : MessageOption). o.id == option_id) t.options) t

  -- A state that is there.
  unfoldable pub answer_state :
      (queue_up : Bool) → ℕ → Text → ℕ → UserState → Tables → Response × Tables
  answer_state queue_up user_id phone option_id s t =
      let answered =
        with_template queue_up user_id phone option_id s t (some_nonzero s.template_id) in
      if s.answerable then answered else (not_waiting, t)

  -- handleButtonResponse. `queue_up` says whether the queue takes a job.
  unfoldable pub handle_button_response :
      (queue_up : Bool)
      → (user_id : ℕ) → (phone : Text) → (option_id : ℕ) → Tables
      → Response × Tables
  handle_button_response queue_up user_id phone option_id t =
      elim (get_user_state db user_id phone t) [
        | none ↦ (no_state, t)
        | some s ↦ answer_state queue_up user_id phone option_id s t
      ]
