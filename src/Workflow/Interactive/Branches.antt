-- ===== src/Workflow/Interactive/Branches.antt =====
-- interactive-message-handler.service.ts: each branch of an answer.
use micro_saas_api.Base.{
  sym, ap, ◌∙◌, ◌++◌, zero, suc, str_eq, ℕ, ◌≡◌, inl, inr, refl, subst, Bool, true, false, not,
  List, [], ◌∷◌, Option, none, some, String, if◌then◌else◌, filter, Member, Bool-cases,
  Option-cases, arith, All, ◌==◌, and-true,
}
use micro_saas_api.Text.{Text}
use micro_saas_api.Database.{Client}
use micro_saas_api.Database.Rows.{Member-updated}
use micro_saas_api.Workflow.Context.{Value}
use micro_saas_api.Workflow.Interactive.{
  UserState, MessageOption, Execution, Tables, Response, is_state_of, some_nonzero, some_text,
  is_latest, waits_in, get_user_state, resume_execution, resume_workflow_at_node, find_execution,
}
use micro_saas_api.Workflow.Interactive.Answer.{
  clear_user_state, save_user_selection, finish_answer, resume_found, answer_option, check_option,
  with_template, answer_state, handle_button_response,
}
use micro_saas_api.Workflow.Interactive.Start.{SparesMarks, answered_context-start_node}
use micro_saas_api.Workflow.Interactive.Promises.{
  IsCleared, IsChosen, IsResumed, AnswersWith, StartsAt,
}

filter-not :
    {A : Type 0} (p : A → Bool) (xs : List A) → All (λ x. p x ≡ false) (filter (λ x. not (p x)) xs)
filter-not p [] = tt
filter-not p (x ∷ xs) = elim (Bool-cases (p x)) [
  | inl y ↦ rw y (filter-not p xs)
  | inr n ↦ rw n (n, filter-not p xs)
]

clear-IsCleared :
    (user_id : ℕ) (phone : Text) (t : Tables)
    → IsCleared user_id phone (clear_user_state user_id phone t)
unfolding clear_user_state
clear-IsCleared user_id phone t = filter-not (is_state_of user_id phone) t.states

some_text-some : (o : Option String) (next : String) → some_text o ≡ some next → o ≡ some next
some_text-some none next h = cc
some_text-some (some s) next h = elim (Bool-cases (str_eq s "")) [
  | inl y ↦ absurd (ground (arith, y, h))
  | inr n ↦ ground (arith, n, h)
]

some_nonzero-some : (o : Option ℕ) (n : ℕ) → some_nonzero o ≡ some n → o ≡ some n
some_nonzero-some none n h = cc
some_nonzero-some (some zero) n h = cc
some_nonzero-some (some (suc m)) n h = h

module _ (db : Client) (text_of : Value → String) (show_id : ℕ → String) where
  -- Where the metadata of the option name no mark, a run starts at the node.
  abbrev pub StartsIfSpared : MessageOption → String → Execution → Type 0
  StartsIfSpared o next r = SparesMarks text_of o.metadata → StartsAt o next r

  -- The shape of an answer, with its tables.
  abbrev Holds : ℕ → Text → ℕ → Tables → Response × Tables → Type 0
  Holds user_id phone option_id t r = AnswersWith StartsIfSpared user_id phone option_id t r.0 r.1

  -- The row of the execution that is resumed.
  IsResumed-row :
      (user_id workflow_id : ℕ) (o : MessageOption) (next : String) (e : Execution)
      (t after : Tables)
      → Member e t.executions
      → waits_in user_id workflow_id e ≡ true
      → after.queue ≡ t.queue ++ e.id ∷ []
      → after.executions
        ≡ (db.update_many
            (λ (x : Execution). x.id == e.id)
            (resume_execution db text_of show_id o.id next o)
            t.executions).0
      → IsResumed (StartsIfSpared o next) user_id workflow_id t after
  IsResumed-row user_id workflow_id o next e t after m waits queued written =
      let f = resume_execution db text_of show_id o.id next o in
      record {
        before = e;
        listed = m;
        holder = ground (arith, waits);
        same_workflow = ground (arith, waits);
        waited = ground (arith, waits);
        queued = queued;
        row = f e;
        row_listed =
            subst (Member (f e))
              (sym (db.update_many_rows (λ (x : Execution). x.id == e.id) f t.executions)
                ∙ sym written)
              (Member-updated (λ x. x.id == e.id) f t.executions m (ground arith));
        same_id = refl;
        goes = λ spares trigger.
            answered_context-start_node text_of (show_id o.id) next o.metadata e.context trigger
              spares;
        runs = refl;
      }

  resume_some-Holds :
      (queue_up : Bool) (user_id : ℕ) (phone : Text) (option_id : ℕ) (s : UserState)
      (o : MessageOption) (next : String) (t : Tables) (template : ℕ) (e : Execution)
      → IsChosen user_id phone option_id t s o next
      → Member e t.executions
      → waits_in user_id s.workflow_id e ≡ true
      → Holds user_id phone option_id t (
          finish_answer user_id phone s next (
            resume_workflow_at_node db text_of show_id queue_up e next o
              (save_user_selection phone o.id s template t)))
  unfolding finish_answer resume_workflow_at_node save_user_selection clear_user_state
  resume_some-Holds true user_id phone option_id s o next t template e chosen m waits = (
    filter-not (is_state_of user_id phone) t.states,
    record {
      state = s;
      option = o;
      chosen = chosen;
      reported = refl;
      continued = IsResumed-row user_id s.workflow_id o next e t _ m waits refl refl;
    },
  )
  resume_some-Holds false user_id phone option_id s o next t template e chosen m waits =
      (refl, refl)

  resume_found-Holds :
      (queue_up : Bool) (user_id : ℕ) (phone : Text) (option_id : ℕ) (s : UserState)
      (o : MessageOption) (next : String) (t : Tables) (template : ℕ)
      → IsChosen user_id phone option_id t s o next
      → Holds user_id phone option_id t (
          resume_found db text_of show_id queue_up user_id phone s o next
            (save_user_selection phone o.id s template t)
            (find_execution db user_id s.workflow_id (save_user_selection phone o.id s template t)))
  unfolding resume_found save_user_selection clear_user_state
  resume_found-Holds queue_up user_id phone option_id s o next t template chosen =
      elim (Option-cases (find_execution db user_id s.workflow_id t)) [
        | inl n ↦ rw n (filter-not (is_state_of user_id phone) t.states, refl, refl)
        | inr (e, f) ↦
            let (latest, m) =
              db.find_first-some (is_latest (waits_in user_id s.workflow_id) t.executions)
                t.executions e f in
            let (waits, _) = and-true (waits_in user_id s.workflow_id e) _ latest in
            rw f (
              resume_some-Holds queue_up user_id phone option_id s o next t template e chosen m
                waits)
      ]

  -- The state and the option have been read; the option's next node has not.
  abbrev IsRead : ℕ → Text → ℕ → Tables → UserState → MessageOption → Type 0
  IsRead user_id phone option_id t s o =
      (next : String) → o.next_node_id ≡ some next → IsChosen user_id phone option_id t s o next

  answer_option-Holds :
      (queue_up : Bool) (user_id : ℕ) (phone : Text) (option_id : ℕ) (s : UserState) (template : ℕ)
      (o : MessageOption) (t : Tables)
      → IsRead user_id phone option_id t s o
      → Holds user_id phone option_id t
          (answer_option db text_of show_id queue_up user_id phone s template o t)
  unfolding answer_option clear_user_state
  answer_option-Holds queue_up user_id phone option_id s template o t read =
      elim (Option-cases (some_text o.next_node_id)) [
        | inl n ↦
            rw (answer_option, n) (filter-not (is_state_of user_id phone) t.states, refl, refl)
        | inr (next, f) ↦
            rw (answer_option, f)
              (resume_found-Holds queue_up user_id phone option_id s o next t template
                (read next (some_text-some o.next_node_id next f)))
      ]

  -- The state can be answered, and has the template.
  check_option-Holds :
      (queue_up : Bool) (user_id : ℕ) (phone : Text) (option_id : ℕ) (s : UserState) (template : ℕ)
      (found : Option MessageOption) (t : Tables)
      → ((o : MessageOption)
          → found ≡ some o
          → template ≡ o.template_id
          → IsRead user_id phone option_id t s o)
      → Holds user_id phone option_id t
          (check_option db text_of show_id queue_up user_id phone s template found t)
  unfolding check_option
  check_option-Holds queue_up user_id phone option_id s template none t read = refl
  check_option-Holds queue_up user_id phone option_id s template (some o) t read =
      elim (Bool-cases (template == o.template_id)) [
        | inl y ↦
            rw (check_option, y)
              (answer_option-Holds queue_up user_id phone option_id s template o t
                (read o refl (ground (arith, y))))
        | inr n ↦ rw (check_option, n) refl
      ]

  with_template-Holds :
      (queue_up : Bool) (user_id : ℕ) (phone : Text) (option_id : ℕ) (s : UserState) (t : Tables)
      (template : Option ℕ)
      → ((n : ℕ) → template ≡ some n → s.template_id ≡ some n)
      → Member s t.states
      → is_state_of user_id phone s ≡ true
      → s.answerable ≡ true
      → Holds user_id phone option_id t
          (with_template db text_of show_id queue_up user_id phone option_id s t template)
  unfolding with_template
  with_template-Holds queue_up user_id phone option_id s t none sent m own open_state = refl
  with_template-Holds queue_up user_id phone option_id s t (some template) sent m own open_state =
      check_option-Holds queue_up user_id phone option_id s template _ t λ o f same next goes.
        let (p, mo) = db.find_first-some (λ (x : MessageOption). x.id == option_id) t.options o f in
        record {
          state_listed = m;
          own = own;
          answerable = open_state;
          option_listed = mo;
          same_id = ground (arith, p);
          same_template = sent template refl ∙ ap (λ n. some n) same;
          goes_on = goes;
        }

  choose-Holds :
      (user_id : ℕ) (phone : Text) (option_id : ℕ) (t : Tables) (b : Bool) (x y : Response × Tables)
      → (b ≡ true → Holds user_id phone option_id t x)
      → Holds user_id phone option_id t y
      → Holds user_id phone option_id t (if b then x else y)
  choose-Holds user_id phone option_id t true x y p q = p refl
  choose-Holds user_id phone option_id t false x y p q = q

  answer_state-Holds :
      (queue_up : Bool) (user_id : ℕ) (phone : Text) (option_id : ℕ) (s : UserState) (t : Tables)
      → Member s t.states
      → is_state_of user_id phone s ≡ true
      → Holds user_id phone option_id t
          (answer_state db text_of show_id queue_up user_id phone option_id s t)
  unfolding answer_state
  answer_state-Holds queue_up user_id phone option_id s t m own =
      choose-Holds user_id phone option_id t s.answerable _ _
        (with_template-Holds queue_up user_id phone option_id s t (some_nonzero s.template_id)
          (some_nonzero-some s.template_id) m own)
        refl

  pub answer-Holds :
      (queue_up : Bool) (user_id : ℕ) (phone : Text) (option_id : ℕ) (t : Tables)
      → Holds user_id phone option_id t
          (handle_button_response db text_of show_id queue_up user_id phone option_id t)
  unfolding handle_button_response get_user_state
  answer-Holds queue_up user_id phone option_id t =
      elim (Option-cases (db.find_first (is_state_of user_id phone) t.states)) [
        | inl n ↦ rw (handle_button_response, n) refl
        | inr (s, f) ↦
            let (own, m) = db.find_first-some (is_state_of user_id phone) t.states s f in
            rw (handle_button_response, f)
              (answer_state-Holds queue_up user_id phone option_id s t m own)
      ]
