-- ===== src/Workflow/Interactive/Promises.antt =====
-- interactive-message-handler.service.ts: what each answer promises of the tables.
use micro_saas_api.Base.{some, ℕ, ◌≡◌, true, false, [], ◌∷◌, ◌++◌, String, Member, All}
use micro_saas_api.Text.{Text}
use micro_saas_api.Workflow.Execution.Walk.{start_node}
use micro_saas_api.Workflow.Interactive.{
  is_waiting, Execution, UserState, MessageOption, Tables, Response, no_state, not_waiting,
  no_template, no_option, other_template, not_resumed, no_next_node, no_execution, resumed,
  is_state_of,
}

-- The user's state is gone.
abbrev pub IsCleared : ℕ → Text → Tables → Type 0
IsCleared user_id phone t = All (λ s. is_state_of user_id phone s ≡ false) t.states

-- What an answer that is accepted goes by: a state of the user, and the option with the id, of the
-- template that the user was sent, with a next node.
pub record IsChosen (user_id : ℕ) (phone : Text) (option_id : ℕ) (t : Tables) (s : UserState)
    (o : MessageOption) (next : String) : Type 0 where
  pub state_listed : Member s t.states
  pub own : is_state_of user_id phone s ≡ true
  pub answerable : s.answerable ≡ true
  pub option_listed : Member o t.options
  pub same_id : o.id ≡ option_id
  pub same_template : s.template_id ≡ some o.template_id
  pub goes_on : o.next_node_id ≡ some next

-- A row of the user that waited in the workflow has been handed to the queue, runs, and meets `Goes`.
pub record IsResumed (Goes : Execution → Type 0) (user_id workflow_id : ℕ) (t after : Tables)
    : Type 0 where
  pub before : Execution
  pub listed : Member before t.executions
  pub holder : before.user_id ≡ user_id
  pub same_workflow : before.workflow_id ≡ workflow_id
  pub waited : is_waiting before.status ≡ true
  pub queued : after.queue ≡ t.queue ++ before.id ∷ []
  pub row : Execution
  pub row_listed : Member row after.executions
  pub same_id : row.id ≡ before.id
  pub goes : Goes row
  pub runs : is_waiting row.status ≡ false

-- The answer continues the workflow of the user's state, as the option says.
pub record IsContinued (Goes : MessageOption → String → Execution → Type 0) (user_id : ℕ)
    (phone : Text) (option_id : ℕ) (t : Tables) (workflow_id : ℕ) (next : String) (after : Tables)
    : Type 0 where
  pub state : UserState
  pub option : MessageOption
  pub chosen : IsChosen user_id phone option_id t state option next
  pub reported : state.workflow_id ≡ workflow_id
  pub continued : IsResumed (Goes option next) user_id state.workflow_id t after

-- What each answer says of the tables before and after, where `Goes` is asked of the execution that is
-- resumed.
abbrev pub AnswersWith :
    (MessageOption → String → Execution → Type 0)
    → ℕ
    → Text
    → ℕ
    → Tables
    → Response
    → Tables
    → Type 0
AnswersWith Goes user_id phone option_id t no_state after = after ≡ t
AnswersWith Goes user_id phone option_id t not_waiting after = after ≡ t
AnswersWith Goes user_id phone option_id t no_template after = after ≡ t
AnswersWith Goes user_id phone option_id t no_option after = after ≡ t
AnswersWith Goes user_id phone option_id t other_template after = after ≡ t
AnswersWith Goes user_id phone option_id t not_resumed after =
    (after.states ≡ t.states) × (after.queue ≡ t.queue)
AnswersWith Goes user_id phone option_id t no_next_node after =
    IsCleared user_id phone after × (after.executions ≡ t.executions) × (after.queue ≡ t.queue)
AnswersWith Goes user_id phone option_id t no_execution after =
    IsCleared user_id phone after × (after.executions ≡ t.executions) × (after.queue ≡ t.queue)
AnswersWith Goes user_id phone option_id t (resumed workflow_id next) after =
    IsCleared user_id phone after
    × IsContinued Goes user_id phone option_id t workflow_id next after

-- A run of the execution starts at the node.
abbrev pub StartsAt : MessageOption → String → Execution → Type 0
StartsAt o next r = (trigger : String) → start_node r.context trigger ≡ next

abbrev pub HasAnswered : ℕ → Text → ℕ → Tables → Response → Tables → Type 0
HasAnswered = AnswersWith StartsAt

pub answers_weaker :
    (P Q : MessageOption → String → Execution → Type 0) (user_id : ℕ) (phone : Text) (option_id : ℕ)
    (t : Tables) (r : Response) (after : Tables)
    → ((o : MessageOption) (next : String) (e : Execution)
        → Member o t.options
        → P o next e
        → Q o next e)
    → AnswersWith P user_id phone option_id t r after
    → AnswersWith Q user_id phone option_id t r after
answers_weaker P Q user_id phone option_id t no_state after f h = h
answers_weaker P Q user_id phone option_id t not_waiting after f h = h
answers_weaker P Q user_id phone option_id t no_template after f h = h
answers_weaker P Q user_id phone option_id t no_option after f h = h
answers_weaker P Q user_id phone option_id t other_template after f h = h
answers_weaker P Q user_id phone option_id t not_resumed after f h = h
answers_weaker P Q user_id phone option_id t no_next_node after f h = h
answers_weaker P Q user_id phone option_id t no_execution after f h = h
answers_weaker P Q user_id phone option_id t (resumed workflow_id next) after f (gone, k) = (
  gone,
  record {
    state = k.state;
    option = k.option;
    chosen = k.chosen;
    reported = k.reported;
    continued = record {
      before = k.continued.before;
      listed = k.continued.listed;
      holder = k.continued.holder;
      same_workflow = k.continued.same_workflow;
      waited = k.continued.waited;
      queued = k.continued.queued;
      row = k.continued.row;
      row_listed = k.continued.row_listed;
      same_id = k.continued.same_id;
      goes = f k.option next k.continued.row k.chosen.option_listed k.continued.goes;
      runs = k.continued.runs;
    };
  },
)
