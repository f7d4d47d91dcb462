-- ===== src/Workflow/Interactive/Tests.antt =====
-- interactive-message-handler.service.ts: a customer who answers.
use micro_saas_api.Base.{
  lookup, ℕ, ◌≡◌, refl, subst, true, false, [], ◌∷◌, some, String, Member, here, there,
}
use micro_saas_api.Text.{Text, codes, digits_only, same_text, is_digit}
use micro_saas_api.Database.{list_client}
use micro_saas_api.Workflow.Context.{Value, num, str}
use micro_saas_api.Workflow.Interactive.{
  waiting, UserState, MessageOption, Execution, Tables, no_state, resumed, no_execution,
  get_user_state, resume_workflow_at_node,
}
use micro_saas_api.Workflow.Interactive.Answer.{
  clear_user_state, save_user_selection, finish_answer, resume_found, answer_option, check_option,
  with_template, answer_state, handle_button_response,
}
use micro_saas_api.Workflow.Interactive.Start.{SparesMarks}
use micro_saas_api.Workflow.Interactive.Promises.{HasAnswered}
use micro_saas_api.Workflow.Interactive.Outcome.{
  handle_button_response-HasAnswered, handle_button_response-once,
}

abbrev text_of : Value → String
text_of (str s) = s
text_of _ = "?"

abbrev show_id : ℕ → String
show_id n = "id"

abbrev phone : Text
phone = codes "+91 1"

abbrev state : UserState
state = record {
  user_id = 1;
  phone_number = codes "911";
  workflow_id = 5;
  current_node_id = "menu";
  answerable = true;
  template_id = some 3;
  created_at = 0;
}

abbrev option : MessageOption
option = record {
  id = 7;
  template_id = 3;
  next_node_id = some "pay";
  metadata = some (("resource_id", num 4) ∷ []);
}

abbrev execution : ℕ → ℕ → ℕ → Execution
execution id contact at = record {
  id = id;
  user_id = 1;
  workflow_id = 5;
  contact_id = some contact;
  status = waiting;
  context = [];
  created_at = at;
}

abbrev tables : Tables
tables = record {
  states = state ∷ [];
  options = option ∷ [];
  executions = execution 20 100 1 ∷ [];
  clicks = [];
  queue = [];
}

answered :
    (handle_button_response list_client text_of show_id true 1 phone 7 tables).0 ≡ resumed 5 "pay"
unfolding handle_button_response get_user_state answer_state with_template check_option
    answer_option resume_found finish_answer resume_workflow_at_node save_user_selection same_text
    digits_only is_digit
answered = refl

-- Two customers of a tenant wait in one workflow: the answer of contact 100 resumes contact 200.
other_customer :
    (handle_button_response list_client text_of show_id true 1 phone 7
      (record tables { executions = execution 20 100 1 ∷ execution 21 200 2 ∷ [] })).1.queue
    ≡ 21 ∷ []
unfolding handle_button_response get_user_state answer_state with_template check_option
    answer_option resume_found finish_answer resume_workflow_at_node save_user_selection
    clear_user_state same_text digits_only is_digit
other_customer = refl

-- The queue refuses, and then takes the same answer: the execution no longer waits.
stuck :
    (handle_button_response list_client text_of show_id true 1 phone 7
      (handle_button_response list_client text_of show_id false 1 phone 7 tables).1).0
    ≡ no_execution
unfolding handle_button_response get_user_state answer_state with_template check_option
    answer_option resume_found finish_answer resume_workflow_at_node save_user_selection
    clear_user_state same_text digits_only is_digit
stuck = refl

option-SparesMarks : (o : MessageOption) → Member o tables.options → SparesMarks text_of o.metadata
unfolding lookup
option-SparesMarks o (here e) = subst (λ x. SparesMarks text_of x.metadata) e (λ f h. cc, λ f h. cc)
option-SparesMarks o (there m) = elim m [ ]

handle_button_response-HasAnswered_example :
    HasAnswered 1 phone 7 tables
      (handle_button_response list_client text_of show_id true 1 phone 7 tables).0
      (handle_button_response list_client text_of show_id true 1 phone 7 tables).1
handle_button_response-HasAnswered_example =
    handle_button_response-HasAnswered list_client text_of show_id true 1 phone 7 tables
      option-SparesMarks

handle_button_response-once_example :
    handle_button_response list_client text_of show_id true 1 phone 7
      (handle_button_response list_client text_of show_id true 1 phone 7 tables).1
    ≡ (no_state, (handle_button_response list_client text_of show_id true 1 phone 7 tables).1)
handle_button_response-once_example =
    handle_button_response-once list_client text_of show_id true 1 phone 7 tables 5 "pay" 7 answered
