-- ===== src/Workflow/Interactive.antt =====
-- user-state.service.ts, interactive-message-handler.service.ts and applyBookingRetryContext of
-- nodes/booking-node.helpers.ts: a customer answers an interactive message. Failures of the database are
-- left out, those of the queue are not.
pub mod Answer
pub mod Start
pub mod Promises
pub mod Branches
pub mod Outcome
pub mod Tests
use micro_saas_api.Base.{
  lookup, insert, ℕ, suc, ◌+◌, Bool, true, false, not, ◌&&◌, List, [], ◌∷◌, ◌++◌, Option, none,
  some, String, str_eq, if◌then◌else◌, any, ltb, ◌==◌,
}
use micro_saas_api.Base.{delete}
use micro_saas_api.Text.{Text, digits_only, same_text}
use micro_saas_api.Database.{Client}
use micro_saas_api.Workflow.Context.{Value, null, bool, num, str, obj, Context, as_text}

-- The statuses that are read and written here.
pub data RunStatus : Type 0 where
  waiting running done : RunStatus

abbrev pub is_waiting : RunStatus → Bool
is_waiting waiting = true
is_waiting _ = false

-- UserWorkflowState: `answerable` is the status WAITING_FOR_RESPONSE, and `template_id` the number in
-- the metadata.
pub record UserState : Type 0 where
  pub user_id : ℕ
  pub phone_number : Text
  pub workflow_id : ℕ
  pub current_node_id : String
  pub answerable : Bool
  pub template_id : Option ℕ
  pub created_at : ℕ

-- InteractiveMessageOption; the metadata are none when they are no object.
pub record MessageOption : Type 0 where
  pub id : ℕ
  pub template_id : ℕ
  pub next_node_id : Option String
  pub metadata : Option Context

-- WorkflowExecution
pub record Execution : Type 0 where
  pub id : ℕ
  pub user_id : ℕ
  pub workflow_id : ℕ
  pub contact_id : Option ℕ
  pub status : RunStatus
  pub context : Context
  pub created_at : ℕ

-- ButtonClickAnalytics
pub record Click : Type 0 where
  pub template_id : ℕ
  pub option_id : ℕ
  pub phone_number : Text
  pub workflow_id : ℕ

-- The tables, and the executions that have been handed to the queue.
pub record Tables : Type 0 where
  pub states : List UserState
  pub options : List MessageOption
  pub executions : List Execution
  pub clicks : List Click
  pub queue : List ℕ

-- What the handler answers. The first five and `not_resumed` are failures.
pub data Response : Type 0 where
  no_state not_waiting no_template no_option other_template not_resumed : Response
  no_next_node no_execution : Response
  resumed : (workflow_id : ℕ) (next_node_id : String) → Response

-- `userId_phoneNumber`, with normalizePhone.
abbrev pub is_state_of : ℕ → Text → UserState → Bool
is_state_of user_id phone t = t.user_id == user_id && same_text t.phone_number (digits_only phone)

-- A number that counts as true.
abbrev pub some_nonzero : Option ℕ → Option ℕ
some_nonzero (some (suc n)) = some (suc n)
some_nonzero _ = none

-- A text that counts as true.
abbrev pub some_text : Option String → Option String
some_text none = none
some_text (some s) = if str_eq s "" then none else some s

-- A value that is there and not null.
abbrev pub present : Option Value → Option Value
present none = none
present (some null) = none
present (some (bool b)) = some (bool b)
present (some (num n)) = some (num n)
present (some (str s)) = some (str s)
present (some (obj fs)) = some (obj fs)

-- `if (meta.k != null) context.to = meta.k`
unfoldable pub copy_field : Context → String → String → Context → Context
copy_field meta k to c = elim (present (lookup k meta)) [ none ↦ c | some v ↦ insert to v c ]

-- `if (meta.k !== undefined) context.k = meta.k`
unfoldable pub copy_present : Context → String → Context → Context
copy_present meta k c = elim (lookup k meta) [ none ↦ c | some v ↦ insert k v c ]

unfoldable pub clear_slot : Context → Context
clear_slot c = delete "selected_slot_starts_at" (delete "slot_ends_at" (delete "slot_starts_at" c))

unfoldable pub clear_resource : Context → Context
clear_resource c =
    delete "resource_name"
      (delete "selected_resource_id" (delete "resource_id" (delete "time_period" c)))

abbrev text_or_empty : Option String → String
text_or_empty none = ""
text_or_empty (some s) = s

-- applyBookingRetryContext
unfoldable pub apply_booking_retry_context : Context → Context → Context
apply_booking_retry_context meta c =
    let retry = text_or_empty (as_text (lookup "retry" meta)) in
    if str_eq retry "date"
    then clear_slot (delete "time_period" c)
    else if str_eq retry "resource"
    then clear_slot (clear_resource c)
    else if str_eq retry "time_period"
    then clear_slot c
    else c

-- `context[String(meta.context_field)] = meta.context_value`
unfoldable pub set_field : (Value → String) → Option Value → Option Value → Context → Context
set_field text_of (some f) (some v) c = insert (text_of f) v c
set_field text_of _ _ c = c

-- What the metadata of an option write into the context. `text_of` is `String(value)`.
unfoldable pub apply_metadata : (Value → String) → Context → Context → Context
unfolding apply_booking_retry_context
apply_metadata text_of meta c =
    let c = apply_booking_retry_context meta c in
    let c =
      set_field text_of (present (lookup "context_field" meta))
        (present (lookup "context_value" meta)) c in
    let c = copy_field meta "service_type" "service_type" c in
    let c =
      copy_field meta "resource_id" "selected_resource_id"
        (copy_field meta "resource_id" "resource_id" c) in
    let c = copy_field meta "resource_name" "resource_name" c in
    let c =
      copy_field meta "starts_at" "selected_slot_starts_at"
        (copy_field meta "starts_at" "slot_starts_at" c) in
    let c = copy_field meta "ends_at" "slot_ends_at" c in
    let c = copy_field meta "preferred_date" "preferred_date" c in
    let c = copy_field meta "time_period" "time_period" c in
    let c = copy_field meta "catalog_product_id" "catalog_product_id" c in
    let c = copy_field meta "catalog_product_offset" "catalog_product_offset" c in
    let c = copy_present meta "catalog_category_id" c in
    let c = copy_field meta "catalog_category_name" "catalog_category_name" c in
    let c = copy_field meta "catalog_category_offset" "catalog_category_offset" c in
    copy_field meta "catalog_action" "catalog_action" c

-- The marks of an answer.
unfoldable pub mark_answered : (selected : String) (next_node_id : String) → Context → Context
mark_answered selected next_node_id c =
    let c = insert "__selected_option_id" (str selected) c in
    let c = insert "__interactive_response_received" (bool true) c in
    let c = insert "__resumed_from_interactive_message" (bool true) c in
    let c = insert "__resuming" (bool true) c in
    let c = insert "__resume_at_node_id" (str next_node_id) c in delete "__paused_at_node_id" c

-- The context of resumeWorkflowAtNode.
unfoldable pub answered_context :
    (Value → String) → (selected next_node_id : String) → Option Context → Context → Context
answered_context text_of selected next_node_id none c = mark_answered selected next_node_id c
answered_context text_of selected next_node_id (some meta) c =
    apply_metadata text_of meta (mark_answered selected next_node_id c)

-- `findFirst` with `orderBy: { createdAt: 'desc' }`: a matching row that none is newer than.
abbrev pub is_latest : (Execution → Bool) → List Execution → Execution → Bool
is_latest p es e = p e && not (any (λ (x : Execution). p x && ltb e.created_at x.created_at) es)

abbrev pub waits_in : ℕ → ℕ → Execution → Bool
waits_in user_id workflow_id e =
    e.user_id == user_id && e.workflow_id == workflow_id && is_waiting e.status

module _ (db : Client) where
  -- getUserState
  unfoldable pub get_user_state : ℕ → Text → Tables → Option UserState
  get_user_state user_id phone t = db.find_first (is_state_of user_id phone) t.states

  -- A waiting execution of the state's workflow, or none.
  abbrev pub find_execution : ℕ → ℕ → Tables → Option Execution
  find_execution user_id workflow_id t =
      db.find_first (is_latest (waits_in user_id workflow_id) t.executions) t.executions

-- `text_of` is `String(value)`, `show_id` the text of a number.
module _ (db : Client) (text_of : Value → String) (show_id : ℕ → String) where
  abbrev pub resume_execution : ℕ → String → MessageOption → Execution → Execution
  resume_execution option_id next_node_id o e = record e {
    status = running;
    context = answered_context text_of (show_id option_id) next_node_id o.metadata e.context;
  }

  -- resumeWorkflowAtNode: whether the queue took the execution, and the tables. The option and the
  -- execution, which it reads again, are those that the handler has read.
  unfoldable pub resume_workflow_at_node :
      (queue_up : Bool) → Execution → String → MessageOption → Tables → Bool × Tables
  resume_workflow_at_node queue_up e next_node_id o t =
      let written = record t {
        executions =
            (db.update_many (λ (x : Execution). x.id == e.id) (resume_execution o.id next_node_id o)
              t.executions).0;
      } in
      if queue_up then (true, record written { queue = t.queue ++ e.id ∷ [] }) else (false, written)
