-- ===== src/Workflow/Execution/Walk.antt =====
-- workflow-execution.service.ts: `execute`, its loop, and where a run starts and ends.
use micro_saas_api.Base.{
  lookup, insert, merge, delete, ℕ, zero, suc, Bool, true, false, not, ◌&&◌, List, [], ◌∷◌, Option,
  none, some, String, str_eq, if◌then◌else◌, find, ◌==◌, Result, ok, err,
}
use micro_saas_api.Database.{Client}
use micro_saas_api.Workflow.Graph.{Edge, Node, contains}
use micro_saas_api.Workflow.Validator.{Definition, Problem, validate, is_trigger}
use micro_saas_api.Workflow.Context.{Value, Context, bool, str, num, null, is_true, as_text}
use micro_saas_api.Workflow.Execution.{
  NodeResult, max_nodes, executor_types, node_by_id, merge_collected, resolve_next,
}

-- Why an execution failed; `thrown` is the message of an exception.
pub data Failure : Type 0 where
  workflow_not_found workflow_not_active no_trigger_node too_many_nodes : Failure
  invalid : List Problem → Failure
  node_failed : Option String → Failure
  thrown : String → Failure

-- A row of the execution log: the node, its type, and whether it succeeded; an executor that throws
-- leaves its row at `running`.
pub data LogStatus : Type 0 where
  running completed_ok failed_node : LogStatus

pub record Log : Type 0 where
  pub node_id : String
  pub node_type : String
  pub status : LogStatus

-- How a run ends. `delayed` has the delay that the job is enqueued with.
pub data End : Type 0 where
  failed : Failure → End
  waiting : Context → End
  delayed : Context → Value → End
  completed : Context → End

pub record Run : Type 0 where
  pub logs : List Log
  pub end : End

abbrev pub or_null : Option String → Value
or_null none = null
or_null (some s) = str s

-- `result.output?.delay_seconds ?? 5`
abbrev pub delay_of : NodeResult → Value
delay_of r = elim r.output [
  | none ↦ num 5
  | some o ↦ elim (lookup "delay_seconds" o) [ none ↦ num 5 | some null ↦ num 5 | some v ↦ v ]
]

abbrev pub paused_context : Node → Context → Context
paused_context node c =
    insert "__resuming" (bool false) (insert "__paused_at_node_id" (str node.id) c)

abbrev pub delayed_context : Option String → Context → Context
delayed_context next c =
    insert "__resuming" (bool true) (insert "__resume_at_node_id" (or_null next) c)

abbrev pub final_context : Context → Context
final_context c = delete "__resuming" c

-- `{ ...context, ...(result.output ?? {}) }` with the answers flattened.
abbrev pub context_after : Context → NodeResult → Context
context_after c r = merge_collected (elim r.output [ none ↦ c | some o ↦ merge c o ])

abbrev pub log_of : Node → LogStatus → Log
log_of node status = record { node_id = node.id; node_type = node.kind; status = status }

abbrev pub logged : Log → Run → Run
logged l r = record r { logs = l ∷ r.logs }

abbrev pub ends : End → Run
ends e = record { logs = []; end = e }

-- What the loop does after a node has run, given the rest of the walk from the next node.
abbrev pub after_node :
    List Edge → Node → Context → NodeResult → (Option String → Context → Run) → Run
after_node edges node c r rest =
    let d = context_after c r in
    if not r.success
    then logged (log_of node failed_node) (ends (failed (node_failed r.error)))
    else logged (log_of node completed_ok) (
        if r.pause
        then ends (waiting (paused_context node d))
        else if str_eq node.kind "delay"
        then ends (delayed (delayed_context (resolve_next edges node none) d) (delay_of r))
        else if r.stop
        then ends (completed (final_context d))
        else rest (resolve_next edges node (some r)) d)

-- The outcome of `executor.execute`, an exception included.
unfoldable pub after_execute :
    List Edge → Node → Context → Result String NodeResult → (Option String → Context → Run) → Run
after_execute edges node c (ok r) rest = after_node edges node c r rest
after_execute edges node c (err message) rest =
    logged (log_of node running) (ends (failed (thrown message)))

module _ (execute : Node → Context → Result String NodeResult) (nodes : List Node)
    (edges : List Edge) where
  -- One round: at `current`, with the nodes visited before.
  unfoldable pub visit : Node → Context → (Option String → Context → Run) → Run
  unfolding after_execute
  visit node c rest =
      if contains node.kind executor_types
      then after_execute edges node c (execute node c) rest
      else rest (resolve_next edges node none) c

  -- `left` is `MAX_NODES - steps`.
  unfoldable pub walk : ℕ → List String → Option String → Context → Run
  unfolding visit
  walk left visited none c = ends (completed (final_context c))
  walk zero visited (some id) c =
      if contains id visited
      then ends (completed (final_context c))
      else ends (failed too_many_nodes)
  walk (suc left) visited (some id) c =
      let go : Run = elim (node_by_id id nodes) [
        | none ↦ ends (completed (final_context c))
        | some node ↦ visit node c (walk left (id ∷ visited))
      ] in
      if contains id visited then ends (completed (final_context c)) else go

-- The node at which a run starts, from `__resume_at_node_id`, `__paused_at_node_id`,
-- `__resumed_from_interactive_message` and `__resuming` of the context, and the trigger node.
unfoldable pub start_at :
    Option Value → Option Value → Option Value → Option Value → String → String
start_at resume_at paused_at interactive resuming trigger = elim (as_text resume_at) [
  | some r ↦
      if is_true interactive
      then r
      else if is_true resuming
      then elim (as_text paused_at) [ some p ↦ p | none ↦ r ]
      else trigger
  | none ↦
      if is_true resuming then elim (as_text paused_at) [ some p ↦ p | none ↦ trigger ] else trigger
]

unfoldable pub start_node : Context → String → String
start_node c trigger =
    start_at (lookup "__resume_at_node_id" c) (lookup "__paused_at_node_id" c)
      (lookup "__resumed_from_interactive_message" c) (lookup "__resuming" c) trigger

pub record Workflow : Type 0 where
  pub id : ℕ
  pub user_id : ℕ
  pub published : Bool
  pub is_active : Bool
  pub definition : Definition

pub record Execution : Type 0 where
  pub workflow_id : ℕ
  pub user_id : ℕ
  pub context : Context

-- After the validator's errors and the search for the trigger node.
unfoldable pub run_checked :
    (Node → Context → Result String NodeResult)
    → Definition
    → Context
    → List Problem
    → Option Node
    → Run
unfolding walk start_node
run_checked execute d context (p ∷ ps) trigger = ends (failed (invalid (p ∷ ps)))
run_checked execute d context [] none = ends (failed no_trigger_node)
run_checked execute d context [] (some trigger) =
    let c = merge_collected context in
    walk execute d.nodes d.edges max_nodes [] (some (start_node c trigger.id)) c

-- `execute` once the workflow is found: the checks before the loop, and the loop.
unfoldable pub run_definition :
    (Node → Context → Result String NodeResult) → Definition → Context → Run
unfolding run_checked
run_definition execute d context =
    run_checked execute d context (validate d) (find is_trigger d.nodes)

unfoldable pub run_execution :
    Client → (Node → Context → Result String NodeResult) → List Workflow → Execution → Run
unfolding run_definition
run_execution db execute workflows e =
    elim (db.find_first (λ (w : Workflow). w.id == e.workflow_id && w.user_id == e.user_id)
      workflows) [
        | none ↦ ends (failed workflow_not_found)
        | some w ↦
            if w.published && w.is_active
            then run_definition execute w.definition e.context
            else ends (failed workflow_not_active)
      ]
