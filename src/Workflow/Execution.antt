-- ===== src/Workflow/Execution.antt =====
-- workflow-execution.service.ts: the walk of a published workflow's node graph. What a node does is
-- behind the interface NodeExecutor of nodes/node-executor.interface.ts.
pub mod Walk
pub mod Bounds
pub mod Rounds
pub mod Edges
pub mod Resume
pub mod Tests
use micro_saas_api.Base.{
  lookup, merge, ℕ, Bool, true, false, ◌||◌, List, [], ◌∷◌, Option, none, some, String, str_eq,
  if◌then◌else◌, filter, find,
}
use micro_saas_api.Workflow.Graph.{Edge, Node, is_text, contains}
use micro_saas_api.Workflow.Validator.{Problem}
use micro_saas_api.Workflow.Context.{
  Value, Context, bool, str, num, obj, null, entries, is_true, as_text, truthy,
}

-- NodeExecutionResult
pub record NodeResult : Type 0 where
  pub success : Bool
  pub output : Option Context
  pub error : Option String
  pub stop : Bool
  pub pause : Bool
  pub branch : Option String

-- MAX_NODES
abbrev pub max_nodes : ℕ
max_nodes = 40

-- The keys of `this.executors`.
abbrev pub executor_types : List String
executor_types =
    "trigger" ∷ "condition" ∷ "api" ∷ "ai" ∷ "send_message" ∷ "collect_input" ∷ "save_lead"
    ∷ "delay" ∷ "interactive_message" ∷ "list_resources" ∷ "list_slots" ∷ "book_slot"
    ∷ "pick_options" ∷ "list_catalog_categories" ∷ "list_catalog_products" ∷ "create_catalog_order"
    ∷ "collect_payment_screenshot" ∷ []

-- `nodesById.get(id)`: of nodes with one id the last is kept.
unfoldable pub node_by_id : String → List Node → Option Node
node_by_id id [] = none
node_by_id id (n ∷ ns) = elim (node_by_id id ns) [
  | some m ↦ some m
  | none ↦ if str_eq n.id id then some n else none
]

unfoldable pub merge_collected : Context → Context
merge_collected c = elim (lookup "__collected" c) [
  | some v ↦ elim v [ obj fs ↦ merge c (entries fs) | _ ↦ c ]
  | none ↦ c
]

-- `edge?.target ?? null`
abbrev pub target_of : Option Edge → Option String
target_of none = none
target_of (some e) = e.target

-- `!e.sourceHandle`
abbrev pub is_unlabeled : Edge → Bool
is_unlabeled e = elim e.source_handle [ none ↦ true | some s ↦ str_eq s "" ]

-- `result.branch ?? (result.output?.matched ? 'true' : 'false')`
abbrev pub branch_of : NodeResult → String
branch_of r = elim r.branch [
  | some b ↦ b
  | none ↦
      if truthy (elim r.output [ some o ↦ lookup "matched" o | none ↦ none ])
      then "true"
      else "false"
]

abbrev pub outgoing : List Edge → Node → List Edge
outgoing edges node = filter (λ e. is_text e.source node.id) edges

unfoldable pub condition_target : List Edge → String → Option String
condition_target out branch = elim (find (λ e. is_text e.source_handle branch) out) [
  | some e ↦ e.target
  | none ↦ if str_eq branch "true" then target_of (find is_unlabeled out) else none
]

-- The edge of a failed `api` node, where it has a target.
abbrev pub error_target : List Edge → NodeResult → Option String
error_target out r =
    if is_text r.branch "error"
    then elim (target_of (find (λ e. is_text e.source_handle "error") out)) [
      | some t ↦ if str_eq t "" then none else some t
      | none ↦ none
    ]
    else none

abbrev pub first_target : List Edge → Option String
first_target [] = none
first_target (e ∷ es) = e.target

-- `successEdge?.target ?? outgoing[0]?.target ?? null`
abbrev pub success_target : List Edge → Option String
success_target out =
    elim (target_of (find (λ e. is_text e.source_handle "true" || is_unlabeled e) out)) [
      | some t ↦ some t
      | none ↦ first_target out
    ]

abbrev pub api_target : List Edge → Option NodeResult → Option String
api_target out none = success_target out
api_target out (some r) = elim (error_target out r) [ some t ↦ some t | none ↦ success_target out ]

-- `resolveNextNodeId`; the result is absent where the node was not run.
unfoldable pub resolve_next : List Edge → Node → Option NodeResult → Option String
unfolding condition_target
resolve_next edges node none =
    let out = outgoing edges node in
    if str_eq node.kind "api" then api_target out none else first_target out
resolve_next edges node (some r) =
    let out = outgoing edges node in
    if str_eq node.kind "condition"
    then condition_target out (branch_of r)
    else if str_eq node.kind "api"
    then api_target out (some r)
    else first_target out
