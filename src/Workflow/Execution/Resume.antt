-- ===== src/Workflow/Execution/Resume.antt =====
-- workflow-execution.service.ts: at which node a paused, delayed or answered execution goes on.
use micro_saas_api.Base.{
  lookup, insert, lookup-insert, str_eq, refl, ◌∙◌, Option, ◌≡◌, true, none, some, String,
  if◌then◌else◌, arith,
}
use micro_saas_api.Workflow.Graph.{Node}
use micro_saas_api.Workflow.Context.{str, Value, Context, bool, is_true, as_text}
use micro_saas_api.Workflow.Execution.Walk.{start_at, start_node, paused_context, delayed_context}

-- incoming-message.processor.ts marks a waiting execution before it runs again; of the keys that it
-- writes, this is the one that the start reads.
abbrev pub resumed : Context → Context
resumed c = insert "__resuming" (bool true) c

start_node_lem :
    (c : Context) (trigger : String) (r p i s : Option Value)
    → lookup "__resume_at_node_id" c ≡ r
    → lookup "__paused_at_node_id" c ≡ p
    → lookup "__resumed_from_interactive_message" c ≡ i
    → lookup "__resuming" c ≡ s
    → start_node c trigger ≡ start_at r p i s trigger
unfolding start_node
start_node_lem c trigger r p i s er ep ei es = rw (er, ep, ei, es) refl

-- An execution that was paused at a node and is resumed goes on at that node, unless its context
-- still has the mark of an answered interactive message and the node to resume at: then it goes on
-- there instead.
pub start_node-paused :
    (node : Node) (c : Context) (trigger : String)
    → start_node (resumed (paused_context node c)) trigger ≡ (
        if is_true (lookup "__resumed_from_interactive_message" c)
        then elim (as_text (lookup "__resume_at_node_id" c)) [ some r ↦ r | none ↦ node.id ]
        else node.id)
unfolding start_at
start_node-paused node c trigger =
    start_node_lem _ trigger _ _ _ _ (three "__resume_at_node_id") (three "__paused_at_node_id")
      (three "__resumed_from_interactive_message") (three "__resuming")
    ∙ ground (arith)
  where
    three :
        (k : String)
        → lookup k (resumed (paused_context node c)) ≡ (
            if str_eq "__resuming" k
            then some (bool true)
            else if str_eq "__paused_at_node_id" k
            then some (str node.id)
            else lookup k c)
    three k =
        simp
          (
            lookup-insert {V = Value} "__resuming" k,
            lookup-insert {V = Value} "__paused_at_node_id" k,
          )
          (ground arith)

-- A delayed execution that is run again goes on at the node after the delay, unless its context
-- still has the node of an earlier pause and not the mark of an interactive answer: then it goes on
-- at that node.
pub start_node-delayed :
    (next : String) (c : Context) (trigger : String)
    → start_node (delayed_context (some next) c) trigger ≡ (
        if is_true (lookup "__resumed_from_interactive_message" c)
        then next
        else elim (as_text (lookup "__paused_at_node_id" c)) [ some p ↦ p | none ↦ next ])
unfolding start_at
start_node-delayed next c trigger =
    start_node_lem _ trigger _ _ _ _ (two "__resume_at_node_id") (two "__paused_at_node_id")
      (two "__resumed_from_interactive_message") (two "__resuming")
    ∙ ground (arith)
  where
    two :
        (k : String)
        → lookup k (delayed_context (some next) c) ≡ (
            if str_eq "__resuming" k
            then some (bool true)
            else if str_eq "__resume_at_node_id" k
            then some (str next)
            else lookup k c)
    two k =
        simp
          (
            lookup-insert {V = Value} "__resuming" k,
            lookup-insert {V = Value} "__resume_at_node_id" k,
          )
          (ground arith)
