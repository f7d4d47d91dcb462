-- ===== src/Workflow/Execution/Tests.antt =====
-- A workflow that greets, asks a question, waits, and answers.
use micro_saas_api.Text.{trim}
use micro_saas_api.Base.{
  lookup, ◌≡◌, ◌⊎◌, ◌↔◌, refl, Bool, true, false, not, ◌&&◌, [], ◌∷◌, none, some, String, str_eq,
  if◌then◌else◌, arith, Result, ok,
}
use micro_saas_api.Workflow.Graph.{Edge, Node, neighbours, has_cycle}
use micro_saas_api.Workflow.Graph.Searched.{Cyclic}
use micro_saas_api.Workflow.Graph.Decides.{has_cycle_decides}
use micro_saas_api.Workflow.Validator.{Definition, validate}
use micro_saas_api.Workflow.Validator.Laws.{IsWellFormed, validate-IsWellFormed}
use micro_saas_api.Workflow.Context.{Context, str, is_true, as_text}
use micro_saas_api.Workflow.Execution.{NodeResult, max_nodes, resolve_next}
use micro_saas_api.Workflow.Execution.Walk.{
  start_node, paused_context, delayed_context, run_definition,
}
use micro_saas_api.Workflow.Execution.Bounds.{IsBounded}
use micro_saas_api.Workflow.Execution.Rounds.{run_definition-IsBounded}
use micro_saas_api.Workflow.Execution.Resume.{resumed, start_node-paused, start_node-delayed}

abbrev a_node : String → String → Node
a_node id kind = record { id = id; kind = kind; field = some "name"; question = some "Your name?" }

abbrev an_edge : String → String → Edge
an_edge a b = record { source = some a; target = some b; source_handle = none }

abbrev start : Node
start = a_node "start" "trigger"

abbrev ask : Node
ask = a_node "ask" "collect_input"

abbrev wait : Node
wait = a_node "wait" "delay"

abbrev booking : Definition
booking = record {
  nodes = start ∷ ask ∷ wait ∷ a_node "thank" "send_message" ∷ [];
  edges = an_edge "start" "ask" ∷ an_edge "ask" "wait" ∷ an_edge "wait" "thank" ∷ [];
}

-- The question pauses until its answer is there; every other node succeeds.
abbrev ran : Bool → NodeResult
ran pause = record {
  success = true;
  output = none;
  error = none;
  stop = false;
  pause = pause;
  branch = none;
}

abbrev play : Node → Context → Result String NodeResult
play n c =
    if str_eq n.id "ask" && not (is_true (lookup "__resuming" c))
    then ok (ran true)
    else ok (ran false)

booking_is_valid : validate booking ≡ []
unfolding validate trim has_cycle
booking_is_valid = refl

booking_IsWellFormed : IsWellFormed booking
booking_IsWellFormed = (validate-IsWellFormed booking).0 booking_is_valid

decides_example :
    (Cyclic (neighbours booking.edges ("start" ∷ "ask" ∷ "wait" ∷ "thank" ∷ []))
      × (has_cycle booking.edges ("start" ∷ "ask" ∷ "wait" ∷ "thank" ∷ []) 8 ≡ some true))
    ⊎ ((¬ Cyclic (neighbours booking.edges ("start" ∷ "ask" ∷ "wait" ∷ "thank" ∷ [])))
        × (has_cycle booking.edges ("start" ∷ "ask" ∷ "wait" ∷ "thank" ∷ []) 8 ≡ some false))
decides_example =
    has_cycle_decides booking.edges ("start" ∷ "ask" ∷ "wait" ∷ "thank" ∷ []) 8 (omega arith)

validate_example : (validate booking ≡ []) ↔ IsWellFormed booking
validate_example = validate-IsWellFormed booking

run_definition-IsBounded_example : IsBounded max_nodes [] (run_definition play booking [])
run_definition-IsBounded_example = run_definition-IsBounded play booking []

next_is_ask : resolve_next booking.edges start (some (ran false)) ≡ some "ask"
unfolding resolve_next
next_is_ask = refl

abbrev answered : Context
answered = ("name", str "Ana") ∷ []

paused_example : start_node (resumed (paused_context ask answered)) "start" ≡ (
    if is_true (lookup "__resumed_from_interactive_message" answered)
    then elim (as_text (lookup "__resume_at_node_id" answered)) [ some r ↦ r | none ↦ ask.id ]
    else ask.id)
paused_example = start_node-paused ask answered "start"

delayed_example : start_node (delayed_context (some "thank") answered) "start" ≡ (
    if is_true (lookup "__resumed_from_interactive_message" answered)
    then "thank"
    else elim (as_text (lookup "__paused_at_node_id" answered)) [ some p ↦ p | none ↦ "thank" ])
delayed_example = start_node-delayed "thank" answered "start"
