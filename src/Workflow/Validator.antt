-- ===== src/Workflow/Validator.antt =====
-- workflow-validator.service.ts: the structural checks on a workflow definition. An absent list of
-- nodes or edges is the empty one.
pub mod Laws
use micro_saas_api.Base.{
  suc, ◌+◌, Bool, true, false, not, ◌&&◌, ◌||◌, List, [], ◌∷◌, ◌++◌, Option, none, some, String,
  str_eq, length, filter, any, map, ltb, ◌==◌,
}
use micro_saas_api.Text.{codes, trim}
use micro_saas_api.Workflow.Graph.{Edge, Node, contains, is_text, or_empty, has_cycle}

pub record Definition : Type 0 where
  pub nodes : List Node
  pub edges : List Edge

pub data Problem : Type 0 where
  no_nodes no_trigger many_triggers circular_loop circular_dependencies : Problem
  disconnected field_missing question_missing : String → Problem

abbrev pub is_trigger : Node → Bool
is_trigger n = str_eq n.kind "trigger"

-- `edge.source === edge.target`
abbrev pub same_end : Option String → Option String → Bool
same_end none none = true
same_end (some s) (some t) = str_eq s t
same_end _ _ = false

-- `!s || !String(s).trim()`
abbrev pub is_blank : Option String → Bool
is_blank none = true
is_blank (some s) = elim (trim (codes s)) [ [] ↦ true | c ∷ t ↦ false ]

abbrev pub report : Bool → Problem → List Problem
report true p = p ∷ []
report false p = []

unfoldable pub trigger_problems : List Node → List Problem
trigger_problems nodes =
    let triggers = length (filter is_trigger nodes) in
    report (triggers == 0) no_trigger ++ report (ltb 1 triggers) many_triggers

-- The keys of `connected`.
abbrev pub connected : List Edge → String → Bool
connected edges id = any (λ e. str_eq (or_empty e.source) id || str_eq (or_empty e.target) id) edges

unfoldable pub edge_problems : List Edge → List Problem
edge_problems [] = []
edge_problems (e ∷ es) = report (same_end e.source e.target) circular_loop ++ edge_problems es

unfoldable pub node_problems : List Edge → List Node → List Problem
node_problems edges [] = []
node_problems edges (n ∷ ns) =
    report (not (is_trigger n) && not (connected edges n.id)) (disconnected n.id)
    ++ (report (str_eq n.kind "collect_input" && is_blank n.field) (field_missing n.id)
        ++ (report (str_eq n.kind "collect_input" && is_blank n.question) (question_missing n.id)
            ++ node_problems edges ns))

-- `hasCycle`, with fuel for every node and edge.
unfoldable pub cycle_problems : List Edge → List Node → List Problem
cycle_problems edges nodes =
    let ids = map (λ n. n.id) nodes in
    elim (has_cycle edges ids (suc (length ids + length edges))) [
      | some true ↦ circular_dependencies ∷ []
      | _ ↦ []
    ]

unfoldable pub validate : Definition → List Problem
unfolding trigger_problems edge_problems node_problems cycle_problems
validate d = elim d.nodes [
  | [] ↦ no_nodes ∷ []
  | n ∷ ns ↦
      trigger_problems d.nodes
      ++ (edge_problems d.edges
          ++ (node_problems d.edges d.nodes ++ cycle_problems d.edges d.nodes))
]
