-- ===== src/Workflow/Graph.antt =====
-- The node graph of a workflow definition, and `hasCycle` of workflow-validator.service.ts.
-- Identifiers and node types are compared as whole texts.
pub mod Trails
pub mod Searched
pub mod Cycles
pub mod Decides
use micro_saas_api.Base.{
  ℕ, zero, suc, Bool, true, false, not, List, [], ◌∷◌, Option, none, some, String, str_eq,
  if◌then◌else◌, filter, any, map,
}

pub record Edge : Type 0 where
  pub source : Option String
  pub target : Option String
  pub source_handle : Option String

pub record Node : Type 0 where
  pub id : String
  pub kind : String
  pub field : Option String
  pub question : Option String

abbrev pub contains : String → List String → Bool
contains x xs = any (λ y. str_eq x y) xs

-- `a === b` where a side may be undefined.
abbrev pub is_text : Option String → String → Bool
is_text none s = false
is_text (some t) s = str_eq t s

-- `s ?? ''`
abbrev pub or_empty : Option String → String
or_empty none = ""
or_empty (some s) = s

-- `graph[id] ?? []`: the targets of the edges that leave a listed node, in their order.
unfoldable pub neighbours : List Edge → List String → String → List String
neighbours edges node_ids id =
    if contains id node_ids
    then map (λ e. or_empty e.target) (filter (λ e. is_text e.source id) edges)
    else []

-- The two dictionaries of the search.
pub record Marks : Type 0 where
  pub visited : List String
  pub stack : List String

-- The loop over the neighbours of a node; `none` when the fuel of a call ran out.
unfoldable pub dfs_each :
    (String → Marks → Option (Bool × Marks)) → List String → Marks → Option (Bool × Marks)
dfs_each dfs [] s = some (false, s)
dfs_each dfs (x ∷ xs) s = elim (dfs x s) [
  | none ↦ none
  | some (true, t) ↦ some (true, t)
  | some (false, t) ↦ dfs_each dfs xs t
]

-- What happens at a node that the search has not seen.
abbrev pub enter : String → Marks → Marks
enter node s = record { visited = node ∷ s.visited; stack = node ∷ s.stack }

abbrev pub leave : String → Option (Bool × Marks) → Option (Bool × Marks)
leave node none = none
leave node (some (true, t)) = some (true, t)
leave node (some (false, t)) =
    some (false, record t { stack = filter (λ x. not (str_eq x node)) t.stack })

module _ (next : String → List String) where
  unfoldable pub dfs : ℕ → String → Marks → Option (Bool × Marks)
  unfolding dfs_each
  dfs zero node s = none
  dfs (suc fuel) node s =
      let inside = leave node (dfs_each (dfs fuel) (next node) (enter node s)) in
      if contains node s.stack
      then some (true, s)
      else if contains node s.visited
      then some (false, s)
      else inside

-- `nodeIds.some((id) => dfs(id))`
unfoldable pub has_cycle : List Edge → List String → ℕ → Option Bool
unfolding dfs dfs_each neighbours
has_cycle edges node_ids fuel =
    elim (dfs_each (dfs (neighbours edges node_ids) fuel) node_ids
      (record { visited = []; stack = [] })) [ none ↦ none | some (found, s) ↦ some found ]
