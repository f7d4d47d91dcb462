-- ===== src/Workflow/Graph/Decides.antt =====
-- `hasCycle` of workflow-validator.service.ts: the search over all nodes.
use micro_saas_api.Base.{
  ℕ, ◌+◌, ◌≡◌, ◌<◌, ◌⊎◌, inl, inr, refl, Bool, true, false, List, [], ◌∷◌, ◌++◌, Option, none, some,
  String, length, filter, map, Member, here, there, Bool-cases, arith, length-filter-le,
  length-append,
}
use micro_saas_api.Workflow.Graph.{
  Edge, Marks, contains, neighbours, dfs, dfs_each, has_cycle, or_empty,
}
use micro_saas_api.Workflow.Graph.Trails.{contains-Member, Leads, edge, step, topological_acyclic}
use micro_saas_api.Workflow.Graph.Searched.{IsSearched, Finds, Cyclic}
use micro_saas_api.Workflow.Graph.Cycles.{each_Finds, dfs-Finds}

Member-append_left : {a : String} (xs ys : List String) → Member a xs → Member a (xs ++ ys)
Member-append_left [] ys m = elim m [ ]
Member-append_left (x ∷ xs) ys (here e) = here e
Member-append_left (x ∷ xs) ys (there m) = there (Member-append_left xs ys m)

Member-append_right : {a : String} (xs ys : List String) → Member a ys → Member a (xs ++ ys)
Member-append_right [] ys m = m
Member-append_right (x ∷ xs) ys m = there (Member-append_right xs ys m)

Member-targets :
    {a : String} (edges : List Edge) (p : Edge → Bool)
    → Member a (map (λ e. or_empty e.target) (filter p edges))
    → Member a (map (λ e. or_empty e.target) edges)
Member-targets [] p m = m
Member-targets {a} (x ∷ xs) p m = elim (Bool-cases (p x)) [
  | inl e ↦ kept (Member-targets xs p) (rw e at m)
  | inr e ↦ there (Member-targets xs p (rw e at m))
]
  where
    kept :
        (Member a (map (λ e. or_empty e.target) (filter p xs))
          → Member a (map (λ e. or_empty e.target) xs))
        → Member a (or_empty x.target ∷ map (λ e. or_empty e.target) (filter p xs))
        → Member a (or_empty x.target ∷ map (λ e. or_empty e.target) xs)
    kept later (here e) = here e
    kept later (there n) = there (later n)

length-map : (edges : List Edge) (f : Edge → String) → length (map f edges) ≡ length edges
length-map [] f = refl
length-map (x ∷ xs) f = omega (arith, length-map xs f)

module _ (edges : List Edge) (node_ids : List String) where
  abbrev universe : List String
  universe = node_ids ++ map (λ e. or_empty e.target) edges

  -- Only listed nodes have neighbours.
  neighbours-listed : (a b : String) → Member b (neighbours edges node_ids a) → Member a node_ids
  unfolding neighbours
  neighbours-listed a b m = elim (Bool-cases (contains a node_ids)) [
    | inl e ↦ contains-Member a node_ids e
    | inr e ↦ absurd (none_there (rw (e, neighbours) at m))
  ]
    where
      none_there : ¬ Member b []
      none_there n = elim n [ ]

  neighbours-universe : (a b : String) → Member b (neighbours edges node_ids a) → Member b universe
  unfolding neighbours
  neighbours-universe a b m = elim (Bool-cases (contains a node_ids)) [
    | inl e ↦ Member-append_right node_ids _ (Member-targets edges _ (rw (e, neighbours) at m))
    | inr e ↦ absurd (none_there (rw (e, neighbours) at m))
  ]
    where
      none_there : ¬ Member b []
      none_there n = elim n [ ]

  listed_of_cycle : {a b : String} → Leads (neighbours edges node_ids) a b → Member a node_ids
  listed_of_cycle {a} (edge {b} m) = neighbours-listed a b m
  listed_of_cycle {a} (step {b} m p) = neighbours-listed a b m

  -- With fuel beyond the number of nodes and edges, the search ends: it says `true` where some node
  -- leads back to itself along the edges between listed nodes, and `false` where none does.
  pub has_cycle_decides :
      (fuel : ℕ)
      → length node_ids + length edges < fuel
      → (Cyclic (neighbours edges node_ids) × (has_cycle edges node_ids fuel ≡ some true))
        ⊎ ((¬ Cyclic (neighbours edges node_ids)) × (has_cycle edges node_ids fuel ≡ some false))
  unfolding has_cycle
  has_cycle_decides fuel lt = go _ refl searched
    where
      next : String → List String
      next = neighbours edges node_ids

      start : Marks
      start = record { visited = []; stack = [] }

      start-IsSearched : IsSearched next start []
      start-IsSearched = record {
        trail = tt;
        topological = tt;
        seen = λ x m. elim m [ ];
        apart = λ x m. elim m [ ];
        marked = λ x m. elim m [ ];
      }

      searched : Finds next node_ids start [] (dfs_each (dfs next fuel) node_ids start)
      searched =
          each_Finds next universe neighbours-universe (dfs next fuel) fuel
            (dfs-Finds next universe neighbours-universe fuel) node_ids start []
            (λ x m. (Member-append_left node_ids _ m, tt)) start-IsSearched
            (omega (
              arith,
              length-filter-le (λ (x : String). true) universe,
              length-append node_ids (map (λ e. or_empty e.target) edges),
              length-map edges (λ e. or_empty e.target),
            ))

      go :
          (r : Option (Bool × Marks))
          → dfs_each (dfs next fuel) node_ids start ≡ r
          → Finds next node_ids start [] r
          → (Cyclic next × (has_cycle edges node_ids fuel ≡ some true))
            ⊎ ((¬ Cyclic next) × (has_cycle edges node_ids fuel ≡ some false))
      go none e h = absurd h
      go (some (true, t)) e h = inl (h, rw (e, has_cycle))
      go (some (false, t)) e (more, g, fin) = inr (
        (λ c.
            topological_acyclic next more g.searched.topological (fin c.0 (listed_of_cycle c.1))
              c.1),
        rw (e, has_cycle),
      )
