-- ===== src/Workflow/Execution/Rounds.antt =====
-- The loop of workflow-execution.service.ts: how often it goes round, and where it may go.
use micro_saas_api.Workflow.Validator.{is_trigger, validate, Problem, Definition}
use micro_saas_api.Base.{
  find, ap, refl, [], ℕ, zero, suc, ◌+◌, ◌≡◌, ◌≢◌, ◌<◌, inl, inr, subst, List, ◌∷◌, Option, none,
  some, String, length, map, Member, here, there, Bool-cases, Option-cases, arith, Result,
}
use micro_saas_api.Workflow.Graph.{Edge, Node, contains}
use micro_saas_api.Workflow.Graph.Trails.{not_contains}
use micro_saas_api.Workflow.Context.{Context}
use micro_saas_api.Workflow.Execution.{max_nodes, NodeResult, node_by_id}
use micro_saas_api.Workflow.Execution.Walk.{
  run_checked, End, ends, Run, Failure, run_definition, failed, too_many_nodes, walk, completed_ok,
}
use micro_saas_api.Workflow.Execution.Bounds.{
  IsBounded, Nodup, ends-IsBounded, logged-IsBounded, weaken-IsBounded, visit_cases, node_by_id-id,
  node_by_id-listed, length-Nodup_le,
}

module _ (execute : Node → Context → Result String NodeResult) (nodes : List Node)
    (edges : List Edge) where
  pub walk-IsBounded :
      (left : ℕ) (visited : List String) (current : Option String) (c : Context)
      → IsBounded left visited (walk execute nodes edges left visited current c)
  unfolding walk
  walk-IsBounded left visited none c = ends-IsBounded left visited _
  walk-IsBounded zero visited (some id) c = elim (Bool-cases (contains id visited)) [
    | inl e ↦ simp e (ends-IsBounded zero visited _)
    | inr e ↦ simp e (ends-IsBounded zero visited _)
  ]
  walk-IsBounded (suc left) visited (some id) c = elim (Bool-cases (contains id visited)) [
    | inl e ↦ simp e (ends-IsBounded (suc left) visited _)
    | inr e ↦ elim (Option-cases (node_by_id id nodes)) [
      | inl m ↦ simp (e, m) (ends-IsBounded (suc left) visited _)
      | inr (node, m) ↦
          simp (e, m)
            (visit_cases edges execute nodes (IsBounded (suc left) visited) node c
              (walk execute nodes edges left (id ∷ visited))
              (λ status e' ne.
                logged-IsBounded left visited node id status _ (node_by_id-id id nodes node m)
                  (not_contains visited e) (ends-IsBounded left (id ∷ visited) _))
              (λ next d.
                logged-IsBounded left visited node id completed_ok _ (node_by_id-id id nodes node m)
                  (not_contains visited e) (walk-IsBounded left (id ∷ visited) next d))
              (λ next d.
                weaken-IsBounded left visited id _ (walk-IsBounded left (id ∷ visited) next d)))
    ]
  ]

  -- Nodes left to visit are fewer than the rounds left.
  walk-few_nodes :
      (left : ℕ) (visited : List String) (current : Option String) (c : Context)
      → Nodup visited
      → ((x : String) → Member x visited → Member x (map (λ n. n.id) nodes))
      → length (map (λ (n : Node). n.id) nodes) < length visited + left
      → (walk execute nodes edges left visited current c).end ≢ failed too_many_nodes
  unfolding walk
  walk-few_nodes left visited none c d k h = λ p. cc
  walk-few_nodes zero visited (some id) c d k h =
      absurd (omega (arith, length-Nodup_le visited _ d k))
  walk-few_nodes (suc left) visited (some id) c d k h = elim (Bool-cases (contains id visited)) [
    | inl e ↦ simp e (λ p. cc)
    | inr e ↦ elim (Option-cases (node_by_id id nodes)) [
      | inl m ↦ simp (e, m) (λ p. cc)
      | inr (node, m) ↦
          simp (e, m)
            (visit_cases edges execute nodes (λ r. r.end ≢ failed too_many_nodes) node c
              (walk execute nodes edges left (id ∷ visited)) (λ status e' ne. ne)
              (λ next d'.
                walk-few_nodes left (id ∷ visited) next d' (not_contains visited e, d)
                  (listed node m) (omega (arith, h)))
              (λ next d'.
                walk-few_nodes left (id ∷ visited) next d' (not_contains visited e, d)
                  (listed node m) (omega (arith, h))))
    ]
  ]
    where
      listed :
          (node : Node)
          → node_by_id id nodes ≡ some node
          → (x : String) → Member x (id ∷ visited)
          → Member x (map (λ n. n.id) nodes)
      listed node m x (here e) =
          subst (λ z. Member z (map (λ n. n.id) nodes)) e (node_by_id-listed id nodes node m)
      listed node m x (there n) = k x n

-- A run of a definition fails a check, or walks from its start.
run_checked_cases {ℓ} :
    (P : Run → Type ℓ) (execute : Node → Context → Result String NodeResult) (d : Definition)
    (context : Context) (problems : List Problem) (trigger : Option Node)
    → ((f : Failure) → f ≢ too_many_nodes → P (ends (failed f)))
    → ((start : String) (c : Context)
        → P (walk execute d.nodes d.edges max_nodes [] (some start) c))
    → P (run_checked execute d context problems trigger)
unfolding run_checked
run_checked_cases P execute d context (p ∷ ps) trigger fails walks = fails _ (λ h. cc)
run_checked_cases P execute d context [] none fails walks = fails _ (λ h. cc)
run_checked_cases P execute d context [] (some t) fails walks = walks _ _

-- A run of any definition, from any context and with any node executors, logs at most `MAX_NODES`
-- nodes and none of them twice, however the definition's edges lead.
pub run_definition-IsBounded :
    (execute : Node → Context → Result String NodeResult) (d : Definition) (context : Context)
    → IsBounded max_nodes [] (run_definition execute d context)
unfolding run_definition
run_definition-IsBounded execute d context =
    run_checked_cases (IsBounded max_nodes []) execute d context (validate d)
      (find is_trigger d.nodes) (λ f ne. ends-IsBounded max_nodes [] _)
      (λ start c. walk-IsBounded execute d.nodes d.edges max_nodes [] (some start) c)

length-map : (ns : List Node) → length (map (λ (n : Node). n.id) ns) ≡ length ns
length-map [] = refl
length-map (n ∷ ns) = ap suc (length-map ns)

abbrev failure_of : Failure → End → Failure
failure_of f (failed g) = g
failure_of f _ = f

-- A run of a definition with fewer nodes than `MAX_NODES` never fails for having too many.
pub few_nodes-suffice :
    (execute : Node → Context → Result String NodeResult) (d : Definition) (context : Context)
    → length d.nodes < max_nodes
    → ¬ ((run_definition execute d context).end ≡ failed too_many_nodes)
unfolding run_definition
few_nodes-suffice execute d context h =
    run_checked_cases (λ (r : Run). ¬ (r.end ≡ failed too_many_nodes)) execute d context
      (validate d) (find is_trigger d.nodes) (λ f ne e. ne (ap (failure_of too_many_nodes) e))
      (λ start c.
        walk-few_nodes execute d.nodes d.edges max_nodes [] (some start) c tt (λ x m. elim m [ ])
          (rw (length-map d.nodes) h))
