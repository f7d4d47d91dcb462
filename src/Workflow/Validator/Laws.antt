-- ===== src/Workflow/Validator/Laws.antt =====
-- workflow-validator.service.ts: the checks and well-formed definitions.
use micro_saas_api.Base.{
  ℕ, suc, ◌+◌, ◌≡◌, ◌⊎◌, ◌↔◌, inl, inr, refl, Bool, true, false, not, ◌&&◌, List, [], ◌∷◌, ◌++◌,
  Option, String, str_eq, eq_iff, length, filter, map, Bool-cases, arith, All, ltb, ◌==◌,
}
use micro_saas_api.Workflow.Graph.{Edge, Node, neighbours}
use micro_saas_api.Workflow.Graph.Searched.{Cyclic}
use micro_saas_api.Workflow.Graph.Decides.{has_cycle_decides}
use micro_saas_api.Workflow.Validator.{
  Definition, Problem, no_trigger, many_triggers, disconnected, field_missing, question_missing,
  circular_loop, is_trigger, same_end, is_blank, report, trigger_problems, connected, edge_problems,
  node_problems, cycle_problems, validate,
}

-- A node that is no trigger touches an edge, and a question node has its field and its question.
pub record IsUsable (edges : List Edge) (n : Node) : Type 0 where
  pub joined : (is_trigger n ≡ true) ⊎ (connected edges n.id ≡ true)
  pub has_field : n.kind ≡ "collect_input" → is_blank n.field ≡ false
  pub has_question : n.kind ≡ "collect_input" → is_blank n.question ≡ false

pub record IsWellFormed (d : Definition) : Type 0 where
  pub one_trigger : length (filter is_trigger d.nodes) ≡ 1
  pub no_loops : All (λ e. same_end e.source e.target ≡ false) d.edges
  pub usable : All (IsUsable d.edges) d.nodes
  pub acyclic : ¬ Cyclic (neighbours d.edges (map (λ n. n.id) d.nodes))

append-eq-nil : (xs ys : List Problem) → (xs ++ ys) ≡ [] → (xs ≡ []) × (ys ≡ [])
append-eq-nil [] ys h = (refl, h)
append-eq-nil (x ∷ xs) ys h = cc

report-eq-nil : (b : Bool) (p : Problem) → report b p ≡ [] → b ≡ false
report-eq-nil true p h = cc
report-eq-nil false p h = refl

triggers_lem :
    (nodes : List Node) → (trigger_problems nodes ≡ []) ↔ (length (filter is_trigger nodes) ≡ 1)
unfolding trigger_problems
triggers_lem nodes = (λ h. from h, λ h. rw h refl)
  where
    from : trigger_problems nodes ≡ [] → length (filter is_trigger nodes) ≡ 1
    from h =
        let n = length (filter is_trigger nodes) in
        let (a, b) =
          append-eq-nil (report (n == 0) no_trigger) (report (ltb 1 n) many_triggers) h in
        ground (arith, report-eq-nil (n == 0) no_trigger a, report-eq-nil (ltb 1 n) many_triggers b)

edges_lem :
    (edges : List Edge)
    → (edge_problems edges ≡ []) ↔ All (λ e. same_end e.source e.target ≡ false) edges
unfolding edge_problems
edges_lem [] = (λ h. tt, λ h. refl)
edges_lem (e ∷ es) = (
  (λ h. let (a, b) = append-eq-nil _ _ h in (report-eq-nil _ circular_loop a, (edges_lem es).0 b)),
  λ h. rw h.0 ((edges_lem es).1 h.1),
)

module _ (edges : List Edge) (n : Node) where
  abbrev off : Bool
  off = not (is_trigger n) && not (connected edges n.id)

  abbrev asks : Bool
  asks = str_eq n.kind "collect_input"

  IsUsable-tests :
      off ≡ false
      → (asks && is_blank n.field) ≡ false
      → (asks && is_blank n.question) ≡ false
      → IsUsable edges n
  IsUsable-tests a b c = record {
    joined = ground (arith, a);
    has_field = λ e. ground (arith, b, (eq_iff n.kind "collect_input").1 e);
    has_question = λ e. ground (arith, c, (eq_iff n.kind "collect_input").1 e);
  }

  tests_of_IsUsable :
      IsUsable edges n
      → (off ≡ false)
        × ((asks && is_blank n.field) ≡ false)
        × ((asks && is_blank n.question) ≡ false)
  tests_of_IsUsable u =
      (ground (arith, u.joined), blank n.field u.has_field, blank n.question u.has_question)
    where
      blank :
          (s : Option String)
          → (n.kind ≡ "collect_input" → is_blank s ≡ false)
          → (asks && is_blank s) ≡ false
      blank s h = elim (Bool-cases asks) [
        | inl e ↦ rw (e, h ((eq_iff n.kind "collect_input").0 e)) refl
        | inr e ↦ rw e refl
      ]

reports-eq-nil :
    (a b c : Bool) (p q r : Problem) (rest : List Problem)
    → (report a p ++ (report b q ++ (report c r ++ rest))) ≡ []
    → (a ≡ false) × (b ≡ false) × (c ≡ false) × (rest ≡ [])
reports-eq-nil false false false p q r rest h = (refl, refl, refl, h)
reports-eq-nil true b c p q r rest h = cc
reports-eq-nil false true c p q r rest h = cc
reports-eq-nil false false true p q r rest h = cc

nodes_lem :
    (edges : List Edge) (nodes : List Node)
    → (node_problems edges nodes ≡ []) ↔ All (IsUsable edges) nodes
unfolding node_problems
nodes_lem edges [] = (λ h. tt, λ h. refl)
nodes_lem edges (n ∷ ns) = (
  (λ h.
      let (a, b, c, e) =
        reports-eq-nil (off edges n) (asks edges n && is_blank n.field)
          (asks edges n && is_blank n.question) (disconnected n.id) (field_missing n.id)
          (question_missing n.id) (node_problems edges ns) h in
      (IsUsable-tests edges n a b c, (nodes_lem edges ns).0 e)),
  λ h. let (a, b, c) = tests_of_IsUsable edges n h.0 in rw (a, b, c) ((nodes_lem edges ns).1 h.1),
)

cycles_lem :
    (edges : List Edge) (nodes : List Node)
    → (cycle_problems edges nodes ≡ []) ↔ (¬ Cyclic (neighbours edges (map (λ n. n.id) nodes)))
unfolding cycle_problems
cycles_lem edges nodes =
    let ids = map (λ (n : Node). n.id) nodes in
    elim (has_cycle_decides edges ids (suc (length ids + length edges)) (omega arith)) [
      | inl (c, e) ↦ rw (e, cycle_problems) ((λ h. cc), λ h. absurd (h c))
      | inr (c, e) ↦ rw (e, cycle_problems) ((λ h. c), λ h. refl)
    ]

-- The four checks together.
checks_lem :
    (d : Definition)
    → ((trigger_problems d.nodes
          ++ (edge_problems d.edges
              ++ (node_problems d.edges d.nodes ++ cycle_problems d.edges d.nodes)))
        ≡ [])
      ↔ IsWellFormed d
checks_lem d = (to, from)
  where
    to :
        (trigger_problems d.nodes
            ++ (edge_problems d.edges
                ++ (node_problems d.edges d.nodes ++ cycle_problems d.edges d.nodes)))
          ≡ []
        → IsWellFormed d
    to h =
        let (a, rest) = append-eq-nil (trigger_problems d.nodes) _ h in
        let (b, more) = append-eq-nil (edge_problems d.edges) _ rest in
        let (c, last) = append-eq-nil (node_problems d.edges d.nodes) _ more in
        record {
          one_trigger = (triggers_lem d.nodes).0 a;
          no_loops = (edges_lem d.edges).0 b;
          usable = (nodes_lem d.edges d.nodes).0 c;
          acyclic = (cycles_lem d.edges d.nodes).0 last;
        }

    from :
        IsWellFormed d
        → (trigger_problems d.nodes
            ++ (edge_problems d.edges
                ++ (node_problems d.edges d.nodes ++ cycle_problems d.edges d.nodes)))
          ≡ []
    from w =
        rw
          (
            (triggers_lem d.nodes).1 w.one_trigger,
            (edges_lem d.edges).1 w.no_loops,
            (nodes_lem d.edges d.nodes).1 w.usable,
          )
          ((cycles_lem d.edges d.nodes).1 w.acyclic)

validate-checks :
    (d : Definition) (n : Node) (ns : List Node)
    → d.nodes ≡ n ∷ ns
    → validate d
      ≡ trigger_problems d.nodes
        ++ (edge_problems d.edges
            ++ (node_problems d.edges d.nodes ++ cycle_problems d.edges d.nodes))
unfolding validate
validate-checks d n ns e = ground (arith, e)

-- The validator reports nothing exactly where the definition has one trigger node, no edge from a
-- node to itself, every other node on an edge, a field name and a question on every question node,
-- and no node that leads back to itself along the edges between its nodes.
pub validate-IsWellFormed : (d : Definition) → (validate d ≡ []) ↔ IsWellFormed d
unfolding validate
validate-IsWellFormed d = go d.nodes refl
  where
    go : (nodes : List Node) → d.nodes ≡ nodes → (validate d ≡ []) ↔ IsWellFormed d
    go [] e = ((λ h. cc (rw (e, validate) at h)), λ w. absurd (no_trigger_here e w.one_trigger))
      where
        no_trigger_here : d.nodes ≡ [] → length (filter is_trigger d.nodes) ≡ 1 → ⊥
        no_trigger_here e h = let k : ◌≡◌ {A = ℕ} 0 1 = rw e at h in absurd (omega arith)
    go (n ∷ ns) e = rw (validate-checks d n ns e) (checks_lem d)
