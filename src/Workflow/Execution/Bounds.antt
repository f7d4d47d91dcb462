-- ===== src/Workflow/Execution/Bounds.antt =====
-- workflow-execution.service.ts: what a walk logs in the rounds that are left, and the cases of a round.
use micro_saas_api.Base.{
  ℕ, suc, ◌+◌, ◌≡◌, ◌≢◌, ◌≤◌, inl, inr, refl, sym, subst, ◌∙◌, true, List, [], ◌∷◌, Option, some,
  String, str_eq, eq_iff, if◌then◌else◌, length, map, Member, here, there, Bool-cases, Option-cases,
  arith, Result, ok, err,
}
use micro_saas_api.Workflow.Graph.{Edge, Node, contains}
use micro_saas_api.Workflow.Context.{Context}
use micro_saas_api.Workflow.Execution.{NodeResult, executor_types, node_by_id}
use micro_saas_api.Workflow.Execution.Walk.{
  failed_node, completed_ok, running, Run, End, LogStatus, failed, too_many_nodes, visit,
  after_node, after_execute, log_of, logged, ends,
}

abbrev pub Nodup : List String → Type 0
Nodup [] = Unit
Nodup (x ∷ xs) = (¬ Member x xs) × Nodup xs

abbrev pub log_ids : Run → List String
log_ids r = map (λ l. l.node_id) r.logs

pub node_by_id-id :
    (id : String) (nodes : List Node) (n : Node) → node_by_id id nodes ≡ some n → n.id ≡ id
unfolding node_by_id
node_by_id-id id [] n h = cc
node_by_id-id id (m ∷ ms) n h = elim (Option-cases (node_by_id id ms)) [
  | inl e ↦ ground (arith, e, eq_iff m.id id)
  | inr (k, e) ↦ node_by_id-id id ms n (ground (arith, e))
]

pub node_by_id-listed :
    (id : String) (nodes : List Node) (n : Node)
    → node_by_id id nodes ≡ some n
    → Member id (map (λ n. n.id) nodes)
unfolding node_by_id
node_by_id-listed id [] n h = cc
node_by_id-listed id (m ∷ ms) n h = elim (Option-cases (node_by_id id ms)) [
  | inl e ↦ here (ground (arith, e, eq_iff m.id id))
  | inr (k, e) ↦ there (node_by_id-listed id ms k e)
]

-- Distinct members of a list are no more than its length.
remove : String → List String → List String
remove x [] = []
remove x (y ∷ ys) = if str_eq y x then ys else y ∷ remove x ys

length-remove : (x : String) (ys : List String) → Member x ys → length (remove x ys) + 1 ≡ length ys
unfolding remove
length-remove x [] m = elim m [ ]
length-remove x (y ∷ ys) (here e) = ground (arith, eq_iff y x)
length-remove x (y ∷ ys) (there m) = ground (arith, length-remove x ys m)

Member-remove :
    {a : String} (x : String) (ys : List String) → Member a ys → a ≢ x → Member a (remove x ys)
unfolding remove
Member-remove x [] m ne = elim m [ ]
Member-remove {a} x (y ∷ ys) m ne = elim (Bool-cases (str_eq y x)) [
  | inl e ↦ rw e (in_tail e m)
  | inr e ↦ rw e (keep m (λ n. Member-remove x ys n ne))
]
  where
    in_tail : str_eq y x ≡ true → Member a (y ∷ ys) → Member a ys
    in_tail e (here d) = absurd (ne (sym d ∙ (eq_iff y x).0 e))
    in_tail e (there n) = n

    keep : Member a (y ∷ ys) → (Member a ys → Member a (remove x ys)) → Member a (y ∷ remove x ys)
    keep (here d) f = here d
    keep (there n) f = there (f n)

pub length-Nodup_le :
    (xs ys : List String)
    → Nodup xs
    → ((x : String) → Member x xs → Member x ys)
    → length xs ≤ length ys
length-Nodup_le [] ys d h = omega arith
length-Nodup_le (x ∷ xs) ys d h = omega (
  arith,
  length-remove x ys (h x (here refl)),
  length-Nodup_le xs (remove x ys) d.1
      (λ y m. Member-remove x ys (h y (there m)) (λ e. d.0 (subst (λ z. Member z xs) e m))),
)

-- What a walk that has visited `visited` and has `left` rounds may still do.
pub record IsBounded (left : ℕ) (visited : List String) (r : Run) : Type 0 where
  pub few : length r.logs ≤ left
  pub once : Nodup (log_ids r)
  pub fresh : (x : String) → Member x (log_ids r) → ¬ Member x visited

pub ends-IsBounded : (left : ℕ) (visited : List String) (e : End) → IsBounded left visited (ends e)
ends-IsBounded left visited e = record { few = omega arith; once = tt; fresh = λ x m. elim m [ ] }

-- A round may use one of the rounds left, for the node that it marks.
pub logged-IsBounded :
    (left : ℕ) (visited : List String) (node : Node) (id : String) (status : LogStatus) (r : Run)
    → node.id ≡ id
    → ¬ Member id visited
    → IsBounded left (id ∷ visited) r
    → IsBounded (suc left) visited (logged (log_of node status) r)
logged-IsBounded left visited node id status r same new b = record {
  few = omega (arith, b.few);
  once = ((λ m. b.fresh node.id m (here (sym same))), b.once);
  fresh = fresh';
}
  where
    fresh' : (x : String) → Member x (log_ids (logged (log_of node status) r)) → ¬ Member x visited
    fresh' x (here e) n = new (subst (λ z. Member z visited) (sym e ∙ same) n)
    fresh' x (there m) n = b.fresh x m (there n)

pub weaken-IsBounded :
    (left : ℕ) (visited : List String) (id : String) (r : Run)
    → IsBounded left (id ∷ visited) r
    → IsBounded (suc left) visited r
weaken-IsBounded left visited id r b = record {
  few = omega (arith, b.few);
  once = b.once;
  fresh = λ x m n. b.fresh x m (there n);
}

module _ (edges : List Edge) where
  -- The four ways on from a node that has run.
  after_node_cases {ℓ} :
      (P : Run → Type ℓ) (node : Node) (c : Context) (r : NodeResult)
      (rest : Option String → Context → Run)
      → ((status : LogStatus) (e : End)
          → e ≢ failed too_many_nodes
          → P (logged (log_of node status) (ends e)))
      → ((next : Option String) (d : Context) → P (logged (log_of node completed_ok) (rest next d)))
      → P (after_node edges node c r rest)
  after_node_cases P node c r rest stops goes = elim (Bool-cases r.success) [
    | inr e ↦ simp e (stops failed_node _ (λ h. cc))
    | inl e ↦ elim (Bool-cases r.pause) [
      | inl p ↦ simp (e, p) (stops completed_ok _ (λ h. cc))
      | inr p ↦ elim (Bool-cases (str_eq node.kind "delay")) [
        | inl d ↦ simp (e, p, d) (stops completed_ok _ (λ h. cc))
        | inr d ↦ elim (Bool-cases r.stop) [
          | inl s ↦ simp (e, p, d, s) (stops completed_ok _ (λ h. cc))
          | inr s ↦ simp (e, p, d, s) (goes _ _)
        ]
      ]
    ]
  ]

  after_execute_cases {ℓ} :
      (P : Run → Type ℓ) (node : Node) (c : Context) (o : Result String NodeResult)
      (rest : Option String → Context → Run)
      → ((status : LogStatus) (e : End)
          → e ≢ failed too_many_nodes
          → P (logged (log_of node status) (ends e)))
      → ((next : Option String) (d : Context) → P (logged (log_of node completed_ok) (rest next d)))
      → P (after_execute edges node c o rest)
  unfolding after_execute
  after_execute_cases P node c (ok r) rest stops goes = after_node_cases P node c r rest stops goes
  after_execute_cases P node c (err m) rest stops goes = stops running _ (λ h. cc)

  module _ (execute : Node → Context → Result String NodeResult) (nodes : List Node) where
    pub visit_cases {ℓ} :
        (P : Run → Type ℓ) (node : Node) (c : Context) (rest : Option String → Context → Run)
        → ((status : LogStatus) (e : End)
            → e ≢ failed too_many_nodes
            → P (logged (log_of node status) (ends e)))
        → ((next : Option String) (d : Context)
            → P (logged (log_of node completed_ok) (rest next d)))
        → ((next : Option String) (d : Context) → P (rest next d))
        → P (visit execute nodes edges node c rest)
    unfolding visit
    visit_cases P node c rest stops goes passes =
        elim (Bool-cases (contains node.kind executor_types)) [
          | inr e ↦ simp e (passes _ _)
          | inl e ↦ simp e (after_execute_cases P node c (execute node c) rest stops goes)
        ]
