-- ===== src/Workflow/Execution/Edges.antt =====
-- `resolveNextNodeId` of workflow-execution.service.ts and the edges of the definition.
use micro_saas_api.Base.{
  ◌≡◌, inl, inr, refl, sym, ap, ◌∙◌, Bool, true, ◌||◌, List, [], ◌∷◌, Option, none, some, String,
  str_eq, eq_iff, find, Member, here, there, Bool-cases, Option-cases, arith,
}
use micro_saas_api.Workflow.Graph.{Edge, Node, is_text}
use micro_saas_api.Workflow.Execution.{
  NodeResult, resolve_next, condition_target, outgoing, target_of, first_target, success_target,
  is_unlabeled, api_target, error_target,
}

-- An edge of the list that goes to a text.
abbrev pub HasTarget : List Edge → String → Type 0
HasTarget edges t = (e : Edge) × (Member e edges × (e.target ≡ some t))

pub record IsEdgeFrom (edges : List Edge) (node : Node) (t : String) (e : Edge) : Type 0 where
  pub listed : Member e edges
  pub leaves : e.source ≡ some node.id
  pub arrives : e.target ≡ some t

find-Member : (p : Edge → Bool) (es : List Edge) (e : Edge) → find p es ≡ some e → Member e es
find-Member p [] e h = cc
find-Member p (x ∷ es) e h = elim (Bool-cases (p x)) [
  | inl y ↦ here (ground (arith, y))
  | inr n ↦ there (find-Member p es e (rw n at h))
]

target_of-HasTarget :
    (p : Edge → Bool) (es : List Edge) (t : String)
    → target_of (find p es) ≡ some t
    → HasTarget es t
target_of-HasTarget p es t h = elim (Option-cases (find p es)) [
  | inl n ↦ absurd (ground (arith, n))
  | inr (e, y) ↦ (e, (find-Member p es e y, rw y at h))
]

first_target-HasTarget : (es : List Edge) (t : String) → first_target es ≡ some t → HasTarget es t
first_target-HasTarget [] t h = cc
first_target-HasTarget (e ∷ es) t h = (e, (here refl, h))

condition_target-HasTarget :
    (es : List Edge) (b t : String) → condition_target es b ≡ some t → HasTarget es t
unfolding condition_target
condition_target-HasTarget es b t h =
    elim (Option-cases (find (λ e. is_text e.source_handle b) es)) [
      | inr (e, y) ↦ (e, (find-Member _ es e y, rw (y, condition_target) at h))
      | inl n ↦ elim (Bool-cases (str_eq b "true")) [
        | inl y ↦ target_of-HasTarget is_unlabeled es t (rw (n, condition_target, y) at h)
        | inr m ↦ absurd (ground (arith, n, m))
      ]
    ]

error_target-HasTarget :
    (es : List Edge) (r : NodeResult) (t : String) → error_target es r ≡ some t → HasTarget es t
error_target-HasTarget es r t h =
    target_of-HasTarget (λ e. is_text e.source_handle "error") es t (ground (arith))

success_target-HasTarget :
    (es : List Edge) (t : String) → success_target es ≡ some t → HasTarget es t
success_target-HasTarget es t h =
    elim (Option-cases
      (target_of (find (λ e. is_text e.source_handle "true" || is_unlabeled e) es))) [
        | inl n ↦ first_target-HasTarget es t (rw (n, success_target) at h)
        | inr (u, y) ↦ target_of-HasTarget _ es t (y ∙ (rw (y, success_target) at h))
      ]

api_target-HasTarget :
    (es : List Edge) (r : Option NodeResult) (t : String)
    → api_target es r ≡ some t
    → HasTarget es t
api_target-HasTarget es none t h = success_target-HasTarget es t h
api_target-HasTarget es (some r) t h = elim (Option-cases (error_target es r)) [
  | inl n ↦ success_target-HasTarget es t (rw (n, api_target) at h)
  | inr (u, y) ↦ error_target-HasTarget es r t (y ∙ (rw (y, api_target) at h))
]

next-HasTarget :
    (edges : List Edge) (node : Node) (r : Option NodeResult) (t : String)
    → resolve_next edges node r ≡ some t
    → HasTarget (outgoing edges node) t
unfolding resolve_next
next-HasTarget edges node none t h = elim (Bool-cases (str_eq node.kind "api")) [
  | inl y ↦ api_target-HasTarget _ none t (rw (y, success_target) at h)
  | inr n ↦ first_target-HasTarget _ t (rw (n, success_target) at h)
]
next-HasTarget edges node (some r) t h = elim (Bool-cases (str_eq node.kind "condition")) [
  | inl y ↦ condition_target-HasTarget _ _ t (rw (y, success_target) at h)
  | inr m ↦ elim (Bool-cases (str_eq node.kind "api")) [
    | inl y ↦ api_target-HasTarget _ (some r) t (rw (m, y) at h)
    | inr n ↦ first_target-HasTarget _ t (rw (m, n) at h)
  ]
]

is_text_lem : (o : Option String) (t : String) → is_text o t ≡ true → o ≡ some t
is_text_lem none t h = cc
is_text_lem (some s) t h = ap some ((eq_iff s t).0 h)

outgoing_lem :
    (edges : List Edge) (node : Node) (e : Edge)
    → Member e (outgoing edges node)
    → Member e edges × (e.source ≡ some node.id)
outgoing_lem [] node e m = elim m [ ]
outgoing_lem (x ∷ es) node e m = elim (Bool-cases (is_text x.source node.id)) [
  | inl y ↦
      first (is_text_lem x.source node.id y) (outgoing_lem es node e) (simp (outgoing, y) at m)
  | inr n ↦ let (a, b) = outgoing_lem es node e (simp (outgoing, n) at m) in (there a, b)
]
  where
    first :
        x.source ≡ some node.id
        → (Member e (outgoing es node) → Member e es × (e.source ≡ some node.id))
        → Member e (x ∷ outgoing es node)
        → Member e (x ∷ es) × (e.source ≡ some node.id)
    first s f (here d) = (here d, ap (λ z. z.source) (sym d) ∙ s)
    first s f (there n) = let (a, b) = f n in (there a, b)

-- The node after a node is the target of an edge of the definition that leaves it, whatever the
-- node's type and result.
pub resolve_next-IsEdgeFrom :
    (edges : List Edge) (node : Node) (r : Option NodeResult) (t : String)
    → resolve_next edges node r ≡ some t
    → (e : Edge) × IsEdgeFrom edges node t e
resolve_next-IsEdgeFrom edges node r t h =
    let (e, (m, arrives)) = next-HasTarget edges node r t h in
    let (listed, leaves) = outgoing_lem edges node e m in
    (e, record { listed = listed; leaves = leaves; arrives = arrives })
