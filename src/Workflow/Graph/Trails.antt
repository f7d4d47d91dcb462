-- ===== src/Workflow/Graph/Trails.antt =====
-- What the depth-first search has marked, and what a list of marked nodes says of the graph.
use micro_saas_api.Base.{
  ◌≡◌, ◌≤◌, ◌<◌, inl, inr, refl, sym, subst, Bool, true, false, not, List, [], ◌∷◌, String, str_eq,
  eq_iff, length, filter, Member, here, there, Bool-cases, arith,
}
use micro_saas_api.Workflow.Graph.{contains}

pub contains-Member : (x : String) (xs : List String) → contains x xs ≡ true → Member x xs
contains-Member x [] h = cc
contains-Member x (y ∷ ys) h = elim (Bool-cases (str_eq x y)) [
  | inl e ↦ here (sym ((eq_iff x y).0 e))
  | inr e ↦ there (contains-Member x ys (rw e at h))
]

pub Member-contains : {x : String} (xs : List String) → Member x xs → contains x xs ≡ true
Member-contains [] m = elim m [ ]
Member-contains {x} (y ∷ ys) (here e) = ground (arith, eq_iff x y)
Member-contains (y ∷ ys) (there m) = ground (arith, Member-contains ys m)

pub not_contains : {x : String} (xs : List String) → contains x xs ≡ false → ¬ Member x xs
not_contains xs h m = cc (Member-contains xs m)

-- Removing a text that is not there changes nothing.
pub filter-absent :
    (x : String) (xs : List String) → contains x xs ≡ false → filter (λ y. not (str_eq y x)) xs ≡ xs
filter-absent x [] h = refl
filter-absent x (y ∷ ys) h = ground (arith, eq_iff x y, eq_iff y x, filter-absent x ys)

module _ {ℓ} {A : Type ℓ} where
  pub length-filter_mono :
      (p q : A → Bool) (xs : List A)
      → ((x : A) → p x ≡ true → q x ≡ true)
      → length (filter p xs) ≤ length (filter q xs)
  length-filter_mono p q [] h = omega arith
  length-filter_mono p q (x ∷ xs) h = ground (arith, h x, length-filter_mono p q xs h)

  -- A member that only `q` lets through makes the difference strict.
  pub length-filter_strict :
      (p q : A → Bool) (xs : List A) {a : A}
      → ((x : A) → p x ≡ true → q x ≡ true)
      → Member a xs
      → p a ≡ false
      → q a ≡ true
      → length (filter p xs) < length (filter q xs)
  length-filter_strict p q [] h m pa qa = elim m [ ]
  length-filter_strict p q (x ∷ xs) h (here e) pa qa =
      rw (e, pa, qa) (omega (arith, length-filter_mono p q xs h))
  length-filter_strict p q (x ∷ xs) h (there m) pa qa =
      ground (arith, h x, length-filter_strict p q xs h m pa qa)

module _ (next : String → List String) where
  -- One edge or more.
  pub data Leads : String → String → Type 0 where
    edge : {a b : String} → Member b (next a) → Leads a b
    step : {a b c : String} → Member b (next a) → Leads b c → Leads a c

  pub Leads-trans : {a b c : String} → Leads a b → Leads b c → Leads a c
  Leads-trans (edge m) q = step m q
  Leads-trans (step m p) q = step m (Leads-trans p q)

  -- The node comes after the top of the stack.
  abbrev pub Follows : String → List String → Type 0
  Follows x [] = Unit
  Follows x (y ∷ ys) = Member x (next y)

  abbrev pub IsTrail : List String → Type 0
  IsTrail [] = Unit
  IsTrail (x ∷ xs) = Follows x xs × IsTrail xs

  -- Whatever is on the stack leads to what comes after its top.
  pub trail_leads :
      {a : String} (x : String) (stack : List String)
      → IsTrail stack
      → Follows x stack
      → Member a stack
      → Leads a x
  trail_leads x [] t f m = elim m [ ]
  trail_leads x (y ∷ ys) t f (here e) = subst (λ z. Leads z x) e (edge f)
  trail_leads x (y ∷ ys) t f (there m) = Leads-trans (trail_leads y ys t.1 t.0 m) (edge f)

  -- Finished nodes, the latest first: the neighbours of each were finished before it.
  abbrev pub IsTopological : List String → Type 0
  IsTopological [] = Unit
  IsTopological (x ∷ xs) =
      ((y : String) → Member y (next x) → Member y xs) × (¬ Member x xs) × IsTopological xs

  closed_edge :
      {a b : String} (done : List String)
      → IsTopological done
      → Member a done
      → Member b (next a)
      → Member b done
  closed_edge [] t m n = elim m [ ]
  closed_edge {b} (x ∷ xs) t (here e) n = there (t.0 b (subst (λ z. Member b (next z)) (sym e) n))
  closed_edge (x ∷ xs) t (there m) n = there (closed_edge xs t.2 m n)

  closed_leads :
      {a b : String} (done : List String)
      → IsTopological done
      → Member a done
      → Leads a b
      → Member b done
  closed_leads done t m (edge n) = closed_edge done t m n
  closed_leads done t m (step n p) = closed_leads done t (closed_edge done t m n) p

  head_acyclic :
      (x : String) (xs : List String) {y : String}
      → IsTopological (x ∷ xs)
      → Leads x y
      → Member y xs
  head_acyclic x xs {y} t (edge n) = t.0 y n
  head_acyclic x xs t (step {b} n p) = closed_leads xs t.2 (t.0 b n) p

  -- No finished node lies on a cycle.
  pub topological_acyclic :
      (done : List String) {a : String} → IsTopological done → Member a done → ¬ Leads a a
  topological_acyclic [] t m p = elim m [ ]
  topological_acyclic (x ∷ xs) t (here e) p =
      t.1 (head_acyclic x xs t (subst (λ z. Leads z z) (sym e) p))
  topological_acyclic (x ∷ xs) t (there m) p = topological_acyclic xs t.2 m p
