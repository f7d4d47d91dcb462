-- ===== src/Workflow/Graph/Searched.antt =====
-- `hasCycle` of workflow-validator.service.ts: what the marks say of a search that goes on.
use micro_saas_api.Base.{
  ◌≡◌, ◌⊎◌, inl, inr, refl, sym, subst, ◌∙◌, Bool, true, false, not, List, [], ◌∷◌, Option, none,
  some, String, str_eq, eq_iff, filter, Member, here, there, arith,
}
use micro_saas_api.Workflow.Graph.{Marks, contains, enter, leave}
use micro_saas_api.Workflow.Graph.Trails.{
  not_contains, filter-absent, Leads, Follows, IsTrail, IsTopological,
}

module _ (next : String → List String) where
  -- `done` lists the finished nodes, the latest first: all that is marked and not on the stack.
  pub record IsSearched (s : Marks) (done : List String) : Type 0 where
    pub trail : IsTrail next s.stack
    pub topological : IsTopological next done
    pub seen : (x : String) → Member x s.visited → Member x done ⊎ Member x s.stack
    pub apart : (x : String) → Member x done → ¬ Member x s.stack
    pub marked : (x : String) → Member x done → Member x s.visited

  -- From `s` the search has gone on to `t`, and is back where it was.
  pub record GoesOn (s t : Marks) (done more : List String) : Type 0 where
    pub searched : IsSearched t more
    pub back : t.stack ≡ s.stack
    pub kept : (x : String) → Member x s.visited → Member x t.visited
    pub grows : (x : String) → Member x done → Member x more

  abbrev pub Cyclic : Type 0
  Cyclic = (a : String) × Leads next a a

  -- What a call returns: `true` with a cycle, or `false` with all of `nodes` finished. It has enough
  -- fuel, so `none` is no result.
  abbrev pub Finds : List String → Marks → List String → Option (Bool × Marks) → Type 0
  Finds nodes s done none = ⊥
  Finds nodes s done (some (true, t)) = Cyclic
  Finds nodes s done (some (false, t)) =
      (more : List String) × GoesOn s t done more × ((x : String) → Member x nodes → Member x more)

  pub Finds-after :
      (x : String) (xs : List String) (s t : Marks) (done more : List String)
      → GoesOn s t done more
      → Member x more
      → (r : Option (Bool × Marks)) → Finds xs t more r
      → Finds (x ∷ xs) s done r
  Finds-after x xs s t done more g m none h = h
  Finds-after x xs s t done more g m (some (true, u)) h = h
  Finds-after x xs s t done more g m (some (false, u)) (last, k, fin) = (
    last,
    record {
      searched = k.searched;
      back = k.back ∙ g.back;
      kept = λ y n. k.kept y (g.kept y n);
      grows = λ y n. k.grows y (g.grows y n);
    },
    all_of,
  )
    where
      all_of : (y : String) → Member y (x ∷ xs) → Member y last
      all_of y (here e) = subst (λ z. Member z last) e (k.grows x m)
      all_of y (there n) = fin y n

  pub enter-IsSearched :
      (node : String) (s : Marks) (done : List String)
      → Follows next node s.stack
      → contains node s.visited ≡ false
      → IsSearched s done
      → IsSearched (enter node s) done
  enter-IsSearched node s done f new v = record {
    trail = (f, v.trail);
    topological = v.topological;
    seen = seen';
    apart = apart';
    marked = λ x m. there (v.marked x m);
  }
    where
      seen' : (x : String) → Member x (node ∷ s.visited) → Member x done ⊎ Member x (node ∷ s.stack)
      seen' x (here e) = inr (here e)
      seen' x (there m) = elim (v.seen x m) [ inl d ↦ inl d | inr d ↦ inr (there d) ]

      apart' : (x : String) → Member x done → ¬ Member x (node ∷ s.stack)
      apart' x m (here e) =
          not_contains s.visited new (v.marked node (subst (λ z. Member z done) (sym e) m))
      apart' x m (there n) = v.apart x m n

  leave-IsSearched :
      (node : String) (s t : Marks) (more : List String)
      → IsTrail next s.stack
      → contains node s.stack ≡ false
      → IsSearched t more
      → t.stack ≡ node ∷ s.stack
      → Member node t.visited
      → ((x : String) → Member x (next node) → Member x more)
      → IsSearched (record { visited = t.visited; stack = s.stack }) (node ∷ more)
  leave-IsSearched node s t more trail off v back marked fin = record {
    trail = trail;
    topological = (fin, (λ m. v.apart node m (rw back (here refl))), v.topological);
    seen = λ x m. elim (v.seen x m) [ inl d ↦ inl (there d) | inr d ↦ from_stack x (rw back at d) ];
    apart = apart';
    marked = marked';
  }
    where
      from_stack :
          (x : String) → Member x (node ∷ s.stack) → Member x (node ∷ more) ⊎ Member x s.stack
      from_stack x (here e) = inl (here e)
      from_stack x (there m) = inr m

      apart' : (x : String) → Member x (node ∷ more) → ¬ Member x s.stack
      apart' x (here e) n = not_contains s.stack off (subst (λ z. Member z s.stack) (sym e) n)
      apart' x (there m) n = v.apart x m (rw back (there n))

      marked' : (x : String) → Member x (node ∷ more) → Member x t.visited
      marked' x (here e) = subst (λ z. Member z t.visited) e marked
      marked' x (there m) = v.marked x m

  -- All neighbours of a node are finished: so is the node.
  pub leave-Finds :
      (node : String) (s : Marks) (done : List String)
      → IsTrail next s.stack
      → contains node s.stack ≡ false
      → (r : Option (Bool × Marks)) → Finds (next node) (enter node s) done r
      → Finds (node ∷ []) s done (leave node r)
  leave-Finds node s done trail off none h = h
  leave-Finds node s done trail off (some (true, t)) h = h
  leave-Finds node s done trail off (some (false, t)) (more, g, fin) = (
    node ∷ more,
    record {
      searched = rw back' (
          leave-IsSearched node s t more trail off g.searched g.back (g.kept node (here refl)) fin);
      back = back';
      kept = λ x m. g.kept x (there m);
      grows = λ x m. there (g.grows x m);
    },
    alone,
  )
    where
      alone : (x : String) → Member x (node ∷ []) → Member x (node ∷ more)
      alone x (here e) = here e
      alone x (there m) = elim m [ ]

      back' : filter (λ x. not (str_eq x node)) t.stack ≡ s.stack
      back' = rw g.back (ground (arith, eq_iff node node, filter-absent node s.stack off))
