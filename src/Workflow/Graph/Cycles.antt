-- ===== src/Workflow/Graph/Cycles.antt =====
-- `hasCycle` of workflow-validator.service.ts: what one call of the search finds.
use micro_saas_api.Base.{
  ℕ, zero, suc, ◌≡◌, ◌≤◌, ◌<◌, inl, inr, refl, subst, Bool, true, false, not, List, [], ◌∷◌, Option,
  none, some, String, eq_iff, length, filter, Member, here, there, Bool-cases, arith,
}
use micro_saas_api.Workflow.Graph.{Marks, contains, dfs, dfs_each, enter}
use micro_saas_api.Workflow.Graph.Trails.{
  contains-Member, Member-contains, not_contains, length-filter_strict, length-filter_mono, Follows,
  trail_leads,
}
use micro_saas_api.Workflow.Graph.Searched.{
  IsSearched, GoesOn, Finds, Finds-after, leave-Finds, enter-IsSearched,
}

module _ (next : String → List String) where
  module _ (universe : List String)
      (closed : (a b : String) → Member b (next a) → Member b universe) where
    abbrev pub unseen : Marks → ℕ
    unseen s = length (filter (λ x. not (contains x s.visited)) universe)

    unseen_mono :
        (s t : Marks)
        → ((x : String) → Member x s.visited → Member x t.visited)
        → unseen t ≤ unseen s
    unseen_mono s t h = length-filter_mono _ _ universe λ x e.
        elim (Bool-cases (contains x s.visited)) [
          | inl d ↦ cc (Member-contains t.visited (h x (contains-Member x s.visited d)), e)
          | inr d ↦ ground (arith, d)
        ]

    unseen-enter :
        (node : String) (s : Marks)
        → Member node universe
        → contains node s.visited ≡ false
        → unseen (enter node s) < unseen s
    unseen-enter node s m e =
        length-filter_strict _ _ universe (λ x h. ground (arith, h)) m
          (ground (arith, eq_iff node node)) (ground (arith, e))

    -- The loop, by what the calls do.
    pub each_Finds :
        (f : String → Marks → Option (Bool × Marks)) (fuel : ℕ)
        → ((x : String) (s : Marks) (done : List String)
            → Member x universe
            → Follows next x s.stack
            → IsSearched next s done
            → unseen s < fuel
            → Finds next (x ∷ []) s done (f x s))
        → (nodes : List String) (s : Marks) (done : List String)
        → ((x : String) → Member x nodes → Member x universe × Follows next x s.stack)
        → IsSearched next s done
        → unseen s < fuel
        → Finds next nodes s done (dfs_each f nodes s)
    unfolding dfs_each
    each_Finds f fuel h [] s done at v lt = (
      done,
      record { searched = v; back = refl; kept = λ x m. m; grows = λ x m. m },
      λ x m. elim m [ ],
    )
    each_Finds f fuel h (x ∷ xs) s done at v lt =
        go (f x s) (h x s done (at x (here refl)).0 (at x (here refl)).1 v lt) λ t more g.
          each_Finds f fuel h xs t more (λ y m. let (u, w) = at y (there m) in (u, rw g.back w))
            g.searched (omega (arith, unseen_mono s t g.kept))
      where
        go :
            (r : Option (Bool × Marks))
            → Finds next (x ∷ []) s done r
            → ((t : Marks) (more : List String)
                → GoesOn next s t done more
                → Finds next xs t more (dfs_each f xs t))
            → Finds next (x ∷ xs) s done (elim r [
              | none ↦ none
              | some (true, t) ↦ some (true, t)
              | some (false, t) ↦ dfs_each f xs t
            ])
        go none r rest = r
        go (some (true, t)) r rest = r
        go (some (false, t)) (more, g, fin) rest =
            Finds-after next x xs s t done more g (fin x (here refl)) (dfs_each f xs t)
              (rest t more g)

    pub dfs-Finds :
        (fuel : ℕ) (node : String) (s : Marks) (done : List String)
        → Member node universe
        → Follows next node s.stack
        → IsSearched next s done
        → unseen s < fuel
        → Finds next (node ∷ []) s done (dfs next fuel node s)
    unfolding dfs
    dfs-Finds zero node s done m f v lt = absurd (omega arith)
    dfs-Finds (suc fuel) node s done m f v lt = elim (Bool-cases (contains node s.stack)) [
      | inl on ↦
          rw on (node, trail_leads next node s.stack v.trail f (contains-Member node s.stack on))
      | inr off ↦ elim (Bool-cases (contains node s.visited)) [
        | inl old ↦
            rw (off, old)
              (
                done,
                record { searched = v; back = refl; kept = λ x n. n; grows = λ x n. n },
                alone old off,
              )
        | inr new ↦
            rw (off, new)
              (leave-Finds next node s done v.trail off _ (
                each_Finds (dfs next fuel) fuel (dfs-Finds fuel) (next node) (enter node s) done
                  (λ x n. (closed node x n, n)) (enter-IsSearched next node s done f new v)
                  (omega (arith, unseen-enter node s m new))))
      ]
    ]
      where
        alone :
            contains node s.visited ≡ true
            → contains node s.stack ≡ false
            → (x : String) → Member x (node ∷ [])
            → Member x done
        alone old off x (here e) =
            subst (λ z. Member z done) e
              (elim (v.seen node (contains-Member node s.visited old)) [
                | inl d ↦ d
                | inr d ↦ absurd (not_contains s.stack off d)
              ])
        alone old off x (there n) = elim n [ ]
