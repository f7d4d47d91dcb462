-- ===== src/Workflow/Selection/Best.antt =====
-- workflow-selection.util.ts: the workflow that is selected is the best one.
use micro_saas_api.Base.{
  ℕ, ◌≡◌, ◌≢◌, ◌≤◌, ◌<◌, ◌⊎◌, inl, inr, refl, subst, ap, true, false, List, [], ◌∷◌, Option, none,
  some, filter, Member, here, there, Bool-cases, Option-cases, arith, All, All-Member, Member-All,
  Member-filter, Member-unfilter, front, ltb,
}
use micro_saas_api.Text.{Text}
use micro_saas_api.Workflow.Selection.{
  Workflow, is_tagged, select_workflow_for_business, Candidate, trigger_hit_count, updated_at_ms,
  comes_before, insert_candidate, sort_candidates, candidates, has_keyword, pool_of,
  select_workflow_for_message,
}

-- The first of a sorted list: a member that no other comes before.
abbrev Tops : Candidate → List Candidate → Type 0
Tops c cs = Member c cs × All (λ d. comes_before d c ≡ false) cs

not_before_trans :
    (a b c : Candidate)
    → comes_before a b ≡ false
    → comes_before b c ≡ false
    → comes_before a c ≡ false
not_before_trans a b c h k = ground (arith, h, k)

before_asym : (a b : Candidate) → comes_before a b ≡ true → comes_before b a ≡ false
before_asym a b h = ground (arith, h)

not_before_refl : (a : Candidate) → comes_before a a ≡ false
not_before_refl a = ground arith

-- A sorted list is empty with its list, or its first comes before nothing.
abbrev Sorted : List Candidate → List Candidate → Type 0
Sorted cs sorted =
    ((cs ≡ []) × (sorted ≡ []))
    ⊎ ((c : Candidate) × ((ds : List Candidate) × ((sorted ≡ c ∷ ds) × Tops c cs)))

insert_candidate-Sorted :
    (c : Candidate) (cs sorted : List Candidate)
    → Sorted cs sorted
    → Sorted (c ∷ cs) (insert_candidate c sorted)
insert_candidate-Sorted c cs sorted (inl (empty, e)) =
    rw (empty, e) (inr (c, ([], (refl, (here refl, (not_before_refl c, tt))))))
insert_candidate-Sorted c cs sorted (inr (d, (ds, (e, (m, best))))) =
    rw e (elim (Bool-cases (comes_before d c)) [
      | inl y ↦
          rw y (inr (d, (insert_candidate c ds, (refl, (there m, (before_asym d c y, best))))))
      | inr n ↦ rw n (
          inr (
            c,
            (
              d ∷ ds,
              (
                refl,
                (
                  here refl,
                  (
                    not_before_refl c,
                    Member-All _ cs (λ x k. not_before_trans x d c (All-Member _ cs best k) n),
                  ),
                ),
              ),
            ),
          ))
    ])

sort_candidates-Sorted : (cs : List Candidate) → Sorted cs (sort_candidates cs)
sort_candidates-Sorted [] = inl (refl, refl)
sort_candidates-Sorted (c ∷ cs) =
    insert_candidate-Sorted c cs (sort_candidates cs) (sort_candidates-Sorted cs)

-- The hits of a workflow, if it matches, are fewer, or as many and the workflow is not newer.
abbrev pub Beats : ℕ → Workflow → Text → Text → Workflow → Type 0
Beats hits w text channel v = elim (trigger_hit_count v text channel) [
  | none ↦ Unit
  | some n ↦ (n < hits) ⊎ ((n ≡ hits) × (updated_at_ms v ≤ updated_at_ms w))
]

-- What a selection answers with.
abbrev pub IsSelected : List Workflow → Text → Text → Option Workflow → Type 0
IsSelected ws text channel answer =
    ((answer ≡ none) × All (λ v. trigger_hit_count v text channel ≡ none) ws)
    ⊎ ((w : Workflow) × ((hits : ℕ) × ((answer ≡ some w)
            × (Member w ws
                × ((trigger_hit_count w text channel ≡ some hits)
                    × All (Beats hits w text channel) ws)))))

List-cases {ℓ} :
    {A : Type ℓ} (xs : List A) → (xs ≡ []) ⊎ ((x : A) × ((ys : List A) × (xs ≡ x ∷ ys)))
List-cases [] = inl refl
List-cases (x ∷ xs) = inr (x, (xs, refl))

-- The pool holds the best candidates.
pool_of-Tops : (c : Candidate) (cs : List Candidate) → Tops c (pool_of cs) → Tops c cs
pool_of-Tops c cs t = elim (List-cases (filter has_keyword cs)) [
  | inl e ↦ rw (pool_of, e) at t
  | inr (k, (ks, e)) ↦
      let pool : Tops c (filter has_keyword cs) = rw e (rw (pool_of, e) at t) in
      let (m, keyword) = Member-unfilter has_keyword cs pool.0 in
      (
        m,
        Member-All _ cs λ d i. elim (Bool-cases (has_keyword d)) [
          | inl y ↦ All-Member _ (filter has_keyword cs) pool.1 (Member-filter has_keyword cs i y)
          | inr n ↦ ground (arith, keyword, n)
        ],
      )
]

pool_of-empty : (cs : List Candidate) → pool_of cs ≡ [] → cs ≡ []
pool_of-empty cs h = elim (List-cases (filter has_keyword cs)) [
  | inl e ↦ rw (pool_of, e) at h
  | inr (k, (ks, e)) ↦ let absurdity : k ∷ ks ≡ [] = rw (pool_of, e) at h in cc
]

candidates-none :
    (text channel : Text) (ws : List Workflow)
    → candidates text channel ws ≡ []
    → All (λ v. trigger_hit_count v text channel ≡ none) ws
candidates-none text channel [] h = tt
candidates-none text channel (w ∷ ws) h = elim (Option-cases (trigger_hit_count w text channel)) [
  | inl n ↦ (n, candidates-none text channel ws (rw n at h))
  | inr (hits, e) ↦
      let k : Path (List Candidate)
          (record { workflow = w; hits = hits } ∷ candidates text channel ws) [] =
        rw e at h in
      cc
]

candidates-Member :
    (text channel : Text) (ws : List Workflow) (c : Candidate)
    → Member c (candidates text channel ws)
    → Member c.workflow ws × (trigger_hit_count c.workflow text channel ≡ some c.hits)
candidates-Member text channel [] c m = elim m [ ]
candidates-Member text channel (w ∷ ws) c m =
    elim (Option-cases (trigger_hit_count w text channel)) [
      | inl n ↦ let (i, e) = candidates-Member text channel ws c (rw n at m) in (there i, e)
      | inr (hits, e) ↦ elim (front (rw e at m)) [
        | inl same ↦ (
          here (ap (λ x. x.workflow) same),
          subst (λ x. trigger_hit_count x.workflow text channel ≡ some x.hits) same e,
        )
        | inr n ↦ let (i, k) = candidates-Member text channel ws c n in (there i, k)
      ]
    ]

not_before-Beats :
    (a c : Candidate)
    → comes_before a c ≡ false
    → (a.hits < c.hits)
      ⊎ ((a.hits ≡ c.hits) × (updated_at_ms a.workflow ≤ updated_at_ms c.workflow))
not_before-Beats a c h = elim (Bool-cases (ltb a.hits c.hits)) [
  | inl y ↦ inl (ground (arith, y))
  | inr n ↦ inr (ground (arith, h, n), ground (arith, h, n))
]

candidates-Beats :
    (text channel : Text) (ws : List Workflow) (c : Candidate)
    → All (λ d. comes_before d c ≡ false) (candidates text channel ws)
    → All (Beats c.hits c.workflow text channel) ws
candidates-Beats text channel [] c h = tt
candidates-Beats text channel (w ∷ ws) c h =
    elim (Option-cases (trigger_hit_count w text channel)) [
      | inl n ↦ rw (Beats, n) (tt, candidates-Beats text channel ws c (rw n at h))
      | inr (hits, e) ↦
          let (first, rest) = rw e at h in
          rw (Beats, e)
            (
              not_before-Beats (record { workflow = w; hits = hits }) c first,
              candidates-Beats text channel ws c rest,
            )
    ]

-- The workflow that is selected matches the message, and every workflow that matches has fewer keyword
-- hits, or as many and was not updated later. None is selected exactly when no workflow matches.
pub select_workflow_for_message-IsSelected :
    (ws : List Workflow) (text channel : Text)
    → IsSelected ws text channel (select_workflow_for_message ws text channel)
unfolding select_workflow_for_message
select_workflow_for_message-IsSelected ws text channel =
    let cs = candidates text channel ws in
    elim (sort_candidates-Sorted (pool_of cs)) [
      | inl (empty, e) ↦
          rw (select_workflow_for_message, e)
            (inl (refl, candidates-none text channel ws (pool_of-empty cs empty)))
      | inr (c, (ds, (e, tops))) ↦
          let (m, best) = pool_of-Tops c cs tops in
          let (i, h) = candidates-Member text channel ws c m in
          rw (select_workflow_for_message, e)
            (inr (c.workflow, (c.hits, (refl, (i, (h, candidates-Beats text channel ws c best))))))
    ]

-- With a business category, the best of the workflows that are tagged with it is selected when one of
-- them matches, and otherwise the best of all.
pub select_workflow_for_business-tagged :
    (ws : List Workflow) (text channel : Text) (category : Text)
    → category ≢ []
    → let answer = select_workflow_for_business ws text channel (some category) in
      let tagged = filter (is_tagged category) ws in
      (IsSelected tagged text channel answer × (answer ≢ none))
      ⊎ (All (λ v. trigger_hit_count v text channel ≡ none) tagged
          × IsSelected ws text channel answer)
unfolding select_workflow_for_business
select_workflow_for_business-tagged ws text channel [] ne = absurd (ne refl)
select_workflow_for_business-tagged ws text channel (ch ∷ s) ne =
    let tagged = filter (is_tagged (ch ∷ s)) ws in
    elim (select_workflow_for_message-IsSelected tagged text channel) [
      | inl (e, none_match) ↦
          rw e (inr (none_match, select_workflow_for_message-IsSelected ws text channel))
      | inr (w, (hits, (e, best))) ↦ rw e (inl (inr (w, (hits, (refl, best))), λ h. cc))
    ]
