-- ===== src/Common/Pagination/Links.antt =====
-- pagination.ts: the links and the range of rows that a page announces.
use micro_saas_api.Base.{
  ℕ, zero, suc, ◌+◌, ◌-◌, ◌*◌, ◌≡◌, ◌≤◌, ◌<◌, inl, inr, refl, ap, ◌∙◌, true, List, [], ◌∷◌, ◌++◌,
  some, length, filter, map, Bool-cases, arith, ◌==◌, length-append,
}
use micro_saas_api.Text.{Text, drop}
use micro_saas_api.Common.Pagination.{
  Link, next_link, page_links, all_links, Paginated, last_page_of, paginate, page_rows, show,
  page_url,
}
use micro_saas_api.Common.Pagination.Pages.{length-take}
use micro_saas_api.Text.Laws.{length-drop}

abbrev pub active_links : List Link → List Link
active_links ls = filter (λ l. l.active) ls

abbrev pub numbered : Text → ℕ → Link
numbered path p = record { url = some (page_url path p); label = show p; active = true }

active_links-append :
    (xs ys : List Link) → active_links (xs ++ ys) ≡ active_links xs ++ active_links ys
active_links-append [] ys = refl
active_links-append (x ∷ xs) ys = ground (arith, active_links-append xs ys)

length-page_links : (path : Text) (page p count : ℕ) → length (page_links path page p count) ≡ count
unfolding page_links
length-page_links path page p zero = refl
length-page_links path page p (suc count) = omega (arith, length-page_links path page (suc p) count)

before_pages :
    (path : Text) (page p count : ℕ) → page < p → active_links (page_links path page p count) ≡ []
unfolding page_links
before_pages path page p zero h = refl
before_pages path page p (suc count) h =
    ground (arith, h, before_pages path page (suc p) count (omega (arith, h)))

among_pages :
    (path : Text) (page p count : ℕ)
    → p ≤ page
    → page < p + count
    → active_links (page_links path page p count) ≡ numbered path page ∷ []
unfolding page_links
among_pages path page p zero h k = absurd (omega (arith, h, k))
among_pages path page p (suc count) h k = elim (Bool-cases (p == page)) [
  | inl e ↦
      let same : p ≡ page = ground (arith, e) in
      rw e (
        rw (before_pages path page (suc p) count (omega (arith, same)))
          (ap (λ q. numbered path q ∷ []) same))
  | inr e ↦
      ground
        (arith, e, among_pages path page (suc p) count (ground (arith, e, h)) (omega (arith, k)))
]

all_links-active :
    (path : Text) (page last : ℕ)
    → 0 < page
    → page ≤ last
    → active_links (all_links path page last) ≡ numbered path page ∷ []
unfolding all_links
all_links-active path page last h k =
    active_links-append (page_links path page 1 last) (next_link path page last ∷ [])
    ∙ rw (among_pages path page 1 last (omega (arith, h)) (omega (arith, k))) refl

length-all_links : (path : Text) (page last : ℕ) → length (all_links path page last) ≡ last + 2
unfolding all_links
length-all_links path page last = omega (
  arith,
  length-append (page_links path page 1 last) (next_link path page last ∷ []),
  length-page_links path page 1 last,
)

module _ {ℓ κ} {A : Type ℓ} {B : Type κ} where
  -- Of the links of a page that is one of the `last_page` pages the one with the page's own number is
  -- active, and no other; there are `last_page` links and the two to the neighbours.
  pub paginate-active_links :
      (items : List A) (total page per_page : ℕ) (path : Text) (serialize : A → B)
      → 0 < page
      → page ≤ last_page_of total per_page
      → (active_links (paginate items total page per_page path serialize).links
          ≡ numbered path page ∷ [])
        × (length (paginate items total page per_page path serialize).links
            ≡ (paginate items total page per_page path serialize).last_page + 2)
  unfolding paginate
  paginate-active_links items total page per_page path serialize h k = (
    all_links-active path page (last_page_of total per_page) h k,
    length-all_links path page (last_page_of total per_page),
  )

  -- A page of the rows, as the controllers ask for it.
  abbrev pub page_of : List A → ℕ → ℕ → Text → (A → B) → Paginated B
  page_of rows page per_page path serialize =
      paginate (page_rows page per_page rows) (length rows) page per_page path serialize

  length-map : (f : A → B) (xs : List A) → length (map f xs) ≡ length xs
  length-map f [] = refl
  length-map f (x ∷ xs) = omega (arith, length-map f xs)

  -- The range that a page announces, of a page that shows rows: it ends within the list, and it is as
  -- long as the rows that are shown.
  pub page_of-range :
      (rows : List A) (page per_page : ℕ) (path : Text) (serialize : A → B)
      → 0 < per_page
      → (page - 1) * per_page < length rows
      → (first last : ℕ) × (((page_of rows page per_page path serialize).from ≡ some first)
          × (((page_of rows page per_page path serialize).to ≡ some last)
              × ((first ≤ last)
                  × ((last ≤ length rows)
                      × (first + length (page_of rows page per_page path serialize).data_rows
                          ≡ suc last)))))
  unfolding paginate
  page_of-range rows page per_page path serialize h k =
      let skipped = (page - 1) * per_page in
      let rest = drop skipped rows in
      let shown_count = length (page_rows page per_page rows) in
      let t = length-take per_page rest in
      let d = length-drop skipped rows in
      let m = length-map serialize (page_rows page per_page rows) in
      (
        skipped + 1,
        skipped + 1 + shown_count - 1,
        (
          ground (arith, k),
          (
            ground (arith, k),
            (omega (arith, t, d, h, k), (omega (arith, t, d, h, k), omega (arith, t, d, m, h, k))),
          ),
        ),
      )
