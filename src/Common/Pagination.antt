-- ===== src/Common/Pagination.antt =====
-- common/pagination.ts: the pages of a list, with the numbers and links that the portal shows.
pub mod Pages
pub mod Links
pub mod Tests
use micro_saas_api.Base.{
  ℕ, zero, suc, ◌+◌, ◌-◌, ◌*◌, ◌/◌, ◌%◌, Bool, false, List, [], ◌∷◌, ◌++◌, Option, none, some,
  if◌then◌else◌, length, map, ltb, ◌==◌, max,
}
use micro_saas_api.Text.{Text, codes, take, drop}

-- `Math.ceil(n / k)`
abbrev pub ceil_div : ℕ → ℕ → ℕ
ceil_div n k = if n % k == 0 then n / k else n / k + 1

-- `String(n)`: the digits, with enough fuel when it exceeds their number.
unfoldable pub digits : ℕ → ℕ → Text
digits zero n = []
digits (suc fuel) n =
    let rest = digits fuel (n / 10) in
    if ltb n 10 then (b'0' + n) ∷ [] else rest ++ (b'0' + n % 10) ∷ []

abbrev pub show : ℕ → Text
show n = digits (suc n) n

pub record Link : Type 0 where
  pub url : Option Text
  pub label : Text
  pub active : Bool

pub record Paginated {ℓ} (A : Type ℓ) : Type ℓ where
  pub current_page : ℕ
  pub data_rows : List A
  pub first_page_url : Text
  pub from : Option ℕ
  pub last_page : ℕ
  pub last_page_url : Text
  pub links : List Link
  pub next_page_url : Option Text
  pub path : Text
  pub per_page : ℕ
  pub prev_page_url : Option Text
  pub to : Option ℕ
  pub total : ℕ

abbrev pub last_page_of : ℕ → ℕ → ℕ
last_page_of total per_page = max 1 (ceil_div total per_page)

abbrev pub page_url : Text → ℕ → Text
page_url path p = path ++ (codes "?page=" ++ show p)

abbrev pub previous_link : Text → ℕ → Link
previous_link path page = record {
  url = if ltb 1 page then some (page_url path (page - 1)) else none;
  label = codes "&laquo; Previous";
  active = false;
}

abbrev pub next_link : Text → ℕ → ℕ → Link
next_link path page last = record {
  url = if ltb page last then some (page_url path (page + 1)) else none;
  label = codes "Next &raquo;";
  active = false;
}

-- The loop over the pages: `count` links from page `p` on.
unfoldable pub page_links : Text → ℕ → ℕ → ℕ → List Link
page_links path page p zero = []
page_links path page p (suc count) =
    record { url = some (page_url path p); label = show p; active = p == page }
    ∷ page_links path page (suc p) count

unfoldable pub all_links : Text → ℕ → ℕ → List Link
unfolding page_links digits
all_links path page last =
    previous_link path page ∷ (page_links path page 1 last ++ next_link path page last ∷ [])

abbrev pub from_of : ℕ → ℕ → ℕ → Option ℕ
from_of total page per_page = if total == 0 then none else some ((page - 1) * per_page + 1)

abbrev pub to_of : ℕ → ℕ → ℕ → ℕ → Option ℕ
to_of total page per_page count =
    if total == 0 then none else some ((page - 1) * per_page + 1 + count - 1)

module _ {ℓ κ} {A : Type ℓ} {B : Type κ} where
  unfoldable pub paginate : List A → ℕ → ℕ → ℕ → Text → (A → B) → Paginated B
  unfolding all_links digits
  paginate items total page per_page path serialize =
      let last = last_page_of total per_page in
      record {
        current_page = page;
        data_rows = map serialize items;
        first_page_url = page_url path 1;
        from = from_of total page per_page;
        last_page = last;
        last_page_url = page_url path last;
        links = all_links path page last;
        next_page_url = if ltb page last then some (page_url path (page + 1)) else none;
        path = path;
        per_page = per_page;
        prev_page_url = if ltb 1 page then some (page_url path (page - 1)) else none;
        to = to_of total page per_page (length items);
        total = total;
      }

-- `skip: (page - 1) * perPage, take: perPage`
abbrev pub page_rows {ℓ} : {A : Type ℓ} → ℕ → ℕ → List A → List A
page_rows page per_page rows = take per_page (drop ((page - 1) * per_page) rows)
