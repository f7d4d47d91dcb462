-- ===== src/Common/Pagination/Tests.antt =====
-- pagination.ts: three rows on pages of two.
use micro_saas_api.Base.{ℕ, ◌*◌, ◌≡◌, refl, List, [], ◌∷◌}
use micro_saas_api.Text.{Text, codes}
use micro_saas_api.Common.Pagination.{paginate, digits}
use micro_saas_api.Common.Pagination.Links.{page_of}

abbrev rows : List ℕ
rows = 7 ∷ (8 ∷ (9 ∷ []))

abbrev path : Text
path = codes "/contacts"

abbrev double : ℕ → ℕ
double n = 2 * n

second_page :
    ((page_of rows 2 2 path double).data_rows ≡ 18 ∷ [])
    × ((page_of rows 2 2 path double).last_page_url ≡ codes "/contacts?page=2")
unfolding paginate digits
second_page = (refl, refl)
