-- ===== src/Common/Csv/Tests.antt =====
-- csv.util.ts: a file with quotes, commas and an absent value.
use micro_saas_api.Base.{ℕ, ◌≡◌, ◌≢◌, refl, true, [], ◌∷◌, none, some, arith, ltb}
use micro_saas_api.Text.{codes}
use micro_saas_api.Common.Csv.{newline, build_csv, escape_csv_cell, join, double_quotes}
use micro_saas_api.Common.Csv.Reader.{read_csv}
use micro_saas_api.Common.Csv.RoundTrip.{read_csv-build_csv}

two_rows :
    build_csv
      (codes "name" ∷ (codes "note" ∷ []))
      ((some (codes "a,b") ∷ (none ∷ [])) ∷ ((some (codes "c") ∷ (some (codes "\"d\"") ∷ [])) ∷ []))
    ≡ codes "name,note\n\"a,b\",\"\"\n\"c\",\"\"\"d\"\"\""
unfolding build_csv escape_csv_cell join double_quotes
two_rows = refl

-- The headers are joined as they are: one that contains a comma makes two columns.
headers_as_they_are : build_csv (codes "a,b" ∷ []) [] ≡ build_csv (codes "a" ∷ (codes "b" ∷ [])) []
unfolding build_csv escape_csv_cell join double_quotes
headers_as_they_are = refl

read_csv-build_csv_example :
    read_csv (build_csv (codes "name" ∷ []) ((some (codes "a\"") ∷ (none ∷ [])) ∷ []))
    ≡ some ((codes "a\"" ∷ ([] ∷ [])) ∷ [])
read_csv-build_csv_example =
    let different : (c : ℕ) → ltb 10 c ≡ true → c ≢ newline = λ c h e. ground (arith, h, e) in
    read_csv-build_csv (codes "name" ∷ []) (some (codes "a\"") ∷ (none ∷ [])) []
      (
        (different 110 refl, (different 97 refl, (different 109 refl, (different 101 refl, tt)))),
        tt,
      )
      (tt, tt)
