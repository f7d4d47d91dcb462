-- ===== src/Common/Csv.antt =====
-- common/export/csv.util.ts: the CSV files of the exports. `Reader` is a reader of such files by
-- RFC 4180, written for comparison.
pub mod Reader
pub mod RoundTrip
pub mod Tests
use micro_saas_api.Base.{ℕ, ◌+◌, List, [], ◌∷◌, ◌++◌, Option, none, some, if◌then◌else◌, map, ◌==◌}
use micro_saas_api.Text.{Text}

abbrev pub quote : ℕ
quote = b'"'

abbrev pub comma : ℕ
comma = b','

abbrev pub newline : ℕ
newline = 10

-- `parts.join(sep)`
unfoldable pub join : ℕ → List Text → Text
join sep [] = []
join sep (x ∷ []) = x
join sep (x ∷ (y ∷ ys)) = x ++ (sep ∷ join sep (y ∷ ys))

-- `.replace(/"/g, '""')`
unfoldable pub double_quotes : Text → Text
double_quotes [] = []
double_quotes (c ∷ s) =
    let rest = double_quotes s in if c == quote then quote ∷ (quote ∷ rest) else c ∷ rest

-- `String(value ?? '')`, of a value that is a text or absent.
abbrev pub cell_text : Option Text → Text
cell_text none = []
cell_text (some s) = s

unfoldable pub escape_csv_cell : Option Text → Text
unfolding double_quotes
escape_csv_cell v = quote ∷ (double_quotes (cell_text v) ++ (quote ∷ []))

abbrev pub csv_row : List (Option Text) → Text
csv_row cells = join comma (map escape_csv_cell cells)

unfoldable pub build_csv : List Text → List (List (Option Text)) → Text
unfolding join escape_csv_cell
build_csv headers rows =
    let header_line = join comma headers in
    let body = join newline (map csv_row rows) in join newline (header_line ∷ (body ∷ []))
