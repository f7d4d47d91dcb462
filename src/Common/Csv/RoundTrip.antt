-- ===== src/Common/Csv/RoundTrip.antt =====
-- csv.util.ts: reading what was written.
use micro_saas_api.Base.{
  ◌≡◌, ◌≢◌, inl, inr, refl, ap, ◌∙◌, List, [], ◌∷◌, ◌++◌, Option, some, map, Bool-cases, arith, All,
  ◌==◌,
}
use micro_saas_api.Base.{All-append}
use mathlib.Core.List.{append_assoc, append-nil}
use micro_saas_api.Text.{Text}
use micro_saas_api.Common.Csv.{
  quote, comma, newline, join, double_quotes, cell_text, escape_csv_cell, csv_row, build_csv,
}
use micro_saas_api.Common.Csv.Reader.{before, inside, after, read_from, skip_line, read_csv}

-- Within a cell the reader takes a written text as it was.
read-double_quotes :
    (s rest cell : Text) (row : List Text) (rows : List (List Text))
    → read_from
        (double_quotes s ++ rest)
        (record { mode = inside; cell = cell; row = row; rows = rows })
      ≡ read_from rest (record { mode = inside; cell = cell ++ s; row = row; rows = rows })
unfolding read_from double_quotes
read-double_quotes [] rest cell row rows = rw append-nil
read-double_quotes (c ∷ s) rest cell row rows = elim (Bool-cases (c == quote)) [
  | inl e ↦
      let d : c ≡ quote = ground (arith, e) in
      rw d (read-double_quotes s rest (cell ++ quote ∷ []) row rows ∙ rw append_assoc)
  | inr e ↦
      ground (
        arith,
        e,
        read-double_quotes s rest (cell ++ c ∷ []) row rows,
        append_assoc cell (c ∷ []) s,
      )
]

read-escape_csv_cell :
    (v : Option Text) (rest cell : Text) (row : List Text) (rows : List (List Text))
    → read_from
        (escape_csv_cell v ++ rest)
        (record { mode = before; cell = cell; row = row; rows = rows })
      ≡ read_from rest (record { mode = after; cell = cell_text v; row = row; rows = rows })
unfolding read_from escape_csv_cell
read-escape_csv_cell v rest cell row rows =
    rw append_assoc (read-double_quotes (cell_text v) (quote ∷ rest) [] row rows)

-- The cells of a row before its last, and the last.
front : Option Text → List (Option Text) → List Text
front v [] = []
front v (w ∷ ws) = cell_text v ∷ front w ws

last : Option Text → List (Option Text) → Text
last v [] = cell_text v
last v (w ∷ ws) = last w ws

front-last :
    (v : Option Text) (vs : List (Option Text))
    → front v vs ++ last v vs ∷ [] ≡ map cell_text (v ∷ vs)
unfolding front last
front-last v [] = refl
front-last v (w ∷ ws) = ap (λ r. cell_text v ∷ r) (front-last w ws)

read-csv_row :
    (v : Option Text) (vs : List (Option Text)) (rest cell : Text) (row : List Text)
    (rows : List (List Text))
    → read_from
        (csv_row (v ∷ vs) ++ rest)
        (record { mode = before; cell = cell; row = row; rows = rows })
      ≡ read_from rest
          (record { mode = after; cell = last v vs; row = row ++ front v vs; rows = rows })
unfolding join front last read_from
read-csv_row v [] rest cell row rows = rw append-nil (read-escape_csv_cell v rest cell row rows)
read-csv_row v (w ∷ ws) rest cell row rows = rw append_assoc (
    read-escape_csv_cell v (comma ∷ (csv_row (w ∷ ws) ++ rest)) cell row rows
    ∙ read-csv_row w ws rest (cell_text v) (row ++ cell_text v ∷ []) rows
    ∙ rw append_assoc)

-- Rows with a cell at least.
abbrev pub IsFilled : List (Option Text) → Type 0
IsFilled [] = ⊥
IsFilled (v ∷ vs) = Unit

read-rows :
    (r : List (Option Text)) (rs : List (List (Option Text))) (cell : Text)
    (rows : List (List Text))
    → IsFilled r
    → All IsFilled rs
    → read_from
        (join newline (map csv_row (r ∷ rs)))
        (record { mode = before; cell = cell; row = []; rows = rows })
      ≡ some (rows ++ map (λ r. map cell_text r) (r ∷ rs))
unfolding join read_from
read-rows [] rs cell rows h hs = absurd h
read-rows (v ∷ vs) [] cell rows h hs =
    let step : read_from (csv_row (v ∷ vs))
          (record { mode = before; cell = cell; row = []; rows = rows })
        ≡ some (rows ++ (front v vs ++ last v vs ∷ []) ∷ []) =
      rw append-nil at (read-csv_row v vs [] cell [] rows) in
    step ∙ ap (λ r. some (rows ++ r ∷ [])) (front-last v vs)
read-rows (v ∷ vs) (r ∷ rs) cell rows h (k, hs) =
    let read_rest = read-rows r rs [] (rows ++ (front v vs ++ last v vs ∷ []) ∷ []) k hs in
    let texts = map (λ r. map cell_text r) (r ∷ rs) in
    let assoc : (rows ++ (front v vs ++ last v vs ∷ []) ∷ []) ++ texts
        ≡ rows ++ map cell_text (v ∷ vs) ∷ texts =
      rw (front-last v vs, append_assoc) refl in
    read-csv_row v vs (newline ∷ join newline (map csv_row (r ∷ rs))) cell [] rows
    ∙ read_rest
    ∙ ap some assoc

-- The lines before the first line end are skipped.
skip_line-append :
    (s rest : Text) → All (λ c. c ≢ newline) s → skip_line (s ++ newline ∷ rest) ≡ rest
unfolding skip_line
skip_line-append [] rest h = refl
skip_line-append (c ∷ s) rest (k, h) = ground (arith, k, skip_line-append s rest h)

abbrev pub NoNewline : Text → Type 0
NoNewline s = All (λ c. c ≢ newline) s

join-NoNewline : (hs : List Text) → All NoNewline hs → NoNewline (join comma hs)
unfolding join
join-NoNewline [] h = tt
join-NoNewline (x ∷ []) (p, h) = p
join-NoNewline (x ∷ (y ∷ ys)) (p, h) =
    All-append (λ c. c ≢ newline) x (comma ∷ join comma (y ∷ ys)) p
      ((λ e. ground (arith, e)), join-NoNewline (y ∷ ys) h)

-- A file with headers that contain no line end and with rows, one at least and each of a cell at
-- least, is read back as the texts of the cells, whatever quotes, commas and line ends they contain.
pub read_csv-build_csv :
    (headers : List Text) (r : List (Option Text)) (rs : List (List (Option Text)))
    → All NoNewline headers
    → All IsFilled (r ∷ rs)
    → read_csv (build_csv headers (r ∷ rs)) ≡ some (map (λ c. map cell_text c) (r ∷ rs))
unfolding read_csv build_csv join
read_csv-build_csv headers r rs h (k, ks) =
    rw
      (skip_line-append (join comma headers) (join newline (map csv_row (r ∷ rs)))
        (join-NoNewline headers h))
      (read-rows r rs [] [] k ks)
