-- ===== src/Common/Csv/Reader.antt =====
-- Records of quoted cells by RFC 4180: a quote within a cell is written twice, cells are separated by
-- commas and records by line ends.
use micro_saas_api.Base.{ℕ, List, [], ◌∷◌, ◌++◌, Option, none, some, if◌then◌else◌, ◌==◌}
use micro_saas_api.Text.{Text}
use micro_saas_api.Common.Csv.{quote, comma, newline}

-- Before a cell, within one, and after a quote within one.
pub data Mode : Type 0 where
  before inside after : Mode

pub record Progress : Type 0 where
  pub mode : Mode
  pub cell : Text
  pub row : List Text
  pub rows : List (List Text)

abbrev pub close_cell : Progress → List Text
close_cell p = p.row ++ (p.cell ∷ [])

abbrev pub close_row : Progress → List (List Text)
close_row p = p.rows ++ (close_cell p ∷ [])

abbrev pub push : ℕ → Progress → Progress
push c p = record p { mode = inside; cell = p.cell ++ (c ∷ []) }

abbrev pub read_char : Mode → ℕ → Progress → Option Progress
read_char before c p = if c == quote then some (record p { mode = inside; cell = [] }) else none
read_char inside c p = if c == quote then some (record p { mode = after }) else some (push c p)
read_char after c p =
    if c == quote
    then some (push quote p)
    else if c == comma
    then some (record p { mode = before; row = close_cell p })
    else if c == newline
    then some (record { mode = before; cell = []; row = []; rows = close_row p })
    else none

abbrev pub finish : Mode → Progress → Option (List (List Text))
finish after p = some (close_row p)
finish _ p = none

unfoldable pub read_from : Text → Progress → Option (List (List Text))
read_from [] p = finish p.mode p
read_from (c ∷ s) p = elim (read_char p.mode c p) [ none ↦ none | some q ↦ read_from s q ]

-- The rest after the first line end.
unfoldable pub skip_line : Text → Text
skip_line [] = []
skip_line (c ∷ s) = if c == newline then s else skip_line s

unfoldable pub read_csv : Text → Option (List (List Text))
unfolding read_from skip_line
read_csv s = read_from (skip_line s) (record { mode = before; cell = []; row = []; rows = [] })
