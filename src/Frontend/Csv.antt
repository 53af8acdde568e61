-- ===== src/Frontend/Csv.antt =====
-- `escapeCSVCell` and the joining of `generateCSVContent` in frontend/src/utils/exportToCSV.ts. A string is
-- the list of its UTF-16 code units. A reader of RFC 4180 stands beside them as the format's own
-- description.
use hub_assist.Common.{
  ℕ, Bool, true, false, ◌||◌, Option, none, some, List, [], ◌∷◌, ◌++◌, ◌==◌, if◌then◌else◌,
}

-- The units that a reader tells apart: '"', ',', '\r', '\n', and all others.
pub data Unit16 : Type 0 where
  quote comma cr lf other : Unit16

unfoldable pub kind_of_unit : ℕ → Unit16
kind_of_unit c =
    if c == 34
    then quote
    else if c == 44
    then comma
    else if c == 13
    then cr
    else if c == 10
    then lf
    else other

abbrev pub is_special : ℕ → Bool
is_special c = elim (kind_of_unit c) [
  | other ↦ false
  | quote ↦ true
  | comma ↦ true
  | cr ↦ true
  | lf ↦ true
]

-- `/[",\r\n]/.test(str)`.
unfoldable pub needs_quoting : List ℕ → Bool
needs_quoting [] = false
needs_quoting (c ∷ cs) = is_special c || needs_quoting cs

-- `str.replace(/"/g, '""')`.
unfoldable pub double_quotes : List ℕ → List ℕ
double_quotes [] = []
double_quotes (c ∷ cs) = if c == 34 then 34 ∷ 34 ∷ double_quotes cs else c ∷ double_quotes cs

unfoldable pub escape_str : List ℕ → List ℕ
escape_str str = if needs_quoting str then 34 ∷ double_quotes str ++ 34 ∷ [] else str

-- `escapeCSVCell`, where `null` and `undefined` are none and `String(val)` is done.
unfoldable pub escape_csv_cell : Option (List ℕ) → List ℕ
escape_csv_cell none = []
escape_csv_cell (some str) = escape_str str

-- `rowValues.map(escapeCSVCell).join(",")`.
unfoldable pub join_cells : List (Option (List ℕ)) → List ℕ
join_cells [] = []
join_cells (c ∷ []) = escape_csv_cell c
join_cells (c ∷ d ∷ ds) = escape_csv_cell c ++ 44 ∷ join_cells (d ∷ ds)

-- `rows.join("\r\n") + "\r\n"`.
unfoldable pub join_rows : List (List (Option (List ℕ))) → List ℕ
join_rows [] = []
join_rows (r ∷ rs) = join_cells r ++ 13 ∷ 10 ∷ join_rows rs

-- A reader: where it stands in a cell.
pub data Mode : Type 0 where
  start plain quoted closing line_end : Mode

abbrev pub Table : Type 0
Table = List (List (List ℕ))

abbrev pub add_row : List (List ℕ) → Option Table → Option Table
add_row row none = none
add_row row (some rows) = some (row ∷ rows)

-- The rows of a text, each ended by CR LF; none where the text is no CSV. `cell` and `row` are what was
-- read of the cell and of the row before it.
unfoldable pub read_csv : Mode → List ℕ → List (List ℕ) → List ℕ → Option Table
read_csv start cell [] [] = some []
read_csv start cell (c ∷ row) [] = none
read_csv plain cell row [] = none
read_csv quoted cell row [] = none
read_csv closing cell row [] = none
read_csv line_end cell row [] = none
read_csv start cell row (c ∷ cs) = elim (kind_of_unit c) [
  | quote ↦ read_csv quoted [] row cs
  | comma ↦ read_csv start [] (row ++ [] ∷ []) cs
  | cr ↦ read_csv line_end [] (row ++ [] ∷ []) cs
  | lf ↦ none
  | other ↦ read_csv plain (c ∷ []) row cs
]
read_csv plain cell row (c ∷ cs) = elim (kind_of_unit c) [
  | quote ↦ none
  | comma ↦ read_csv start [] (row ++ cell ∷ []) cs
  | cr ↦ read_csv line_end [] (row ++ cell ∷ []) cs
  | lf ↦ none
  | other ↦ read_csv plain (cell ++ c ∷ []) row cs
]
read_csv quoted cell row (c ∷ cs) = elim (kind_of_unit c) [
  | quote ↦ read_csv closing cell row cs
  | comma ↦ read_csv quoted (cell ++ c ∷ []) row cs
  | cr ↦ read_csv quoted (cell ++ c ∷ []) row cs
  | lf ↦ read_csv quoted (cell ++ c ∷ []) row cs
  | other ↦ read_csv quoted (cell ++ c ∷ []) row cs
]
read_csv closing cell row (c ∷ cs) = elim (kind_of_unit c) [
  | quote ↦ read_csv quoted (cell ++ 34 ∷ []) row cs
  | comma ↦ read_csv start [] (row ++ cell ∷ []) cs
  | cr ↦ read_csv line_end [] (row ++ cell ∷ []) cs
  | lf ↦ none
  | other ↦ none
]
read_csv line_end cell row (c ∷ cs) = elim (kind_of_unit c) [
  | quote ↦ none
  | comma ↦ none
  | cr ↦ none
  | lf ↦ add_row row (read_csv start [] [] cs)
  | other ↦ none
]

-- A cell as the reader gives it back: an absent value is an empty cell.
abbrev pub shown : Option (List ℕ) → List ℕ
shown none = []
shown (some str) = str
