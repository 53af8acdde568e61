-- ===== src/Frontend/CsvLaws.antt =====
-- A report of frontend/src/utils/exportToCSV.ts reads back as the cells that it was made of.
use hub_assist.Common.{
  ℕ, ◌≡◌, ◌≢◌, refl, ap, ◌∙◌, false, Option, none, some, List, [], ◌∷◌, ◌++◌, ◌==◌, map, All, arith,
  Bool-cases, inl, inr, ==→eq,
}
use mathlib.Core.List.{append_assoc}
use mathlib.Core.Path.{subst}
use hub_assist.Frontend.Csv.{
  other, kind_of_unit, is_special, needs_quoting, double_quotes, escape_str, escape_csv_cell,
  join_cells, join_rows, Mode, start, plain, quoted, closing, line_end, add_row, read_csv, shown,
}

-- What ends a cell: a comma before the next one, or the end of the row.
record Stops (e : ℕ) (target : Mode) : Type 0 where
  at_start :
      (cell : List ℕ) (row : List (List ℕ)) (rest : List ℕ)
      → read_csv start cell row (e ∷ rest) ≡ read_csv target [] (row ++ [] ∷ []) rest
  at_plain :
      (cell : List ℕ) (row : List (List ℕ)) (rest : List ℕ)
      → read_csv plain cell row (e ∷ rest) ≡ read_csv target [] (row ++ cell ∷ []) rest
  at_closing :
      (cell : List ℕ) (row : List (List ℕ)) (rest : List ℕ)
      → read_csv closing cell row (e ∷ rest) ≡ read_csv target [] (row ++ cell ∷ []) rest

comma-Stops : Stops 44 start
unfolding read_csv kind_of_unit
comma-Stops = record {
  at_start = λ cell row rest. refl;
  at_plain = λ cell row rest. refl;
  at_closing = λ cell row rest. refl;
}

cr-Stops : Stops 13 line_end
unfolding read_csv kind_of_unit
cr-Stops = record {
  at_start = λ cell row rest. refl;
  at_plain = λ cell row rest. refl;
  at_closing = λ cell row rest. refl;
}

read-line_end :
    (row : List (List ℕ)) (rest : List ℕ)
    → read_csv line_end [] row (10 ∷ rest) ≡ add_row row (read_csv start [] [] rest)
unfolding read_csv kind_of_unit
read-line_end row rest = refl

plain_unit : (c : ℕ) → is_special c ≡ false → kind_of_unit c ≡ other
unfolding kind_of_unit
plain_unit c h = ground arith

read-plain :
    (c : ℕ) (cell : List ℕ) (row : List (List ℕ)) (cs : List ℕ)
    → is_special c ≡ false
    → read_csv plain cell row (c ∷ cs) ≡ read_csv plain (cell ++ c ∷ []) row cs
unfolding read_csv
read-plain c cell row cs h = rw (plain_unit c h, read_csv) refl

read-first :
    (c : ℕ) (row : List (List ℕ)) (cs : List ℕ)
    → is_special c ≡ false
    → read_csv start [] row (c ∷ cs) ≡ read_csv plain (c ∷ []) row cs
unfolding read_csv
read-first c row cs h = rw (plain_unit c h, read_csv) refl

read-quoted :
    (c : ℕ) (cell : List ℕ) (row : List (List ℕ)) (cs : List ℕ)
    → (c == 34) ≡ false
    → read_csv quoted cell row (c ∷ cs) ≡ read_csv quoted (cell ++ c ∷ []) row cs
unfolding read_csv kind_of_unit
read-quoted c cell row cs h = ground arith

read-doubled :
    (cell : List ℕ) (row : List (List ℕ)) (cs : List ℕ)
    → read_csv quoted cell row (34 ∷ 34 ∷ cs) ≡ read_csv quoted (cell ++ 34 ∷ []) row cs
unfolding read_csv kind_of_unit
read-doubled cell row cs = refl

read-open :
    (row : List (List ℕ)) (cs : List ℕ)
    → read_csv start [] row (34 ∷ cs) ≡ read_csv quoted [] row cs
unfolding read_csv kind_of_unit
read-open row cs = refl

unquoted-head :
    (c : ℕ) (cs : List ℕ)
    → needs_quoting (c ∷ cs) ≡ false
    → (is_special c ≡ false) × (needs_quoting cs ≡ false)
unfolding needs_quoting
unquoted-head c cs h = ground arith

append_nil : (xs : List ℕ) → xs ++ [] ≡ xs
append_nil [] = refl
append_nil (x ∷ xs) = ap (λ t. x ∷ t) (append_nil xs)

module _ (e : ℕ) (target : Mode) (stops : Stops e target) where
  plain-cell :
      (str cell : List ℕ) (row : List (List ℕ)) (rest : List ℕ)
      → needs_quoting str ≡ false
      → read_csv plain cell row (str ++ e ∷ rest)
        ≡ read_csv target [] (row ++ (cell ++ str) ∷ []) rest
  plain-cell [] cell row rest h = rw (append_nil cell) (stops.at_plain cell row rest)
  plain-cell (c ∷ cs) cell row rest h =
      let (here, later) = unquoted-head c cs h in
      let ih = plain-cell cs (cell ++ c ∷ []) row rest later in
      read-plain c cell row (cs ++ e ∷ rest) here ∙ (rw (append_assoc cell (c ∷ []) cs) at ih)

  start-cell :
      (str : List ℕ) (row : List (List ℕ)) (rest : List ℕ)
      → needs_quoting str ≡ false
      → read_csv start [] row (str ++ e ∷ rest) ≡ read_csv target [] (row ++ str ∷ []) rest
  start-cell [] row rest h = stops.at_start [] row rest
  start-cell (c ∷ cs) row rest h =
      let (here, later) = unquoted-head c cs h in
      read-first c row (cs ++ e ∷ rest) here ∙ plain-cell cs (c ∷ []) row rest later

  quoted-cell :
      (str cell : List ℕ) (row : List (List ℕ)) (rest : List ℕ)
      → read_csv quoted cell row (double_quotes str ++ 34 ∷ e ∷ rest)
        ≡ read_csv target [] (row ++ (cell ++ str) ∷ []) rest
  unfolding double_quotes
  quoted-cell [] cell row rest =
      rw (append_nil cell) (unfold read_csv kind_of_unit in stops.at_closing cell row rest)
  quoted-cell (c ∷ cs) cell row rest =
      let ih = rw (append_assoc cell (c ∷ []) cs) at (quoted-cell cs (cell ++ c ∷ []) row rest) in
      elim (Bool-cases (c == 34)) [
        | inl double ↦ rw double (
            read-doubled cell row (double_quotes cs ++ 34 ∷ e ∷ rest)
            ∙ subst
                (λ d.
                  read_csv quoted (cell ++ d ∷ []) row (double_quotes cs ++ 34 ∷ e ∷ rest)
                  ≡ read_csv target [] (row ++ (cell ++ c ∷ cs) ∷ []) rest)
                (==→eq c 34 double) ih)
        | inr single ↦
            rw single (read-quoted c cell row (double_quotes cs ++ 34 ∷ e ∷ rest) single ∙ ih)
      ]

  escaped-cell :
      (cell : Option (List ℕ)) (row : List (List ℕ)) (rest : List ℕ)
      → read_csv start [] row (escape_csv_cell cell ++ e ∷ rest)
        ≡ read_csv target [] (row ++ shown cell ∷ []) rest
  unfolding escape_csv_cell escape_str
  escaped-cell none row rest = stops.at_start [] row rest
  escaped-cell (some str) row rest = elim (Bool-cases (needs_quoting str)) [
    | inl special ↦
        rw (special, append_assoc (double_quotes str) (34 ∷ []) (e ∷ rest))
          (read-open row (double_quotes str ++ 34 ∷ e ∷ rest) ∙ quoted-cell str [] row rest)
    | inr ordinary ↦ rw ordinary (start-cell str row rest ordinary)
  ]

-- The rows have a cell at least.
abbrev pub IsRow : List (Option (List ℕ)) → Type 0
IsRow cells = cells ≢ []

read-row :
    (c : Option (List ℕ)) (cells : List (Option (List ℕ))) (row : List (List ℕ)) (rest : List ℕ)
    → read_csv start [] row (join_cells (c ∷ cells) ++ 13 ∷ 10 ∷ rest)
      ≡ add_row (row ++ map shown (c ∷ cells)) (read_csv start [] [] rest)
unfolding join_cells
read-row c [] row rest =
    escaped-cell 13 line_end cr-Stops c row (10 ∷ rest) ∙ read-line_end (row ++ shown c ∷ []) rest
read-row c (d ∷ ds) row rest =
    let ih = read-row d ds (row ++ shown c ∷ []) rest in
    rw (append_assoc (escape_csv_cell c) (44 ∷ join_cells (d ∷ ds)) (13 ∷ 10 ∷ rest)) (
      escaped-cell 44 start comma-Stops c row (join_cells (d ∷ ds) ++ 13 ∷ 10 ∷ rest)
      ∙ (rw (append_assoc row (shown c ∷ []) (map shown (d ∷ ds))) at ih))

-- A report reads back: what a reader of RFC 4180 finds in the rows that were written, each of one cell or
-- more, are these cells, whatever quotes, commas and line breaks stand in them; an absent value is an
-- empty cell.
pub read_csv-join_rows :
    (rows : List (List (Option (List ℕ))))
    → All IsRow rows
    → read_csv start [] [] (join_rows rows) ≡ some (map (map shown) rows)
unfolding join_rows
read_csv-join_rows [] h = unfold read_csv in refl
read_csv-join_rows ([] ∷ rs) h = absurd (h.0 refl)
read_csv-join_rows ((c ∷ cells) ∷ rs) h =
    read-row c cells [] (join_rows rs)
    ∙ ap (add_row (map shown (c ∷ cells))) (read_csv-join_rows rs h.1)
