-- ===== src/Booking/Csv/RoundTrip.antt =====
-- Reading back what `exportCsv` writes, by a reader of RFC 4180.
use mathlib.Core.List.{append_assoc, append-nil}
use playslot.Prelude.{
  ℕ, ◌≡◌, refl, sym, ap, ◌∙◌, false, List, [], ◌∷◌, ◌++◌, any, Bool-cases, inl, inr, arith, ◌==◌,
  if◌then◌else◌, All,
}
use playslot.Store.Tables.{Store}
use playslot.Booking.Csv.{
  Text, quote, comma, cr, lf, is_special, doubled, csv_cell, csv_row, csv_lines,
}

-- Where the reader is: at the beginning of a cell, in a bare cell, in a quoted one, behind a quote in
-- a quoted one, behind a carriage return.
pub data Place : Type 0 where
  beginning bare quoted behind_quote behind_cr : Place

-- The rest of the table: the current row, from the current cell on, and the rows below it.
abbrev pub Rows : Type 0
Rows = List (List Text)

-- A character in front of the current cell.
abbrev pub push : ℕ → Rows → Rows
push c ((cell ∷ row) ∷ rows) = ((c ∷ cell) ∷ row) ∷ rows
push c ([] ∷ rows) = ((c ∷ []) ∷ []) ∷ rows
push c [] = ((c ∷ []) ∷ []) ∷ []

-- An empty cell in front of the current row, and an empty row in front of the table.
abbrev pub new_cell : Rows → Rows
new_cell (row ∷ rows) = ([] ∷ row) ∷ rows
new_cell [] = ([] ∷ []) ∷ []

abbrev pub new_row : Rows → Rows
new_row rows = ([] ∷ []) ∷ rows

unfoldable pub read : Place → Text → Rows
read place [] = ([] ∷ []) ∷ []
read Place.quoted (c ∷ cs) =
    let inside = read Place.quoted cs in
    let behind = read Place.behind_quote cs in if c == quote then behind else push c inside
read Place.behind_cr (c ∷ cs) =
    let next = read Place.beginning cs in
    let on = read Place.bare cs in if c == lf then new_row next else push cr (push c on)
read Place.beginning (c ∷ cs) =
    let open_quote = read Place.quoted cs in
    let on = read Place.bare cs in
    let next = read Place.beginning cs in
    let line_end = read Place.behind_cr cs in
    if c == quote
    then open_quote
    else if c == comma
    then new_cell next
    else if c == cr
    then line_end
    else push c on
read Place.bare (c ∷ cs) =
    let on = read Place.bare cs in
    let next = read Place.beginning cs in
    let line_end = read Place.behind_cr cs in
    if c == comma then new_cell next else if c == cr then line_end else push c on
read Place.behind_quote (c ∷ cs) =
    let again = read Place.quoted cs in
    let on = read Place.bare cs in
    let next = read Place.beginning cs in
    let line_end = read Place.behind_cr cs in
    if c == quote
    then push quote again
    else if c == comma
    then new_cell next
    else if c == cr
    then line_end
    else push c on

-- A text in front of the current cell.
abbrev before : Text → Rows → Rows
before [] rows = rows
before (c ∷ cs) rows = push c (before cs rows)

-- What may follow a cell: the reader is there in an empty cell, wherever it comes from.
pub record Ends (t : Text) (rows : Rows) : Type 0 where
  pub from_beginning : read Place.beginning t ≡ rows
  pub from_bare : read Place.bare t ≡ rows
  pub from_quote : read Place.behind_quote t ≡ rows

bare-cell :
    (v t : Text) (rows : Rows)
    → any is_special v ≡ false
    → Ends t rows
    → read Place.bare (v ++ t) ≡ before v rows
unfolding read any
bare-cell [] t rows h e = e.from_bare
bare-cell (c ∷ cs) t rows h e = ground (arith, bare-cell cs t rows, e)

beginning-cell :
    (v t : Text) (rows : Rows)
    → any is_special v ≡ false
    → Ends t rows
    → read Place.beginning (v ++ t) ≡ before v rows
unfolding read any
beginning-cell [] t rows h e = e.from_beginning
beginning-cell (c ∷ cs) t rows h e = ground (arith, bare-cell cs t rows, e)

quoted-cell :
    (v t : Text) (rows : Rows)
    → Ends t rows
    → read Place.quoted (doubled v ++ quote ∷ t) ≡ before v rows
unfolding read doubled
quoted-cell [] t rows e = e.from_quote
quoted-cell (c ∷ cs) t rows e = elim (Bool-cases (c == quote)) [
  | inl is_quote ↦ let is : c ≡ quote = ground arith in rw (is, quoted-cell cs t rows e) refl
  | inr other ↦ rw (other, quoted-cell cs t rows e, other) refl
]

cell-Ends :
    (v t : Text) (rows : Rows)
    → Ends t rows
    → read Place.beginning (csv_cell v ++ t) ≡ before v rows
unfolding csv_cell read
cell-Ends v t rows e = elim (Bool-cases (any is_special v)) [
  | inl special ↦ rw (special, append_assoc (doubled v) (quote ∷ []) t) (quoted-cell v t rows e)
  | inr plain ↦ rw plain (beginning-cell v t rows plain e)
]

comma-Ends :
    (u : Text) (rows : Rows) → read Place.beginning u ≡ rows → Ends (comma ∷ u) (new_cell rows)
unfolding read
comma-Ends u rows e = record {
  from_beginning = ap new_cell e;
  from_bare = ap new_cell e;
  from_quote = ap new_cell e;
}

line-Ends :
    (u : Text) (rows : Rows) → read Place.beginning u ≡ rows → Ends (cr ∷ lf ∷ u) (new_row rows)
unfolding read
line-Ends u rows e = record {
  from_beginning = ap new_row e;
  from_bare = ap new_row e;
  from_quote = ap new_row e;
}

nothing-Ends : Ends [] (new_row [])
unfolding read
nothing-Ends = record { from_beginning = refl; from_bare = refl; from_quote = refl }

before-cell :
    (v : Text) (row : List Text) (rows : Rows) → before v (([] ∷ row) ∷ rows) ≡ (v ∷ row) ∷ rows
before-cell [] row rows = refl
before-cell (c ∷ cs) row rows = ap (push c) (before-cell cs row rows)

row-Ends :
    (v : Text) (vs : List Text) (t : Text) (rest : Rows)
    → Ends t (new_row rest)
    → read Place.beginning (csv_row (v ∷ vs) ++ t) ≡ (v ∷ vs) ∷ rest
unfolding csv_row
row-Ends v [] t rest e = cell-Ends v t (new_row rest) e ∙ before-cell v [] rest
row-Ends v (w ∷ ws) t rest e = rw (append_assoc (csv_cell v) (comma ∷ csv_row (w ∷ ws)) t) (
    cell-Ends v (comma ∷ (csv_row (w ∷ ws) ++ t)) (([] ∷ (w ∷ ws)) ∷ rest)
      (comma-Ends (csv_row (w ∷ ws) ++ t) ((w ∷ ws) ∷ rest) (row-Ends w ws t rest e))
    ∙ before-cell v (w ∷ ws) rest)

-- Rows of at least one cell.
abbrev pub IsFilled : List Text → Type 0
IsFilled [] = ⊥
IsFilled (v ∷ vs) = Unit

-- Read by RFC 4180, the text of a table with at least one row, all of whose rows have at least one
-- cell, is that table: whatever the cells hold, commas, quotes and line breaks too.
pub read-csv_lines :
    (row : List Text) (rows : List (List Text))
    → All IsFilled (row ∷ rows)
    → read Place.beginning (csv_lines (row ∷ rows)) ≡ row ∷ rows
unfolding csv_lines
read-csv_lines (v ∷ vs) [] h =
    ap (read Place.beginning) (sym (append-nil (csv_row (v ∷ vs))))
    ∙ row-Ends v vs [] [] nothing-Ends
read-csv_lines (v ∷ vs) (next ∷ rows) (_, h) =
    row-Ends v vs _ (next ∷ rows)
      (line-Ends (csv_lines (next ∷ rows)) (next ∷ rows) (read-csv_lines next rows h))
read-csv_lines [] rows h = absurd h.0
