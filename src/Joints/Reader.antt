-- ===== src/Joints/Reader.antt =====
-- The comma-separated values of RFC 4180, read strictly: by this reader the documents of
-- backend/governance/joint_revision_csv.py are measured.
use torq_pro_ai.Prelude.{
  ℕ, Bool, true, false, not, Option, none, some, List, [], ◌∷◌, ◌++◌, if◌then◌else◌, nat_beq, any,
  all, is_empty, ◌||◌, ◌≡◌, refl, arith, ap, ◌∙◌, Bool-cases, inl, inr,
}
use mathlib.Core.Option.{map as option_map}
use torq_pro_ai.Joints.Csv.{is_special, doubled, write_cell, write_row, write_rows}

abbrev pub Table : Type 0
Table = List (List (List ℕ))

-- to the front of the first cell, of the first row, and of the rows
abbrev push : ℕ → Table → Table
push c ((cell ∷ row) ∷ rows) = ((c ∷ cell) ∷ row) ∷ rows
push c ([] ∷ rows) = ((c ∷ []) ∷ []) ∷ rows
push c [] = ((c ∷ []) ∷ []) ∷ []

abbrev add_cell : List ℕ → Table → Table
add_cell cell [] = (cell ∷ []) ∷ []
add_cell cell (row ∷ rows) = (cell ∷ row) ∷ rows

abbrev add_row : Table → Table
add_row rows = ([] ∷ []) ∷ rows

-- at the start of a row or of a further cell, in a cell without quotes, between quotes, behind a
-- quote between quotes, behind "\r"
pub data Mode : Type 0 where
  row_start cell_start bare quoted closing line_end : Mode

pub data Mark : Type 0 where
  quote comma carriage_return line_feed other : Mark

abbrev mark : ℕ → Mark
mark c =
    if nat_beq c 34
    then quote
    else if nat_beq c 44
    then comma
    else if nat_beq c 13
    then carriage_return
    else if nat_beq c 10
    then line_feed
    else other

-- what a character means to the reader
pub data Move : Type 0 where
  skip keep : Mode → Move
  next_cell next_row refuse : Move

-- what may follow the end of a cell
abbrev separate : Mark → Move
separate comma = next_cell
separate carriage_return = skip line_end
separate m = refuse

abbrev move : Mode → Mark → Move
move row_start quote = skip quoted
move row_start other = keep bare
move row_start m = separate m
move cell_start quote = skip quoted
move cell_start other = keep bare
move cell_start m = separate m
move bare other = keep bare
move bare m = separate m
move quoted quote = skip closing
move quoted m = keep quoted
move closing quote = keep quoted
move closing m = separate m
move line_end line_feed = next_row
move line_end m = refuse

-- The rows from here on, where the first cell of the first row is the rest of the present one; None
-- where the text is no document: a quote in a cell without quotes, a line feed or a carriage return
-- alone and not between quotes, anything but a comma or the end of the row behind a closing quote, a
-- last row that is not ended.
unfoldable pub read_csv : Mode → List ℕ → Option Table
read_csv row_start [] = some []
read_csv mode [] = none
read_csv mode (c ∷ cs) = elim (move mode (mark c)) [
  | skip mode' ↦ read_csv mode' cs
  | keep mode' ↦ option_map (push c) (read_csv mode' cs)
  | next_cell ↦ option_map (add_cell []) (read_csv cell_start cs)
  | next_row ↦ option_map add_row (read_csv row_start cs)
  | refuse ↦ none
]

-- the characters of a cell, one by one
push_all : List ℕ → Option Table → Option Table
push_all [] rows = rows
push_all (c ∷ cs) rows = option_map (push c) (push_all cs rows)

-- a cell without special characters, from its second character on
read_csv-bare :
    (cell rest : List ℕ)
    → any (λ c. is_special c) cell ≡ false
    → read_csv bare (cell ++ rest) ≡ push_all cell (read_csv bare rest)
unfolding read_csv push_all
read_csv-bare [] rest h = refl
read_csv-bare (c ∷ cs) rest h = ground (arith, read_csv-bare cs rest)

read_csv-quoted :
    (cell rest : List ℕ)
    → read_csv quoted (doubled cell ++ 34 ∷ rest) ≡ push_all cell (read_csv closing rest)
unfolding read_csv push_all
read_csv-quoted [] rest = refl
read_csv-quoted (c ∷ cs) rest = ground (arith, read_csv-quoted cs rest)

-- at the start of a row, or of a further cell
abbrev start : Bool → Mode
start true = row_start
start false = cell_start

-- a cell without special characters, and behind it a comma or the end of the row
read_csv-simple :
    (first : Bool) (cell : List ℕ) (c : ℕ) (rest : List ℕ)
    → (nat_beq c 44 || nat_beq c 13) ≡ true
    → any (λ c. is_special c) cell ≡ false
    → read_csv (start first) (cell ++ c ∷ rest) ≡ push_all cell (read_csv bare (c ∷ rest))
unfolding read_csv push_all
read_csv-simple true [] c rest h k = ground arith
read_csv-simple false [] c rest h k = ground arith
read_csv-simple true (x ∷ xs) c rest h k = ground (arith, read_csv-bare xs (c ∷ rest))
read_csv-simple false (x ∷ xs) c rest h k = ground (arith, read_csv-bare xs (c ∷ rest))

read_csv-between_quotes :
    (first : Bool) (cell : List ℕ) (c : ℕ) (rest : List ℕ)
    → (nat_beq c 44 || nat_beq c 13) ≡ true
    → read_csv (start first) (34 ∷ (doubled cell ++ 34 ∷ c ∷ rest))
      ≡ push_all cell (read_csv bare (c ∷ rest))
unfolding read_csv
read_csv-between_quotes true cell c rest h =
    read_csv-quoted cell (c ∷ rest) ∙ ap (λ rows. push_all cell rows) (ground arith)
read_csv-between_quotes false cell c rest h =
    read_csv-quoted cell (c ∷ rest) ∙ ap (λ rows. push_all cell rows) (ground arith)

read_csv-write_cell :
    (first : Bool) (cell : List ℕ) (c : ℕ) (rest : List ℕ)
    → (nat_beq c 44 || nat_beq c 13) ≡ true
    → read_csv (start first) (write_cell cell (c ∷ rest)) ≡ push_all cell (read_csv bare (c ∷ rest))
read_csv-write_cell first cell c rest h = elim (Bool-cases (any (λ c. is_special c) cell)) [
  | inr simple ↦ rw simple (read_csv-simple first cell c rest h simple)
  | inl special ↦ rw special (read_csv-between_quotes first cell c rest h)
]

push_all-add_cell :
    (cell : List ℕ) (rows : Option Table)
    → push_all cell (option_map (add_cell []) rows) ≡ option_map (add_cell cell) rows
unfolding push_all
push_all-add_cell [] none = refl
push_all-add_cell [] (some []) = refl
push_all-add_cell [] (some (row ∷ rows)) = refl
push_all-add_cell (c ∷ cs) none = rw (push_all-add_cell cs none) refl
push_all-add_cell (c ∷ cs) (some []) = rw (push_all-add_cell cs (some [])) refl
push_all-add_cell (c ∷ cs) (some (row ∷ rows)) = rw (push_all-add_cell cs (some (row ∷ rows))) refl

push_all-add_row :
    (cell : List ℕ) (rows : Option Table)
    → push_all cell (option_map add_row rows) ≡ option_map (λ rs. (cell ∷ []) ∷ rs) rows
unfolding push_all
push_all-add_row [] rows = refl
push_all-add_row (c ∷ cs) none = rw (push_all-add_row cs none) refl
push_all-add_row (c ∷ cs) (some rows) = rw (push_all-add_row cs (some rows)) refl

read_csv-write_row :
    (first : Bool) (cell : List ℕ) (cells : List (List ℕ)) (rest : List ℕ) (rows : Table)
    → read_csv row_start rest ≡ some rows
    → read_csv (start first) (write_row (cell ∷ cells) rest) ≡ some ((cell ∷ cells) ∷ rows)
unfolding read_csv
read_csv-write_row first cell [] rest rows h =
    read_csv-write_cell first cell 13 (10 ∷ rest) refl
    ∙ push_all-add_row cell (read_csv row_start rest)
    ∙ rw h refl
read_csv-write_row first cell (cell' ∷ cells) rest rows h =
    read_csv-write_cell first cell 44 (write_row (cell' ∷ cells) rest) refl
    ∙ push_all-add_cell cell (read_csv cell_start (write_row (cell' ∷ cells) rest))
    ∙ ap (λ r. option_map (add_cell cell) r) (read_csv-write_row false cell' cells rest rows h)

-- rows with a cell at least
pub read_csv-write_rows :
    (rows : Table)
    → all (λ row. not (is_empty row)) rows ≡ true
    → read_csv row_start (write_rows rows) ≡ some rows
unfolding read_csv
read_csv-write_rows [] h = refl
read_csv-write_rows ([] ∷ rows) h = absurd (cc)
read_csv-write_rows ((cell ∷ cells) ∷ rows) h =
    read_csv-write_row true cell cells (write_rows rows) rows
      (read_csv-write_rows rows (ground arith))
