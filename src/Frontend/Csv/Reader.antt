-- ===== src/Frontend/Csv/Reader.antt =====
-- A reader of comma-separated values with quoted cells (RFC 4180, with line feeds between the rows), to
-- state what a file of exportToCSV.ts holds. Nothing of it is code of the program.
use stellar_true_stub.Common.{ℕ, List, [], ◌∷◌, if◌then◌else◌, ◌==◌}
use stellar_true_stub.Frontend.Csv.{Text}

-- Outside quotes, inside them, or behind a quote that was read inside.
pub data State : Type 0 where
  outside inside behind : State

abbrev pub Table : Type 0
Table = List (List Text)

-- The first cell of the first row is the one that is being read.
unfoldable pub cons_char : ℕ → Table → Table
cons_char c ((cell ∷ row) ∷ rows) = ((c ∷ cell) ∷ row) ∷ rows
cons_char c ([] ∷ rows) = ((c ∷ []) ∷ []) ∷ rows
cons_char c [] = ((c ∷ []) ∷ []) ∷ []

unfoldable pub new_cell : Table → Table
new_cell (row ∷ rows) = ([] ∷ row) ∷ rows
new_cell [] = ([] ∷ []) ∷ []

unfoldable pub new_row : Table → Table
new_row table = ([] ∷ []) ∷ table

unfoldable pub next_state : State → ℕ → State
next_state inside c = if c == b'"' then behind else inside
next_state outside c = if c == b'"' then inside else outside
next_state behind c = if c == b'"' then inside else outside

unfoldable pub unquoted : ℕ → Table → Table
unfolding new_cell new_row cons_char
unquoted c table =
    if c == b',' then new_cell table else if c == 10 then new_row table else cons_char c table

-- What a character adds to what is read behind it.
unfoldable pub put : State → ℕ → Table → Table
unfolding unquoted cons_char
put inside c table = if c == b'"' then table else cons_char c table
put outside c table = if c == b'"' then table else unquoted c table
put behind c table = if c == b'"' then cons_char c table else unquoted c table

unfoldable pub read_from : State → Text → Table
unfolding next_state put
read_from state [] = ([] ∷ []) ∷ []
read_from state (c ∷ s) = put state c (read_from (next_state state c) s)

unfoldable pub read_table : Text → Table
read_table s = read_from outside s
