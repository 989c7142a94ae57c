-- ===== src/Frontend/Csv/RoundTrip.antt =====
-- Reading a file of exportToCSV.ts gives back what was exported.
use stellar_true_stub.Common.{
  ◌≡◌, ◌∙◌, refl, sym, ap, inl, inr, List, [], ◌∷◌, ◌++◌, map, All, ◌==◌, Bool-cases, arith,
}
use mathlib.Core.List.{append_assoc, append-nil}
use stellar_true_stub.Frontend.Csv.{
  Text, WalletRow, escape, quoted, joined, download_csv, wallet_headers, wallet_cells,
  export_wallets_to_csv,
}
use stellar_true_stub.Frontend.Csv.Reader.{
  outside, inside, behind, Table, cons_char, new_cell, new_row, next_state, unquoted, put,
  read_from, read_table,
}

-- A text in front of the cell that is being read.
prepend : Text → Table → Table
prepend [] table = table
prepend (c ∷ s) table = cons_char c (prepend s table)

read-escape :
    (s t : Text) → read_from inside (escape s ++ (b'"' ∷ t)) ≡ prepend s (read_from behind t)
unfolding escape read_from prepend put next_state
read-escape [] t = refl
read-escape (c ∷ s) t = elim (Bool-cases (c == b'"')) [
  | inl quote ↦
      let same : b'"' ≡ c = ground (arith, quote) in
      rw quote (
        ap (cons_char b'"') (read-escape s t)
        ∙ ap (λ d. cons_char d (prepend s (read_from behind t))) same)
  | inr plain ↦ rw plain (rw plain (ap (cons_char c) (read-escape s t)))
]

read-quoted : (s t : Text) → read_from outside (quoted s ++ t) ≡ prepend s (read_from behind t)
unfolding quoted read_from put next_state
read-quoted s t =
    ap (λ u. read_from inside u) (append_assoc (escape s) (b'"' ∷ []) t) ∙ read-escape s t

read-comma : (t : Text) → read_from behind (b',' ∷ t) ≡ new_cell (read_from outside t)
unfolding read_from put unquoted next_state
read-comma t = refl

read-nothing : read_from behind [] ≡ ([] ∷ []) ∷ []
unfolding read_from
read-nothing = refl

read-line : (t : Text) → read_from behind (10 ∷ t) ≡ ([] ∷ []) ∷ read_from outside t
unfolding read_from put unquoted next_state new_row
read-line t = refl

-- The cells of a row, in front of what is read behind its last one.
attach : Text → List Text → Table → Table
attach s [] table = prepend s table
attach s (t ∷ row) table = prepend s (new_cell (attach t row table))

read-row :
    (s : Text) (row : List Text) (t : Text)
    → read_from outside (joined b',' (map quoted (s ∷ row)) ++ t)
      ≡ attach s row (read_from behind t)
unfolding joined attach
read-row s [] t = read-quoted s t
read-row s (u ∷ row) t =
    let rest = joined b',' (map quoted (u ∷ row)) in
    ap (read_from outside) (append_assoc (quoted s) (b',' ∷ rest) t)
    ∙ read-quoted s (b',' ∷ (rest ++ t))
    ∙ ap (prepend s) (read-comma (rest ++ t) ∙ ap new_cell (read-row u row t))

-- A text in front of an empty cell is that cell.
prepend-empty :
    (s : Text) (row : List Text) (rows : Table) → prepend s (([] ∷ row) ∷ rows) ≡ (s ∷ row) ∷ rows
unfolding prepend cons_char
prepend-empty [] row rows = refl
prepend-empty (c ∷ s) row rows = ap (cons_char c) (prepend-empty s row rows)

attach-empty :
    (s : Text) (row : List Text) (rows : Table) → attach s row (([] ∷ []) ∷ rows) ≡ (s ∷ row) ∷ rows
unfolding attach new_cell
attach-empty s [] rows = prepend-empty s [] rows
attach-empty s (t ∷ row) rows =
    ap (λ k. prepend s (new_cell k)) (attach-empty t row rows) ∙ prepend-empty s (t ∷ row) rows

-- A row has cells.
abbrev pub HasCells : List Text → Type 0
HasCells [] = ⊥
HasCells (s ∷ row) = Unit

-- What a file of `download_csv` holds is exactly its header and its rows, whatever quotes, commas and
-- line feeds the cells have, if the header and each row have cells.
pub read-download_csv :
    (headers : List Text) (rows : List (List Text))
    → HasCells headers
    → All HasCells rows
    → read_table (download_csv headers rows) ≡ headers ∷ rows
unfolding download_csv joined read_table
read-download_csv [] rows h hs = absurd h
read-download_csv (s ∷ row) [] h hs =
    ap (read_from outside) (sym (append-nil (joined b',' (map quoted (s ∷ row)))))
    ∙ read-row s row []
    ∙ ap (attach s row) read-nothing
    ∙ attach-empty s row []
read-download_csv (s ∷ row) ([] ∷ rows) h (k, hs) = absurd k
read-download_csv (s ∷ row) ((t ∷ next) ∷ rows) h (k, hs) =
    read-row s row _
    ∙ ap (attach s row) (read-line _)
    ∙ attach-empty s row _
    ∙ ap (λ table. (s ∷ row) ∷ table) (read-download_csv (t ∷ next) rows k hs)

map-HasCells :
    {A : Type 0} (f : A → List Text) (l : List A)
    → ((a : A) → HasCells (f a))
    → All HasCells (map f l)
map-HasCells f [] h = tt
map-HasCells f (a ∷ l) h = (h a, map-HasCells f l h)

-- Reading the file of exported wallets gives the headers and one row for each wallet, in order.
pub read-export_wallets_to_csv :
    (wallets : List WalletRow)
    → read_table (export_wallets_to_csv wallets) ≡ wallet_headers ∷ map wallet_cells wallets
unfolding export_wallets_to_csv
read-export_wallets_to_csv wallets =
    read-download_csv wallet_headers (map wallet_cells wallets) tt
      (map-HasCells wallet_cells wallets (λ w. tt))
