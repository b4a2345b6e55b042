-- ===== src/Console/Table/Reply.antt =====
-- table.hpp: where a reply ends.
use bfc_tunnel.Base.{
  ℕ, ◌≡◌, refl, sym, inl, inr, Bool-cases, Bool, true, false, not, ◌&&◌, Option, none, some, List,
  [], ◌∷◌, ◌++◌, arith, ◌==◌, All, All-append, if◌then◌else◌,
}
use mathlib.Core.List.{append_assoc}
use mathlib.Core.Path.{subst}
use bfc_tunnel.Console.Text.{Bytes}
use bfc_tunnel.Console.Table.{
  newline, frame_reply, cell, header_cells, row_cells, rows_text, drop_newline, render_table,
}

abbrev then_part : ℕ → Option (Bytes × Bytes) → Option (Bytes × Bytes)
then_part c none = none
then_part c (some (body, rest)) = some (c ∷ body, rest)

-- A reader of replies: the text up to the first empty line, and what follows it.
unfoldable pub read_reply : Bytes → Option (Bytes × Bytes)
read_reply [] = none
read_reply (c ∷ []) = none
read_reply (c ∷ d ∷ s) =
    let further = read_reply (d ∷ s) in
    if (c == newline) && (d == newline) then some ([], s) else then_part c further

-- A text of lines that are not empty, each with its end; the first has begun when `begun`.
abbrev pub Lines : Bool → Bytes → Type 0
Lines begun [] = begun ≡ false
Lines begun (c ∷ s) = (if c == newline then begun else true) ≡ true × Lines (not (c == newline)) s

abbrev pub IsPlain : ℕ → Type 0
IsPlain c = (c == newline) ≡ false

-- The rest of a line that has begun, and its end.
Lines-append : (p s : Bytes) → All IsPlain p → Lines false s → Lines true (p ++ (newline ∷ s))
Lines-append [] s h l = (refl, l)
Lines-append (c ∷ p) s h l = rw h.0 (refl, Lines-append p s h.1 l)

read_reply-Lines :
    (begun : Bool) (body rest : Bytes)
    → Lines begun (body ++ (newline ∷ []))
    → read_reply (body ++ (newline ∷ newline ∷ rest)) ≡ some (body, rest)
unfolding read_reply
read_reply-Lines begun [] rest l = refl
read_reply-Lines begun (c ∷ []) rest l = elim (Bool-cases (c == newline)) [
  | inl end ↦ absurd (ground (arith, l.1.0, end))
  | inr plain ↦ rw plain (ground arith)
]
read_reply-Lines begun (c ∷ d ∷ s) rest l =
    let ih = read_reply-Lines (not (c == newline)) (d ∷ s) rest l.1 in
    elim (Bool-cases (c == newline)) [
      | inr plain ↦ rw (plain, ih) refl
      | inl end ↦ elim (Bool-cases (d == newline)) [
        | inl again ↦ absurd (ground (arith, l.1.0, end, again))
        | inr next ↦ rw (next, ih) (ground arith)
      ]
    ]

drop_newline-Lines :
    (begun : Bool) (c : ℕ) (s : Bytes)
    → Lines begun (c ∷ s)
    → drop_newline (c ∷ s) ++ (newline ∷ []) ≡ c ∷ s
unfolding drop_newline
drop_newline-Lines begun c [] l = ground (arith, l.1)
drop_newline-Lines begun c (d ∷ s) l = rw (drop_newline-Lines (not (c == newline)) d s l.1) refl

cell-All : (text : Bytes) → All IsPlain text → All IsPlain (cell text)
cell-All text h = (refl, All-append IsPlain text _ h (refl, (refl, tt)))

header_cells-All :
    (columns : List Bytes) → All (All IsPlain) columns → All IsPlain (header_cells columns)
unfolding header_cells
header_cells-All [] h = tt
header_cells-All (col ∷ columns) h =
    All-append IsPlain (cell col) _ (cell-All col h.0) (header_cells-All columns h.1)

row_cells-All :
    (columns row : List Bytes) → All (All IsPlain) row → All IsPlain (row_cells columns row)
unfolding row_cells
row_cells-All [] row h = tt
row_cells-All (col ∷ columns) [] h =
    All-append IsPlain (cell []) _ (cell-All [] tt) (row_cells-All columns [] tt)
row_cells-All (col ∷ columns) (text ∷ row) h =
    All-append IsPlain (cell text) _ (cell-All text h.0) (row_cells-All columns row h.1)

rows_text-Lines :
    (columns : List Bytes) (rows : List (List Bytes))
    → All (All (All IsPlain)) rows
    → Lines false (rows_text columns rows)
unfolding rows_text
rows_text-Lines columns [] h = refl
rows_text-Lines columns (row ∷ rows) h = (
  refl,
  Lines-append (row_cells columns row) _ (row_cells-All columns row h.0)
      (rows_text-Lines columns rows h.1),
)

-- Where no cell holds a newline, a reader that takes the text up to the first empty line gets the
-- whole table out of the framed reply, whatever follows the reply.
pub read_reply-render_table :
    (columns : List Bytes) (rows : List (List Bytes)) (rest : Bytes)
    → All (All IsPlain) columns
    → All (All (All IsPlain)) rows
    → let body = render_table columns rows in
      read_reply (frame_reply body ++ rest) ≡ some (body, rest)
unfolding render_table frame_reply
read_reply-render_table columns rows rest hc hr =
    let text = header_cells columns ++ (newline ∷ rows_text columns rows) in
    let lines : Lines false (b'|' ∷ text) = (
      refl,
      Lines-append (header_cells columns) _ (header_cells-All columns hc)
          (rows_text-Lines columns rows hr),
    ) in
    let whole = drop_newline-Lines false b'|' text lines in
    rw append_assoc (
      read_reply-Lines false (drop_newline (b'|' ∷ text)) rest
        (subst (Lines false) (sym whole) lines))
