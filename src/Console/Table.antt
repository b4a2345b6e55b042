-- ===== src/Console/Table.antt =====
-- table.hpp: replies of the console.
pub mod Reply
use bfc_tunnel.Base.{ℕ, List, [], ◌∷◌, ◌++◌, ◌==◌, Bool, if◌then◌else◌}
use bfc_tunnel.Console.Text.{Bytes, codes}

abbrev pub newline : ℕ
newline = 10

unfoldable pub frame_reply : Bytes → Bytes
frame_reply body = body ++ (newline ∷ newline ∷ [])

-- `' ' << text << " |"`.
abbrev pub cell : Bytes → Bytes
cell text = b' ' ∷ (text ++ (b' ' ∷ b'|' ∷ []))

unfoldable pub header_cells : List Bytes → Bytes
header_cells [] = []
header_cells (col ∷ columns) = cell col ++ header_cells columns

-- A cell for each column; a missing one is empty, and one too many is left out.
unfoldable pub row_cells : List Bytes → List Bytes → Bytes
row_cells [] row = []
row_cells (col ∷ columns) [] = cell [] ++ row_cells columns []
row_cells (col ∷ columns) (text ∷ row) = cell text ++ row_cells columns row

unfoldable pub rows_text : List Bytes → List (List Bytes) → Bytes
unfolding row_cells
rows_text columns [] = []
rows_text columns (row ∷ rows) =
    b'|' ∷ (row_cells columns row ++ (newline ∷ rows_text columns rows))

-- `s.pop_back()` if the last character is a newline.
unfoldable pub drop_newline : Bytes → Bytes
drop_newline [] = []
drop_newline (c ∷ []) = if c == newline then [] else c ∷ []
drop_newline (c ∷ d ∷ s) = c ∷ drop_newline (d ∷ s)

unfoldable pub render_table : List Bytes → List (List Bytes) → Bytes
unfolding header_cells rows_text drop_newline
render_table columns rows =
    drop_newline (b'|' ∷ (header_cells columns ++ (newline ∷ rows_text columns rows)))

unfoldable pub status_ok : Bytes
unfolding render_table
status_ok = render_table (codes "STATUS" ∷ []) ((codes "OK" ∷ []) ∷ [])

unfoldable pub status_err : Bytes → Bytes
unfolding render_table
status_err message =
    render_table (codes "STATUS" ∷ codes "MESSAGE" ∷ []) ((codes "ERR" ∷ message ∷ []) ∷ [])
