-- ===== src/Editor/Draw.antt =====
-- kernel/editor/editor.c: what the editor draws.
use gecko_os_mac_compatabili.Common.{
  ℕ, zero, suc, ◌+◌, ◌-◌, Bool, true, false, not, List, [], ◌∷◌, ◌++◌, leb, ltb, ◌&&◌,
  if◌then◌else◌, length,
}
use gecko_os_mac_compatabili.Editor.Text.{
  Color, color_text, color_status, put_entry, move_cursor, Editor, is_newline, ed_line_start,
  ed_count_lines, ed_offset_to_line, ed_offset_to_col,
}

-- ED_W and ED_H
abbrev pub width : ℕ
width = 128

abbrev pub height : ℕ
height = 48

abbrev pub rows : ℕ
rows = height - 1

abbrev pub put : ℕ → Color → ℕ → ℕ → Editor → Editor
put c color col row s = record s { drawn = s.drawn ++ (put_entry c color col row ∷ []) }

-- From column `col` on, `k` spaces.
unfoldable pub fill : ℕ → ℕ → ℕ → Color → Editor → Editor
fill zero col row color s = s
fill (suc k) col row color s = fill k (suc col) row color (put b' ' color col row s)

abbrev pub ed_fill_row : ℕ → Color → Editor → Editor
ed_fill_row row color s = fill width 0 row color s

-- The characters of a text from column `col` up to column `limit`, and the column after them.
unfoldable pub put_text : List ℕ → ℕ → ℕ → ℕ → Editor → ℕ × Editor
put_text [] limit col row s = (col, s)
put_text (c ∷ cs) limit col row s =
    let more = put_text cs limit (suc col) row (put c color_status col row s) in
    if ltb col limit then more else (col, s)

-- " GeckoEdit | "
abbrev pub prefix : List ℕ
prefix =
    b' ' ∷ b'G' ∷ b'e' ∷ b'c' ∷ b'k' ∷ b'o' ∷ b'E' ∷ b'd' ∷ b'i' ∷ b't' ∷ b' ' ∷ b'|' ∷ b' ' ∷ []

-- " [modified]"
abbrev pub modified : List ℕ
modified = b' ' ∷ b'[' ∷ b'm' ∷ b'o' ∷ b'd' ∷ b'i' ∷ b'f' ∷ b'i' ∷ b'e' ∷ b'd' ∷ b']' ∷ []

-- "^S Save  ^Q Quit "
abbrev pub hints : List ℕ
hints =
    b'^' ∷ b'S' ∷ b' ' ∷ b'S' ∷ b'a' ∷ b'v' ∷ b'e' ∷ b' ' ∷ b' ' ∷ b'^' ∷ b'Q' ∷ b' ' ∷ b'Q' ∷ b'u'
    ∷ b'i' ∷ b't' ∷ b' ' ∷ []

-- The start of the status bar, up to the name of the file.
unfoldable pub put_name : Editor → ℕ × Editor
put_name s =
    let a = put_text prefix width 0 rows (ed_fill_row rows color_status s) in
    put_text s.filename (width - 20) a.0 rows a.1

unfoldable pub put_modified : Bool → ℕ × Editor → ℕ × Editor
put_modified false b = b
put_modified true b = put_text modified (width - 18) b.0 rows b.1

unfoldable pub ed_draw_status : Editor → Editor
ed_draw_status s =
    (put_text hints width (width - length hints) rows (put_modified s.dirty (put_name s)).1).1

-- The characters of a line from index `start` on, of at most `k` columns.
unfoldable pub put_line : ℕ → ℕ → ℕ → ℕ → Editor → Editor
put_line zero start col row s = s
put_line (suc k) start col row s =
    let more = put_line k (suc start) (suc col) row (put (s.buf start) color_text col row s) in
    if ltb start s.len && not (is_newline (s.buf start)) then more else s

-- The rows from `row` on.
unfoldable pub draw_rows : ℕ → ℕ → Editor → Editor
unfolding fill put_line
draw_rows zero row s = s
draw_rows (suc k) row s =
    let filled = ed_fill_row row color_text s in
    let line = s.view_row + row in
    draw_rows k (suc row) (
      if leb (ed_count_lines s) line
      then filled
      else put_line width (ed_line_start s line) 0 row filled)

-- The first row that is shown, so that the line of the cursor is.
unfoldable pub scrolled : ℕ → ℕ → ℕ
scrolled line view =
    let up = if ltb line view then line else view in
    if leb (up + rows) line then line + 1 - rows else up

unfoldable pub ed_redraw : Editor → Editor
unfolding draw_rows scrolled
ed_redraw s =
    let line = ed_offset_to_line s s.cur in
    let t = ed_draw_status (draw_rows rows 0 (record s { view_row = scrolled line s.view_row })) in
    let col = ed_offset_to_col t t.cur in
    record t {
      drawn =
          t.drawn
          ++ (move_cursor (if leb width col then width - 1 else col) (line - t.view_row) ∷ []);
    }
