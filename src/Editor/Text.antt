-- ===== src/Editor/Text.antt =====
-- kernel/editor/editor.c: the text, the cursor, and what changes them.
pub mod Lines
pub mod Edit
use gecko_os_mac_compatabili.Common.{
  ℕ, zero, suc, ◌+◌, ◌-◌, Bool, true, false, List, [], ◌∷◌, leb, ltb, ◌==◌, if◌then◌else◌, min,
}

-- EDITOR_MAX_FILESIZE
abbrev pub max_filesize : ℕ
max_filesize = 4096

-- The two colours of the editor.
pub data Color : Type 0 where
  color_text color_status : Color

-- A call of `putentryat`, or of `move_tcursor`.
pub data Drawn : Type 0 where
  put_entry : ℕ → Color → ℕ → ℕ → Drawn
  move_cursor : ℕ → ℕ → Drawn

-- `buf` is what `ed_buf` holds at each index. `drawn` and `saved` are what went to the screen and to
-- the file system.
pub record Editor : Type 0 where
  pub buf : ℕ → ℕ
  pub len : ℕ
  pub cur : ℕ
  pub view_row : ℕ
  pub filename : List ℕ
  pub dirty : Bool
  pub drawn : List Drawn
  pub saved : List (List ℕ × List ℕ)

abbrev pub store : ℕ → ℕ → (ℕ → ℕ) → ℕ → ℕ
store i c b j = if j == i then c else b j

abbrev pub is_newline : ℕ → Bool
is_newline c = c == b'\n'

-- The loop of `ed_line_start` from `pos` on, for `k` more characters; `n` lines are still to come.
unfoldable pub skip_lines : ℕ → (ℕ → ℕ) → ℕ → ℕ → ℕ
skip_lines zero b n pos = pos
skip_lines (suc k) b zero pos = pos
skip_lines (suc k) b (suc n) pos =
    skip_lines k b (if is_newline (b pos) then n else suc n) (suc pos)

unfoldable pub ed_line_start : Editor → ℕ → ℕ
unfolding skip_lines
ed_line_start s n = skip_lines s.len s.buf n 0

-- The newlines before an index.
unfoldable pub newlines : (ℕ → ℕ) → ℕ → ℕ
newlines b zero = 0
newlines b (suc i) = newlines b i + (if is_newline (b i) then 1 else 0)

unfoldable pub ed_count_lines : Editor → ℕ
unfolding newlines
ed_count_lines s = 1 + newlines s.buf s.len

unfoldable pub ed_offset_to_line : Editor → ℕ → ℕ
unfolding newlines
ed_offset_to_line s offset = newlines s.buf (min offset s.len)

unfoldable pub column : (ℕ → ℕ) → ℕ → ℕ
column b zero = 0
column b (suc i) = if is_newline (b i) then 0 else suc (column b i)

unfoldable pub ed_offset_to_col : Editor → ℕ → ℕ
unfolding column
ed_offset_to_col s offset = column s.buf offset

-- The characters up to a newline, of at most `k`.
unfoldable pub line_rest : ℕ → (ℕ → ℕ) → ℕ → ℕ
line_rest zero b pos = 0
line_rest (suc k) b pos = if is_newline (b pos) then 0 else suc (line_rest k b (suc pos))

unfoldable pub ed_line_len : Editor → ℕ → ℕ
unfolding line_rest ed_line_start
ed_line_len s n = let start = ed_line_start s n in line_rest (s.len - start) s.buf start

-- The loop that moves `k` characters up, the last one to index `i`.
unfoldable pub shift_up : ℕ → ℕ → (ℕ → ℕ) → ℕ → ℕ
shift_up zero i b = b
shift_up (suc k) i b = shift_up k (i - 1) (store i (b (i - 1)) b)

unfoldable pub ed_insert : ℕ → Editor → Editor
unfolding shift_up
ed_insert c s = if leb (max_filesize - 1) s.len then s else record s {
  buf = store (suc s.len) 0 (store s.cur c (shift_up (s.len - s.cur) s.len s.buf));
  cur = suc s.cur;
  len = suc s.len;
  dirty = true;
}

-- The loop that moves `k` characters down, the first one to index `i`.
unfoldable pub shift_down : ℕ → ℕ → (ℕ → ℕ) → ℕ → ℕ
shift_down zero i b = b
shift_down (suc k) i b = shift_down k (suc i) (store i (b (suc i)) b)

unfoldable pub ed_backspace : Editor → Editor
unfolding shift_down
ed_backspace s = if s.cur == 0 then s else record s {
  buf = store (s.len - 1) 0 (shift_down (s.len - 1 - (s.cur - 1)) (s.cur - 1) s.buf);
  cur = s.cur - 1;
  len = s.len - 1;
  dirty = true;
}

unfoldable pub ed_move_left : Editor → Editor
ed_move_left s = if ltb 0 s.cur then record s { cur = s.cur - 1 } else s

unfoldable pub ed_move_right : Editor → Editor
ed_move_right s = if ltb s.cur s.len then record s { cur = suc s.cur } else s

-- To a line, in the column of the cursor or at the end of the line.
abbrev pub move_to_line : ℕ → Editor → Editor
move_to_line n s = record s {
  cur = ed_line_start s n + min (ed_offset_to_col s s.cur) (ed_line_len s n);
}

unfoldable pub ed_move_up : Editor → Editor
unfolding ed_offset_to_line ed_offset_to_col ed_line_len
ed_move_up s =
    let line = ed_offset_to_line s s.cur in if line == 0 then s else move_to_line (line - 1) s

unfoldable pub ed_move_down : Editor → Editor
unfolding ed_offset_to_line ed_count_lines ed_offset_to_col ed_line_len
ed_move_down s =
    let line = ed_offset_to_line s s.cur in
    if leb (ed_count_lines s - 1) line then s else move_to_line (suc line) s
