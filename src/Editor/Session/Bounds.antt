-- ===== src/Editor/Session/Bounds.antt =====
-- Through the whole session the cursor stays in the text and the text in its buffer.
use gecko_os_mac_compatabili.Common.{
  ℕ, zero, suc, ◌+◌, ◌-◌, ◌≤◌, ◌<◌, ◌≡◌, refl, sym, subst, Bool, true, false, not, List, [], ◌∷◌,
  Option, none, some, leb, ltb, ◌==◌, ◌&&◌, if◌then◌else◌, arith, Bool-cases, inl, inr, bit_and,
  take, length,
}
use gecko_os_mac_compatabili.Keyboard.{Keyboard, Reading, scancode_to_ascii, ps2_kb_wfi}
use gecko_os_mac_compatabili.Editor.Text.{
  Editor, Color, color_text, color_status, store, is_newline, ed_line_start, ed_count_lines,
  ed_offset_to_line, ed_insert, ed_backspace, ed_move_left, ed_move_right, ed_move_up, ed_move_down,
  move_to_line, max_filesize,
}
use gecko_os_mac_compatabili.Editor.Text.Lines.{line-inside}
use gecko_os_mac_compatabili.Editor.Text.Edit.{ed_insert_lem, ed_backspace_lem, Inserted, Removed}
use gecko_os_mac_compatabili.Editor.Draw.{
  width, rows, put, fill, ed_fill_row, put_text, prefix, modified, hints, put_name, put_modified,
  ed_draw_status, put_line, draw_rows, scrolled, ed_redraw,
}
use gecko_os_mac_compatabili.Editor.Session.{
  Entry, FileSystem, characters, ed_save, find_file, load_chunk, load_rounds, emptied, ed_load,
  start, not_mounted, unsaved, Keys, Round, more, quit, is_break, press, answer, on_scancode,
  run_keys, editor_run,
}

-- The cursor is in the text, and the text and the 0 after it are in the buffer.
pub record IsWell (len cur : ℕ) : Type 0 where
  pub inside : cur ≤ len
  pub room : len < 4096

abbrev pub Well : Editor → Type 0
Well s = IsWell s.len s.cur

fill-Well : (k col row : ℕ) (color : Color) (s : Editor) → Well s → Well (fill k col row color s)
unfolding fill
fill-Well zero col row color s h = h
fill-Well (suc k) col row color s h = fill-Well k (suc col) row color (put b' ' color col row s) h

if-Well : (b : Bool) (s t : Editor) → Well s → Well t → Well (if b then s else t)
if-Well true s t h k = h
if-Well false s t h k = k

put_text-Well :
    (cs : List ℕ) (limit col row : ℕ) (s : Editor) → Well s → Well (put_text cs limit col row s).1
unfolding put_text
put_text-Well [] limit col row s h = h
put_text-Well (c ∷ cs) limit col row s h = elim (Bool-cases (ltb col limit)) [
  | inl on ↦
      rw (on, put_text) (put_text-Well cs limit (suc col) row (put c color_status col row s) h)
  | inr off ↦ rw (off, put_text) h
]

put_name-Well : (s : Editor) → Well s → Well (put_name s).1
unfolding put_name
put_name-Well s h = put_text-Well s.filename (width - 20) _ rows _ (
    put_text-Well prefix width 0 rows (ed_fill_row rows color_status s)
      (fill-Well width 0 rows color_status s h))

put_modified-Well : (b : Bool) (r : ℕ × Editor) → Well r.1 → Well (put_modified b r).1
unfolding put_modified
put_modified-Well false r h = h
put_modified-Well true r h = put_text-Well modified (width - 18) r.0 rows r.1 h

ed_draw_status-Well : (s : Editor) → Well s → Well (ed_draw_status s)
unfolding ed_draw_status
ed_draw_status-Well s h =
    put_text-Well hints width (width - length hints) rows (put_modified s.dirty (put_name s)).1
      (put_modified-Well s.dirty (put_name s) (put_name-Well s h))

put_line-Well : (k start col row : ℕ) (s : Editor) → Well s → Well (put_line k start col row s)
unfolding put_line
put_line-Well zero start col row s h = h
put_line-Well (suc k) start col row s h =
    if-Well (ltb start s.len && not (is_newline (s.buf start)))
      (put_line k (suc start) (suc col) row (put (s.buf start) color_text col row s)) s
      (put_line-Well k (suc start) (suc col) row (put (s.buf start) color_text col row s) h) h

draw_rows-Well : (k row : ℕ) (s : Editor) → Well s → Well (draw_rows k row s)
unfolding draw_rows
draw_rows-Well zero row s h = h
draw_rows-Well (suc k) row s h =
    let filled : Editor = ed_fill_row row color_text s in
    let filled-Well : Well filled = fill-Well width 0 row color_text s h in
    let text : Editor = put_line width (ed_line_start s (s.view_row + row)) 0 row filled in
    let below : Bool = leb (ed_count_lines s) (s.view_row + row) in
    draw_rows-Well k (suc row) (if below then filled else text) (
      if-Well below filled text filled-Well
        (put_line-Well width (ed_line_start s (s.view_row + row)) 0 row filled filled-Well))

ed_redraw-Well : (s : Editor) → Well s → Well (ed_redraw s)
unfolding ed_redraw
ed_redraw-Well s h = ed_draw_status-Well _ (
    draw_rows-Well rows 0 (record s { view_row = scrolled (ed_offset_to_line s s.cur) s.view_row })
      h)

ed_insert-Well : (c : ℕ) (s : Editor) → Well s → Well (ed_insert c s)
ed_insert-Well c s h = elim (Bool-cases (ltb s.len 4095)) [
  | inl fits ↦
      let t : Inserted c s (ed_insert c s) =
        (ed_insert_lem c s h.inside).0 (ground (arith, fits)) in
      record {
        inside = omega (arith, t.longer, t.after, h.inside);
        room = ground (arith, fits, t.longer);
      }
  | inr full ↦ subst Well (sym ((ed_insert_lem c s h.inside).1 (ground (arith, full)))) h
]

ed_backspace-Well : (s : Editor) → Well s → Well (ed_backspace s)
ed_backspace-Well s h = elim (Bool-cases (s.cur == 0)) [
  | inl first ↦ subst Well (sym ((ed_backspace_lem s h.inside).0 (ground (arith, first)))) h
  | inr later ↦
      let t : Removed (s.cur - 1) s (ed_backspace s) =
        (ed_backspace_lem s h.inside).1 (s.cur - 1) (ground (arith, later)) in
      record {
        inside = omega (arith, t.shorter, t.before, h.inside);
        room = omega (arith, t.shorter, h.room);
      }
]

ed_move_left-Well : (s : Editor) → Well s → Well (ed_move_left s)
unfolding ed_move_left
ed_move_left-Well s h =
    if-Well (ltb 0 s.cur) _ s (record { inside = omega (arith, h.inside); room = h.room }) h

ed_move_right-Well : (s : Editor) → Well s → Well (ed_move_right s)
unfolding ed_move_right
ed_move_right-Well s h = elim (Bool-cases (ltb s.cur s.len)) [
  | inl on ↦ rw (on, ed_move_right) (record { inside = ground (arith, on); room = h.room })
  | inr off ↦ rw (off, ed_move_right) h
]

move_to_line-Well : (n : ℕ) (s : Editor) → Well s → Well (move_to_line n s)
move_to_line-Well n s h = record { inside = omega (arith, line-inside s n); room = h.room }

ed_move_up-Well : (s : Editor) → Well s → Well (ed_move_up s)
unfolding ed_move_up
ed_move_up-Well s h =
    if-Well (ed_offset_to_line s s.cur == 0) s (move_to_line (ed_offset_to_line s s.cur - 1) s) h
      (move_to_line-Well (ed_offset_to_line s s.cur - 1) s h)

ed_move_down-Well : (s : Editor) → Well s → Well (ed_move_down s)
unfolding ed_move_down
ed_move_down-Well s h =
    if-Well (leb (ed_count_lines s - 1) (ed_offset_to_line s s.cur)) s
      (move_to_line (suc (ed_offset_to_line s s.cur)) s) h
      (move_to_line-Well (suc (ed_offset_to_line s s.cur)) s h)

ed_save-Well : (fs : Option FileSystem) (s : Editor) → Well s → Well (ed_save fs s)
unfolding ed_save
ed_save-Well none s h =
    put_text-Well not_mounted width 0 rows (ed_fill_row rows color_status s)
      (fill-Well width 0 rows color_status s h)
ed_save-Well (some fs) s h =
    ed_draw_status-Well _ (if-Well (fs.write s.saved s.filename (characters s.len 0 s.buf)) _ _ h h)

load_chunk-Well : (cs : List ℕ) (s : Editor) → Well s → Well (load_chunk cs s)
unfolding load_chunk
load_chunk-Well [] s h = h
load_chunk-Well (c ∷ cs) s h = elim (Bool-cases (ltb s.len (max_filesize - 1))) [
  | inr full ↦ rw (full, load_chunk) h
  | inl fits ↦
      rw (fits, load_chunk)
        (load_chunk-Well cs (record s { buf = store s.len c s.buf; len = suc s.len })
          (record { inside = omega (arith, h.inside); room = ground (arith, fits) }))
]

load_rounds-Well :
    (k : ℕ) (read : ℕ → List ℕ) (offset : ℕ) (s : Editor)
    → Well s
    → Well (load_rounds k read offset s)
unfolding load_rounds
load_rounds-Well zero read offset s h = h
load_rounds-Well (suc k) read offset s h = elim (Bool-cases (ltb s.len (max_filesize - 1))) [
  | inr full ↦ rw (full, load_rounds) h
  | inl fits ↦ rw (fits, load_rounds) (chunk (read offset) (λ o t g. load_rounds-Well k read o t g))
]
  where
    chunk :
        (cs : List ℕ)
        → ((o : ℕ) (t : Editor) → Well t → Well (load_rounds k read o t))
        → Well (elim cs [
          | [] ↦ s
          | c ∷ cs ↦ load_rounds k read (offset + length (c ∷ cs)) (load_chunk (c ∷ cs) s)
        ])
    chunk [] rec = h
    chunk (c ∷ cs) rec =
        rec (offset + length (c ∷ cs)) (load_chunk (c ∷ cs) s) (load_chunk-Well (c ∷ cs) s h)

-- Whatever the cursor was, a text of no characters is well with the cursor at its start.
ed_load-Well : (fs : Option FileSystem) (s : Editor) → s.cur ≡ 0 → Well (ed_load fs s)
unfolding ed_load
ed_load-Well none s e = record { inside = omega arith; room = omega arith }
ed_load-Well (some fs) s e = found (find_file s.filename fs.entries)
  where
    none_yet : Well (emptied s)
    none_yet = record { inside = omega arith; room = omega arith }

    found :
        (o : Option Entry)
        → Well (elim o [
          | none ↦ emptied s
          | some e ↦
              (let t = load_rounds (max_filesize - 1) e.read 0 (emptied s) in
                record t { buf = store t.len 0 t.buf })
        ])
    found none = none_yet
    found (some e) = load_rounds-Well (max_filesize - 1) e.read 0 (emptied s) none_yet

start-Well : (fs : Option FileSystem) (name : List ℕ) (s : Editor) → Well (start fs name s)
unfolding start
start-Well fs name s = ed_redraw-Well _ (
    ed_load-Well fs (record s { filename = take 31 name; cur = 0; view_row = 0; dirty = false })
      refl)

-- What a round leaves is well.
abbrev pub AllWell : Round → Type 0
AllWell (more keys s) = Well s
AllWell (quit s) = Well s

if-AllWell : (b : Bool) (r u : Round) → AllWell r → AllWell u → AllWell (if b then r else u)
if-AllWell true r u h k = h
if-AllWell false r u h k = k

press-AllWell :
    (fs : Option FileSystem) (ascii : ℕ → ℕ) (keys : Keys) (sc : ℕ) (s : Editor)
    → Well s
    → AllWell (press fs ascii keys sc s)
unfolding press
press-AllWell fs ascii keys sc s h =
    if-AllWell (sc == 0x60) _ _ (ed_redraw-Well _ (ed_move_up-Well s h)) (
      if-AllWell (sc == 0x61) _ _ (ed_redraw-Well _ (ed_move_down-Well s h)) (
        if-AllWell (sc == 0x62) _ _ (ed_redraw-Well _ (ed_move_left-Well s h)) (
          if-AllWell (sc == 0x63) _ _ (ed_redraw-Well _ (ed_move_right-Well s h)) (
            if-AllWell (keys.ctrl_held && sc == 0x1F) _ _ (ed_redraw-Well _ (ed_save-Well fs s h)) (
              if-AllWell (keys.ctrl_held && sc == 0x10) _ _
                (if-AllWell s.dirty _ (quit s)
                  (put_text-Well unsaved width 0 rows (ed_fill_row rows color_status s)
                    (fill-Well width 0 rows color_status s h))
                  h)
                (if-AllWell (sc == 0x0E) _ _ (ed_redraw-Well _ (ed_backspace-Well s h)) (
                  if-AllWell (sc == 0x1C) _ _ (ed_redraw-Well _ (ed_insert-Well b'\n' s h)) (
                    if-AllWell (leb 0x20 (ascii sc) && ltb (ascii sc) 0x80) _ (more keys s)
                      (ed_redraw-Well _ (ed_insert-Well (ascii sc) s h)) h))))))))

answer-AllWell : (keys : Keys) (sc : ℕ) (s : Editor) → Well s → AllWell (answer keys sc s)
unfolding answer
answer-AllWell keys sc s h =
    if-AllWell (is_break sc) (more keys s) _ h
      (if-AllWell (sc == 0x10 && keys.ctrl_held) (quit s) _ h (ed_redraw-Well s h))

on_scancode-AllWell :
    (fs : Option FileSystem) (ascii : ℕ → ℕ) (keys : Keys) (sc : ℕ) (s : Editor)
    → Well s
    → AllWell (on_scancode fs ascii keys sc s)
unfolding on_scancode
on_scancode-AllWell fs ascii keys sc s h = if-AllWell keys.asking _ _ (answer-AllWell keys sc s h) (
    if-AllWell (bit_and sc 0x7F == 0x1D) (more _ s) _ h
      (if-AllWell (is_break sc) (more keys s) _ h (press-AllWell fs ascii keys sc s h)))

run_keys-AllWell :
    (fs : Option FileSystem) (rs : List Reading) (kb : Keyboard) (keys : Keys) (s : Editor)
    → Well s
    → AllWell (run_keys fs rs kb keys s).0
unfolding run_keys
run_keys-AllWell fs [] kb keys s h = h
run_keys-AllWell fs (r ∷ rs) kb keys s h =
    after (on_scancode fs (scancode_to_ascii pressed) keys (ps2_kb_wfi r kb).0 s)
      (on_scancode-AllWell fs (scancode_to_ascii pressed) keys (ps2_kb_wfi r kb).0 s h)
      (λ k t w. run_keys-AllWell fs rs pressed k t w)
  where
    pressed : Keyboard
    pressed = (ps2_kb_wfi r kb).1

    following : Round → Round × Keyboard
    following u = elim u [ more k t ↦ run_keys fs rs pressed k t | quit t ↦ (quit t, pressed) ]

    after :
        (u : Round)
        → AllWell u
        → ((k : Keys) (t : Editor) → Well t → AllWell (run_keys fs rs pressed k t).0)
        → AllWell (following u).0
    after (more k t) w rec = rec k t w
    after (quit t) w rec = w

-- For every mounted file system or none, file name, state of the keyboard with its layout, and
-- sequence of scancodes, after the session the cursor is in the text, and the text with its
-- final 0 fits the buffer.
pub editor_run-AllWell :
    (fs : Option FileSystem) (name : List ℕ) (readings : List Reading) (kb : Keyboard) (s : Editor)
    → AllWell (editor_run fs name readings kb s).0
unfolding editor_run
editor_run-AllWell fs name readings kb s =
    run_keys-AllWell fs readings kb _ (start fs name s) (start-Well fs name s)
