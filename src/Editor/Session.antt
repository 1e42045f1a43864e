-- ===== src/Editor/Session.antt =====
-- kernel/editor/editor.c: saving, loading, and the loop of `editor_run`.
pub mod Bounds
pub mod Quit
pub mod Load
mod Tests
use gecko_os_mac_compatabili.Common.{
  ℕ, zero, suc, ◌+◌, ◌-◌, Bool, true, false, not, List, [], ◌∷◌, ◌++◌, Option, none, some, leb, ltb,
  ◌==◌, ◌&&◌, ◌||◌, if◌then◌else◌, take, bit_and, length,
}
use gecko_os_mac_compatabili.Keyboard.{Keyboard, Reading, scancode_to_ascii, ps2_kb_wfi}
use gecko_os_mac_compatabili.Editor.Text.{
  max_filesize, color_text, color_status, Editor, store, ed_insert, ed_backspace, ed_move_left,
  ed_move_right, ed_move_up, ed_move_down,
}
use gecko_os_mac_compatabili.Editor.Draw.{
  width, rows, fill, ed_fill_row, put_text, ed_draw_status, ed_redraw,
}

-- What a mounted file system offers. `read` gives the at most 128 characters from an offset on, none
-- at the end or after an error. `write` tells whether the file was written; it may depend on all the
-- writes before, since they change what is mounted.
pub record Entry : Type 0 where
  pub is_file : Bool
  pub name : List ℕ
  pub read : ℕ → List ℕ

pub record FileSystem : Type 0 where
  pub entries : List Entry
  pub write : List (List ℕ × List ℕ) → List ℕ → List ℕ → Bool

-- The characters of the text, from index `i` on.
unfoldable pub characters : ℕ → ℕ → (ℕ → ℕ) → List ℕ
characters zero i b = []
characters (suc k) i b = b i ∷ characters k (suc i) b

-- " [ERROR: filesystem not mounted]"
abbrev pub not_mounted : List ℕ
not_mounted =
    b' ' ∷ b'[' ∷ b'E' ∷ b'R' ∷ b'R' ∷ b'O' ∷ b'R' ∷ b':' ∷ b' ' ∷ b'f' ∷ b'i' ∷ b'l' ∷ b'e' ∷ b's'
    ∷ b'y' ∷ b's' ∷ b't' ∷ b'e' ∷ b'm' ∷ b' ' ∷ b'n' ∷ b'o' ∷ b't' ∷ b' ' ∷ b'm' ∷ b'o' ∷ b'u'
    ∷ b'n' ∷ b't' ∷ b'e' ∷ b'd' ∷ b']' ∷ []

pub ed_save : Option FileSystem → Editor → Editor
unfolding characters fill put_text
ed_save none s = (put_text not_mounted width 0 rows (ed_fill_row rows color_status s)).1
ed_save (some fs) s =
    let content = characters s.len 0 s.buf in
    let t = record s { saved = s.saved ++ ((s.filename, content) ∷ []) } in
    ed_draw_status (if fs.write s.saved s.filename content then record t { dirty = false } else t)

abbrev upper : ℕ → ℕ
upper c = if leb b'a' c && leb c b'z' then c - 32 else c

same_name : List ℕ → List ℕ → Bool
same_name [] [] = true
same_name [] (d ∷ ds) = false
same_name (c ∷ cs) [] = false
same_name (c ∷ cs) (d ∷ ds) = upper c == upper d && same_name cs ds

pub find_file : List ℕ → List Entry → Option Entry
unfolding same_name
find_file name [] = none
find_file name (e ∷ es) = if e.is_file && same_name e.name name then some e else find_file name es

-- The loop over the characters that were read.
pub load_chunk : List ℕ → Editor → Editor
load_chunk [] s = s
load_chunk (c ∷ cs) s =
    let more = load_chunk cs (record s { buf = store s.len c s.buf; len = suc s.len }) in
    if ltb s.len (max_filesize - 1) then more else s

-- The reads from an offset on; the text is full before the rounds run out.
pub load_rounds : ℕ → (ℕ → List ℕ) → ℕ → Editor → Editor
unfolding load_chunk
load_rounds zero read offset s = s
load_rounds (suc k) read offset s = elim (ltb s.len (max_filesize - 1)) [
  | false ↦ s
  | true ↦ elim (read offset) [
    | [] ↦ s
    | c ∷ cs ↦ load_rounds k read (offset + length (c ∷ cs)) (load_chunk (c ∷ cs) s)
  ]
]

-- A text of no characters.
abbrev pub emptied : Editor → Editor
emptied s = record s { buf = store 0 0 s.buf; len = 0 }

pub ed_load : Option FileSystem → Editor → Editor
unfolding find_file load_rounds
ed_load none s = emptied s
ed_load (some fs) s = elim (find_file s.filename fs.entries) [
  | none ↦ emptied s
  | some e ↦
      let t = load_rounds (max_filesize - 1) e.read 0 (emptied s) in
      record t { buf = store t.len 0 t.buf }
]

-- The state before the loop; what the static buffer and the screen held stays.
pub start : Option FileSystem → List ℕ → Editor → Editor
unfolding ed_load
start fs filename s =
    ed_redraw
      (ed_load fs (record s { filename = take 31 filename; cur = 0; view_row = 0; dirty = false }))

-- Whether Ctrl is held, and whether the loop waits for an answer to " Unsaved!".
pub record Keys : Type 0 where
  pub ctrl_held : Bool
  pub asking : Bool

-- What a round of the loop leaves: `quit` is a `break`.
pub data Round : Type 0 where
  more : Keys → Editor → Round
  quit : Editor → Round

-- " Unsaved! ^Q again to discard, any key to cancel."
abbrev pub unsaved : List ℕ
unsaved =
    b' ' ∷ b'U' ∷ b'n' ∷ b's' ∷ b'a' ∷ b'v' ∷ b'e' ∷ b'd' ∷ b'!' ∷ b' ' ∷ b'^' ∷ b'Q' ∷ b' ' ∷ b'a'
    ∷ b'g' ∷ b'a' ∷ b'i' ∷ b'n' ∷ b' ' ∷ b't' ∷ b'o' ∷ b' ' ∷ b'd' ∷ b'i' ∷ b's' ∷ b'c' ∷ b'a'
    ∷ b'r' ∷ b'd' ∷ b',' ∷ b' ' ∷ b'a' ∷ b'n' ∷ b'y' ∷ b' ' ∷ b'k' ∷ b'e' ∷ b'y' ∷ b' ' ∷ b't'
    ∷ b'o' ∷ b' ' ∷ b'c' ∷ b'a' ∷ b'n' ∷ b'c' ∷ b'e' ∷ b'l' ∷ b'.' ∷ []

abbrev pub is_break : ℕ → Bool
is_break sc = leb 0x80 sc

-- A key that goes on with the text changed by `f`.
abbrev edit : Keys → (Editor → Editor) → Editor → Round
edit keys f s = more keys (ed_redraw (f s))

-- A key that is pressed, other than Ctrl. `ascii` is `scancode_to_ascii`.
pub press : Option FileSystem → (ℕ → ℕ) → Keys → ℕ → Editor → Round
unfolding ed_save fill put_text
press fs ascii keys sc s =
    if sc == 0x60
    then edit keys ed_move_up s
    else if sc == 0x61
    then edit keys ed_move_down s
    else if sc == 0x62
    then edit keys ed_move_left s
    else if sc == 0x63
    then edit keys ed_move_right s
    else if keys.ctrl_held && sc == 0x1F
    then edit keys (ed_save fs) s
    else if keys.ctrl_held && sc == 0x10
    then (if s.dirty
        then more (record keys { asking = true })
            (put_text unsaved width 0 rows (ed_fill_row rows color_status s)).1
        else quit s)
    else if sc == 0x0E
    then edit keys ed_backspace s
    else if sc == 0x1C
    then edit keys (ed_insert b'\n') s
    else if leb 0x20 (ascii sc) && ltb (ascii sc) 0x80
    then edit keys (ed_insert (ascii sc)) s
    else more keys s

-- The answer to " Unsaved!": a key that is let go is none.
pub answer : Keys → ℕ → Editor → Round
answer keys sc s =
    if is_break sc
    then more keys s
    else if sc == 0x10 && keys.ctrl_held
    then quit s
    else more (record keys { asking = false }) (ed_redraw s)

-- The next scancode.
pub on_scancode : Option FileSystem → (ℕ → ℕ) → Keys → ℕ → Editor → Round
unfolding press answer
on_scancode fs ascii keys sc s =
    if keys.asking
    then answer keys sc s
    else if bit_and sc 0x7F == 0x1D
    then more (record keys { ctrl_held = not (is_break sc) }) s
    else if is_break sc
    then more keys s
    else press fs ascii keys sc s

-- The loop, with what the calls of `ps2_kb_wfi` find; the keys that are held decide which table
-- `scancode_to_ascii` reads.
pub run_keys : Option FileSystem → List Reading → Keyboard → Keys → Editor → Round × Keyboard
unfolding on_scancode ps2_kb_wfi scancode_to_ascii
run_keys fs [] kb keys s = (more keys s, kb)
run_keys fs (r ∷ rs) kb keys s =
    let w = ps2_kb_wfi r kb in
    elim (on_scancode fs (scancode_to_ascii w.1) keys w.0 s) [
      | more keys' t ↦ run_keys fs rs w.1 keys' t
      | quit t ↦ (quit t, w.1)
    ]

pub editor_run : Option FileSystem → List ℕ → List Reading → Keyboard → Editor → Round × Keyboard
unfolding start run_keys
editor_run fs filename readings kb s =
    run_keys fs readings kb (record { ctrl_held = false; asking = false }) (start fs filename s)
