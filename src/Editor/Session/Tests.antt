-- ===== src/Editor/Session/Tests.antt =====
-- The editor of kernel/editor/editor.c on a few keys.
use gecko_os_mac_compatabili.Common.{
  ℕ, ◌<◌, ◌≡◌, ◌+◌, refl, true, false, List, [], ◌∷◌, none, arith, ◌==◌, if◌then◌else◌,
}
use gecko_os_mac_compatabili.Editor.Text.{Editor, ed_insert, ed_backspace}
use gecko_os_mac_compatabili.Editor.Text.Edit.{ed_backspace-ed_insert}
use gecko_os_mac_compatabili.Keyboard.{
  Keyboard, Reading, scancode_to_ascii, ps2_kb_init, ps2_kb_wfi,
}
use gecko_os_mac_compatabili.Editor.Session.{Keys, editor_run, on_scancode}
use gecko_os_mac_compatabili.Editor.Session.Bounds.{AllWell, editor_run-AllWell}
use gecko_os_mac_compatabili.Editor.Session.Quit.{QuitRight, on_scancode-QuitRight}

-- "abc", a newline, and "de"; the cursor is before "e".
abbrev two_lines : Editor
two_lines = record {
  buf = λ i. if i == 3 then b'\n' else 97 + i;
  len = 6;
  cur = 5;
  view_row = 0;
  filename = b'a' ∷ [];
  dirty = false;
  drawn = [];
  saved = [];
}

ed_backspace-ed_insert_example :
    ((ed_backspace (ed_insert b'x' two_lines)).len ≡ 6)
    × ((ed_backspace (ed_insert b'x' two_lines)).cur ≡ 5)
    × ((j : ℕ) → j < 6 → (ed_backspace (ed_insert b'x' two_lines)).buf j ≡ two_lines.buf j)
ed_backspace-ed_insert_example = ed_backspace-ed_insert b'x' two_lines (omega arith) (omega arith)

abbrev key : ℕ → Reading
key sc = record { last_scancode = sc; extended = 0 }

-- A layout on which the key of scancode 0x2D types "}", and "{" with Shift.
abbrev keyboard : Keyboard
keyboard = ps2_kb_init (record {
  held = record {
    shift_l = true;
    shift_r = true;
    alt_l = false;
    alt_r = false;
    ctrl_l = false;
    ctrl_r = false;
    caps_lock = true;
  };
  ascii = λ sc. sc + 0x50;
  ascii_upper = λ sc. sc + 0x4E;
})

-- The key, the key while Shift is held, and Ctrl+Q twice.
abbrev typed : List Reading
typed = key 0x2D ∷ key 0x2A ∷ key 0x2D ∷ key 0xAA ∷ key 0x1D ∷ key 0x10 ∷ key 0x90 ∷ key 0x10 ∷ []

-- Shift is read from the state that the keys before have left.
typed-ascii :
    (scancode_to_ascii (ps2_kb_wfi (key 0x2A) keyboard).1 0x2D ≡ 0x7B)
    × (scancode_to_ascii (ps2_kb_wfi (key 0xAA) (ps2_kb_wfi (key 0x2A) keyboard).1).1 0x2D ≡ 0x7D)
unfolding ps2_kb_wfi scancode_to_ascii
typed-ascii = (refl, refl)

editor_run-AllWell_example : AllWell (editor_run none (b'a' ∷ []) typed keyboard two_lines).0
editor_run-AllWell_example = editor_run-AllWell none (b'a' ∷ []) typed keyboard two_lines

abbrev control : Keys
control = record { ctrl_held = true; asking = false }

on_scancode-QuitRight_example :
    QuitRight control 0x10 (on_scancode none (λ sc. sc) control 0x10 two_lines)
on_scancode-QuitRight_example = on_scancode-QuitRight none (λ sc. sc) control 0x10 two_lines
