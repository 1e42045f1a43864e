-- ===== src/Keyboard.antt =====
-- kernel/drivers/keyboard.c: the keys that are held, the layout, and the scancode that a reader waits
-- for.
use gecko_os_mac_compatabili.Common.{
  ℕ, Bool, true, false, not, ltb, ◌==◌, ◌||◌, if◌then◌else◌, bit_and,
}

abbrev left_shift_sc : ℕ
left_shift_sc = 0x2A

abbrev right_shift_sc : ℕ
right_shift_sc = 0x36

abbrev caps_lock_sc : ℕ
caps_lock_sc = 0x3A

abbrev pub key_up : ℕ
key_up = 0x60

abbrev pub key_down : ℕ
key_down = 0x61

abbrev pub key_left : ℕ
key_left = 0x62

abbrev pub key_right : ℕ
key_right = 0x63

pub record KeyState : Type 0 where
  pub shift_l : Bool
  pub shift_r : Bool
  pub alt_l : Bool
  pub alt_r : Bool
  pub ctrl_l : Bool
  pub ctrl_r : Bool
  pub caps_lock : Bool

-- `KEYSTATE`, `ScASCII` and `ScASCII_UPPER`.
pub record Keyboard : Type 0 where
  pub held : KeyState
  pub ascii : ℕ → ℕ
  pub ascii_upper : ℕ → ℕ

pub record KeyboardLayout : Type 0 where
  pub lower : ℕ → ℕ
  pub upper : ℕ → ℕ

-- What a call of `ps2_kb_wfi` finds: `last_scancode` once `kb_ready` is set, and what the data port
-- gives when the call reads it after 0xE0.
pub record Reading : Type 0 where
  pub last_scancode : ℕ
  pub extended : ℕ

differ : Bool → Bool → Bool
differ true b = not b
differ false b = b

unfoldable pub scancode_to_ascii : Keyboard → ℕ → ℕ
unfolding differ
scancode_to_ascii k scancode =
    if differ k.held.caps_lock (k.held.shift_l || k.held.shift_r)
    then k.ascii_upper scancode
    else k.ascii scancode

pub process_keypress : ℕ → KeyState → KeyState
process_keypress sc held =
    let released = not (bit_and sc 0x80 == 0) in
    let key = bit_and sc 0x7F in
    if key == left_shift_sc
    then record held { shift_l = not released }
    else if key == right_shift_sc
    then record held { shift_r = not released }
    else if key == caps_lock_sc
    then (if released then held else record held { caps_lock = not held.caps_lock })
    else held

-- The scancode for the byte after 0xE0.
extended_key : ℕ → ℕ
extended_key ext =
    if not (bit_and ext 0x80 == 0)
    then 0
    else if ext == 0x48
    then key_up
    else if ext == 0x50
    then key_down
    else if ext == 0x4B
    then key_left
    else if ext == 0x4D
    then key_right
    else 0

unfoldable pub ps2_kb_wfi : Reading → Keyboard → ℕ × Keyboard
unfolding process_keypress extended_key
ps2_kb_wfi r k = (
  if r.last_scancode == 0xE0 then extended_key r.extended else r.last_scancode,
  record k { held = process_keypress r.last_scancode k.held },
)

abbrev pub ps2_kb_init : Keyboard → Keyboard
ps2_kb_init k = record k {
  held = record {
    shift_l = false;
    shift_r = false;
    alt_l = false;
    alt_r = false;
    ctrl_l = false;
    ctrl_r = false;
    caps_lock = false;
  };
}

-- The loops over the 128 entries.
abbrev pub set_layout : KeyboardLayout → Keyboard → Keyboard
set_layout layout k = record k {
  ascii = λ j. if ltb j 128 then layout.lower j else k.ascii j;
  ascii_upper = λ j. if ltb j 128 then layout.upper j else k.ascii_upper j;
}
