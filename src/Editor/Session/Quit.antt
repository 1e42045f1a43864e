-- ===== src/Editor/Session/Quit.antt =====
-- When the editor ends.
use gecko_os_mac_compatabili.Common.{
  ℕ, ◌≡◌, ◌⊎◌, inl, inr, refl, Bool, true, false, Option, leb, ltb, ◌==◌, ◌&&◌, if◌then◌else◌,
  arith, Bool-cases, bit_and,
}
use gecko_os_mac_compatabili.Editor.Text.{Editor}
use gecko_os_mac_compatabili.Editor.Session.{
  FileSystem, Keys, Round, more, quit, is_break, press, answer, on_scancode,
}

-- A round that ends the editor: nothing is unsaved, or Ctrl+Q was the answer to the question.
abbrev pub QuitRight : Keys → ℕ → Round → Type 0
QuitRight keys sc (more k s) = Unit {0}
QuitRight keys sc (quit s) =
    (s.dirty ≡ false) ⊎ ((keys.asking ≡ true) × (keys.ctrl_held ≡ true) × (sc ≡ 0x10))

if-QuitRight :
    (keys : Keys) (sc : ℕ) (b : Bool) (r u : Round)
    → QuitRight keys sc r
    → QuitRight keys sc u
    → QuitRight keys sc (if b then r else u)
if-QuitRight keys sc true r u h k = h
if-QuitRight keys sc false r u h k = k

-- Each branch may use that it is taken.
taken-QuitRight :
    (keys : Keys) (sc : ℕ) (b : Bool) (r u : Round)
    → (b ≡ true → QuitRight keys sc r)
    → (b ≡ false → QuitRight keys sc u)
    → QuitRight keys sc (if b then r else u)
taken-QuitRight keys sc true r u h k = h refl
taken-QuitRight keys sc false r u h k = k refl

press-QuitRight :
    (fs : Option FileSystem) (ascii : ℕ → ℕ) (keys : Keys) (sc : ℕ) (s : Editor)
    → QuitRight keys sc (press fs ascii keys sc s)
unfolding press
press-QuitRight fs ascii keys sc s = if-QuitRight keys sc (sc == 0x60) _ _ tt (
    if-QuitRight keys sc (sc == 0x61) _ _ tt (
      if-QuitRight keys sc (sc == 0x62) _ _ tt (
        if-QuitRight keys sc (sc == 0x63) _ _ tt (
          if-QuitRight keys sc (keys.ctrl_held && sc == 0x1F) _ _ tt (
            if-QuitRight keys sc (keys.ctrl_held && sc == 0x10) _ _
              (taken-QuitRight keys sc s.dirty _ (quit s) (λ dirty. tt) inl)
              (if-QuitRight keys sc (sc == 0x0E) _ _ tt (
                if-QuitRight keys sc (sc == 0x1C) _ _ tt (
                  if-QuitRight keys sc (leb 0x20 (ascii sc) && ltb (ascii sc) 0x80) _ _ tt
                    tt))))))))

answer-QuitRight :
    (keys : Keys) (sc : ℕ) (s : Editor) → keys.asking ≡ true → QuitRight keys sc (answer keys sc s)
unfolding answer
answer-QuitRight keys sc s asked =
    if-QuitRight keys sc (is_break sc) _ _ tt (elim (Bool-cases (sc == 0x10 && keys.ctrl_held)) [
      | inl yes_quit ↦ rw yes_quit (inr (asked, ground (arith, yes_quit), ground (arith, yes_quit)))
      | inr no_quit ↦ rw no_quit tt
    ])

-- A scancode ends the editor only when nothing is unsaved, or as Ctrl+Q in answer to the
-- question whether to discard.
pub on_scancode-QuitRight :
    (fs : Option FileSystem) (ascii : ℕ → ℕ) (keys : Keys) (sc : ℕ) (s : Editor)
    → QuitRight keys sc (on_scancode fs ascii keys sc s)
unfolding on_scancode
on_scancode-QuitRight fs ascii keys sc s =
    taken-QuitRight keys sc keys.asking (answer keys sc s) _ (answer-QuitRight keys sc s) (λ typing.
      if-QuitRight keys sc (bit_and sc 0x7F == 0x1D) (more _ s) _ tt (
        if-QuitRight keys sc (is_break sc) (more keys s) _ tt (press-QuitRight fs ascii keys sc s)))
