-- ===== src/Keyboard/Tests.antt =====
-- A line typed with a shift and a backspace.
use seng21213_os_se.Base.{ℕ, ◌≡◌, refl, false, List, [], ◌∷◌, some, arith}
use seng21213_os_se.Vga.{Screen}
use seng21213_os_se.Keyboard.{kb_readline, press}
use seng21213_os_se.Keyboard.Line.{Reads, edit, typed, kb_readline-Reads}

abbrev blank : Screen
blank = record { cursor_row = 0; cursor_col = 0; cur_attr = 7; cells = λ _. 0; ports = [] }

-- Shift down, H, shift up, x, backspace, i, Enter: presses and releases.
abbrev shifted_keys : List ℕ
shifted_keys =
    0x2A ∷ 0x23 ∷ 0xA3 ∷ 0xAA ∷ 0x2D ∷ 0xAD ∷ 0x0E ∷ 0x8E ∷ 0x17 ∷ 0x97 ∷ 0x1C ∷ 0x9C ∷ []

-- "Hi", the last character first.
typed_line : edit 7 [] (typed false shifted_keys) ≡ some (105 ∷ 72 ∷ [])
unfolding press
typed_line = refl

kb_readline-Reads_example :
    Reads 8
      (λ _. 1)
      (edit 7 [] (typed false shifted_keys))
      (kb_readline 8 (λ _. 1) false shifted_keys blank)
kb_readline-Reads_example = kb_readline-Reads 8 (λ _. 1) false shifted_keys blank (omega arith)
