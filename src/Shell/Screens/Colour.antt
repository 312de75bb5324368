-- ===== src/Shell/Screens/Colour.antt =====
-- `cmd_colour` of kernel/kernel.c.
use seng21213_os_se.Base.{
  ℕ, ◌+◌, ◌*◌, ◌≡◌, refl, ◌∙◌, Bool, ◌||◌, ◌&&◌, List, [], ◌∷◌, Option, none, some, arith, leb, ltb,
  ◌>>=◌, if◌then◌else◌, Bool-cases, inl, inr,
}
use seng21213_os_se.Vga.{Screen, vga_set_color}
use seng21213_os_se.Vga.Color.{vga_black, vga_light_red}
use seng21213_os_se.Vga.Print.{word}
use seng21213_os_se.Vga.Output.{puts_color, printf, run, run-Kept}
use seng21213_os_se.Vga.Cursor.{IsOnScreen}
use seng21213_os_se.Shell.{parse_two_ints}
use seng21213_os_se.Vga.Digits.{number}
use seng21213_os_se.Shell.Args.{
  Args, two_numbers, one_number, no_number, text, Fits, numbers, parse_two_ints_lem,
}
use seng21213_os_se.Vga.Text.{bytes}
use seng21213_os_se.Shell.Screens.{usage_colour}

-- Not a colour from 0 to 15. The numbers that `k_atoi` returns are never negative.
abbrev no_colour : ℕ → Bool
no_colour v = ltb 15 v

unfoldable pub set_colour : ℕ → ℕ → Screen → Option Screen
set_colour fg bg s =
    if no_colour fg || no_colour bg
    then run
        (puts_color (bytes "  Error: Values must be between 0 and 15\n") vga_light_red vga_black
          ∷ [])
        s
    else run
        (printf (bytes "  Colour set to foreground=%d, background=%d\n") (word fg ∷ word bg ∷ [])
          ∷ [])
        (vga_set_color fg bg s)

-- `none` is an overflow of `k_atoi`.
unfoldable pub cmd_colour : List ℕ → Screen → Option Screen
unfolding set_colour
cmd_colour args s = do
  numbers ← parse_two_ints args
  elim numbers [ none ↦ run usage_colour s | some (fg, bg) ↦ set_colour fg bg s ]

-- The colours that two numbers give.
abbrev pub attr_for : Option (ℕ × ℕ) → ℕ → ℕ
attr_for none old = old
attr_for (some (fg, bg)) old = if leb fg 15 && leb bg 15 then bg * 16 + fg else old

set_colour_lem :
    (fg bg : ℕ) (s : Screen)
    → IsOnScreen s
    → (s' : Screen) × (set_colour fg bg s ≡ some s')
      × IsOnScreen s'
      × (s'.cur_attr ≡ (if leb fg 15 && leb bg 15 then bg * 16 + fg else s.cur_attr))
unfolding set_colour vga_set_color
set_colour_lem fg bg s on = elim (Bool-cases (no_colour fg || no_colour bg)) [
  | inl bad ↦ rw bad (
      let (t, et, k) =
        run-Kept
          (puts_color (bytes "  Error: Values must be between 0 and 15\n") vga_light_red vga_black
            ∷ [])
          s on refl in
      (t, et, k.on, k.attr ∙ ground (arith, bad)))
  | inr good ↦ rw good (
      let on' : IsOnScreen (vga_set_color fg bg s) = record { row = on.row; col = on.col } in
      let (t, et, k) =
        run-Kept
          (printf (bytes "  Colour set to foreground=%d, background=%d\n") (word fg ∷ word bg ∷ [])
            ∷ [])
          (vga_set_color fg bg s) on' (ground (arith, good)) in
      (t, et, k.on, k.attr ∙ ground (arith, good)))
]

usage_lem :
    (s : Screen)
    → IsOnScreen s
    → (s' : Screen) × (run usage_colour s ≡ some s') × IsOnScreen s' × (s'.cur_attr ≡ s.cur_attr)
unfolding usage_colour
usage_lem s on = let (t, et, k) = run-Kept usage_colour s on refl in (t, et, k.on, k.attr)

-- From a cursor on the screen, `colour` of any text whose numbers fit an `int` ends and leaves the
-- cursor on the screen. If the text has, behind any spaces, a number, one space or more, and a
-- second number, the first becomes the foreground and the second the background, provided that
-- both are at most 15, whatever follows; otherwise, and of every other text, the colours stay.
pub cmd_colour_lem :
    (t : Args) (s : Screen)
    → IsOnScreen s
    → Fits t
    → (s' : Screen) × (cmd_colour (text t) s ≡ some s')
      × IsOnScreen s'
      × (s'.cur_attr ≡ attr_for (numbers t) s.cur_attr)
unfolding cmd_colour
cmd_colour_lem (two_numbers a b ds es rest) s on fit =
    let read = parse_two_ints_lem (two_numbers a b ds es rest) fit in
    let (t, et, ont, at) = set_colour_lem (number 10 0 ds) (number 10 0 es) s on in
    (t, rw (read, ◌>>=◌) et, ont, at)
cmd_colour_lem (one_number a b ds rest) s on fit =
    let read = parse_two_ints_lem (one_number a b ds rest) fit in
    let (t, et, ont, at) = usage_lem s on in (t, rw (read, ◌>>=◌) et, ont, at)
cmd_colour_lem (no_number a rest) s on fit =
    let read = parse_two_ints_lem (no_number a rest) fit in
    let (t, et, ont, at) = usage_lem s on in (t, rw (read, ◌>>=◌) et, ont, at)
