-- ===== src/Shell/Screens/Tests.antt =====
-- The commands that print, at the last cell of the screen.
use seng21213_os_se.Base.{refl, ◌≡◌, some, [], arith}
use seng21213_os_se.Vga.{Screen}
use seng21213_os_se.Vga.Text.{bytes}
use seng21213_os_se.Vga.Cursor.{IsOnScreen}
use seng21213_os_se.Shell.Args.{two_numbers}
use seng21213_os_se.Shell.Screens.Colour.{cmd_colour, cmd_colour_lem}

abbrev corner : Screen
corner = record { cursor_row = 24; cursor_col = 79; cur_attr = 7; cells = λ i. i; ports = [] }

corner-IsOnScreen : IsOnScreen corner
corner-IsOnScreen = record { row = omega arith; col = omega arith }

cmd_colour_lem_example :
    (s' : Screen) × (cmd_colour (bytes " 14 1") corner ≡ some s')
    × IsOnScreen s'
    × (s'.cur_attr ≡ 30)
cmd_colour_lem_example =
    cmd_colour_lem (two_numbers 1 0 (bytes "14") (bytes "1") []) corner corner-IsOnScreen
      ((refl, refl, omega arith), (refl, refl, omega arith), refl)
