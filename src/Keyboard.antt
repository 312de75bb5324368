-- ===== src/Keyboard.antt =====
-- kernel/keyboard.c. The controller is a parameter: `keys` is the list of the bytes that its data
-- port delivers, one each time that the status port shows a full buffer; a function that still
-- waits when the list is used up is `none`. A buffer is memory from its pointer on.
pub mod Line
mod Tests
use seng21213_os_se.Base.{
  ℕ, zero, suc, ◌+◌, ◌-◌, ◌%◌, Bool, true, false, ◌||◌, List, [], ◌∷◌, Option, none, some, ◌==◌,
  ltb, leb, if◌then◌else◌, update, get_or, length,
}
use seng21213_os_se.Vga.{Screen, vga_putchar}

-- The tables from scan codes to ASCII; what is not listed is 0.
abbrev pub sc_ascii : List ℕ
sc_ascii =
    0 ∷ 27 ∷ 49 ∷ 50 ∷ 51 ∷ 52 ∷ 53 ∷ 54 ∷ 55 ∷ 56 ∷ 57 ∷ 48 ∷ 45 ∷ 61 ∷ 8 ∷ 9 ∷ 113 ∷ 119 ∷ 101
    ∷ 114 ∷ 116 ∷ 121 ∷ 117 ∷ 105 ∷ 111 ∷ 112 ∷ 91 ∷ 93 ∷ 10 ∷ 0 ∷ 97 ∷ 115 ∷ 100 ∷ 102 ∷ 103 ∷ 104
    ∷ 106 ∷ 107 ∷ 108 ∷ 59 ∷ 39 ∷ 96 ∷ 0 ∷ 92 ∷ 122 ∷ 120 ∷ 99 ∷ 118 ∷ 98 ∷ 110 ∷ 109 ∷ 44 ∷ 46 ∷ 47
    ∷ 0 ∷ 42 ∷ 0 ∷ 32 ∷ 0 ∷ 0 ∷ 0 ∷ 0 ∷ 0 ∷ 0 ∷ 0 ∷ 0 ∷ 0 ∷ 0 ∷ 0 ∷ 0 ∷ 0 ∷ 55 ∷ 56 ∷ 57 ∷ 45 ∷ 52
    ∷ 53 ∷ 54 ∷ 43 ∷ 49 ∷ 50 ∷ 51 ∷ 48 ∷ 46 ∷ 0 ∷ 0 ∷ 0 ∷ 0 ∷ 0 ∷ []

abbrev pub sc_ascii_shift : List ℕ
sc_ascii_shift =
    0 ∷ 27 ∷ 33 ∷ 64 ∷ 35 ∷ 36 ∷ 37 ∷ 94 ∷ 38 ∷ 42 ∷ 40 ∷ 41 ∷ 95 ∷ 43 ∷ 8 ∷ 9 ∷ 81 ∷ 87 ∷ 69 ∷ 82
    ∷ 84 ∷ 89 ∷ 85 ∷ 73 ∷ 79 ∷ 80 ∷ 123 ∷ 125 ∷ 10 ∷ 0 ∷ 65 ∷ 83 ∷ 68 ∷ 70 ∷ 71 ∷ 72 ∷ 74 ∷ 75 ∷ 76
    ∷ 58 ∷ 34 ∷ 126 ∷ 0 ∷ 124 ∷ 90 ∷ 88 ∷ 67 ∷ 86 ∷ 66 ∷ 78 ∷ 77 ∷ 60 ∷ 62 ∷ 63 ∷ 0 ∷ 42 ∷ 0 ∷ 32
    ∷ 0 ∷ []

-- `kb_init` drops the `pending` bytes for which the status port still shows a full buffer.
unfoldable pub kb_init : ℕ → List ℕ → List ℕ
kb_init zero keys = keys
kb_init (suc pending) [] = []
kb_init (suc pending) (sc ∷ keys) = kb_init pending keys

-- What one byte does: a release, a shift key and a key with no character only change `shift_held`.
-- The character, 0 for none, and the state of shift.
unfoldable pub press : Bool → ℕ → ℕ × Bool
press shift sc =
    if leb 0x80 sc
    then (0, if (sc % 128 == 0x2A) || (sc % 128 == 0x36) then false else shift)
    else if (sc == 0x2A) || (sc == 0x36)
    then (0, true)
    else (if shift then get_or sc_ascii_shift sc 0 else get_or sc_ascii sc 0, shift)

-- A character, the state of shift, and the bytes that are left.
unfoldable pub kb_getchar : Bool → List ℕ → Option (ℕ × Bool × List ℕ)
kb_getchar shift [] = none
kb_getchar shift (sc ∷ keys) =
    let hit = press shift sc in
    let rest = kb_getchar hit.1 keys in if hit.0 == 0 then rest else some (hit.0, hit.1, keys)

-- What `kb_readline` has changed when it returns.
pub record ReadLine : Type 0 where
  pub len : ℕ
  pub buf : ℕ → ℕ
  pub shift : Bool
  pub keys : List ℕ
  pub screen : Screen

-- `buf[i] = '\0'; return i;`
abbrev pub end_line : ℕ → (ℕ → ℕ) → Bool → List ℕ → Screen → ReadLine
end_line i buf shift keys s = record {
  len = i;
  buf = update buf i 0;
  shift = shift;
  keys = keys;
  screen = s;
}

-- The loop of `kb_readline`, where the fuel bounds the characters that the bytes can make.
unfoldable pub line_loop : ℕ → ℕ → ℕ → (ℕ → ℕ) → Bool → List ℕ → Screen → Option ReadLine
line_loop zero len i buf shift keys s = none
line_loop (suc fuel) len i buf shift keys s =
    if ltb i (len - 1)
    then elim (kb_getchar shift keys) [
      | none ↦ none
      | some (c, shift', keys') ↦ elim ((c == 10) || (c == 13)) [
        | true ↦ some (end_line i buf shift' keys' (vga_putchar 10 s))
        | false ↦ elim (c == 8) [
          | true ↦
              line_loop fuel len (i - 1) buf shift' keys' (if ltb 0 i then vga_putchar 8 s else s)
          | false ↦ line_loop fuel len (i + 1) (update buf i c) shift' keys' (vga_putchar c s)
        ]
      ]
    ]
    else some (end_line i buf shift keys s)

-- For a buffer of `len` bytes, one at least.
unfoldable pub kb_readline : ℕ → (ℕ → ℕ) → Bool → List ℕ → Screen → Option ReadLine
kb_readline len buf shift keys s = line_loop (suc (length keys)) len 0 buf shift keys s
