-- ===== src/Keyboard/Line.antt =====
-- `kb_readline` in kernel/keyboard.c edits a line as typed.
use seng21213_os_se.Base.{
  ℕ, zero, suc, ◌+◌, ◌-◌, ◌≤◌, ◌<◌, ◌≡◌, refl, Bool, false, ◌||◌, List, [], ◌∷◌, Option, none, some,
  ◌==◌, ltb, if◌then◌else◌, update, length, arith, Bool-cases, inl, inr, drop,
}
use seng21213_os_se.Vga.{Screen, vga_putchar}
use seng21213_os_se.Keyboard.{press, kb_getchar, ReadLine, end_line, line_loop, kb_readline}

-- The characters that a row of bytes types.
abbrev pub typed : Bool → List ℕ → List ℕ
typed shift [] = []
typed shift (sc ∷ keys) =
    let hit = press shift sc in
    let rest = typed hit.1 keys in if hit.0 == 0 then rest else hit.0 ∷ rest

-- A line editor on characters: `line` is the line so far, the last character first. It ends at a
-- newline, or when the line holds `cap` characters.
abbrev pub edit : ℕ → List ℕ → List ℕ → Option (List ℕ)
edit cap line [] = if ltb (length line) cap then none else some line
edit cap line (c ∷ cs) =
    let shorter = edit cap (drop 1 line) cs in
    let longer = edit cap (c ∷ line) cs in
    if ltb (length line) cap
    then (if (c == 10) || (c == 13) then some line else if c == 8 then shorter else longer)
    else some line

-- The buffer holds the line, and the NUL behind it.
abbrev pub Holds : (ℕ → ℕ) → List ℕ → Type 0
Holds buf [] = Unit {0}
Holds buf (c ∷ line) = (buf (length line) ≡ c) × Holds buf line

Holds-update :
    (line : List ℕ) (buf : ℕ → ℕ) (i v : ℕ)
    → length line ≤ i
    → Holds buf line
    → Holds (update buf i v) line
Holds-update [] buf i v le h = tt
Holds-update (c ∷ line) buf i v le h =
    (ground (arith, h.0), Holds-update line buf i v (omega arith) h.1)

Holds-drop : (line : List ℕ) (buf : ℕ → ℕ) → Holds buf line → Holds buf (drop 1 line)
Holds-drop [] buf h = tt
Holds-drop (c ∷ line) buf h = h.1

length-drop_one : (line : List ℕ) → length (drop 1 line) ≡ length line - 1
length-drop_one [] = refl
length-drop_one (c ∷ line) = omega arith

-- `kb_getchar` takes the next typed character, or waits for ever.
data Getchar (shift : Bool) (keys : List ℕ) (out : Option (ℕ × Bool × List ℕ)) : Type 0 where
  key :
      (c : ℕ) (shift' : Bool) (keys' : List ℕ)
      → out ≡ some (c, shift', keys')
      → typed shift keys ≡ c ∷ typed shift' keys'
      → length keys' < length keys
      → Getchar shift keys out
  waits : out ≡ none → typed shift keys ≡ [] → Getchar shift keys out

kb_getchar-Getchar : (shift : Bool) (keys : List ℕ) → Getchar shift keys (kb_getchar shift keys)
unfolding kb_getchar
kb_getchar-Getchar shift [] = waits refl refl
kb_getchar-Getchar shift (sc ∷ keys) =
    let hit = press shift sc in
    elim (Bool-cases (hit.0 == 0)) [
      | inr pressed ↦ rw pressed (key hit.0 hit.1 keys refl (rw pressed refl) (omega arith))
      | inl silent ↦ elim (kb_getchar-Getchar hit.1 keys) [
        | key c shift' keys' o t lt ↦ rw silent (key c shift' keys' o (rw silent t) (omega arith))
        | waits o t ↦ rw silent (waits o (rw silent t))
      ]
    ]

-- The result of `kb_readline` for the line that the editor makes of the typed characters: the
-- length and the characters of the line, with a NUL behind them, inside the buffer; what lies
-- behind the buffer is as before. It waits if the editor has no line yet.
pub data Reads (len : ℕ) (buf : ℕ → ℕ) (line : Option (List ℕ)) (out : Option ReadLine)
    : Type 0 where
  finished :
      (l : List ℕ) (r : ReadLine)
      → line ≡ some l
      → out ≡ some r
      → r.len ≡ length l
      → r.len < len
      → Holds r.buf l
      → r.buf r.len ≡ 0
      → ((a : ℕ) → len ≤ a → r.buf a ≡ buf a)
      → Reads len buf line out
  waiting : line ≡ none → out ≡ none → Reads len buf line out

ended :
    (len : ℕ) (line : List ℕ) (buf orig : ℕ → ℕ) (shift : Bool) (keys : List ℕ) (s : Screen)
    → length line < len
    → Holds buf line
    → ((a : ℕ) → len ≤ a → buf a ≡ orig a)
    → Reads len orig (some line) (some (end_line (length line) buf shift keys s))
ended len line buf orig shift keys s lt h out =
    finished line (end_line (length line) buf shift keys s) refl refl refl lt
      (Holds-update line buf (length line) 0 (omega arith) h) (ground arith)
      (λ a le. ground (arith, out a le))

edit-full :
    (cap : ℕ) (line cs : List ℕ) → ltb (length line) cap ≡ false → edit cap line cs ≡ some line
edit-full cap line [] full = rw full refl
edit-full cap line (c ∷ cs) full = rw full refl

line_loop-Reads :
    (fuel len : ℕ) (line : List ℕ) (buf orig : ℕ → ℕ) (shift : Bool) (keys : List ℕ) (s : Screen)
    → length keys < fuel
    → length line < len
    → Holds buf line
    → ((a : ℕ) → len ≤ a → buf a ≡ orig a)
    → Reads len orig
        (edit (len - 1) line (typed shift keys))
        (line_loop fuel len (length line) buf shift keys s)
unfolding line_loop
line_loop-Reads zero len line buf orig shift keys s en lt h out = absurd (omega arith)
line_loop-Reads (suc fuel) len line buf orig shift keys s en lt h out =
    elim (Bool-cases (ltb (length line) (len - 1))) [
      | inr full ↦
          rw (full, edit-full (len - 1) line (typed shift keys) full)
            (ended len line buf orig shift keys s lt h out)
      | inl room ↦ elim (kb_getchar-Getchar shift keys) [
        | waits o t ↦ rw (o, t, room) (waiting refl refl)
        | key c shift' keys' o t less ↦
            rw (o, t, room)
              (elim (Bool-cases ((c == 10) || (c == 13))) [
                | inl enter ↦
                    rw enter (ended len line buf orig shift' keys' (vga_putchar 10 s) lt h out)
                | inr other ↦ elim (Bool-cases (c == 8)) [
                  | inl back ↦
                      rw (other, back, ← length-drop_one line)
                        (line_loop-Reads fuel len (drop 1 line) buf orig shift' keys' _
                          (omega arith) (omega (arith, length-drop_one line))
                          (Holds-drop line buf h) out)
                  | inr plain ↦
                      let next : length line + 1 ≡ suc (length line) = omega arith in
                      rw (other, plain, next)
                        (line_loop-Reads fuel len (c ∷ line) (update buf (length line) c) orig
                          shift' keys' (vga_putchar c s) (omega arith) (ground (arith, room))
                          (ground arith, Holds-update line buf (length line) c (omega arith) h)
                          (λ a le. ground (arith, out a le)))
                ]
              ])
      ]
    ]

-- For a buffer of `len` bytes, `kb_readline` returns the line that a line editor makes of the typed
-- characters, or waits if that has no line yet: a backspace takes the last character back, and the
-- line ends at a newline or when `len - 1` characters fill it. It ends the line with a NUL inside
-- the buffer and writes nothing behind it.
pub kb_readline-Reads :
    (len : ℕ) (buf : ℕ → ℕ) (shift : Bool) (keys : List ℕ) (s : Screen)
    → 1 ≤ len
    → Reads len buf (edit (len - 1) [] (typed shift keys)) (kb_readline len buf shift keys s)
unfolding kb_readline
kb_readline-Reads len buf shift keys s h =
    line_loop-Reads (suc (length keys)) len [] buf buf shift keys s (omega arith) (omega arith) tt
      (λ a le. refl)
