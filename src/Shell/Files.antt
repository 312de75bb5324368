-- ===== src/Shell/Files.antt =====
-- kernel/kernel.c: the commands touch, cat, write and rm over kernel/fs.c.
pub mod Cat
pub mod WriteCat
use seng21213_os_se.Base.{
  ℕ, zero, suc, ◌+◌, Bool, List, [], ◌∷◌, ◌++◌, Option, none, some, ◌>>=◌, ◌==◌, ◌||◌, true, false,
  if◌then◌else◌, ℤ, pos, negsuc, update, take,
}
use seng21213_os_se.Strings.{is_zero}
use seng21213_os_se.Shell.{k_strlen, k_ltrim}
use seng21213_os_se.Fs.{Fs, fs_create_file, fs_open, fs_close}
use seng21213_os_se.Fs.File.{fs_read, fs_write, fs_unlink}

-- What a command prints.
pub data Message : Type 0 where
  usage : Message
  created : Message
  not_created : Message
  not_found : Message
  shown : List ℕ → Message
  not_opened : Message
  wrote : ℕ → Message
  not_written : Message
  removed : Message
  not_removed : Message

unfoldable pub cmd_touch : List ℕ → Fs → Message × Fs
cmd_touch args s =
    let r = fs_create_file (some args) s in
    if k_strlen args == 0 then (usage, s) else (if is_zero r.0 then created else not_created, r.1)

unfoldable pub cmd_rm : List ℕ → Fs → Message × Fs
cmd_rm args s =
    let r = fs_unlink (some args) s in
    if k_strlen args == 0 then (usage, s) else (if is_zero r.0 then removed else not_removed, r.1)

-- `vga_puts` of the first `n` bytes of the buffer from `i` on, which a NUL follows: it ends at a
-- NUL.
unfoldable pub printed : ℕ → ℕ → (ℕ → ℕ) → List ℕ
printed zero i buf = []
printed (suc n) i buf = let rest = printed n (i + 1) buf in if buf i == 0 then [] else buf i ∷ rest

-- The loop of `cmd_cat`: the text printed, and the state.
unfoldable pub cat_loop : ℕ → ℤ → (ℕ → ℕ) → Fs → Option (List ℕ × Fs)
cat_loop zero fd buffer s = none
cat_loop (suc fuel) fd buffer s = elim (fs_read fd (some buffer) 255 s) [
  | none ↦ none
  | some (negsuc n, b, t) ↦ some ([], t)
  | some (pos zero, b, t) ↦ some ([], t)
  | some (pos (suc n), none, t) ↦ none
  | some (pos (suc n), some b, t) ↦ (elim (cat_loop fuel fd (update b (suc n) 0) t) [
    | none ↦ none
    | some (text, u) ↦ some (printed (suc n) 0 b ++ text, u)
  ])
]

-- One round more than a file has bytes.
abbrev pub cat_fuel : ℕ
cat_fuel = 32769

-- `cmd_cat` on what `fs_open` has returned. `buffer` is what its uninitialised buffer holds.
unfoldable pub show_opened : (ℕ → ℕ) → ℤ × Fs → Option (Message × Fs)
show_opened buffer (negsuc n, t) = some (not_found, t)
show_opened buffer (pos fd, t) = do
  (text, u) ← cat_loop cat_fuel (pos fd) buffer t
  some (shown text, (fs_close (pos fd) u).1)

unfoldable pub show_file : List ℕ → (ℕ → ℕ) → Fs → Option (Message × Fs)
show_file name buffer s = show_opened buffer (fs_open (some name) false s)

unfoldable pub cmd_cat : List ℕ → (ℕ → ℕ) → Fs → Option (Message × Fs)
cmd_cat args buffer s = if k_strlen args == 0 then some (usage, s) else show_file args buffer s

-- The characters before the first space, and what follows it; there may be none before the NUL.
unfoldable pub before_space : List ℕ → List ℕ
before_space [] = []
before_space (c ∷ s) = let rest = before_space s in if (c == 0) || (c == 32) then [] else c ∷ rest

unfoldable pub after_space : List ℕ → Option (List ℕ)
after_space [] = none
after_space (c ∷ s) =
    let rest = after_space s in if c == 0 then none else if c == 32 then some s else rest

-- The memory behind a pointer to a string.
unfoldable pub char_at : List ℕ → ℕ → ℕ
char_at [] i = 0
char_at (c ∷ s) zero = c
char_at (c ∷ s) (suc i) = char_at s i

abbrev pub written : ℤ → Message
written (negsuc n) = not_written
written (pos zero) = not_written
written (pos (suc n)) = wrote (suc n)

-- `cmd_write` on what `fs_open` has returned.
unfoldable pub write_opened : List ℕ → ℤ × Fs → Option (Message × Fs)
write_opened text (negsuc n, t) = some (not_opened, t)
write_opened text (pos fd, t) = do
  (bytes_written, u) ← fs_write (pos fd) (some (char_at text)) (k_strlen text) t
  some (written bytes_written, (fs_close (pos fd) u).1)

unfoldable pub write_file : List ℕ → List ℕ → Fs → Option (Message × Fs)
write_file name text s = write_opened text (fs_open (some name) true s)

-- The buffer for the name has 64 bytes, one for the NUL.
unfoldable pub cmd_write : List ℕ → Fs → Option (Message × Fs)
cmd_write args s = if k_strlen args == 0 then some (usage, s) else elim (after_space args) [
  | none ↦ some (usage, s)
  | some text ↦ write_file (take 63 (before_space args)) (k_ltrim text) s
]
