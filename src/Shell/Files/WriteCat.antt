-- ===== src/Shell/Files/WriteCat.antt =====
-- `cmd_write` and then `cmd_cat` in kernel/kernel.c.
use mathlib.Core.Path.{subst}
use seng21213_os_se.Base.{
  ℕ, zero, suc, ◌+◌, ◌-◌, ◌^◌, ◌≤◌, ◌<◌, ◌≡◌, ◌≢◌, ◌⊎◌, inl, inr, refl, sym, ap, ◌∙◌, true, false,
  arith, ◌>>=◌, Bool-cases, List, [], ◌∷◌, Option, some, ◌==◌, pos, negsuc, update, take,
}
use seng21213_os_se.Shell.{k_strlen, k_ltrim}
use seng21213_os_se.Fs.{Fs, checked_fd, fs_close, close_at, fs_find_inode, fs_open, max_open_files}
use seng21213_os_se.Fs.File.{fs_write}
use seng21213_os_se.Fs.Disk.{is_used}
use seng21213_os_se.Fs.Chunk.{max_file_size}
use seng21213_os_se.Fs.Reads.{fd_inode}
use seng21213_os_se.Fs.Writes.{Writes}
use seng21213_os_se.Fs.WriteLoop.{fs_write_lem}
use seng21213_os_se.Fs.WriteRead.{checked_later}
use seng21213_os_se.Fs.Tree.{IsTree}
use seng21213_os_se.Fs.Open.{failed, opened, fs_open-new, fs_open-old, find_inode-directory}
use seng21213_os_se.Shell.Files.{
  Message, cmd_write, before_space, after_space, show_opened, write_opened, not_opened, not_written,
  wrote, shown, char_at, written, write_file, show_file, cat_fuel, cat_loop,
}
use seng21213_os_se.Shell.Files.Cat.{bytes, IsText, later-IsText, cat_loop-text}

char_at-nonzero : (text : List ℕ) (a : ℕ) → a < k_strlen text → char_at text a ≢ 0
unfolding k_strlen char_at
char_at-nonzero [] a lt = absurd (omega arith)
char_at-nonzero (c ∷ text) zero lt = ground (arith, lt)
char_at-nonzero (c ∷ text) (suc a) lt = char_at-nonzero text a (ground (arith, lt))

bytes-shift :
    (f g : ℕ → ℕ) (n at : ℕ) → ((k : ℕ) → f (k + 1) ≡ g k) → bytes f n (at + 1) ≡ bytes g n at
unfolding bytes
bytes-shift f g zero at h = refl
bytes-shift f g (suc n) at h = rw (h at) (ap (λ l. g at ∷ l) (bytes-shift f g n (at + 1) h))

bytes-char_at : (n : ℕ) (text : List ℕ) → n ≤ k_strlen text → bytes (char_at text) n 0 ≡ take n text
unfolding bytes k_strlen char_at
bytes-char_at zero text le = refl
bytes-char_at (suc n) [] le = absurd (omega arith)
bytes-char_at (suc n) (c ∷ text) le =
    let next : (k : ℕ) → char_at (c ∷ text) (k + 1) ≡ char_at text k =
      λ k. (let e : k + 1 ≡ suc k = omega arith in ap (char_at (c ∷ text)) e) in
    ap (λ l. c ∷ l)
      (bytes-shift (char_at (c ∷ text)) (char_at text) n 0 next
        ∙ bytes-char_at n text (ground (arith, le)))

-- What a write to a new file leaves is a text.
written-IsText :
    {d i count : ℕ} {s : Fs} {r : ℕ × Fs} (text : List ℕ)
    → Writes d i count 0 0 (char_at text) s r
    → (s.inodes i).size ≡ 0
    → count ≤ k_strlen text
    → 0 < r.0
    → IsText i r.0 (char_at text) r.1
written-IsText {d} {i} {count} {s} {r} text w empty le some_bytes = record {
  size_of = ground (arith, w.size i);
  fits = let last = w.reach (r.0 - 1) (omega arith) (omega arith) in omega (arith, last.0);
  mapped = λ p lt. (w.reach p (omega arith) (omega arith)).1;
  content = λ p lt.
      let e : 0 + (p - 0) ≡ p = omega arith in
      (
        w.written p (omega arith) (omega arith) ∙ ap (char_at text) e,
        char_at-nonzero text p (omega (arith, w.at_most)),
      );
}

show_file-opened :
    (name : List ℕ) (buffer : ℕ → ℕ) (d : ℕ) (s t u : Fs) (text : List ℕ)
    → fs_open (some name) false s ≡ (pos d, t)
    → cat_loop cat_fuel (pos d) buffer t ≡ some (text, u)
    → show_file name buffer s ≡ some (shown text, (fs_close (pos d) u).1)
unfolding show_file show_opened
show_file-opened name buffer d s t u text e e' =
    ap (show_opened buffer) e ∙ ap (λ o. o >>= (λ x. some (shown x.0, (fs_close (pos d) x.1).1))) e'

write_file-opened :
    (name text : List ℕ) (d n : ℕ) (s t u : Fs)
    → fs_open (some name) true s ≡ (pos d, t)
    → fs_write (pos d) (some (char_at text)) (k_strlen text) t ≡ some (pos n, u)
    → write_file name text s ≡ some (written (pos n), (fs_close (pos d) u).1)
unfolding write_file write_opened
write_file-opened name text d n s t u e e' =
    ap (write_opened text) e
    ∙ ap (λ o. o >>= (λ x. some (written x.0, (fs_close (pos d) x.1).1))) e'

write_file-failed :
    (name text : List ℕ) (n : ℕ) (s t : Fs)
    → fs_open (some name) true s ≡ (negsuc n, t)
    → write_file name text s ≡ some (not_opened, t)
unfolding write_file write_opened
write_file-failed name text n s t e = ap (write_opened text) e

-- A text in a file that has a name is what `cmd_cat` prints, if a descriptor is free.
show_file-text :
    {i size : ℕ} {f : ℕ → ℕ} (name : List ℕ) (buffer : ℕ → ℕ) (fd : ℕ) (s : Fs)
    → fs_find_inode name s ≡ i
    → i ≢ 0
    → IsText i size f s
    → fd < max_open_files
    → (s.open_files fd).valid ≡ false
    → (u : Fs) × (show_file name buffer s ≡ some (shown (bytes f size 0), u))
show_file-text {i} {size} {f} name buffer fd s found nz v lt free =
    let (d, t, is, o) = fs_open-old name fd s (λ z. nz (sym found ∙ z)) lt free in
    let c =
      cat_loop-text cat_fuel {s = t} (pos d) d 0 buffer (omega (arith, v.fits)) (omega arith)
        (later-IsText v o.inodes o.contents) o.open_fd (o.at_inode ∙ found) o.at_start in
    let whole : size - 0 ≡ size = omega arith in
    (
      (fs_close (pos d) c.0).1,
      show_file-opened name buffer d s t c.0 (bytes f size 0) is
          (c.1 ∙ ap (λ n. some (bytes f n 0, c.0)) whole),
    )

-- The outcome of writing a text to a new file: no file was opened; nothing was written, the text
-- being empty or no block free; or `n` characters were, which `cmd_cat` of the name prints. These
-- are all of the text, or the file or the disk is full.
pub data Kept (name text : List ℕ) (buffer : ℕ → ℕ) (out : Option (Message × Fs)) : Type 0 where
  unopened : (t : Fs) → out ≡ some (not_opened, t) → Kept name text buffer out
  nothing :
      (t : Fs)
      → out ≡ some (not_written, t)
      → (k_strlen text ≡ 0) ⊎ (t.superblock.free_blocks ≡ 0)
      → Kept name text buffer out
  kept :
      (n : ℕ) (t u : Fs)
      → out ≡ some (wrote n, t)
      → 0 < n
      → n ≤ k_strlen text
      → show_file name buffer t ≡ some (shown (take n text), u)
      → (n ≡ k_strlen text) ⊎ (max_file_size ≤ n) ⊎ (t.superblock.free_blocks ≡ 0)
      → Kept name text buffer out

-- The state behind `fs_close`.
abbrev closed : ℕ → Fs → Fs
closed d s = record s {
  open_files = update s.open_files d (record (s.open_files d) { valid = false });
}

fs_close-closed :
    (d : ℕ) (s : Fs) → checked_fd (pos d) s ≡ some d → (fs_close (pos d) s).1 ≡ closed d s
unfolding fs_close
fs_close-closed d s ok = ap (λ p. (close_at p s).1) ok

written-wrote : (n : ℕ) → 0 < n → written (pos n) ≡ wrote n
written-wrote zero lt = absurd (omega arith)
written-wrote (suc n) lt = refl

checked_fd-lt : (d : ℕ) (s : Fs) → checked_fd (pos d) s ≡ some d → d < max_open_files
checked_fd-lt d s ok = ground (arith, ok)

write_then_show :
    {d i : ℕ} {t : Fs} (name text : List ℕ) (buffer : ℕ → ℕ) (r : ℕ × Fs)
    → Writes d i (k_strlen text) 0 0 (char_at text) t r
    → (t.inodes i).size ≡ 0
    → checked_fd (pos d) t ≡ some d
    → fs_find_inode name t ≡ i
    → i ≢ 0
    → d < max_open_files
    → Kept name text buffer (some (written (pos r.0), (fs_close (pos d) r.1).1))
write_then_show {d} {i} {t} name text buffer r w empty ok found nz lt =
    let end = fs_close-closed d r.1 (checked_later (pos d) d t r.1 ok w.fd_valid) in
    elim (Bool-cases (r.0 == 0)) [
      | inl zero_bytes ↦
          let z : r.0 ≡ 0 = ground (arith, zero_bytes) in
          rw (end, z) (nothing (closed d r.1) refl (ground (arith, w.complete, z)))
      | inr more ↦
          let v = written-IsText text w empty (omega arith) (ground (arith, more)) in
          let found' : fs_find_inode name (closed d r.1) ≡ i =
            find_inode-directory name t (closed d r.1) w.names ∙ found in
          let shows =
            show_file-text name buffer d (closed d r.1) found' nz (later-IsText v refl refl) lt
              (ground arith) in
          let taken : bytes (char_at text) r.0 0 ≡ take r.0 text =
            bytes-char_at r.0 text w.at_most in
          let one : written (pos r.0) ≡ wrote r.0 = written-wrote r.0 (ground (arith, more)) in
          rw (end, one)
            (kept r.0 (closed d r.1) shows.0 refl (ground (arith, more)) w.at_most
              (shows.1 ∙ ap (λ l. some (shown l, shows.0)) taken) (ground (arith, w.complete)))
    ]

-- Writing a text to a new file, and showing the file.
write_file-Kept :
    {s : Fs} (name text : List ℕ) (buffer : ℕ → ℕ)
    → IsTree s
    → fs_find_inode name s ≡ 0
    → k_strlen text < 2 ^ 32
    → Kept name text buffer (write_file name text s)
write_file-Kept {s} name text buffer v absent small = elim (fs_open-new name v absent) [
  | failed n t e ↦ unopened t (write_file-failed name text n s t e)
  | opened d i t is ok at_i at_0 nz found used empty tree ↦
      let used' : is_used t (fd_inode t d) ≡ true = ap (is_used t) at_i ∙ used in
      let w = fs_write_lem (pos d) d (k_strlen text) (char_at text) t ok small tree.disk used' in
      let p : Writes d i (k_strlen text) 0 0 (char_at text) t w.0 =
        subst {A = ℕ × ℕ} (λ x. Writes d x.0 (k_strlen text) 0 x.1 (char_at text) t w.0)
          (λ k. (at_i k, at_0 k)) w.2 in
      let result = write_file-opened name text d w.0.0 s t w.0.1 is w.1 in
      rw result (write_then_show name text buffer w.0 p empty ok found nz (checked_fd-lt d t ok))
]

-- In a state that is in order, let `cmd_write` be given the name of a file that does not exist, a
-- space, and a text shorter than 2^32 characters. Then what it writes is what `cmd_cat` prints,
-- from `fs_open` on, for the name: all of the text, or less than the whole if the file or the disk
-- is full. Otherwise `cmd_write` says that it could open no file, or that it wrote nothing, the
-- text being empty or the disk full. Both commands end.
pub cmd_write-Kept :
    {s : Fs} (args text : List ℕ) (buffer : ℕ → ℕ)
    → IsTree s
    → k_strlen args ≢ 0
    → after_space args ≡ some text
    → fs_find_inode (take 63 (before_space args)) s ≡ 0
    → k_strlen (k_ltrim text) < 2 ^ 32
    → Kept (take 63 (before_space args)) (k_ltrim text) buffer (cmd_write args s)
unfolding cmd_write
cmd_write-Kept args text buffer v nz has absent small =
    let some_args : (k_strlen args == 0) ≡ false = ground (arith, nz) in
    rw (some_args, has)
      (write_file-Kept (take 63 (before_space args)) (k_ltrim text) buffer v absent small)
