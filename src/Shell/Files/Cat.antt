-- ===== src/Shell/Files/Cat.antt =====
-- The loop of `cmd_cat` in kernel/kernel.c.
use mathlib.Core.Path.{subst}
use seng21213_os_se.Base.{
  ℕ, zero, suc, ◌+◌, ◌-◌, ◌/◌, ◌%◌, ◌≤◌, ◌<◌, ◌≡◌, ◌≢◌, inl, inr, refl, sym, ap, ◌∙◌, false, arith,
  Bool-cases, List, [], ◌∷◌, ◌++◌, some, ◌==◌, if◌then◌else◌, ltb, ℤ, pos, update,
}
use seng21213_os_se.Fs.{Fs, block_size, checked_fd}
use seng21213_os_se.Fs.File.{fs_read}
use seng21213_os_se.Fs.Disk.{block_of}
use seng21213_os_se.Fs.Chunk.{max_file_size}
use seng21213_os_se.Fs.Reads.{Reads, readable, file_byte, fd_inode, fd_offset, fs_read_lem}
use seng21213_os_se.Fs.WriteRead.{checked_later}
use seng21213_os_se.Shell.Files.{printed, cat_loop}

-- The bytes at `n` positions from `at` on.
unfoldable pub bytes : (ℕ → ℕ) → ℕ → ℕ → List ℕ
bytes f zero at = []
bytes f (suc n) at = f at ∷ bytes f n (at + 1)

bytes-split : (f : ℕ → ℕ) (n m at : ℕ) → bytes f (n + m) at ≡ bytes f n at ++ bytes f m (at + n)
unfolding bytes
bytes-split f zero m at =
    let e : 0 + m ≡ m = omega arith in
    let e' : at ≡ at + 0 = omega arith in ap (λ k. bytes f k at) e ∙ ap (bytes f m) e'
bytes-split f (suc n) m at =
    let e : suc n + m ≡ suc (n + m) = omega arith in
    let e' : at + 1 + n ≡ at + suc n = omega arith in
    ap (λ k. bytes f k at) e
    ∙ ap (λ l. f at ∷ l)
        (bytes-split f n m (at + 1) ∙ ap (λ k. bytes f n (at + 1) ++ bytes f m k) e')

printed-bytes :
    (n i at : ℕ) (buf f : ℕ → ℕ)
    → ((k : ℕ) → k < n → (buf (i + k) ≡ f (at + k)) × (f (at + k) ≢ 0))
    → printed n i buf ≡ bytes f n at
unfolding printed bytes
printed-bytes zero i at buf f h = refl
printed-bytes (suc n) i at buf f h =
    let here = h 0 (omega arith) in
    let ei : i + 0 ≡ i = omega arith in
    let ea : at + 0 ≡ at = omega arith in
    let e : buf i ≡ f at = ap buf (sym ei) ∙ here.0 ∙ ap f ea in
    let nz : (f at == 0) ≡ false = ground (arith, here.1, ap f ea) in
    rw (e, nz)
      (ap (λ l. f at ∷ l)
        (printed-bytes n (i + 1) (at + 1) buf f (λ k lt.
          let ek : i + 1 + k ≡ i + suc k = omega arith in
          let ak : at + 1 + k ≡ at + suc k = omega arith in rw (ek, ak) (h (suc k) (omega arith)))))

-- File `i` has the text `f` of `size` bytes, none of them NUL.
pub record IsText (i size : ℕ) (f : ℕ → ℕ) (s : Fs) : Type 0 where
  pub size_of : (s.inodes i).size ≡ size
  pub fits : size ≤ max_file_size
  pub mapped : (p : ℕ) → p < size → block_of s i (p / block_size) ≢ 0
  pub content : (p : ℕ) → p < size → (file_byte s i p ≡ f p) × (f p ≢ 0)

-- A read of a text is what is left of it, 255 bytes at most.
read_text :
    {i size : ℕ} {f : ℕ → ℕ} {s : Fs} (d off : ℕ) (buf : ℕ → ℕ) (r : ℕ × (ℕ → ℕ) × Fs)
    → IsText i size f s
    → off ≤ size
    → Reads d i (readable off (s.inodes i).size 255) 0 off buf s r
    → (r.0 ≡ (if ltb (size - off) 255 then size - off else 255))
      × ((k : ℕ) → k < r.0 → (r.1 (0 + k) ≡ f (off + k)) × (f (off + k) ≢ 0))
read_text {i} {size} {f} {s} d off buf r v le q =
    let most : readable off (s.inodes i).size 255
        ≡ (if ltb (size - off) 255 then size - off else 255) =
      ground (arith, v.size_of) in
    let hole : off + (r.0 - 0) < size → block_of s i ((off + (r.0 - 0)) / block_size) ≢ 0 =
      v.mapped (off + (r.0 - 0)) in
    let all : r.0 ≡ (if ltb (size - off) 255 then size - off else 255) =
      ground (arith, q.complete, hole, q.at_most, v.fits, most) in
    (
      all,
      λ k lt.
          let p : off + (0 + k - 0) ≡ off + k = omega arith in
          let c = v.content (off + k) (ground (arith, all, lt)) in
          let b : r.1 (0 + k) ≡ file_byte s i (off + (0 + k - 0)) =
            ground (arith, q.bytes (0 + k), lt) in
          (b ∙ ap (file_byte s i) p ∙ c.0, c.1),
    )

pub later-IsText :
    {i size : ℕ} {f : ℕ → ℕ} {s t : Fs}
    → IsText i size f s
    → t.inodes ≡ s.inodes
    → t.block ≡ s.block
    → IsText i size f t
later-IsText {i} {s = s} {t = t} v same_inodes same_block = record {
  size_of = ap (λ n. (n i).size) same_inodes ∙ v.size_of;
  fits = v.fits;
  mapped = λ p lt z. v.mapped p lt (sym (ap (λ n. (n i).blocks (p / block_size)) same_inodes) ∙ z);
  content = λ p lt.
      let same : file_byte t i p ≡ file_byte s i p =
        λ k. same_block k ((same_inodes k i).blocks (p / block_size)) (p % block_size) in
      (same ∙ (v.content p lt).0, (v.content p lt).1);
}

cat_loop-end :
    (fuel : ℕ) (fd : ℤ) (buf : ℕ → ℕ) (s t : Fs) (b : ℕ → ℕ)
    → fs_read fd (some buf) 255 s ≡ some (pos 0, some b, t)
    → cat_loop (suc fuel) fd buf s ≡ some ([], t)
unfolding cat_loop
cat_loop-end fuel fd buf s t b e = rw (e, cat_loop) refl

cat_loop-more :
    (fuel n : ℕ) (fd : ℤ) (buf : ℕ → ℕ) (s t u : Fs) (b : ℕ → ℕ) (text : List ℕ)
    → fs_read fd (some buf) 255 s ≡ some (pos (suc n), some b, t)
    → cat_loop fuel fd (update b (suc n) 0) t ≡ some (text, u)
    → cat_loop (suc fuel) fd buf s ≡ some (printed (suc n) 0 b ++ text, u)
unfolding cat_loop
cat_loop-more fuel n fd buf s t u b text e e' = rw (e, cat_loop, e') refl

-- A read that returns bytes, and the rounds behind it, print what was left.
cat_round :
    (fuel n left later off : ℕ) (fd : ℤ) (buf b f : ℕ → ℕ) (s t u : Fs)
    → fs_read fd (some buf) 255 s ≡ some (pos n, some b, t)
    → 0 < n
    → n + later ≡ left
    → ((k : ℕ) → k < n → (b (0 + k) ≡ f (off + k)) × (f (off + k) ≢ 0))
    → cat_loop fuel fd (update b n 0) t ≡ some (bytes f later (off + n), u)
    → cat_loop (suc fuel) fd buf s ≡ some (bytes f left off, u)
cat_round fuel zero left later off fd buf b f s t u e lt le same rest = absurd (omega arith)
cat_round fuel (suc n) left later off fd buf b f s t u e lt whole same rest =
    let text : printed (suc n) 0 b ++ bytes f later (off + suc n) ≡ bytes f left off =
      ap (λ l. l ++ bytes f later (off + suc n)) (printed-bytes (suc n) 0 off b f same)
      ∙ sym (bytes-split f (suc n) later off)
      ∙ ap (λ k. bytes f k off) whole in
    cat_loop-more fuel n fd buf s t u b (bytes f later (off + suc n)) e rest
    ∙ ap (λ l. some (l, u)) text

-- The loop of `cmd_cat` on a text ends, and prints what of the text is behind the offset.
pub cat_loop-text :
    (fuel : ℕ) {i size : ℕ} {f : ℕ → ℕ} {s : Fs} (fd : ℤ) (d off : ℕ) (buf : ℕ → ℕ)
    → size - off < fuel
    → off ≤ size
    → IsText i size f s
    → checked_fd fd s ≡ some d
    → fd_inode s d ≡ i
    → fd_offset s d ≡ off
    → (u : Fs) × (cat_loop fuel fd buf s ≡ some (bytes f (size - off) off, u))
unfolding bytes
cat_loop-text zero fd d off buf en le v ok ei eo = absurd (omega arith)
cat_loop-text (suc fuel) {i} {size} {f} {s} fd d off buf en le v ok ei eo =
    let read = fs_read_lem fd d 255 buf s ok (omega (arith, eo, v.fits)) in
    let (r, e, q0) = read in
    let q : Reads d i (readable off (s.inodes i).size 255) 0 off buf s r =
      subst {A = ℕ × ℕ} (λ x. Reads d x.0 (readable x.1 (s.inodes x.0).size 255) 0 x.1 buf s r)
        (λ k. (ei k, eo k)) q0 in
    let got = read_text d off buf r v le q in
    elim (Bool-cases (r.0 == 0)) [
      | inl end ↦
          let z : r.0 ≡ 0 = ground (arith, end) in
          let none_left : size - off ≡ 0 = ground (arith, got.0, z) in
          let e0 : fs_read fd (some buf) 255 s ≡ some (pos 0, some r.1, r.2) =
            e ∙ ap (λ n. some (pos n, some r.1, r.2)) z in
          (
            r.2,
            cat_loop-end fuel fd buf s r.2 r.1 e0
                ∙ ap (λ n. some (bytes f n off, r.2)) (sym none_left),
          )
      | inr more ↦
          let eo' : fd_offset r.2 d ≡ off + r.0 = omega (arith, q.offset) in
          let next =
            cat_loop-text fuel {s = r.2} fd d (off + r.0) (update r.1 r.0 0)
              (ground (arith, got.0, more)) (ground (arith, got.0)) (later-IsText v q.files q.disk)
              (checked_later fd d s r.2 ok q.valid) q.inode eo' in
          (
            next.0,
            cat_round fuel r.0 (size - off) (size - (off + r.0)) off fd buf r.1 f s r.2 next.0 e
                (ground (arith, more)) (ground (arith, got.0)) got.1 next.1,
          )
    ]
