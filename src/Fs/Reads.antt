-- ===== src/Fs/Reads.antt =====
-- `fs_read` in kernel/fs.c: what its loop copies, and where it stops.
use seng21213_os_se.Base.{
  ℕ, zero, suc, ◌+◌, ◌-◌, ◌*◌, ◌/◌, ◌%◌, ◌^◌, ◌≤◌, ◌<◌, ◌≡◌, ◌⊎◌, inl, inr, refl, ap, sym, ◌&&◌,
  arith, Bool-cases, if◌then◌else◌, ◌==◌, none, some, ℤ, pos, update, leb, ltb, ◌∙◌, ltb→lt,
}
use mathlib.Core.Path.{subst}
use seng21213_os_se.Strings.{memcpy}
use seng21213_os_se.Strings.Laws.{memcpy_lem}
use seng21213_os_se.Fs.{Fs, FileDesc, block_size, direct_blocks, checked_fd}
use seng21213_os_se.Fs.File.{chunk, read_loop, limit_count, read_from, fs_read, loop_fuel}

-- The byte of the file of inode `i` at a position.
abbrev pub file_byte : Fs → ℕ → ℕ → ℕ
file_byte s i at = s.block ((s.inodes i).blocks (at / block_size)) (at % block_size)

-- What a read of at most `count` bytes from `off` into `buf` has left when it is done.
pub record Reads (fd i count done off : ℕ) (buf : ℕ → ℕ) (s : Fs) (r : ℕ × (ℕ → ℕ) × Fs)
    : Type 0 where
  pub at_least : done ≤ r.0
  pub at_most : r.0 ≤ count
  pub offset : (r.2.open_files fd).offset ≡ off + (r.0 - done)
  pub inode : (r.2.open_files fd).inode ≡ i
  pub valid : (r.2.open_files fd).valid ≡ (s.open_files fd).valid
  pub bytes :
      (a : ℕ)
      → r.1 a ≡ (if leb done a && ltb a r.0 then file_byte s i (off + (a - done)) else buf a)
  pub disk : r.2.block ≡ s.block
  pub files : r.2.inodes ≡ s.inodes
  pub rest : r.2 ≡ record s { open_files = r.2.open_files }
  pub others : (d : ℕ) → r.2.open_files d ≡ (if d == fd then r.2.open_files fd else s.open_files d)
  pub complete :
      (r.0 ≡ count)
      ⊎ (direct_blocks * block_size ≤ off + (r.0 - done))
      ⊎ ((s.inodes i).blocks ((off + (r.0 - done)) / block_size) ≡ 0)

stops :
    (fd i count done off : ℕ) (buf : ℕ → ℕ) (s : Fs)
    → done ≤ count
    → (s.open_files fd).inode ≡ i
    → (s.open_files fd).offset ≡ off
    → (done ≡ count)
      ⊎ (direct_blocks * block_size ≤ off)
      ⊎ ((s.inodes i).blocks (off / block_size) ≡ 0)
    → Reads fd i count done off buf s (done, buf, s)
stops fd i count done off buf s le ei e why =
    let same : off + (done - done) ≡ off = omega arith in
    record {
      at_least = omega arith;
      at_most = le;
      offset = omega (arith, e);
      inode = ei;
      valid = refl;
      bytes = λ a. ground arith;
      disk = refl;
      files = refl;
      rest = refl;
      others = λ d. ground arith;
      complete = rw same why;
    }

-- The rounds that are left for the blocks behind the offset, one more to stop.
abbrev pub Enough : ℕ → ℕ → ℕ → ℕ → Type 0
Enough n count done off = ((10 ≤ n + off / block_size) × (2 ≤ n)) ⊎ ((count ≤ done) × (1 ≤ n))

pub chunk-progress :
    (n count done off : ℕ)
    → done < count
    → off < direct_blocks * block_size
    → Enough (suc n) count done off
    → Enough n count (done + chunk off (count - done)) (off + chunk off (count - done))
unfolding chunk
chunk-progress n count done off lt inside (inr e) = absurd (omega (arith, e.0))
chunk-progress n count done off lt inside (inl e) =
    elim (Bool-cases (ltb (count - done) (block_size - off % block_size))) [
      | inl last ↦ inr (ground (arith, last), ground (arith, e.0))
      | inr whole ↦ inl (ground (arith, whole, e.0), ground (arith, e.0))
    ]

pub chunk-bound : (off left : ℕ) → chunk off left ≤ left
unfolding chunk
chunk-bound off left = ground arith

pub chunk-room : (off left : ℕ) → off % block_size + chunk off left ≤ block_size
unfolding chunk
chunk-room off left = ground arith

-- A round copies bytes of the file.
chunk-bytes :
    (off left x : ℕ) (s : Fs) (i : ℕ)
    → x < chunk off left
    → file_byte s i (off + x)
      ≡ s.block ((s.inodes i).blocks (off / block_size)) (off % block_size + x)
chunk-bytes off left x s i lt =
    let d : (off + x) / block_size ≡ off / block_size = omega (arith, chunk-room off left) in
    let m : (off + x) % block_size ≡ off % block_size + x = omega (arith, chunk-room off left) in
    ap (λ q. s.block ((s.inodes i).blocks q) ((off + x) % block_size)) d
    ∙ ap (λ q. s.block ((s.inodes i).blocks (off / block_size)) q) m

read_round :
    {fd i count done off : ℕ} {buf : ℕ → ℕ} {s : Fs} {fds : ℕ → FileDesc} {r : ℕ × (ℕ → ℕ) × Fs}
    → done < count
    → (fds fd).valid ≡ (s.open_files fd).valid
    → ((d : ℕ) → fds d ≡ (if d == fd then fds fd else s.open_files d))
    → Reads fd i count
        (done + chunk off (count - done))
        (off + chunk off (count - done))
        (memcpy buf done
          (s.block ((s.inodes i).blocks (off / block_size)))
          (off % block_size)
          (chunk off (count - done)))
        (record s { open_files = fds })
        r
    → Reads fd i count done off buf s r
read_round {i} {count} {done} {off} {buf} {s} {r} lt kept apart v =
    let to_read = chunk off (count - done) in
    let least = v.at_least in
    let same : off + to_read + (r.0 - (done + to_read)) ≡ off + (r.0 - done) = omega arith in
    record {
      at_least = omega arith;
      at_most = v.at_most;
      offset = v.offset ∙ same;
      inode = v.inode;
      valid = v.valid ∙ kept;
      bytes = λ a.
          let db = s.block ((s.inodes i).blocks (off / block_size)) in
          let later : done + to_read ≤ a
              → file_byte s i (off + to_read + (a - (done + to_read)))
                ≡ file_byte s i (off + (a - done)) =
            λ l. ap (file_byte s i) (omega arith) in
          ground (
            arith,
            v.bytes a,
            memcpy_lem buf done db (off % block_size) to_read a,
            chunk-bytes off (count - done) (a - done) s i,
            later,
          );
      disk = v.disk;
      files = v.files;
      rest = v.rest;
      others = λ d. ground (arith, v.others d, apart d);
      complete = rw (sym same) v.complete;
    }

-- The loop of `fs_read` ends within its fuel, having copied the bytes of the file from the offset
-- on and nothing else, up to the count, the last block or a block that is not allocated.
read_loop-Reads :
    (n fd i count done off : ℕ) (buf : ℕ → ℕ) (s : Fs)
    → count < 2 ^ 32
    → done ≤ count
    → (s.open_files fd).inode ≡ i
    → (s.open_files fd).offset ≡ off
    → Enough n count done off
    → (r : ℕ × (ℕ → ℕ) × Fs) × (read_loop n fd count done buf s ≡ some r)
      × Reads fd i count done off buf s r
unfolding read_loop
read_loop-Reads zero fd i count done off buf s small le ei eo enough =
    absurd (omega (arith, enough))
read_loop-Reads (suc n) fd i count done off buf s small le ei eo enough =
    elim (Bool-cases (ltb done count)) [
      | inr all ↦
          rw all
            ((done, buf, s), refl, stops fd i count done off buf s le ei eo (inl (ground arith)))
      | inl more ↦ elim (Bool-cases (leb direct_blocks (off / block_size))) [
        | inl end ↦
            rw (eo, more, end)
              (
                (done, buf, s),
                refl,
                stops fd i count done off buf s le ei eo (inr (inl (ground (arith, end)))),
              )
        | inr inside ↦
            let c = chunk off (count - done) in
            let bound = chunk-bound off (count - done) in
            let room = chunk-room off (count - done) in
            let low : off < direct_blocks * block_size = ground (arith, inside) in
            let d32 : (done + c) % 4294967296 ≡ done + c = ground (arith, more) in
            let o32 : (off + c) % 4294967296 ≡ off + c = omega arith in
            elim (Bool-cases ((s.inodes i).blocks (off / block_size) == 0)) [
              | inl hole ↦
                  rw (eo, ei, more, inside, hole)
                    (
                      (done, buf, s),
                      refl,
                      stops fd i count done off buf s le ei eo (inr (inr (ground (arith, hole)))),
                    )
              | inr mapped ↦
                  rw (eo, ei, more, inside, mapped, d32, o32)
                    (let next =
                        read_loop-Reads n fd i count (done + c) (off + c)
                          (memcpy buf done (s.block ((s.inodes i).blocks (off / block_size)))
                            (off % block_size) c)
                          (record s {
                            open_files = update s.open_files fd (record {
                              inode = i;
                              offset = off + c;
                              valid = (s.open_files fd).valid;
                            });
                          })
                          small (omega (arith, ltb→lt done count more)) (ground arith)
                          (ground arith)
                          (chunk-progress n count done off (ground (arith, more)) low enough) in
                      (
                        next.0,
                        next.1,
                        read_round (ground (arith, more)) (ground arith) (λ d. ground arith) next.2,
                      ))
            ]
      ]
    ]

-- The bytes a read may return: none from the end of the file on, and none past it.
abbrev pub readable : ℕ → ℕ → ℕ → ℕ
readable off size count =
    if leb size off then 0 else if ltb (size - off) count then size - off else count

abbrev pub fd_inode : Fs → ℕ → ℕ
fd_inode s d = (s.open_files d).inode

abbrev pub fd_offset : Fs → ℕ → ℕ
fd_offset s d = (s.open_files d).offset

read_from-Reads :
    (d count : ℕ) (buf : ℕ → ℕ) (s : Fs)
    → fd_offset s d + count < 2 ^ 32
    → (r : ℕ × (ℕ → ℕ) × Fs) × (read_from d buf count s ≡ some (pos r.0, r.1, r.2))
      × Reads d
          (fd_inode s d)
          (readable (fd_offset s d) (s.inodes (fd_inode s d)).size count)
          0
          (fd_offset s d)
          buf
          s
          r
unfolding limit_count
read_from-Reads d count buf s small =
    let off = fd_offset s d in
    let i = fd_inode s d in
    elim (Bool-cases (leb (s.inodes i).size off)) [
      | inl past ↦
          rw past ((0, buf, s), refl, stops d i 0 0 off buf s (omega arith) refl refl (inl refl))
      | inr before ↦
          let limit = limit_count off (s.inodes i).size count in
          let e : limit
              ≡ (if ltb ((s.inodes i).size - off) count then (s.inodes i).size - off else count) =
            ground (arith, before) in
          let loop =
            read_loop-Reads loop_fuel d i limit 0 off buf s (ground (arith, before)) (omega arith)
              refl refl (inl (omega arith, omega arith)) in
          rw before (
            loop.0,
            ap (λ o. elim o [ none ↦ none | some r ↦ some (pos r.0, r.1, r.2) ]) loop.1,
            subst (λ l. Reads d i l 0 off buf s loop.0) e loop.2,
          )
    ]

-- On an open descriptor, with a buffer and a count that the offset can be advanced by in 32 bits,
-- `fs_read` returns; what it returns is the number of bytes it has copied from the file to the
-- buffer, starting at the offset, which it advances by that number. It reads nothing past the end
-- of the file, and less than the count only at the end, after the last block or at a block that is
-- not allocated. The rest of the buffer, the other descriptors and the whole disk (superblock,
-- bitmaps, directory, inodes and blocks) are unchanged.
pub fs_read_lem :
    (fd : ℤ) (d count : ℕ) (buf : ℕ → ℕ) (s : Fs)
    → checked_fd fd s ≡ some d
    → fd_offset s d + count < 2 ^ 32
    → (r : ℕ × (ℕ → ℕ) × Fs) × (fs_read fd (some buf) count s ≡ some (pos r.0, some r.1, r.2))
      × Reads d
          (fd_inode s d)
          (readable (fd_offset s d) (s.inodes (fd_inode s d)).size count)
          0
          (fd_offset s d)
          buf
          s
          r
unfolding fs_read
fs_read_lem fd d count buf s ok small = elim (Bool-cases (count == 0)) [
  | inl z ↦
      rw (ok, fs_read, z)
        (
          (0, buf, s),
          refl,
          stops d (fd_inode s d) _ 0 (fd_offset s d) buf s (omega arith) refl refl
              (inl (ground (arith, z))),
        )
  | inr nz ↦
      let f = read_from-Reads d count buf s small in rw (ok, fs_read, nz, f.1) (f.0, refl, f.2)
]
