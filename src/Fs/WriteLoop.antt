-- ===== src/Fs/WriteLoop.antt =====
-- `fs_write` in kernel/fs.c: its loop ends within its fuel, and what it leaves.
use seng21213_os_se.Base.{
  ℕ, zero, suc, ◌+◌, ◌-◌, ◌/◌, ◌%◌, ◌^◌, ◌≤◌, ◌<◌, ◌≡◌, inl, inr, refl, ap, ◌∙◌, true, arith,
  Bool-cases, ◌==◌, leb, ltb, ltb→lt, none, some, ℤ, pos,
}
use seng21213_os_se.Bitmap.{bitmap_test}
use seng21213_os_se.Fs.{Fs, block_size, direct_blocks, checked_fd}
use seng21213_os_se.Fs.File.{
  chunk, ensure_block, put_chunk, write_loop, write_to, fs_write, loop_fuel,
}
use seng21213_os_se.Fs.Reads.{Enough, chunk-progress, chunk-bound, chunk-room, fd_inode, fd_offset}
use seng21213_os_se.Fs.Disk.{is_used, IsDisk, ensure_block-Gets}
use seng21213_os_se.Fs.Chunk.{max_file_size, Puts, put_chunk-Puts}
use seng21213_os_se.Fs.Writes.{Writes, stops, round-Writes}

-- A round writes at least one byte.
chunk-some : (off left : ℕ) → 0 < left → 0 < chunk off left
unfolding chunk
chunk-some off left lt = ground arith

write_loop-Writes :
    (n fd i count done off : ℕ) (buf : ℕ → ℕ) (s : Fs)
    → count < 2 ^ 32
    → done ≤ count
    → IsDisk s
    → is_used s i ≡ true
    → (s.open_files fd).inode ≡ i
    → (s.open_files fd).offset ≡ off
    → Enough n count done off
    → (r : ℕ × Fs) × (write_loop n fd count done buf s ≡ some r)
      × Writes fd i count done off buf s r
unfolding write_loop
write_loop-Writes zero fd i count done off buf s small le d used ei eo enough =
    absurd (omega (arith, enough))
write_loop-Writes (suc n) fd i count done off buf s small le d used ei eo enough =
    elim (Bool-cases (ltb done count)) [
      | inr all ↦
          rw all ((done, s), refl, stops fd i count done off buf s d le ei eo (inl (ground arith)))
      | inl more ↦ elim (Bool-cases (leb direct_blocks (off / block_size))) [
        | inl end ↦
            rw (eo, more, end)
              (
                (done, s),
                refl,
                stops fd i count done off buf s d le ei eo (inr (inl (ground (arith, end)))),
              )
        | inr inside ↦
            let c = chunk off (count - done) in
            let bound = chunk-bound off (count - done) in
            let low : off < max_file_size = ground (arith, inside) in
            let block_lt : off / block_size < direct_blocks = ground (arith, inside) in
            let d32 : (done + c) % 4294967296 ≡ done + c = ground (arith, more) in
            elim (ensure_block-Gets {i = i} d block_lt) [
              | inl got ↦
                  let g = got.1 in
                  let t = (ensure_block i (off / block_size) s).1 in
                  let room = chunk-room off (count - done) in
                  let q : Puts fd i done c off buf t (put_chunk fd buf done c t) =
                    put_chunk-Puts fd i done c off buf g.disk (ap (λ f. (f fd).inode) g.fds ∙ ei)
                      (ap (λ f. (f fd).offset) g.fds ∙ eo) (ap (λ b. bitmap_test b i) g.used ∙ used)
                      low g.there room in
                  let next =
                    write_loop-Writes n fd i count (done + c) (off + c) buf
                      (put_chunk fd buf done c t) small (omega (arith, ltb→lt done count more))
                      q.disk (ap (λ b. bitmap_test b i) (q.used ∙ g.used) ∙ used) q.fd_inode
                      q.fd_offset
                      (chunk-progress n count done off (ground (arith, more)) low enough) in
                  rw (eo, ei, more, inside, got.0, d32)
                    (
                      next.0,
                      next.1,
                      round-Writes g q next.2 used low room
                          (chunk-some off (count - done) (ground (arith, more))),
                    )
              | inr full ↦
                  rw (eo, ei, more, inside, full.0)
                    ((done, s), refl, stops fd i count done off buf s d le ei eo (inr (inr full.2)))
            ]
      ]
    ]

-- On an open descriptor whose inode is in use, on a disk whose files do not share blocks, with a
-- buffer and a count of 32 bits, `fs_write` returns; what it returns is the number of bytes that it
-- has copied from the buffer to the file from the offset on, by which it advances the offset. Every
-- other byte in a block of a file in use is unchanged, the files still do not share blocks, and the
-- size has grown to the new offset if it was less. It writes less than the count only if the file
-- has no block left or no block of the disk is free.
pub fs_write_lem :
    (fd : ℤ) (d count : ℕ) (buf : ℕ → ℕ) (s : Fs)
    → checked_fd fd s ≡ some d
    → count < 2 ^ 32
    → IsDisk s
    → is_used s (fd_inode s d) ≡ true
    → (r : ℕ × Fs) × (fs_write fd (some buf) count s ≡ some (pos r.0, r.1))
      × Writes d (fd_inode s d) count 0 (fd_offset s d) buf s r
unfolding fs_write
fs_write_lem fd d count buf s ok small disk used = elim (Bool-cases (count == 0)) [
  | inl z ↦
      rw (ok, fs_write, z)
        (
          (0, s),
          refl,
          stops d (fd_inode s d) count 0 (fd_offset s d) buf s disk (omega arith) refl refl
              (inl (ground (arith, z))),
        )
  | inr nz ↦
      let loop =
        write_loop-Writes loop_fuel d (fd_inode s d) count 0 (fd_offset s d) buf s small
          (omega arith) disk used refl refl (inl (omega arith, omega arith)) in
      let written : write_to d buf count s ≡ some (pos loop.0.0, loop.0.1) =
        ap (λ o. elim o [ none ↦ none | some r ↦ some (pos r.0, r.1) ]) loop.1 in
      rw (ok, fs_write, nz, written) (loop.0, refl, loop.2)
]
