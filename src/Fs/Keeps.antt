-- ===== src/Fs/Keeps.antt =====
-- What the calls of kernel/fs.c that read and write keep of the directory and the inodes.
use seng21213_os_se.Base.{
  ℕ, zero, suc, ◌-◌, ◌/◌, ◌%◌, ◌<◌, ◌≡◌, ◌⊎◌, inl, inr, refl, sym, ap, ◌∙◌, arith, Bool-cases, ◌==◌,
  Option, none, some, ℤ, pos, leb, ltb, add32,
}
use mathlib.Core.Path.{subst}
use mathlib.Core.Option.{some-injective}
use seng21213_os_se.Bitmap.{bitmap_test}
use seng21213_os_se.Strings.{memcpy}
use seng21213_os_se.Fs.{Fs, Inode, FileDesc, direct_blocks, block_size, checked_fd}
use seng21213_os_se.Fs.File.{
  chunk, seek, read_loop, read_from, limit_count, fs_read, ensure_block, put_chunk, write_loop,
  fs_write, loop_fuel,
}
use seng21213_os_se.Fs.Disk.{block_of, is_used, Gets, ensure_block-Gets}
use seng21213_os_se.Fs.Tree.{IsTree, entry_inode}

returned {ℓ ℓ'} : {A : Type ℓ} (P : A → Type ℓ') {x r : A} → P x → some x ≡ some r → P r
returned P {x} {r} h e = subst P (some-injective x r e) h

pub Option-cases {ℓ} : {A : Type ℓ} (o : Option A) → (o ≡ none) ⊎ ((x : A) × (o ≡ some x))
Option-cases none = inl refl
Option-cases (some x) = inr (x, refl)

mapped_some {ℓ ℓ' ℓ''} :
    {A : Type ℓ} {B : Type ℓ'} (P : B → Type ℓ'') (o : Option A) (f : A → B) {r : B}
    → ((a : A) → o ≡ some a → P (f a))
    → (elim o as (λ x. Option B) [ none ↦ none | some a ↦ some (f a) ]) ≡ some r
    → P r
mapped_some P none f h e = absurd (ground (arith, e))
mapped_some P (some a) f h e = returned P (h a refl) e

-- What `IsTree` says depends on neither the descriptors nor the contents of the blocks and the
-- sizes.
frame-IsTree :
    {s : Fs} (fds : ℕ → FileDesc) (contents : ℕ → ℕ → ℕ) (inodes : ℕ → Inode)
    → IsTree s
    → ((i j : ℕ) → (inodes i).blocks j ≡ block_of s i j)
    → IsTree (record s { open_files = fds; block = contents; inodes = inodes })
frame-IsTree {s} fds contents inodes v same = record {
  disk = record {
    fs = record {
      block_bytes = v.disk.fs.block_bytes;
      inode_bytes = v.disk.fs.inode_bytes;
      blocks_counted = v.disk.fs.blocks_counted;
      inodes_counted = v.disk.fs.inodes_counted;
      reserved = v.disk.fs.reserved;
      names = v.disk.fs.names;
    };
    mapped = λ i j u l nz. rw (same i j) (v.disk.mapped i j u l (λ z. nz (same i j ∙ z)));
    apart = λ i1 j1 i2 j2 u1 u2 l1 l2 nz e.
        v.disk.apart i1 j1 i2 j2 u1 u2 l1 l2 (λ z. nz (same i1 j1 ∙ z))
          (sym (same i1 j1) ∙ e ∙ same i2 j2);
  };
  entries = v.entries;
  small = v.small;
  unique = v.unique;
}

pub fds-IsTree : {s : Fs} (fds : ℕ → FileDesc) → IsTree s → IsTree (record s { open_files = fds })
fds-IsTree {s} fds v = frame-IsTree fds s.block s.inodes v (λ i j. refl)

ensure_block-IsTree :
    (i j : ℕ) (s : Fs) → IsTree s → j < direct_blocks → IsTree (ensure_block i j s).1
ensure_block-IsTree i j s v lt = elim (ensure_block-Gets {i = i} v.disk lt) [
  | inr full ↦ rw full.0 v
  | inl got ↦
      let t = (ensure_block i j s).1 in
      let g : Gets i j s t = got.1 in
      let used : (k : ℕ) → is_used t k ≡ is_used s k = λ k. ap (λ b. bitmap_test b k) g.used in
      let entry : (k : ℕ) → entry_inode t k ≡ entry_inode s k =
        λ k. ap (λ d. (d k).inode) g.names in
      record {
        disk = g.disk;
        entries = λ k l nz.
            ap (is_used t) (entry k)
            ∙ used (entry_inode s k)
            ∙ v.entries k l (λ z. nz (entry k ∙ z));
        small = λ k l nz. rw (entry k) (v.small k l (λ z. nz (entry k ∙ z)));
        unique = λ k k' l l' nz e.
            v.unique k k' l l' (λ z. nz (entry k ∙ z)) (sym (entry k) ∙ e ∙ entry k');
      }
]

put_chunk-IsTree :
    (fd : ℕ) (buf : ℕ → ℕ) (done n : ℕ) (s : Fs) → IsTree s → IsTree (put_chunk fd buf done n s)
unfolding put_chunk
put_chunk-IsTree fd buf done n s v = frame-IsTree _ _ _ v (λ i j. ground arith)

write_loop-IsTree :
    (n fd count done : ℕ) (buf : ℕ → ℕ) (s : Fs) (r : ℕ × Fs)
    → IsTree s
    → write_loop n fd count done buf s ≡ some r
    → IsTree r.1
unfolding write_loop
write_loop-IsTree zero fd count done buf s r v = λ e. absurd (ground (arith, e))
write_loop-IsTree (suc n) fd count done buf s r v =
    let i = (s.open_files fd).inode in
    let j = (s.open_files fd).offset / block_size in
    elim (Bool-cases (ltb done count)) [
      | inr all ↦ rw all (returned (λ x. IsTree x.1) v)
      | inl more ↦ elim (Bool-cases (leb direct_blocks j)) [
        | inl end ↦ rw (more, end) (returned (λ x. IsTree x.1) v)
        | inr inside ↦
            let ready = ensure_block-IsTree i j s v (ground (arith, inside)) in
            elim (Bool-cases ((ensure_block i j s).0)) [
              | inr full ↦ rw (more, inside, full) (returned (λ x. IsTree x.1) ready)
              | inl got ↦
                  let c = chunk (s.open_files fd).offset (count - done) in
                  rw (more, inside, got)
                    (write_loop-IsTree n fd count (add32 done c) buf
                      (put_chunk fd buf done c (ensure_block i j s).1) r
                      (put_chunk-IsTree fd buf done c (ensure_block i j s).1 ready))
            ]
      ]
    ]

pub write-IsTree :
    (fd : ℤ) (buffer : Option (ℕ → ℕ)) (count : ℕ) (s : Fs) (r : ℤ × Fs)
    → IsTree s
    → fs_write fd buffer count s ≡ some r
    → IsTree r.1
unfolding fs_write
write-IsTree fd buffer count s r v = elim (Option-cases (checked_fd fd s)) [
  | inl bad ↦ rw (bad, fs_write) (returned (λ x. IsTree x.1) v)
  | inr (d, ok) ↦ elim (Option-cases buffer) [
    | inl null ↦ rw (ok, fs_write, null) (returned (λ x. IsTree x.1) v)
    | inr (buf, given) ↦ elim (Bool-cases (count == 0)) [
      | inl z ↦ rw (ok, fs_write, given, z) (returned (λ x. IsTree x.1) v)
      | inr nz ↦
          rw (ok, fs_write, given, nz)
            (mapped_some (λ x. IsTree x.1) (write_loop loop_fuel d count 0 buf s)
              (λ x. (pos x.0, x.1)) (λ x. write_loop-IsTree loop_fuel d count 0 buf s x v))
    ]
  ]
]

read_loop-IsTree :
    (n fd count done : ℕ) (buf : ℕ → ℕ) (s : Fs) (r : ℕ × (ℕ → ℕ) × Fs)
    → IsTree s
    → read_loop n fd count done buf s ≡ some r
    → IsTree r.2
unfolding read_loop
read_loop-IsTree zero fd count done buf s r v = λ e. absurd (ground (arith, e))
read_loop-IsTree (suc n) fd count done buf s r v =
    let i = (s.open_files fd).inode in
    let off = (s.open_files fd).offset in
    let b = (s.inodes i).blocks (off / block_size) in
    elim (Bool-cases (ltb done count)) [
      | inr all ↦ rw all (returned (λ x. IsTree x.2) v)
      | inl more ↦ elim (Bool-cases (leb direct_blocks (off / block_size))) [
        | inl end ↦ rw (more, end) (returned (λ x. IsTree x.2) v)
        | inr inside ↦ elim (Bool-cases (b == 0)) [
          | inl hole ↦ rw (more, inside, hole) (returned (λ x. IsTree x.2) v)
          | inr data_there ↦
              let c = chunk off (count - done) in
              rw (more, inside, data_there)
                (read_loop-IsTree n fd count (add32 done c)
                  (memcpy buf done (s.block b) (off % block_size) c) (seek fd (add32 off c) s) r
                  (fds-IsTree _ v))
        ]
      ]
    ]

read_from-IsTree :
    (d : ℕ) (buf : ℕ → ℕ) (count : ℕ) (s : Fs) (r : ℤ × (ℕ → ℕ) × Fs)
    → IsTree s
    → read_from d buf count s ≡ some r
    → IsTree r.2
read_from-IsTree d buf count s r v =
    let off = (s.open_files d).offset in
    let size = (s.inodes (s.open_files d).inode).size in
    elim (Bool-cases (leb size off)) [
      | inl past ↦ rw past (returned (λ x. IsTree x.2) v)
      | inr before ↦ rw before (
          mapped_some (λ x. IsTree x.2) (read_loop loop_fuel d (limit_count off size count) 0 buf s)
            (λ x. (pos x.0, x.1, x.2))
            (λ x. read_loop-IsTree loop_fuel d (limit_count off size count) 0 buf s x v))
    ]

pub read-IsTree :
    (fd : ℤ) (buffer : Option (ℕ → ℕ)) (count : ℕ) (s : Fs) (r : ℤ × Option (ℕ → ℕ) × Fs)
    → IsTree s
    → fs_read fd buffer count s ≡ some r
    → IsTree r.2
unfolding fs_read
read-IsTree fd buffer count s r v = elim (Option-cases (checked_fd fd s)) [
  | inl bad ↦ rw (bad, fs_read) (returned (λ x. IsTree x.2) v)
  | inr (d, ok) ↦ elim (Option-cases buffer) [
    | inl null ↦ rw (ok, fs_read, null) (returned (λ x. IsTree x.2) v)
    | inr (buf, given) ↦ elim (Bool-cases (count == 0)) [
      | inl z ↦ rw (ok, fs_read, given, z) (returned (λ x. IsTree x.2) v)
      | inr nz ↦
          rw (ok, fs_read, given, nz)
            (mapped_some (λ x. IsTree x.2) (read_from d buf count s) (λ x. (x.0, some x.1, x.2))
              (λ x. read_from-IsTree d buf count s x v))
    ]
  ]
]
