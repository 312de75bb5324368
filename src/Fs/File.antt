-- ===== src/Fs/File.antt =====
-- kernel/fs.c: reading, writing and removing a file. The loops of `fs_read` and `fs_write` run on
-- fuel and return `none` if it does not suffice.
use seng21213_os_se.Base.{
  ℕ, zero, suc, ◌+◌, ◌-◌, ◌/◌, ◌%◌, Bool, true, false, not, List, Option, none, some, ◌==◌, ltb,
  leb, if◌then◌else◌, update, add32, find_first, Ptr, ℤ, pos, minus_one, set,
}
use seng21213_os_se.Fs.{
  Fs, Inode, block_size, direct_blocks, max_dir_entries, checked_fd, fs_alloc_block, fs_free_block,
  fs_free_inode, fs_find_inode,
}
use seng21213_os_se.Strings.{memcpy}

-- The part of what is left that fits into the current block.
unfoldable pub chunk : ℕ → ℕ → ℕ
chunk offset left =
    let room = block_size - offset % block_size in if ltb left room then left else room

abbrev pub seek : ℕ → ℕ → Fs → Fs
seek fd offset s = record s {
  open_files = update s.open_files fd (record (s.open_files fd) { offset = offset });
}

-- The loop of `fs_read`: the bytes read so far, the buffer and the state.
unfoldable pub read_loop : ℕ → ℕ → ℕ → ℕ → (ℕ → ℕ) → Fs → Option (ℕ × (ℕ → ℕ) × Fs)
read_loop zero fd count bytes_read buf s = none
read_loop (suc fuel) fd count bytes_read buf s =
    let desc = s.open_files fd in
    let block_index = desc.offset / block_size in
    let data_block = (s.inodes desc.inode).blocks block_index in
    let to_read = chunk desc.offset (count - bytes_read) in
    let rest =
      read_loop fuel fd count (add32 bytes_read to_read)
        (memcpy buf bytes_read (s.block data_block) (desc.offset % block_size) to_read)
        (seek fd (add32 desc.offset to_read) s) in
    if not (ltb bytes_read count)
    then some (bytes_read, buf, s)
    else if leb direct_blocks block_index
    then some (bytes_read, buf, s)
    else if data_block == 0
    then some (bytes_read, buf, s)
    else rest

-- `count`, limited to what the file has behind the offset.
unfoldable pub limit_count : ℕ → ℕ → ℕ → ℕ
limit_count offset size count = if ltb size (add32 offset count) then size - offset else count

-- More than one round for each block of a file.
abbrev pub loop_fuel : ℕ
loop_fuel = 10

abbrev pub read_from : ℕ → (ℕ → ℕ) → ℕ → Fs → Option (ℤ × (ℕ → ℕ) × Fs)
read_from fd buf count s =
    let desc = s.open_files fd in
    let size = (s.inodes desc.inode).size in
    if leb size desc.offset
    then some (pos 0, buf, s)
    else elim (read_loop loop_fuel fd (limit_count desc.offset size count) 0 buf s) [
      | none ↦ none
      | some r ↦ some (pos r.0, r.1, r.2)
    ]

-- A NULL buffer is `none`; a buffer is memory from its pointer on.
unfoldable pub fs_read : ℤ → Option (ℕ → ℕ) → ℕ → Fs → Option (ℤ × Option (ℕ → ℕ) × Fs)
fs_read fd buffer count s = elim (checked_fd fd s) [
  | none ↦ some (minus_one, buffer, s)
  | some d ↦ elim buffer [
    | none ↦ some (pos 0, none, s)
    | some buf ↦
        if count == 0
        then some (pos 0, some buf, s)
        else elim (read_from d buf count s) [ none ↦ none | some r ↦ some (r.0, some r.1, r.2) ]
  ]
]

-- `if (inode->blocks[block_index] == 0)`: allocating the block. The flag is false if no block is
-- free.
abbrev pub got_block : ℕ → ℕ → ℕ × Fs → Bool × Fs
got_block i block_index a = if a.0 == 0 then (false, a.1) else (
  true,
  record (a.1) {
    inodes =
        update a.1.inodes i
          (record (a.1.inodes i) { blocks = update (a.1.inodes i).blocks block_index a.0 });
  },
)

unfoldable pub ensure_block : ℕ → ℕ → Fs → Bool × Fs
ensure_block i block_index s =
    if (s.inodes i).blocks block_index == 0
    then got_block i block_index (fs_alloc_block s)
    else (true, s)

-- The copy of one round, the offset and the size of the file.
unfoldable pub put_chunk : ℕ → (ℕ → ℕ) → ℕ → ℕ → Fs → Fs
put_chunk fd buf bytes_written to_write s =
    let desc = s.open_files fd in
    let inode = s.inodes desc.inode in
    let b = inode.blocks (desc.offset / block_size) in
    let offset = add32 desc.offset to_write in
    record s {
      block =
          update s.block b
            (memcpy (s.block b) (desc.offset % block_size) buf bytes_written to_write);
      open_files = update s.open_files fd (record desc { offset = offset });
      inodes =
          update s.inodes desc.inode
            (record inode { size = if ltb inode.size offset then offset else inode.size });
    }

unfoldable pub write_loop : ℕ → ℕ → ℕ → ℕ → (ℕ → ℕ) → Fs → Option (ℕ × Fs)
write_loop zero fd count bytes_written buf s = none
write_loop (suc fuel) fd count bytes_written buf s =
    let desc = s.open_files fd in
    let block_index = desc.offset / block_size in
    let ready = ensure_block desc.inode block_index s in
    let to_write = chunk desc.offset (count - bytes_written) in
    let rest =
      write_loop fuel fd count (add32 bytes_written to_write) buf
        (put_chunk fd buf bytes_written to_write ready.1) in
    if not (ltb bytes_written count)
    then some (bytes_written, s)
    else if leb direct_blocks block_index
    then some (bytes_written, s)
    else if not ready.0
    then some (bytes_written, ready.1)
    else rest

abbrev pub write_to : ℕ → (ℕ → ℕ) → ℕ → Fs → Option (ℤ × Fs)
write_to fd buf count s = elim (write_loop loop_fuel fd count 0 buf s) [
  | none ↦ none
  | some r ↦ some (pos r.0, r.1)
]

unfoldable pub fs_write : ℤ → Option (ℕ → ℕ) → ℕ → Fs → Option (ℤ × Fs)
fs_write fd buffer count s = elim (checked_fd fd s) [
  | none ↦ some (minus_one, s)
  | some d ↦ elim buffer [
    | none ↦ some (pos 0, s)
    | some buf ↦ if count == 0 then some (pos 0, s) else write_to d buf count s
  ]
]

-- `n` rounds of the loop of `fs_unlink` over the blocks of an inode, from `i` on.
unfoldable pub free_blocks_from : ℕ → ℕ → Inode → Fs → Fs
free_blocks_from zero i inode s = s
free_blocks_from (suc n) i inode s =
    free_blocks_from n (i + 1) inode
      (if not (inode.blocks i == 0) then fs_free_block (inode.blocks i) s else s)

abbrev pub remove_at : Ptr → Fs → Fs
remove_at none s = s
remove_at (some i) s = record s {
  directory = update s.directory i (record { name = set (s.directory i).name 0 0; inode = 0 });
}

-- The last loop of `fs_unlink`.
unfoldable pub remove_entry : ℕ → Fs → Fs
remove_entry inode_num s =
    remove_at (find_first max_dir_entries 0 (λ i. (s.directory i).inode == inode_num)) s

unfoldable pub fs_unlink : Option (List ℕ) → Fs → ℤ × Fs
fs_unlink none s = (minus_one, s)
fs_unlink (some filename) s =
    let i = fs_find_inode filename s in
    if i == 0
    then (minus_one, s)
    else (pos 0, remove_entry i (fs_free_inode i (free_blocks_from direct_blocks 0 (s.inodes i) s)))

-- The number of entries that `fs_list_dir` prints and returns.
unfoldable pub count_entries : ℕ → ℕ → Fs → ℕ
count_entries zero i s = 0
count_entries (suc n) i s =
    (if not ((s.directory i).inode == 0) then 1 else 0) + count_entries n (i + 1) s

unfoldable pub fs_list_dir : Fs → ℕ
fs_list_dir s = count_entries max_dir_entries 0 s
