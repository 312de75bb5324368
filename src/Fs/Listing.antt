-- ===== src/Fs/Listing.antt =====
-- What `fs_list_dir` and `fs_print_stats` of kernel/fs.c print, as the calls that they make.
use seng21213_os_se.Base.{
  ℕ, zero, suc, ◌+◌, ◌-◌, ◌*◌, ◌/◌, ◌%◌, ◌^◌, ◌≡◌, refl, List, [], ◌∷◌, ◌++◌, arith, ◌==◌,
  if◌then◌else◌, Bool-cases, inl, inr, length,
}
use seng21213_os_se.Fs.{Fs, max_dir_entries, max_inodes, block_size, direct_blocks}
use seng21213_os_se.Fs.File.{fs_list_dir, count_entries}
use seng21213_os_se.Vga.Text.{bytes}
use seng21213_os_se.Vga.Color.{vga_light_cyan, vga_black}
use seng21213_os_se.Vga.Print.{word}
use seng21213_os_se.Vga.Output.{Call, puts, puts_color, printf}

-- `n` rounds of the loop of `fs_list_dir`, from entry `i` on.
unfoldable pub dir_rows : ℕ → ℕ → Fs → List Call
dir_rows zero i s = []
dir_rows (suc n) i s =
    let e = s.directory i in
    let rest = dir_rows n (i + 1) s in
    if e.inode == 0
    then rest
    else puts (bytes "  ")
      ∷ puts e.name
      ∷ puts (bytes "  ")
      ∷ printf (bytes "%u bytes\n") (word (s.inodes e.inode).size ∷ [])
      ∷ rest

unfoldable pub dir_listing : Fs → List Call
dir_listing s =
    puts_color (bytes "\n  Directory listing:\n") vga_light_cyan vga_black
    ∷ puts (bytes "  ---------------------------------------------\n")
    ∷ (dir_rows max_dir_entries 0 s
        ++ ((if fs_list_dir s == 0 then puts (bytes "  (empty)\n") ∷ [] else [])
            ++ (printf (bytes "\n  %d file(s)\n\n") (word (fs_list_dir s) ∷ []) ∷ [])))

abbrev pub ramdisk_size : ℕ
ramdisk_size = 1024 * 1024

abbrev pub max_file_size : ℕ
max_file_size = direct_blocks * block_size

unfoldable pub fs_print_stats : Fs → List Call
fs_print_stats s =
    let sb = s.superblock in
    puts_color (bytes "\n  RAM Disk File System Statistics\n") vga_light_cyan vga_black
    ∷ puts (bytes "  ---------------------------------------------\n")
    ∷ printf (bytes "  Total size       : %u KB\n") (word (ramdisk_size / 1024) ∷ [])
    ∷ printf (bytes "  Block size       : %u bytes\n") (word block_size ∷ [])
    ∷ printf (bytes "  Total blocks     : %u\n") (word sb.total ∷ [])
    ∷ printf (bytes "  Data blocks      : %u\n") (word sb.data_count ∷ [])
    ∷ printf (bytes "  Free data blocks : %u\n") (word sb.free_blocks ∷ [])
    ∷ printf (bytes "  Used data blocks : %u\n")
        (word ((sb.data_count + 2 ^ 32 - sb.free_blocks) % 2 ^ 32) ∷ [])
    ∷ printf (bytes "  Max inodes       : %u\n") (word max_inodes ∷ [])
    ∷ printf (bytes "  Free inodes      : %u\n") (word sb.free_inodes ∷ [])
    ∷ printf (bytes "  Max file size    : %u KB\n") (word (max_file_size / 1024) ∷ [])
    ∷ puts (bytes "\n")
    ∷ []

-- `fs_list_dir` prints four pieces of text for each entry that it counts.
length-dir_rows : (n i : ℕ) (s : Fs) → length (dir_rows n i s) ≡ 4 * count_entries n i s
unfolding dir_rows count_entries
length-dir_rows zero i s = refl
length-dir_rows (suc n) i s =
    let ih = length-dir_rows n (i + 1) s in
    elim (Bool-cases ((s.directory i).inode == 0)) [
      | inl free ↦ rw free (omega (arith, ih))
      | inr used ↦ rw used (omega (arith, ih))
    ]
