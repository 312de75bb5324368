-- ===== src/Shell/Replies.antt =====
-- How kernel/kernel.c prints the results of kill, meminfo and the commands on files, as the calls
-- that it makes.
use seng21213_os_se.Base.{
  ℕ, ◌*◌, ◌/◌, ◌%◌, ◌^◌, ◌<◌, ◌≡◌, refl, true, List, [], ◌∷◌, ◌++◌, some, arith, ltb, if◌then◌else◌,
}
use seng21213_os_se.Pmm.{frame_size}
use seng21213_os_se.Vga.Color.{
  vga_black, vga_light_red, vga_light_green, vga_light_cyan, vga_yellow,
}
use seng21213_os_se.Vga.Text.{bytes}
use seng21213_os_se.Vga.Print.{word, text}
use seng21213_os_se.Vga.Output.{Call, puts, puts_color, printf, all_fit}
use seng21213_os_se.Shell.Kill.{Reply, killed, protected, no_process}
use seng21213_os_se.Shell.Memory.{MemInfo}
use seng21213_os_se.Shell.Files.{
  Message, created, not_created, not_found, shown, not_opened, wrote, not_written, removed,
  not_removed,
}

abbrev pub kill_calls : Reply → List Call
kill_calls Reply.usage = puts_color (bytes "  Usage: kill <pid>\n") vga_yellow vga_black ∷ []
kill_calls (killed pid) = printf (bytes "  Process %d killed.\n") (word pid ∷ []) ∷ []
kill_calls protected =
    puts_color (bytes "  Cannot kill the shell process.\n") vga_yellow vga_black ∷ []
kill_calls no_process = puts_color (bytes "  No such process.\n") vga_light_red vga_black ∷ []

-- The usage line of the command on files comes with it; `name` is the name of the file. The text
-- that `cat` shows in pieces is one.
abbrev pub file_calls : List ℕ → List ℕ → Message → List Call
file_calls usage_line name Message.usage = puts_color usage_line vga_light_red vga_black ∷ []
file_calls usage_line name created =
    printf (bytes "Created file: %s\n") (text (some name) ∷ []) ∷ []
file_calls usage_line name not_created =
    printf (bytes "Failed to create file: %s\n") (text (some name) ∷ []) ∷ []
file_calls usage_line name not_found =
    printf (bytes "File not found: %s\n") (text (some name) ∷ []) ∷ []
file_calls usage_line name (shown str) = puts (bytes "\n") ∷ puts str ∷ puts (bytes "\n\n") ∷ []
file_calls usage_line name not_opened =
    printf (bytes "Failed to open/create file: %s\n") (text (some name) ∷ []) ∷ []
file_calls usage_line name (wrote n) =
    printf (bytes "Wrote %d bytes to %s\n") (word n ∷ text (some name) ∷ []) ∷ []
file_calls usage_line name not_written =
    printf (bytes "Failed to write to %s\n") (text (some name) ∷ []) ∷ []
file_calls usage_line name removed = printf (bytes "Removed: %s\n") (text (some name) ∷ []) ∷ []
file_calls usage_line name not_removed =
    printf (bytes "Failed to remove: %s\n") (text (some name) ∷ []) ∷ []

-- The kilobytes of `n` frames, whose product wraps at 32 bits.
abbrev pub kilobytes : ℕ → ℕ
kilobytes n = n * frame_size % 2 ^ 32 / 1024

unfoldable pub meminfo_calls : MemInfo → List Call
meminfo_calls m =
    puts (bytes "\n")
    ∷ puts_color (bytes "Physical Memory Manager (L11 §3)\n") vga_light_cyan vga_black
    ∷ puts (bytes "---------------------------------------------\n")
    ∷ printf (bytes "Total frames : %u\n") (word m.total ∷ [])
    ∷ printf (bytes "Used frames  : %u\n") (word m.used ∷ [])
    ∷ printf (bytes "Free frames  : %u\n") (word m.free ∷ [])
    ∷ printf (bytes "Frame size   : %u bytes\n") (word frame_size ∷ [])
    ∷ printf (bytes "Total memory : %u KB\n") (word (kilobytes m.total) ∷ [])
    ∷ printf (bytes "Used memory  : %u KB\n") (word (kilobytes m.used) ∷ [])
    ∷ printf (bytes "Free memory  : %u KB\n") (word (kilobytes m.free) ∷ [])
    ∷ puts (bytes "\n")
    ∷ puts_color (bytes "Self-test: Allocating and freeing 100 frames...\n") vga_yellow vga_black
    ∷ ((if ltb m.allocated 100
          then printf (bytes "Failed to allocate frame %d\n") (word m.allocated ∷ []) ∷ []
          else [])
        ++ (printf (bytes "Allocated %d frames. Used frames now: %u\n")
              (word m.allocated ∷ word m.used_after_alloc ∷ [])
            ∷ printf (bytes "Freed %d frames. Used frames now: %u\n")
                (word m.allocated ∷ word m.used_after_free ∷ [])
            ∷ (if m.pass
                then puts_color (bytes "PASS: No memory leaks detected.\n") vga_light_green
                    vga_black
                else puts_color (bytes "FAIL: Memory leak detected!\n") vga_light_red vga_black)
            ∷ puts (bytes "\n")
            ∷ []))

-- The number in a message is a 32-bit word.
abbrev HasWord : Message → Type 0
HasWord (wrote n) = n < 2 ^ 32
HasWord m = Unit

-- What the commands on files print asks for no argument that is not there.
all_fit-file_calls :
    (usage_line name : List ℕ) (m : Message)
    → HasWord m
    → all_fit (file_calls usage_line name m) ≡ true
all_fit-file_calls usage_line name Message.usage h = refl
all_fit-file_calls usage_line name created h = refl
all_fit-file_calls usage_line name not_created h = refl
all_fit-file_calls usage_line name not_found h = refl
all_fit-file_calls usage_line name (shown str) h = refl
all_fit-file_calls usage_line name not_opened h = refl
all_fit-file_calls usage_line name (wrote n) h = ground (arith, h)
all_fit-file_calls usage_line name not_written h = refl
all_fit-file_calls usage_line name removed h = refl
all_fit-file_calls usage_line name not_removed h = refl
