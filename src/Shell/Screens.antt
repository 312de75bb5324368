-- ===== src/Shell/Screens.antt =====
-- The commands of kernel/kernel.c that only print, as the calls that they make. The compiler's
-- date, time and version are parameters.
pub mod Colour
pub mod Splash
mod Tests
use seng21213_os_se.Base.{ℕ, ◌+◌, ◌/◌, ◌%◌, List, [], ◌∷◌, ◌++◌, ltb, if◌then◌else◌}
use seng21213_os_se.Vga.Color.{
  vga_black, vga_light_green, vga_light_cyan, vga_light_red, vga_yellow,
}
use seng21213_os_se.Vga.Text.{bytes}
use seng21213_os_se.Vga.Output.{Call, puts, puts_color}

unfoldable pub cmd_help : List Call
cmd_help =
    puts_color (bytes "\n  SENG21213-OS Shell Commands\n") vga_yellow vga_black
    ∷ puts (
        bytes
          "  ---------------------------------------------\n  help          Show this help message\n  clear         Clear the screen\n  about         About this OS and course\n  echo <text>   Echo text to screen\n  version       Show kernel version\n  colour <fg> <bg>  Change text colour\n  halt          Halt the CPU\n  mem           Memory map (stub)\n\n")
    ∷ puts_color (bytes "  Stage 1 - Process Management\n") vga_light_cyan vga_black
    ∷ puts (
        bytes
          "  ps            List processes and CPU ticks\n  kill <pid>    Terminate a process\n\n")
    ∷ puts_color (bytes "  Stage 2 - Threads & Synchronization\n") vga_light_cyan vga_black
    ∷ puts (
        bytes
          "  threads       Create and run kernel thread demo\n  threadlist    Show the thread table\n  race          Demonstrate race condition (no mutex)\n  mutexdemo     Demonstrate mutex-protected critical section\n  semdemo       Producer/consumer with semaphores\n\n")
    ∷ puts_color (bytes "  Stage 3 - Physical Memory Manager\n") vga_light_cyan vga_black
    ∷ puts (bytes "  meminfo       Show physical memory statistics\n\n")
    ∷ puts_color (bytes "  Stage 4 - RAM Disk File System\n") vga_light_cyan vga_black
    ∷ puts (
        bytes
          "  ls            List files in the file system\n  touch <name>  Create an empty file\n  cat <name>    Display file contents\n  write <name> <text>  Write text to a file\n  rm <name>     Remove a file\n  fsstats       Show file system statistics\n")
    ∷ []

unfoldable pub cmd_about : List Call
cmd_about =
    puts_color (bytes "\n  About SENG21213-OS\n") vga_light_cyan vga_black
    ∷ puts (bytes "  ---------------------------------------------\n")
    ∷ puts (bytes "  Architecture : x86 (i686), 32-bit Protected Mode\n")
    ∷ puts (bytes "  Bootloader   : Custom MBR (NASM)\n")
    ∷ puts (bytes "  Kernel       : Freestanding C (GCC, no libc)\n")
    ∷ puts (bytes "  VM Target    : QEMU (qemu-system-i386)\n")
    ∷ puts (bytes "  Course       : SENG 21213 – Sem 2\n")
    ∷ puts (bytes "  Reference    : Stallings, OS: Internals & Design Principles\n\n")
    ∷ []

unfoldable pub cmd_echo : List ℕ → List Call
cmd_echo args = puts (bytes "  ") ∷ puts args ∷ puts (bytes "\n") ∷ []

unfoldable pub cmd_mem : List Call
cmd_mem =
    puts_color (bytes "\n  Memory Map (stub – implement PMM in Lecture 11)\n") vga_light_cyan
      vga_black
    ∷ puts (bytes "  ---------------------------------------------\n")
    ∷ puts (bytes "  0x00000000 – 0x000FFFFF  :  First 1 MB (reserved/BIOS)\n")
    ∷ puts (bytes "  0x00100000 – 0x00EFFFFF  :  Extended memory (usable ~14 MB)\n")
    ∷ puts (bytes "  0x00F00000 – 0x00FFFFFF  :  BIOS / ROM area\n")
    ∷ puts (bytes "  0xB8000    – 0xBFFFF     :  VGA frame buffer\n")
    ∷ puts_color (bytes "\n  TODO: Use BIOS int 0x15, EAX=0xE820 to get real memory map\n\n")
        vga_yellow vga_black
    ∷ []

-- `__DATE__`, `__TIME__` and `__VERSION__`.
unfoldable pub cmd_version : (date time version : List ℕ) → List Call
cmd_version date time version =
    puts_color (bytes "\n  SENG21213-OS Version\n") vga_light_cyan vga_black
    ∷ puts (bytes "  ---------------------------------------------\n")
    ∷ puts (bytes "  Stage 4: RAM Disk File System\n")
    ∷ puts (bytes "  Version: 0.5.0\n")
    ∷ puts (bytes "  Build Date: " ++ (date ++ (bytes " " ++ (time ++ bytes "\n"))))
    ∷ puts (bytes "  Compiler: GCC " ++ (version ++ bytes "\n"))
    ∷ puts (bytes "  Architecture: x86 (i686) 32-bit Protected Mode\n")
    ∷ puts (bytes "  Target: qemu-system-i386\n\n")
    ∷ []

-- Up to `cli` and `hlt`.
unfoldable pub cmd_halt : List Call
cmd_halt =
    puts_color (bytes "\n  Halting CPU...\n") vga_yellow vga_black
    ∷ puts (bytes "  Press Ctrl+Alt+Del or reset QEMU to restart.\n\n")
    ∷ []

-- The usage of `cmd_colour`.
unfoldable pub usage_colour : List Call
usage_colour =
    puts_color (bytes "  Usage: colour <fg> <bg>\n") vga_yellow vga_black
    ∷ puts (bytes "  fg: 0-15 (foreground), bg: 0-15 (background)\n")
    ∷ puts (bytes "  0=black, 1=blue, 2=green, 3=cyan, 4=red, 5=magenta\n")
    ∷ puts (bytes "  6=brown, 7=light grey, 8=dark grey, 9=light blue\n")
    ∷ puts (bytes "  10=light green, 11=light cyan, 12=light red\n")
    ∷ puts (bytes "  13=light magenta, 14=yellow, 15=white\n\n")
    ∷ []

-- Before the loop of `shell_run`.
unfoldable pub shell_ready : List Call
shell_ready =
    puts_color (bytes "\n  Kernel Shell ready. Type 'help' for commands.\n") vga_light_green
      vga_black
    ∷ []

unfoldable pub shell_prompt : List Call
shell_prompt = puts_color (bytes "\n  ksh> ") vga_light_green vga_black ∷ []

-- The end of the loop of `shell_run`.
unfoldable pub unknown_command : List ℕ → List Call
unknown_command cmd =
    puts_color (bytes "  Unknown command: ") vga_light_red vga_black
    ∷ puts cmd
    ∷ puts (bytes "\n  Type 'help' for a list of commands.\n")
    ∷ []
