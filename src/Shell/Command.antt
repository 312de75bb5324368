-- ===== src/Shell/Command.antt =====
-- The dispatch of `shell_run` in kernel/kernel.c: from a line to the command that it calls, and
-- back.
use Prim.Native.String.{String}
use seng21213_os_se.Base.{
  ℕ, zero, suc, ◌≡◌, refl, ap, Bool, true, false, not, List, [], ◌∷◌, ◌++◌, ◌==◌, if◌then◌else◌,
  drop, arith, replicate,
}
use seng21213_os_se.Strings.{is_zero}
use seng21213_os_se.Shell.{codes, k_strcmp, k_strncmp, k_strlen, k_ltrim}

-- The `cmd_` function that is called, with its argument. `empty` is the line that is skipped.
pub data Command : Type 0 where
  empty : Command
  help clear about version mem halt ps threads race mutexdemo semdemo threadlist meminfo ls
        fsstats :
      Command
  echo : List ℕ → Command
  colour : List ℕ → Command
  kill : List ℕ → Command
  touch : List ℕ → Command
  cat : List ℕ → Command
  write : List ℕ → Command
  rm : List ℕ → Command
  unknown : List ℕ → Command

abbrev pub is_word : List ℕ → String → Bool
is_word cmd w = is_zero (k_strcmp cmd (codes w))

abbrev pub has_prefix : List ℕ → String → ℕ → Bool
has_prefix cmd w n = is_zero (k_strncmp cmd (codes w) n)

-- One round of the loop of `shell_run`, from the line that was read to the call.
unfoldable pub dispatch : List ℕ → Command
unfolding k_ltrim
dispatch shell_buf =
    let cmd = k_ltrim shell_buf in
    if k_strlen cmd == 0
    then empty
    else if is_word cmd "help"
    then help
    else if is_word cmd "clear"
    then clear
    else if is_word cmd "about"
    then about
    else if is_word cmd "version"
    then version
    else if is_word cmd "mem"
    then mem
    else if is_word cmd "halt"
    then halt
    else if has_prefix cmd "echo " 5
    then echo (k_ltrim (drop 5 cmd))
    else if has_prefix cmd "colour " 7
    then colour (k_ltrim (drop 7 cmd))
    else if is_word cmd "colour"
    then colour []
    else if is_word cmd "ps"
    then ps
    else if has_prefix cmd "kill " 5
    then kill (k_ltrim (drop 5 cmd))
    else if is_word cmd "kill"
    then kill []
    else if is_word cmd "threads"
    then threads
    else if is_word cmd "race"
    then race
    else if is_word cmd "mutexdemo"
    then mutexdemo
    else if is_word cmd "semdemo"
    then semdemo
    else if is_word cmd "threadlist"
    then threadlist
    else if is_word cmd "meminfo"
    then meminfo
    else if is_word cmd "ls"
    then ls
    else if has_prefix cmd "touch " 6
    then touch (k_ltrim (drop 6 cmd))
    else if is_word cmd "touch"
    then touch []
    else if has_prefix cmd "cat " 4
    then cat (k_ltrim (drop 4 cmd))
    else if is_word cmd "cat"
    then cat []
    else if has_prefix cmd "write " 6
    then write (k_ltrim (drop 6 cmd))
    else if is_word cmd "write"
    then write []
    else if has_prefix cmd "rm " 3
    then rm (k_ltrim (drop 3 cmd))
    else if is_word cmd "rm"
    then rm []
    else if is_word cmd "fsstats"
    then fsstats
    else unknown cmd

-- A text that does not begin with a space.
abbrev pub is_trimmed : List ℕ → Bool
is_trimmed [] = true
is_trimmed (c ∷ s) = not (c == 32)

-- The line that calls a command.
abbrev pub render : Command → List ℕ
render empty = []
render (unknown line) = line
render help = codes "help"
render clear = codes "clear"
render about = codes "about"
render version = codes "version"
render mem = codes "mem"
render halt = codes "halt"
render ps = codes "ps"
render threads = codes "threads"
render race = codes "race"
render mutexdemo = codes "mutexdemo"
render semdemo = codes "semdemo"
render threadlist = codes "threadlist"
render meminfo = codes "meminfo"
render ls = codes "ls"
render fsstats = codes "fsstats"
render (echo args) = codes "echo " ++ args
render (colour args) = codes "colour " ++ args
render (kill args) = codes "kill " ++ args
render (touch args) = codes "touch " ++ args
render (cat args) = codes "cat " ++ args
render (write args) = codes "write " ++ args
render (rm args) = codes "rm " ++ args

-- A command that some line calls, with an argument that does not begin with a space.
abbrev pub is_command : Command → Bool
is_command empty = true
is_command (unknown line) = false
is_command (echo args) = is_trimmed args
is_command (colour args) = is_trimmed args
is_command (kill args) = is_trimmed args
is_command (touch args) = is_trimmed args
is_command (cat args) = is_trimmed args
is_command (write args) = is_trimmed args
is_command (rm args) = is_trimmed args
is_command help = true
is_command clear = true
is_command about = true
is_command version = true
is_command mem = true
is_command halt = true
is_command ps = true
is_command threads = true
is_command race = true
is_command mutexdemo = true
is_command semdemo = true
is_command threadlist = true
is_command meminfo = true
is_command ls = true
is_command fsstats = true

k_ltrim-is_trimmed : (s : List ℕ) → is_trimmed s ≡ true → k_ltrim s ≡ s
unfolding k_ltrim
k_ltrim-is_trimmed [] h = refl
k_ltrim-is_trimmed (c ∷ s) h = ground arith

k_ltrim-spaces : (n : ℕ) (s : List ℕ) → is_trimmed s ≡ true → k_ltrim (replicate n 32 ++ s) ≡ s
unfolding k_ltrim
k_ltrim-spaces zero s h = k_ltrim-is_trimmed s h
k_ltrim-spaces (suc n) s h = k_ltrim-spaces n s h

abbrev starts_text : String → Bool
starts_text w = not (k_strlen (codes w) == 0)

length_some :
    (w : String) (s : List ℕ) → starts_text w ≡ true → (k_strlen (codes w ++ s) == 0) ≡ false
unfolding k_strlen
length_some w s h = length_front (codes w) s h
  where
    length_front : (u s : List ℕ) → not (k_strlen u == 0) ≡ true → (k_strlen (u ++ s) == 0) ≡ false
    length_front [] s h = ground arith
    length_front (c ∷ u) s h = ground arith

-- Behind any number of spaces, the line of each command is read as that command, with its argument;
-- an argument does not begin with a space.
pub dispatch-render :
    (n : ℕ) (c : Command) → is_command c ≡ true → dispatch (replicate n 32 ++ render c) ≡ c
unfolding dispatch k_strcmp k_strncmp k_strlen
dispatch-render n empty h = rw (k_ltrim-spaces n [] refl) refl
dispatch-render n (unknown line) h = absurd (ground arith)
dispatch-render n help h = rw (k_ltrim-spaces n (codes "help") refl) refl
dispatch-render n clear h = rw (k_ltrim-spaces n (codes "clear") refl) refl
dispatch-render n about h = rw (k_ltrim-spaces n (codes "about") refl) refl
dispatch-render n version h = rw (k_ltrim-spaces n (codes "version") refl) refl
dispatch-render n mem h = rw (k_ltrim-spaces n (codes "mem") refl) refl
dispatch-render n halt h = rw (k_ltrim-spaces n (codes "halt") refl) refl
dispatch-render n ps h = rw (k_ltrim-spaces n (codes "ps") refl) refl
dispatch-render n threads h = rw (k_ltrim-spaces n (codes "threads") refl) refl
dispatch-render n race h = rw (k_ltrim-spaces n (codes "race") refl) refl
dispatch-render n mutexdemo h = rw (k_ltrim-spaces n (codes "mutexdemo") refl) refl
dispatch-render n semdemo h = rw (k_ltrim-spaces n (codes "semdemo") refl) refl
dispatch-render n threadlist h = rw (k_ltrim-spaces n (codes "threadlist") refl) refl
dispatch-render n meminfo h = rw (k_ltrim-spaces n (codes "meminfo") refl) refl
dispatch-render n ls h = rw (k_ltrim-spaces n (codes "ls") refl) refl
dispatch-render n fsstats h = rw (k_ltrim-spaces n (codes "fsstats") refl) refl
dispatch-render n (echo args) h =
    rw (k_ltrim-spaces n (codes "echo " ++ args) refl, length_some "echo " args refl)
      (ap echo (k_ltrim-is_trimmed args h))
dispatch-render n (colour args) h =
    rw (k_ltrim-spaces n (codes "colour " ++ args) refl, length_some "colour " args refl)
      (ap colour (k_ltrim-is_trimmed args h))
dispatch-render n (kill args) h =
    rw (k_ltrim-spaces n (codes "kill " ++ args) refl, length_some "kill " args refl)
      (ap kill (k_ltrim-is_trimmed args h))
dispatch-render n (touch args) h =
    rw (k_ltrim-spaces n (codes "touch " ++ args) refl, length_some "touch " args refl)
      (ap touch (k_ltrim-is_trimmed args h))
dispatch-render n (cat args) h =
    rw (k_ltrim-spaces n (codes "cat " ++ args) refl, length_some "cat " args refl)
      (ap cat (k_ltrim-is_trimmed args h))
dispatch-render n (write args) h =
    rw (k_ltrim-spaces n (codes "write " ++ args) refl, length_some "write " args refl)
      (ap write (k_ltrim-is_trimmed args h))
dispatch-render n (rm args) h =
    rw (k_ltrim-spaces n (codes "rm " ++ args) refl, length_some "rm " args refl)
      (ap rm (k_ltrim-is_trimmed args h))
