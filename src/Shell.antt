-- ===== src/Shell.antt =====
-- kernel/kernel.c: the helpers on text of the shell, and how it reads a command line. A string is
-- the list of its characters; what lies behind the list is read as NUL.
pub mod Command
pub mod Number
pub mod Args
pub mod Kill
pub mod Memory
pub mod Files
pub mod Counting
pub mod Buffer
pub mod Race
pub mod Screens
pub mod Demos
pub mod Replies
mod Tests
use Prim.Native.Char.{code}
use Prim.Native.String.{String}
use seng21213_os_se.Base.{
  ℕ, zero, suc, ◌+◌, ◌-◌, ◌*◌, ◌%◌, ◌^◌, Bool, true, false, not, ◌&&◌, ◌||◌, List, [], ◌∷◌, Option,
  none, some, ◌==◌, ltb, leb, if◌then◌else◌, ℤ, pos, negsuc, sub_ℕ, ◌>>=◌,
}

-- The characters of a text.
abbrev pub codes : String → List ℕ
codes String.[] = []
codes (String.◌∷◌ c s) = code c ∷ codes s

unfoldable pub k_strcmp : List ℕ → List ℕ → ℤ
k_strcmp [] [] = pos 0
k_strcmp [] (d ∷ b) = sub_ℕ 0 d
k_strcmp (c ∷ a) [] = sub_ℕ c 0
k_strcmp (c ∷ a) (d ∷ b) =
    let rest = k_strcmp a b in if not (c == 0) && (c == d) then rest else sub_ℕ c d

-- The loop leaves `n` at -1 only if it has counted all of `n` down.
unfoldable pub k_strncmp : List ℕ → List ℕ → ℕ → ℤ
k_strncmp a b zero = pos 0
k_strncmp [] [] (suc n) = pos 0
k_strncmp [] (d ∷ b) (suc n) = sub_ℕ 0 d
k_strncmp (c ∷ a) [] (suc n) = sub_ℕ c 0
k_strncmp (c ∷ a) (d ∷ b) (suc n) =
    let rest = k_strncmp a b n in if not (c == 0) && (c == d) then rest else sub_ℕ c d

unfoldable pub k_strlen : List ℕ → ℕ
k_strlen [] = 0
k_strlen (c ∷ s) = let rest = k_strlen s in if c == 0 then 0 else suc rest

unfoldable pub k_ltrim : List ℕ → List ℕ
k_ltrim [] = []
k_ltrim (c ∷ s) = let rest = k_ltrim s in if c == 32 then rest else c ∷ s

abbrev pub is_decimal : ℕ → Bool
is_decimal c = leb 48 c && leb c 57

-- The loop of `k_atoi`. A number that does not fit an `int` overflows it, which is undefined in C:
-- that is `none`.
unfoldable pub atoi_loop : ℕ → List ℕ → Option ℕ
atoi_loop result [] = some result
atoi_loop result (c ∷ s) =
    let next = result * 10 + (c - 48) in
    let rest = atoi_loop next s in
    if is_decimal c then if ltb next (2 ^ 31) then rest else none else some result

unfoldable pub k_atoi : List ℕ → Option ℕ
k_atoi s = atoi_loop 0 s

-- `while (*s >= '0' && *s <= '9') s++;`
unfoldable pub skip_digits : List ℕ → List ℕ
skip_digits [] = []
skip_digits (c ∷ s) = let rest = skip_digits s in if is_decimal c then rest else c ∷ s

abbrev pub starts_number : List ℕ → Bool
starts_number [] = false
starts_number (c ∷ s) = is_decimal c

-- The two numbers, or `some none` for the result 0; `none` is an overflow.
unfoldable pub parse_two_ints : List ℕ → Option (Option (ℕ × ℕ))
unfolding k_ltrim k_atoi skip_digits
parse_two_ints s =
    let first = k_ltrim s in
    let second = k_ltrim (skip_digits first) in
    if not (starts_number first) then some none else do
      a ← k_atoi first
      (if not (starts_number second) then some none else do b ← k_atoi second; some (some (a, b)))
