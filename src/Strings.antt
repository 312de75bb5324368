-- ===== src/Strings.antt =====
-- The routines of kernel/string.c. A string is the list of the bytes from
-- its pointer on; what lies behind the list is read as NUL. A destination is a list of the size of
-- its buffer, or memory by address.
pub mod Laws
pub mod Move
mod Tests
use seng21213_os_se.Base.{
  ℕ, zero, suc, ◌+◌, Bool, true, false, not, ◌&&◌, List, [], ◌∷◌, ◌==◌, if◌then◌else◌, update, ℤ,
  pos, negsuc, sub_ℕ, ◌%◌, ltb, Option, none, some, Ptr, ◌>>=◌,
}

unfoldable pub strlen : List ℕ → ℕ
strlen [] = 0
strlen (c ∷ s) = let rest = strlen s in if c == 0 then 0 else suc rest

unfoldable pub strcmp : List ℕ → List ℕ → ℤ
strcmp [] [] = pos 0
strcmp [] (d ∷ t) = sub_ℕ 0 d
strcmp (c ∷ s) [] = sub_ℕ c 0
strcmp (c ∷ s) (d ∷ t) =
    let rest = strcmp s t in if not (c == 0) && (c == d) then rest else sub_ℕ c d

-- `while (n--) *d++ = '\0';`
unfoldable pub pad : ℕ → List ℕ → List ℕ
pad zero dest = dest
pad (suc n) [] = []
pad (suc n) (d ∷ dest) = 0 ∷ pad n dest

unfoldable pub strncpy : List ℕ → List ℕ → ℕ → List ℕ
unfolding pad
strncpy dest src zero = dest
strncpy [] src (suc n) = []
strncpy (d ∷ dest) [] (suc n) = pad (suc n) (d ∷ dest)
strncpy (d ∷ dest) (c ∷ src) (suc n) =
    let rest = strncpy dest src n in if c == 0 then pad (suc n) (d ∷ dest) else c ∷ rest

-- Copying `n` bytes from address `s` of one memory to address `d` of another, lowest first.
unfoldable pub memcpy : (ℕ → ℕ) → ℕ → (ℕ → ℕ) → ℕ → ℕ → ℕ → ℕ
memcpy dest d src s zero = dest
memcpy dest d src s (suc n) = memcpy (update dest d (src s)) (d + 1) src (s + 1) n

abbrev pub is_zero : ℤ → Bool
is_zero (pos zero) = true
is_zero (pos (suc n)) = false
is_zero (negsuc n) = false

-- `n` bytes from address `p` on.
unfoldable pub memset : (ℕ → ℕ) → ℕ → ℕ → ℕ → ℕ → ℕ
memset mem p c zero = mem
memset mem p c (suc n) = memset (update mem p (c % 256)) (p + 1) c n

-- The two loops of `memmove`, over one memory.
unfoldable pub move_up : (ℕ → ℕ) → ℕ → ℕ → ℕ → ℕ → ℕ
move_up mem d s zero = mem
move_up mem d s (suc n) = move_up (update mem d (mem s)) (d + 1) (s + 1) n

unfoldable pub move_down : (ℕ → ℕ) → ℕ → ℕ → ℕ → ℕ → ℕ
move_down mem d s zero = mem
move_down mem d s (suc n) = move_down (update mem (d + n) (mem (s + n))) d s n

unfoldable pub memmove : (ℕ → ℕ) → ℕ → ℕ → ℕ → ℕ → ℕ
memmove mem d s n = if ltb d s then move_up mem d s n else move_down mem d s n

unfoldable pub memcmp : (ℕ → ℕ) → ℕ → ℕ → ℕ → ℤ
memcmp mem p q zero = pos 0
memcmp mem p q (suc n) =
    let rest = memcmp mem (p + 1) (q + 1) n in
    if not (mem p == mem q) then sub_ℕ (mem p) (mem q) else rest

-- `strcpy` into memory.
unfoldable pub strcpy : (ℕ → ℕ) → ℕ → List ℕ → ℕ → ℕ
strcpy mem d [] = update mem d 0
strcpy mem d (c ∷ src) =
    let rest = strcpy (update mem d c) (d + 1) src in if c == 0 then update mem d 0 else rest

unfoldable pub strncmp : List ℕ → List ℕ → ℕ → ℤ
strncmp s t zero = pos 0
strncmp [] [] (suc n) = pos 0
strncmp [] (d ∷ t) (suc n) = sub_ℕ 0 d
strncmp (c ∷ s) [] (suc n) = sub_ℕ c 0
strncmp (c ∷ s) (d ∷ t) (suc n) =
    let rest = strncmp s t n in if not (c == 0) && (c == d) then rest else sub_ℕ c d

-- The offset of the first byte `c` of a string, its NUL included; `none` is NULL. `c` is a `char`.
unfoldable pub strchr : List ℕ → ℕ → Ptr
strchr [] c = if c == 0 then some 0 else none
strchr (d ∷ s) c =
    let rest = strchr s c >>= λ i. some (suc i) in
    if d == 0 then (if c == 0 then some 0 else none) else if d == c then some 0 else rest

-- The loop of `strrchr`: the offset of the NUL and the last match, from offset `i` on.
unfoldable pub last_match : List ℕ → ℕ → ℕ → Ptr → ℕ × Ptr
last_match [] c i last = (i, last)
last_match (d ∷ s) c i last =
    let rest = last_match s c (i + 1) (if d == c then some i else last) in
    if d == 0 then (i, last) else rest

unfoldable pub strrchr : List ℕ → ℕ → Ptr
unfolding last_match
strrchr s c = let r = last_match s c 0 none in if c == 0 then some r.0 else r.1
