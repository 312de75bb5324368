-- ===== src/Vga/Text.antt =====
-- The string literals of the source, as the compiler stores them.
use Prim.Native.Char.{code}
use Prim.Native.String.{String}
use seng21213_os_se.Base.{ℕ, ◌+◌, ◌/◌, ◌%◌, List, [], ◌∷◌, ◌++◌, ltb, if◌then◌else◌}

-- The bytes of a character of at most 16 bits in UTF-8.
abbrev encode : ℕ → List ℕ
encode n =
    if ltb n 0x80
    then n ∷ []
    else if ltb n 0x800
    then (0xC0 + n / 64) ∷ (0x80 + n % 64) ∷ []
    else (0xE0 + n / 4096) ∷ (0x80 + n / 64 % 64) ∷ (0x80 + n % 64) ∷ []

abbrev pub bytes : String → List ℕ
bytes String.[] = []
bytes (String.◌∷◌ c s) = encode (code c) ++ bytes s
