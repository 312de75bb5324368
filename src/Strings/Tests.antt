-- ===== src/Strings/Tests.antt =====
-- The string routines on concrete arguments.
use seng21213_os_se.Base.{ℕ, ◌+◌, ◌-◌, ◌≡◌, ◌&&◌, List, [], ◌∷◌, if◌then◌else◌, leb, ltb}
use seng21213_os_se.Strings.{memmove}
use seng21213_os_se.Strings.Move.{memmove_lem}

-- "ab", in a buffer with a byte behind the NUL.
abbrev ab : List ℕ
ab = 97 ∷ 98 ∷ 0 ∷ 5 ∷ []

memmove_lem_example :
    memmove (λ i. i) 4 2 3 5 ≡ (if leb 4 5 && ltb 5 (4 + 3) then 2 + (5 - 4) else 5)
memmove_lem_example = memmove_lem (λ i. i) 4 2 3 5
