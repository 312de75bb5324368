-- ===== src/Strings/Move.antt =====
-- `memmove` and `strncmp` of kernel/string.c.
use seng21213_os_se.Base.{
  ℕ, zero, suc, ◌+◌, ◌-◌, ◌≤◌, ◌<◌, ◌≡◌, refl, ap, ◌↔◌, true, ◌&&◌, List, [], ◌∷◌, arith, leb, ltb,
  if◌then◌else◌, update, take, Bool-cases, inl, inr,
}
use seng21213_os_se.Strings.{move_up, move_down, memmove, strncmp, is_zero}
use seng21213_os_se.Strings.Laws.{chars}

-- The bytes that a copy of `n` bytes from `s` to `d` leaves.
abbrev moved : (ℕ → ℕ) → ℕ → ℕ → ℕ → ℕ → ℕ
moved mem d s n a = if leb d a && ltb a (d + n) then mem (s + (a - d)) else mem a

move_up-moved : (n : ℕ) (mem : ℕ → ℕ) (d s a : ℕ) → d < s → move_up mem d s n a ≡ moved mem d s n a
unfolding move_up
move_up-moved zero mem d s a lt = ground arith
move_up-moved (suc n) mem d s a lt =
    let ih = move_up-moved n (update mem d (mem s)) (d + 1) (s + 1) a (omega arith) in
    let here : d ≡ a → mem s ≡ mem (s + (a - d)) = λ e. ap mem (omega arith) in
    let later : d < a → mem (s + 1 + (a - (d + 1))) ≡ mem (s + (a - d)) =
      λ l. ap mem (omega arith) in
    ground (arith, ih, here, later)

move_down-moved :
    (n : ℕ) (mem : ℕ → ℕ) (d s a : ℕ) → s ≤ d → move_down mem d s n a ≡ moved mem d s n a
unfolding move_down
move_down-moved zero mem d s a le = ground arith
move_down-moved (suc n) mem d s a le =
    let ih = move_down-moved n (update mem (d + n) (mem (s + n))) d s a le in
    let here : d + n ≡ a → mem (s + n) ≡ mem (s + (a - d)) = λ e. ap mem (omega arith) in
    ground (arith, ih, here)

-- `memmove` leaves in the `n` bytes from `d` on what was in the `n` bytes from `s` on before the
-- call, also where the two overlap, and changes nothing else.
pub memmove_lem :
    (mem : ℕ → ℕ) (d s n a : ℕ)
    → memmove mem d s n a ≡ (if leb d a && ltb a (d + n) then mem (s + (a - d)) else mem a)
unfolding memmove
memmove_lem mem d s n a = elim (Bool-cases (ltb d s)) [
  | inl up ↦ rw up (move_up-moved n mem d s a (ground (arith, up)))
  | inr down ↦ rw down (move_down-moved n mem d s a (ground (arith, down)))
]

-- `strncmp` returns 0 exactly if the first `n` characters before the NUL agree.
pub strncmp-take :
    (n : ℕ) (s t : List ℕ)
    → (is_zero (strncmp s t n) ≡ true) ↔ (take n (chars s) ≡ take n (chars t))
unfolding strncmp
strncmp-take zero s t = (λ e. refl, λ e. refl)
strncmp-take (suc n) [] [] = (λ e. refl, λ e. refl)
strncmp-take (suc n) [] (d ∷ t) = (λ e. ground arith, λ e. ground arith)
strncmp-take (suc n) (c ∷ s) [] = (λ e. ground arith, λ e. ground arith)
strncmp-take (suc n) (c ∷ s) (d ∷ t) =
    let ih = strncmp-take n s t in (λ e. ground (arith, ih.0), λ e. ground (arith, ih.1))
