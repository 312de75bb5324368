-- ===== src/Strings/Laws.antt =====
-- What the string routines compute, in terms of the characters before the NUL.
use seng21213_os_se.Base.{
  ℕ, zero, suc, ◌+◌, ◌-◌, ◌<◌, ◌≡◌, refl, ap, ◌↔◌, true, ◌&&◌, List, [], ◌∷◌, arith, ◌==◌, leb, ltb,
  if◌then◌else◌, update, length,
}
use seng21213_os_se.Strings.{strlen, strcmp, memcpy, is_zero}

-- The characters before the NUL.
abbrev pub chars : List ℕ → List ℕ
chars [] = []
chars (c ∷ s) = let rest = chars s in if c == 0 then [] else c ∷ rest

pub strlen-chars : (s : List ℕ) → strlen s ≡ length (chars s)
unfolding strlen
strlen-chars [] = refl
strlen-chars (c ∷ s) = ground (arith, strlen-chars s)

-- `strcmp` returns 0 exactly if the two strings have the same characters before the NUL.
pub strcmp-chars : (s t : List ℕ) → (is_zero (strcmp s t) ≡ true) ↔ (chars s ≡ chars t)
unfolding strcmp
strcmp-chars [] [] = (λ e. refl, λ e. refl)
strcmp-chars [] (d ∷ t) = (λ e. ground arith, λ e. ground arith)
strcmp-chars (c ∷ s) [] = (λ e. ground arith, λ e. ground arith)
strcmp-chars (c ∷ s) (d ∷ t) =
    let ih = strcmp-chars s t in (λ e. ground (arith, ih.0), λ e. ground (arith, ih.1))

-- `memcpy` writes exactly the `n` bytes from `d` on, each from its place in the source, which the
-- copying does not change.
pub memcpy_lem :
    (dest : ℕ → ℕ) (d : ℕ) (src : ℕ → ℕ) (s n a : ℕ)
    → memcpy dest d src s n a ≡ (if leb d a && ltb a (d + n) then src (s + (a - d)) else dest a)
unfolding memcpy
memcpy_lem dest d src s zero a = ground arith
memcpy_lem dest d src s (suc n) a =
    let ih = memcpy_lem (update dest d (src s)) (d + 1) src (s + 1) n a in
    let here : d ≡ a → src s ≡ src (s + (a - d)) = λ e. ap src (omega arith) in
    let later : d < a → src (s + 1 + (a - (d + 1))) ≡ src (s + (a - d)) =
      λ l. ap src (omega arith) in
    ground (arith, ih, here, later)
