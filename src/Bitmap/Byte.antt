-- ===== src/Bitmap/Byte.antt =====
-- The laws of the bits of one byte, checked on every byte and every pair of bits.
use seng21213_os_se.Base.{
  ℕ, zero, suc, ◌<◌, ◌≡◌, refl, Bool, true, false, not, arith, ◌==◌, if◌then◌else◌,
}
use seng21213_os_se.Bitmap.{test_bit, set_bit, clear_bit}

-- Whether a test holds of the first `n` numbers.
passes : (ℕ → Bool) → ℕ → Bool
passes test zero = true
passes test (suc n) = let rest = passes test n in if test n then rest else false

passes-lt : (test : ℕ → Bool) (n : ℕ) → passes test n ≡ true → (k : ℕ) → k < n → test k ≡ true
unfolding passes
passes-lt test zero ok k lt = absurd (omega arith)
passes-lt test (suc n) ok k lt =
    let below : passes test n ≡ true → k < n → test k ≡ true = λ o l. passes-lt test n o k l in
    ground (arith, below)

abbrev same_bool : Bool → Bool → Bool
same_bool true b = b
same_bool false b = not b

same_bool_eq : (a b : Bool) → same_bool a b ≡ true → a ≡ b
same_bool_eq a b h = ground arith

abbrev everywhere : (ℕ → ℕ → ℕ → Bool) → Bool
everywhere p = passes (λ x. passes (λ k. passes (λ j. p x k j) 8) 8) 256

everywhere_sound :
    (p : ℕ → ℕ → ℕ → Bool) (x k j : ℕ)
    → everywhere p ≡ true
    → x < 256
    → k < 8
    → j < 8
    → p x k j ≡ true
everywhere_sound p x k j h hx hk hj =
    passes-lt _ 8 (passes-lt _ 8 (passes-lt _ 256 h x hx) k hk) j hj

abbrev set_law : ℕ → ℕ → ℕ → Bool
set_law x k j = same_bool (test_bit (set_bit x k) j) (if k == j then true else test_bit x j)

abbrev clear_law : ℕ → ℕ → ℕ → Bool
clear_law x k j = same_bool (test_bit (clear_bit x k) j) (if k == j then false else test_bit x j)

set_table : everywhere set_law ≡ true
unfolding passes test_bit set_bit
set_table = refl

clear_table : everywhere clear_law ≡ true
unfolding passes test_bit clear_bit
clear_table = refl

pub test_bit-set_bit :
    (x k j : ℕ)
    → x < 256
    → k < 8
    → j < 8
    → test_bit (set_bit x k) j ≡ (if k == j then true else test_bit x j)
test_bit-set_bit x k j hx hk hj =
    same_bool_eq _ _ (everywhere_sound set_law x k j set_table hx hk hj)

pub test_bit-clear_bit :
    (x k j : ℕ)
    → x < 256
    → k < 8
    → j < 8
    → test_bit (clear_bit x k) j ≡ (if k == j then false else test_bit x j)
test_bit-clear_bit x k j hx hk hj =
    same_bool_eq _ _ (everywhere_sound clear_law x k j clear_table hx hk hj)

full_table : passes (test_bit 0xff) 8 ≡ true
unfolding passes test_bit
full_table = refl

pub full_byte : (j : ℕ) → j < 8 → test_bit 0xff j ≡ true
full_byte j h = passes-lt (test_bit 0xff) 8 full_table j h

empty_table : passes (λ k. not (test_bit 0 k)) 8 ≡ true
unfolding passes test_bit
empty_table = refl

pub empty_byte : (j : ℕ) → j < 8 → test_bit 0 j ≡ false
empty_byte j h = ground (arith, passes-lt (λ k. not (test_bit 0 k)) 8 empty_table j h)
