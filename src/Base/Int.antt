-- ===== src/Base/Int.antt =====
-- C's `int` results, as integers over the native numbers.
use Prim.Native.Nat.{ℕ, ◌-◌}
use seng21213_os_se.Base.Test.{leb, if◌then◌else◌}

-- `negsuc n` is -(n + 1).
pub data ℤ : Type 0 where
  pos : ℕ → ℤ
  negsuc : ℕ → ℤ

-- a - b, as an integer.
abbrev pub sub_ℕ : ℕ → ℕ → ℤ
sub_ℕ a b = if leb b a then pos (a - b) else negsuc (b - a - 1)

-- The -1 by which the kernel reports a failure.
abbrev pub minus_one : ℤ
minus_one = negsuc 0
