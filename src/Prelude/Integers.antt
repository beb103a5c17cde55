-- ===== src/Prelude/Integers.antt =====
-- Integers over the native numbers.
use Prim.Native.Nat.{ℕ, suc, ◌+◌, ◌-◌}
use mathlib.Core.Path.{◌≡◌}
use native.Mathlib.Omega.{arith}
use paasta.Prelude.Tests.{ltb, leb, if◌then◌else◌}

pub data ℤ : Type 0 where
  pos negsuc : ℕ → ℤ

-- z - n
abbrev pub minus : ℤ → ℕ → ℤ
minus (pos a) n = if leb n a then pos (a - n) else negsuc (n - a - 1)
minus (negsuc a) n = negsuc (a + n)

-- z + n
abbrev pub plus : ℤ → ℕ → ℤ
plus (pos a) n = pos (a + n)
plus (negsuc a) n = if ltb a n then pos (n - a - 1) else negsuc (a - n)

-- n + z
abbrev pub shift : ℕ → ℤ → ℤ
shift n (pos a) = pos (n + a)
shift n (negsuc a) = minus (pos n) (suc a)

pub plus-minus : (z : ℤ) (n k : ℕ) → plus (minus z n) (n + k) ≡ plus z k
plus-minus (pos a) n k = ground arith
plus-minus (negsuc a) n k = ground arith
