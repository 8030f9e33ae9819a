-- ===== src/Base/Words.antt =====
-- `size_t` arithmetic, which wraps at 64 bits, division, which faults at zero, and counting up in an `int`.
use Prim.Native.Nat.{ℕ, ◌+◌, ◌-◌, ◌*◌, ◌/◌, ◌%◌, ◌^◌, ◌<◌}
use mathlib.Core.Path.{◌≡◌, refl}
use native.Mathlib.Omega.{arith}
use mathlib.Core.Option.{Option, none, some}
use light_nvm.Base.Tests.{ltb, ◌==◌, if◌then◌else◌, lt→ltb}

abbrev pub add64 : ℕ → ℕ → ℕ
add64 a b = (a + b) % 2 ^ 64

abbrev pub sub64 : ℕ → ℕ → ℕ
sub64 a b = (a + 2 ^ 64 - b) % 2 ^ 64

abbrev pub mul64 : ℕ → ℕ → ℕ
mul64 a b = (a * b) % 2 ^ 64

-- A division by zero is undefined behaviour: `none`.
unfoldable pub div64 : ℕ → ℕ → Option ℕ
div64 a b = if b == 0 then none else some (a / b)

-- `n++` of an `int` that is not negative; an overflow is undefined behaviour: `none`.
unfoldable pub inc_int : ℕ → Option ℕ
inc_int n = if ltb (n + 1) (2 ^ 31) then some (n + 1) else none

pub inc_int-small : (n : ℕ) → n + 1 < 2 ^ 31 → inc_int n ≡ some (n + 1)
unfolding inc_int
inc_int-small n h = rw (lt→ltb (n + 1) (2 ^ 31) h) refl

pub inc_int-bound : (n m : ℕ) → inc_int n ≡ some m → (m ≡ n + 1) × (m < 2 ^ 31)
unfolding inc_int
inc_int-bound n m e = ground arith
