-- ===== src/Prelude/Int.antt =====
-- Signed integers over the native numbers, and the w-bit patterns that stand for them.
use Prim.Native.Nat.{ℕ, suc, ◌+◌, ◌-◌, ◌*◌, ◌^◌}
use mathlib.Core.Bool.{Bool, false}
use pal_panel_host_wine.Prelude.Tests.{ltb, ◌==◌, if◌then◌else◌}

-- `negsuc n` is -(n + 1).
pub data ℤ : Type 0 where
  pos : ℕ → ℤ
  negsuc : ℕ → ℤ

-- The signed number that a bit pattern of 8, 32 or 64 bits stands for.
abbrev pub signed8 : ℕ → ℤ
signed8 w = if ltb w 128 then pos w else negsuc (256 - w - 1)

abbrev pub signed32 : ℕ → ℤ
signed32 w = if ltb w (2 ^ 31) then pos w else negsuc (2 ^ 32 - w - 1)

abbrev pub signed64 : ℕ → ℤ
signed64 w = if ltb w (2 ^ 63) then pos w else negsuc (2 ^ 64 - w - 1)

-- The bit pattern of a signed number.
abbrev pub pattern32 : ℤ → ℕ
pattern32 (pos n) = n
pattern32 (negsuc n) = 2 ^ 32 - suc n

-- `-n` for a negative int32 `n`, where the least int32 is its own negation.
abbrev pub negate_i32 : ℕ → ℤ
negate_i32 k = if k == 2147483647 then negsuc k else pos (suc k)

abbrev pub double : ℤ → ℤ
double (pos n) = pos (n * 2)
double (negsuc n) = negsuc (n * 2 + 1)

-- `n > m` for a limit `m` that is not negative.
abbrev pub above : ℤ → ℕ → Bool
above (pos n) m = ltb m n
above (negsuc n) m = false
