-- ===== src/Prelude/Integers.antt =====
-- Signed 64-bit integers as far as the program uses them: casts and an upper bound.
use Prim.Native.Nat.{ℕ, ◌-◌, ◌^◌, min}
use be_in_crypto_social_api.Prelude.Tests.{ltb, if◌then◌else◌}

-- `negsuc n` is -(n + 1).
pub data ℤ : Type 0 where
  pos : ℕ → ℤ
  negsuc : ℕ → ℤ

-- `i.min(bound)` at a bound that is not negative.
abbrev pub min_ℕ : ℤ → ℕ → ℤ
min_ℕ (pos n) bound = pos (min n bound)
min_ℕ (negsuc n) bound = negsuc n

-- `u as i64` of a 64-bit number: the upper half of the range is read as negative.
unfoldable pub as_i64 : ℕ → ℤ
as_i64 u = if ltb u (2 ^ 63) then pos u else negsuc (2 ^ 64 - 1 - u)

-- `i as u64`
unfoldable pub as_u64 : ℤ → ℕ
as_u64 (pos n) = n
as_u64 (negsuc n) = 2 ^ 64 - 1 - n
