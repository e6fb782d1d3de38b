-- ===== src/Prelude/Bytes.antt =====
-- Bytes as numbers: shifts and masks in the form that `omega` reads.
use Prim.Native.Nat.{ℕ, ◌/◌, ◌%◌, ◌^◌}

-- A conversion to `unsigned char`.
abbrev pub u8 : ℕ → ℕ
u8 n = n % 256

-- `x >> k`.
abbrev pub shr : ℕ → ℕ → ℕ
shr x k = x / 2 ^ k

-- `x & (2^k - 1)`.
abbrev pub low_bits : ℕ → ℕ → ℕ
low_bits x k = x % 2 ^ k
