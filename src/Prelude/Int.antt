-- ===== src/Prelude/Int.antt =====
-- Rust's `i64`: an integer, and its two's-complement pattern as a `u64`.
pub mod Checked
use Prim.Native.Nat.{ℕ, ◌-◌, ◌^◌, ◌<◌, compare, Ordering}
use mathlib.Core.Path.{◌≡◌}
use native.Mathlib.Omega.{arith}
use prehnite_db.Prelude.Tests.{ltb, if◌then◌else◌}

-- `negsuc n` is -(n + 1).
pub data ℤ : Type 0 where
  pos : ℕ → ℤ
  negsuc : ℕ → ℤ

abbrev pub IsI64 : ℤ → Type 0
IsI64 (pos n) = n < 2 ^ 63
IsI64 (negsuc n) = n < 2 ^ 63

-- `n as u64`
abbrev pub to_u64 : ℤ → ℕ
to_u64 (pos n) = n
to_u64 (negsuc n) = 2 ^ 64 - 1 - n

-- `v as i64`
abbrev pub from_u64 : ℕ → ℤ
from_u64 v = if ltb v (2 ^ 63) then pos v else negsuc (2 ^ 64 - 1 - v)

abbrev pub compare_ℤ : ℤ → ℤ → Ordering
compare_ℤ (pos a) (pos b) = compare a b
compare_ℤ (pos a) (negsuc b) = Ordering.gt
compare_ℤ (negsuc a) (pos b) = Ordering.lt
compare_ℤ (negsuc a) (negsuc b) = compare b a

pub to_u64-lt : (n : ℤ) → IsI64 n → to_u64 n < 2 ^ 64
to_u64-lt (pos n) h = omega arith
to_u64-lt (negsuc n) h = omega arith

pub from_u64-to_u64 : (n : ℤ) → IsI64 n → from_u64 (to_u64 n) ≡ n
from_u64-to_u64 (pos n) h = ground arith
from_u64-to_u64 (negsuc n) h = ground arith
