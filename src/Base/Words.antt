-- ===== src/Base/Words.antt =====
-- Unsigned machine words as native numbers, and `to_be_bytes` / `from_be_bytes` of u16 and u32.
use Prim.Native.Nat.{ℕ, ◌+◌, ◌-◌, ◌*◌, ◌/◌, ◌%◌, ◌<◌, min}
use mathlib.Core.Path.{◌≡◌}
use mathlib.Core.List.{List, [], ◌∷◌}
use native.Mathlib.Omega.{arith}
use fin_amor_s_ideal_udp_fiu.Base.Tests.{◌==◌, if◌then◌else◌}

abbrev pub u8_mod : ℕ
u8_mod = 256

abbrev pub u16_mod : ℕ
u16_mod = 65536

abbrev pub u32_mod : ℕ
u32_mod = 4294967296

-- `usize` on a 64-bit target.
abbrev pub usize_mod : ℕ
usize_mod = 18446744073709551616

-- The longest a Rust vector or slice of bytes can be.
abbrev pub isize_max : ℕ
isize_max = 9223372036854775807

abbrev pub Bytes : Type 0
Bytes = List ℕ

-- `usize + usize` as a release build computes it.
abbrev pub add_usize : ℕ → ℕ → ℕ
add_usize a b = (a + b) % usize_mod

-- `usize::saturating_mul`
abbrev pub saturating_mul : ℕ → ℕ → ℕ
saturating_mul a b = min (a * b) (usize_mod - 1)

-- `usize::saturating_sub`: subtraction on the native numbers stops at 0 as well.
abbrev pub saturating_sub : ℕ → ℕ → ℕ
saturating_sub a b = a - b

-- `usize::div_ceil`
abbrev pub div_ceil : ℕ → ℕ → ℕ
div_ceil a b = if a % b == 0 then a / b else a / b + 1

-- `u16::to_be_bytes` and `u32::to_be_bytes`
abbrev pub u16_to_be_bytes : ℕ → Bytes
u16_to_be_bytes v = (v / 256 % 256) ∷ (v % 256) ∷ []

abbrev pub u32_to_be_bytes : ℕ → Bytes
u32_to_be_bytes v = (v / 16777216 % 256) ∷ (v / 65536 % 256) ∷ (v / 256 % 256) ∷ (v % 256) ∷ []

-- The number that a run of bytes stands for, most significant first, continuing from `acc`.
abbrev pub from_be_bytes_onto : ℕ → Bytes → ℕ
from_be_bytes_onto acc [] = acc
from_be_bytes_onto acc (b ∷ bs) = from_be_bytes_onto (acc * 256 + b) bs

abbrev pub from_be_bytes : Bytes → ℕ
from_be_bytes bs = from_be_bytes_onto 0 bs

pub from_be_bytes-u16 : (v : ℕ) → v < u16_mod → from_be_bytes (u16_to_be_bytes v) ≡ v
from_be_bytes-u16 v h = omega arith

pub from_be_bytes-u32 : (v : ℕ) → v < u32_mod → from_be_bytes (u32_to_be_bytes v) ≡ v
from_be_bytes-u32 v h = omega arith
