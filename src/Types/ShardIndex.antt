-- ===== src/Types/ShardIndex.antt =====
-- src/types.rs, `ShardIndex`: the zero-based index of a shard within a session, a `u16`, big-endian on the wire.
use fin_amor_s_ideal_udp_fiu.Base.{ℕ, ◌<◌, String, Bytes, u16_mod, u16_to_be_bytes, decimal}

pub record ShardIndex : Type 0 where
  pub value : ℕ

-- What the Rust type guarantees.
abbrev pub IsU16 : ShardIndex → Type 0
IsU16 x = x.value < u16_mod

abbrev pub new : ℕ → ShardIndex
new v = record { value = v }

abbrev pub as_u16 : ShardIndex → ℕ
as_u16 x = x.value

abbrev pub to_be_bytes : ShardIndex → Bytes
to_be_bytes x = u16_to_be_bytes x.value

-- `Display`
unfoldable pub display : ShardIndex → String
unfolding decimal
display x = decimal x.value

-- `From<u16>`
abbrev pub from_u16 : ℕ → ShardIndex
from_u16 v = record { value = v }

-- `From<ShardIndex> for u16`
abbrev pub into_u16 : ShardIndex → ℕ
into_u16 x = x.value
