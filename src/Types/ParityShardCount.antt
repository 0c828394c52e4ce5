-- ===== src/Types/ParityShardCount.antt =====
-- src/types.rs, `ParityShardCount`: the number of parity shards of a session, a `u16`, big-endian on the wire.
use fin_amor_s_ideal_udp_fiu.Base.{ℕ, ◌<◌, String, Bytes, u16_mod, u16_to_be_bytes, decimal}

pub record ParityShardCount : Type 0 where
  pub value : ℕ

-- What the Rust type guarantees.
abbrev pub IsU16 : ParityShardCount → Type 0
IsU16 x = x.value < u16_mod

abbrev pub new : ℕ → ParityShardCount
new v = record { value = v }

abbrev pub as_u16 : ParityShardCount → ℕ
as_u16 x = x.value

abbrev pub to_be_bytes : ParityShardCount → Bytes
to_be_bytes x = u16_to_be_bytes x.value

-- `Display`
unfoldable pub display : ParityShardCount → String
unfolding decimal
display x = decimal x.value

-- `From<u16>`
abbrev pub from_u16 : ℕ → ParityShardCount
from_u16 v = record { value = v }

-- `From<ParityShardCount> for u16`
abbrev pub into_u16 : ParityShardCount → ℕ
into_u16 x = x.value
