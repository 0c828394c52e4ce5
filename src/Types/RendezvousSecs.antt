-- ===== src/Types/RendezvousSecs.antt =====
-- src/types.rs, `RendezvousSecs`: the seconds until the receiver's next wake window, a `u32`, big-endian on the wire.
use fin_amor_s_ideal_udp_fiu.Base.{ℕ, ◌<◌, String, ◌<>◌, Bytes, u32_mod, u32_to_be_bytes, decimal}

pub record RendezvousSecs : Type 0 where
  pub value : ℕ

-- What the Rust type guarantees.
abbrev pub IsU32 : RendezvousSecs → Type 0
IsU32 x = x.value < u32_mod

abbrev pub new : ℕ → RendezvousSecs
new v = record { value = v }

abbrev pub as_u32 : RendezvousSecs → ℕ
as_u32 x = x.value

abbrev pub to_be_bytes : RendezvousSecs → Bytes
to_be_bytes x = u32_to_be_bytes x.value

-- `Display`
unfoldable pub display : RendezvousSecs → String
unfolding decimal
display x = decimal x.value <> "s"

-- `From<u32>`
abbrev pub from_u32 : ℕ → RendezvousSecs
from_u32 v = record { value = v }

-- `From<RendezvousSecs> for u32`
abbrev pub into_u32 : RendezvousSecs → ℕ
into_u32 x = x.value
