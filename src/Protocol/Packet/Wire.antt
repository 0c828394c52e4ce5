-- ===== src/Protocol/Packet/Wire.antt =====
-- The packet as SPEC.md §3.4 tabulates it: what a receiver reads at each offset. It is written
-- from the table, and shares nothing with `PacketBuilder` but the sizes.
use fin_amor_s_ideal_udp_fiu.Base.{
  ℕ, Option, none, some, Bytes, from_be_bytes, ◌==◌, if◌then◌else◌, length, take, drop,
}

pub record WirePacket : Type 0 where
  pub session_id : ℕ
  pub shard_index : ℕ
  pub data_shards : ℕ
  pub parity_shards : ℕ
  pub rendezvous_secs : ℕ
  pub aad : Bytes
  pub tag : Bytes
  pub payload : Bytes

-- The bytes at `offset`, `size` of them.
abbrev pub slice : ℕ → ℕ → Bytes → Bytes
slice offset size p = take size (drop offset p)

abbrev pub number_at : ℕ → ℕ → Bytes → ℕ
number_at offset size p = from_be_bytes (slice offset size p)

abbrev pub read_fields : Bytes → WirePacket
read_fields p = record {
  session_id = number_at 0 2 p;
  shard_index = number_at 2 2 p;
  data_shards = number_at 4 2 p;
  parity_shards = number_at 6 2 p;
  rendezvous_secs = number_at 8 4 p;
  aad = slice 0 12 p;
  tag = slice 12 16 p;
  payload = slice 28 1400 p;
}

-- Every packet is exactly 1428 bytes.
unfoldable pub parse_packet : Bytes → Option WirePacket
unfolding take drop
parse_packet p = if length p == 1428 then some (read_fields p) else none
