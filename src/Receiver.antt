-- ===== src/Receiver.antt =====
-- The receiver of SPEC.md §3.5, as far as one packet goes: read the header, derive the nonce, open
-- the ciphertext with the header as additional data. The repository has no receiver: this is the
-- other end that the sender's packets are measured against.
pub mod Reassembly
pub mod Replay
use fin_amor_s_ideal_udp_fiu.Base.{ℕ, ◌++◌, Option, none, some, Bytes, u16_to_be_bytes, replicate}
use fin_amor_s_ideal_udp_fiu.Crypto.{Opener}
use fin_amor_s_ideal_udp_fiu.Protocol.Packet.Wire.{WirePacket, parse_packet}

-- A shard that passed authentication, with its header.
pub record Received : Type 0 where
  pub session_id : ℕ
  pub shard_index : ℕ
  pub data_shards : ℕ
  pub parity_shards : ℕ
  pub rendezvous_secs : ℕ
  pub shard : Bytes

-- session_id (2) || shard_index (2) || eight zeros
abbrev pub packet_nonce : WirePacket → Bytes
packet_nonce p = u16_to_be_bytes p.session_id ++ (u16_to_be_bytes p.shard_index ++ replicate 8 0)

abbrev pub accept : WirePacket → Option Bytes → Option Received
accept p none = none
accept p (some shard) = some (record {
  session_id = p.session_id;
  shard_index = p.shard_index;
  data_shards = p.data_shards;
  parity_shards = p.parity_shards;
  rendezvous_secs = p.rendezvous_secs;
  shard = shard;
})

abbrev pub open_packet : Opener → Option WirePacket → Option Received
open_packet opener none = none
open_packet opener (some p) = accept p (opener (packet_nonce p) p.aad p.tag p.payload)

unfoldable pub receive : Opener → Bytes → Option Received
receive opener packet = open_packet opener (parse_packet packet)
