-- ===== src/Protocol/Packet.antt =====
-- src/protocol.rs, `PacketBuilder`: the header of a packet, and the whole packet in its buffer.
pub mod Wire
pub mod Write
pub mod RoundTrip
use fin_amor_s_ideal_udp_fiu.Base.{◌+◌, Bytes, ◌==◌, if◌then◌else◌, length, take, drop, replicate}
use fin_amor_s_ideal_udp_fiu.Error.{Result, err, ◌>>=◌, invalid_shard_size}
use fin_amor_s_ideal_udp_fiu.Slice.{copy_from_slice}
use fin_amor_s_ideal_udp_fiu.Types.SessionId
use fin_amor_s_ideal_udp_fiu.Types.SessionId.{SessionId}
use fin_amor_s_ideal_udp_fiu.Types.ShardIndex
use fin_amor_s_ideal_udp_fiu.Types.ShardIndex.{ShardIndex}
use fin_amor_s_ideal_udp_fiu.Types.DataShardCount
use fin_amor_s_ideal_udp_fiu.Types.DataShardCount.{DataShardCount}
use fin_amor_s_ideal_udp_fiu.Types.ParityShardCount
use fin_amor_s_ideal_udp_fiu.Types.ParityShardCount.{ParityShardCount}
use fin_amor_s_ideal_udp_fiu.Types.RendezvousSecs
use fin_amor_s_ideal_udp_fiu.Types.RendezvousSecs.{RendezvousSecs}
use fin_amor_s_ideal_udp_fiu.Protocol.Layout.{
  aad_size, tag_size, shard_size, session_id_offset, session_id_size, shard_index_offset,
  shard_index_size, data_shards_offset, data_shards_size, parity_shards_offset, parity_shards_size,
  rendezvous_offset, rendezvous_size, tag_offset, payload_offset,
}

-- `PacketBuilder::new` is the record literal.
pub record PacketBuilder : Type 0 where
  pub session_id : SessionId
  pub rendezvous_secs : RendezvousSecs
  pub data_shards : DataShardCount
  pub parity_shards : ParityShardCount

-- Each field is in the range of its Rust type.
pub record IsTyped (b : PacketBuilder) : Type 0 where
  pub session_id : SessionId.IsU16 b.session_id
  pub rendezvous_secs : RendezvousSecs.IsU32 b.rendezvous_secs
  pub data_shards : DataShardCount.IsU16 b.data_shards
  pub parity_shards : ParityShardCount.IsU16 b.parity_shards

unfoldable pub build_aad : PacketBuilder → ShardIndex → Result Bytes
unfolding copy_from_slice take drop replicate
build_aad b shard_index = do
  aad ←
      copy_from_slice session_id_offset (session_id_offset + session_id_size) (replicate aad_size 0)
        (SessionId.to_be_bytes b.session_id)
  aad ←
      copy_from_slice shard_index_offset (shard_index_offset + shard_index_size) aad
        (ShardIndex.to_be_bytes shard_index)
  aad ←
      copy_from_slice data_shards_offset (data_shards_offset + data_shards_size) aad
        (DataShardCount.to_be_bytes b.data_shards)
  aad ←
      copy_from_slice parity_shards_offset (parity_shards_offset + parity_shards_size) aad
        (ParityShardCount.to_be_bytes b.parity_shards)
  copy_from_slice rendezvous_offset (rendezvous_offset + rendezvous_size) aad
      (RendezvousSecs.to_be_bytes b.rendezvous_secs)

-- The three copies of `write_packet`.
unfoldable pub fill_packet : Bytes → Bytes → Bytes → Bytes → Result Bytes
fill_packet out aad tag payload = do
  out ← copy_from_slice 0 aad_size out aad
  out ← copy_from_slice tag_offset (tag_offset + tag_size) out tag
  copy_from_slice payload_offset (payload_offset + shard_size) out payload

-- The result is what `out` holds after the call. The builder is not read.
unfoldable pub write_packet : PacketBuilder → Bytes → Bytes → Bytes → Bytes → Result Bytes
unfolding fill_packet
write_packet b out aad tag payload =
    if length payload == shard_size
    then fill_packet out aad tag payload
    else err (invalid_shard_size (length payload) shard_size)
