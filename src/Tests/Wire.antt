-- ===== src/Tests/Wire.antt =====
-- The packet's layout, the padding and the splitting, at a packet and a frame of the fixtures.
use fin_amor_s_ideal_udp_fiu.Base.{
  ◌≡◌, refl, Bytes, arith, length, replicate, length-replicate, some,
}
use fin_amor_s_ideal_udp_fiu.Error.{ok, ◌>>=◌}
use fin_amor_s_ideal_udp_fiu.Types.SessionId
use fin_amor_s_ideal_udp_fiu.Types.SessionId.{SessionId}
use fin_amor_s_ideal_udp_fiu.Types.ShardIndex
use fin_amor_s_ideal_udp_fiu.Types.ShardIndex.{ShardIndex}
use fin_amor_s_ideal_udp_fiu.Types.DataShardCount
use fin_amor_s_ideal_udp_fiu.Types.ParityShardCount
use fin_amor_s_ideal_udp_fiu.Protocol.Layout.{packet_size}
use fin_amor_s_ideal_udp_fiu.Protocol.Packet.{PacketBuilder, IsTyped, build_aad, write_packet}
use fin_amor_s_ideal_udp_fiu.Protocol.Packet.Wire.{parse_packet}
use fin_amor_s_ideal_udp_fiu.Protocol.Packet.RoundTrip.{wire_packet, parse_packet-write_packet}
use fin_amor_s_ideal_udp_fiu.Protocol.Padding.{pad_to_shard_size}
use fin_amor_s_ideal_udp_fiu.Crypto.Nonce.{derive_nonce-injective}
use fin_amor_s_ideal_udp_fiu.Sender.Shards.{split_frame}
use fin_amor_s_ideal_udp_fiu.Sender.Shards.Split.{parts_of, IsSplit, split_frame-IsSplit}
use fin_amor_s_ideal_udp_fiu.Config.ParityRatio.{parity_shards}
use fin_amor_s_ideal_udp_fiu.Tests.Fixtures.{frame, frame-IsFrame, ratio, secs, session_id}

-- One data shard and one parity shard.
abbrev builder : PacketBuilder
builder = record {
  session_id = session_id;
  rendezvous_secs = secs;
  data_shards = DataShardCount.new 1;
  parity_shards = ParityShardCount.new 1;
}

builder-IsTyped : IsTyped builder
builder-IsTyped = record {
  session_id = omega arith;
  rendezvous_secs = omega arith;
  data_shards = omega arith;
  parity_shards = omega arith;
}

abbrev tag : Bytes
tag = replicate 16 9

abbrev slice : Bytes
slice = replicate 1400 5

abbrev buffer : Bytes
buffer = replicate 1428 0

abbrev header : Bytes
header = replicate 12 1

parse_packet-write_packet_example :
    (p : Bytes) × ((build_aad builder (ShardIndex.new 1) >>= λ aad.
    write_packet builder buffer aad tag slice)
      ≡ ok p)
    × (length p ≡ packet_size)
    × (parse_packet p ≡ some (wire_packet builder (ShardIndex.new 1) tag slice))
parse_packet-write_packet_example =
    parse_packet-write_packet builder (ShardIndex.new 1) tag slice (length-replicate 16 9)
      (length-replicate 1400 5) buffer (length-replicate 1428 0) builder-IsTyped (omega arith)

derive_nonce-injective_example :
    (SessionId.new 42 ≡ SessionId.new 42) × (ShardIndex.new 3 ≡ ShardIndex.new 3)
derive_nonce-injective_example =
    derive_nonce-injective (SessionId.new 42) (SessionId.new 42) (ShardIndex.new 3)
      (ShardIndex.new 3) (omega arith) (omega arith) (omega arith) (omega arith) refl

frame_splits : split_frame ratio frame ≡ ok (parts_of ratio frame)
unfolding split_frame pad_to_shard_size replicate parity_shards
frame_splits = refl

split_frame-IsSplit_example : IsSplit frame (parts_of ratio frame)
split_frame-IsSplit_example =
    split_frame-IsSplit ratio (omega arith) frame frame-IsFrame (parts_of ratio frame) frame_splits
