-- ===== src/UnitTests.antt =====
-- The unit tests of src/config.rs and src/protocol.rs, as Boolean functions of the model.
use fin_amor_s_ideal_udp_fiu.Base
use fin_amor_s_ideal_udp_fiu.Base.{
  ℕ, ◌+◌, ◌-◌, ◌*◌, ◌≡◌, refl, Bool, true, false, ◌&&◌, Bytes, [], ◌∷◌, ◌==◌, length, take, drop,
  replicate, u16_to_be_bytes, u32_to_be_bytes,
}
use fin_amor_s_ideal_udp_fiu.Error.{Result, ok, err, panic, ◌>>=◌}
use fin_amor_s_ideal_udp_fiu.Slice.{copy_from_slice, resize}
use fin_amor_s_ideal_udp_fiu.Types.SessionId
use fin_amor_s_ideal_udp_fiu.Types.ShardIndex
use fin_amor_s_ideal_udp_fiu.Types.DataShardCount
use fin_amor_s_ideal_udp_fiu.Types.ParityShardCount
use fin_amor_s_ideal_udp_fiu.Types.RendezvousSecs
use fin_amor_s_ideal_udp_fiu.Protocol.Layout.{
  shard_size, packet_size, tag_size, session_id_offset, session_id_size, shard_index_offset,
  shard_index_size, data_shards_offset, data_shards_size, parity_shards_offset, parity_shards_size,
  rendezvous_offset, rendezvous_size, tag_offset, payload_offset,
}
use fin_amor_s_ideal_udp_fiu.Protocol.Packet.{PacketBuilder, build_aad, fill_packet, write_packet}
use fin_amor_s_ideal_udp_fiu.Protocol.Padding.{pad_to_shard_size}
use fin_amor_s_ideal_udp_fiu.Config.ParityRatio
use fin_amor_s_ideal_udp_fiu.Config.ParityRatio.{parity_shards}

abbrev is_ok : {A : Type 0} → Result A → Bool
is_ok (ok a) = true
is_ok (err e) = false
is_ok panic = false

abbrev is_err : {A : Type 0} → Result A → Bool
is_err (ok a) = false
is_err (err e) = true
is_err panic = false

-- A test that unwraps a result and goes on: a panic fails it.
abbrev passes : Result Bool → Bool
passes (ok b) = b
passes (err e) = false
passes panic = false

abbrev all_are : ℕ → Bytes → Bool
all_are value [] = true
all_are value (b ∷ bs) = (b == value) && all_are value bs

abbrev same_bytes : Bytes → Bytes → Bool
same_bytes [] [] = true
same_bytes [] (c ∷ cs) = false
same_bytes (b ∷ bs) [] = false
same_bytes (b ∷ bs) (c ∷ cs) = (b == c) && same_bytes bs cs

-- `&packet[start..start + size]`
abbrev slice : ℕ → ℕ → Bytes → Bytes
slice start size bytes = take size (drop start bytes)

parity_ratio_validation : Bool
unfolding ParityRatio.try_from
parity_ratio_validation =
    is_ok (ParityRatio.try_from 0)
    && is_ok (ParityRatio.try_from 100)
    && is_err (ParityRatio.try_from 101)

parity_ratio_rounds_up : Bool
unfolding ParityRatio.try_from
parity_ratio_rounds_up = passes do
  ratio ← ParityRatio.try_from 15
  ok ((parity_shards ratio 10 == 2) && (parity_shards ratio 1 == 1) && (parity_shards ratio 0 == 0))

pad_to_shard_size_extends_with_zeroes : Bool
pad_to_shard_size_extends_with_zeroes =
    let buf = pad_to_shard_size (replicate (shard_size + 1) 171) in
    (length buf == shard_size * 2)
    && all_are 171 (take (shard_size + 1) buf)
    && all_are 0 (drop (shard_size + 1) buf)

pad_to_shard_size_noop_on_exact_multiple : Bool
pad_to_shard_size_noop_on_exact_multiple =
    let buf = pad_to_shard_size (replicate (shard_size * 2) 205) in
    (length buf == shard_size * 2) && all_are 205 buf

abbrev test_builder : PacketBuilder
test_builder = record {
  session_id = SessionId.new 43981;
  rendezvous_secs = RendezvousSecs.new 16909060;
  data_shards = DataShardCount.new 32;
  parity_shards = ParityShardCount.new 4;
}

packet_builder_writes_header_and_payload : Bool
packet_builder_writes_header_and_payload =
    let tag = replicate tag_size 34 in
    let payload = replicate shard_size 51 in
    passes do
      aad ← build_aad test_builder (ShardIndex.new 4660)
      packet ← write_packet test_builder (replicate packet_size 0) aad tag payload
      ok (
          same_bytes (slice session_id_offset session_id_size packet) (u16_to_be_bytes 43981)
          && same_bytes (slice shard_index_offset shard_index_size packet) (u16_to_be_bytes 4660)
          && same_bytes (slice data_shards_offset data_shards_size packet) (u16_to_be_bytes 32)
          && same_bytes (slice parity_shards_offset parity_shards_size packet) (u16_to_be_bytes 4)
          && same_bytes (slice rendezvous_offset rendezvous_size packet) (u32_to_be_bytes 16909060)
          && same_bytes (slice tag_offset tag_size packet) tag
          && same_bytes (slice payload_offset shard_size packet) payload)

abbrev small_builder : PacketBuilder
small_builder = record {
  session_id = SessionId.new 43981;
  rendezvous_secs = RendezvousSecs.new 0;
  data_shards = DataShardCount.new 1;
  parity_shards = ParityShardCount.new 0;
}

packet_builder_rejects_wrong_payload_size : Bool
packet_builder_rejects_wrong_payload_size =
    let tag = replicate tag_size 0 in
    let payload = replicate (shard_size - 1) 0 in
    passes do
      aad ← build_aad small_builder (ShardIndex.new 1)
      ok (is_err (write_packet small_builder (replicate packet_size 0) aad tag payload))

all_pass :
    (parity_ratio_validation && parity_ratio_rounds_up && pad_to_shard_size_extends_with_zeroes
      && pad_to_shard_size_noop_on_exact_multiple && packet_builder_writes_header_and_payload
      && packet_builder_rejects_wrong_payload_size)
    ≡ true
unfolding parity_ratio_validation parity_ratio_rounds_up ParityRatio.try_from parity_shards
    pad_to_shard_size_extends_with_zeroes pad_to_shard_size_noop_on_exact_multiple pad_to_shard_size
    resize Base.take Base.drop Base.replicate packet_builder_writes_header_and_payload
    packet_builder_rejects_wrong_payload_size build_aad write_packet copy_from_slice fill_packet
all_pass = refl
