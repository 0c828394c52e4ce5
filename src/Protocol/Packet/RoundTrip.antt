-- ===== src/Protocol/Packet/RoundTrip.antt =====
-- src/protocol.rs: packets of `PacketBuilder`, read by the table of SPEC.md §3.4.
use fin_amor_s_ideal_udp_fiu.Base.{
  ◌≡◌, refl, some, Bytes, ◌++◌, arith, from_be_bytes-u16, from_be_bytes-u32, length, ==_iff,
  length-append, take-append_of_length, take-of_length, drop-append_of_length,
}
use fin_amor_s_ideal_udp_fiu.Error.{ok, ◌>>=◌}
use fin_amor_s_ideal_udp_fiu.Types.ShardIndex
use fin_amor_s_ideal_udp_fiu.Types.ShardIndex.{ShardIndex}
use fin_amor_s_ideal_udp_fiu.Protocol.Layout.{packet_size, shard_size, tag_size}
use fin_amor_s_ideal_udp_fiu.Protocol.Packet.{PacketBuilder, IsTyped, build_aad, write_packet}
use fin_amor_s_ideal_udp_fiu.Protocol.Packet.Wire.{WirePacket, parse_packet}
use fin_amor_s_ideal_udp_fiu.Protocol.Packet.Write.{header_bytes, build_aad-eq, write_packet-eq}

-- The content of the packet for shard `i`.
abbrev pub wire_packet : PacketBuilder → ShardIndex → Bytes → Bytes → WirePacket
wire_packet b i tag payload = record {
  session_id = b.session_id.value;
  shard_index = i.value;
  data_shards = b.data_shards.value;
  parity_shards = b.parity_shards.value;
  rendezvous_secs = b.rendezvous_secs.value;
  aad = header_bytes b i;
  tag = tag;
  payload = payload;
}

-- The bytes of the packet for shard `i`.
abbrev pub packet_bytes : PacketBuilder → ShardIndex → Bytes → Bytes → Bytes
packet_bytes b i tag payload = header_bytes b i ++ (tag ++ payload)

module _ (b : PacketBuilder) (i : ShardIndex) (tag payload : Bytes) (ht : length tag ≡ tag_size)
    (hp : length payload ≡ shard_size) where
  pub length-packet_bytes : length (packet_bytes b i tag payload) ≡ packet_size
  length-packet_bytes = omega (arith, length-append tag payload)

  pub parse_packet-packet_bytes :
      IsTyped b
      → ShardIndex.IsU16 i
      → parse_packet (packet_bytes b i tag payload) ≡ some (wire_packet b i tag payload)
  unfolding parse_packet
  parse_packet-packet_bytes t u =
      rw ((==_iff (length (packet_bytes b i tag payload)) packet_size).1 length-packet_bytes) (
        ground (
          arith,
          from_be_bytes-u16 b.session_id.value,
          from_be_bytes-u16 i.value,
          from_be_bytes-u16 b.data_shards.value,
          from_be_bytes-u16 b.parity_shards.value,
          from_be_bytes-u32 b.rendezvous_secs.value,
          take-append_of_length 16 tag payload ht,
          drop-append_of_length 16 tag payload ht,
          take-of_length 1400 payload,
        ))

  -- For header fields in the range of their types, a tag of 16 bytes and a payload of 1400,
  -- building the header and writing the packet into any buffer of 1428 bytes succeeds, and parsing
  -- the result at the offsets of SPEC.md §3.4 gives back the fields, the tag and the payload.
  pub parse_packet-write_packet :
      (out : Bytes)
      → length out ≡ packet_size
      → IsTyped b
      → ShardIndex.IsU16 i
      → (p : Bytes) × ((build_aad b i >>= λ aad. write_packet b out aad tag payload) ≡ ok p)
        × (length p ≡ packet_size)
        × (parse_packet p ≡ some (wire_packet b i tag payload))
  parse_packet-write_packet out ho t u = (
    packet_bytes b i tag payload,
    rw (
      build_aad-eq,
      write_packet-eq b out (header_bytes b i) tag payload ho refl ht,
      (==_iff (length payload) shard_size).1 hp,
    ),
    length-packet_bytes,
    parse_packet-packet_bytes t u,
  )
