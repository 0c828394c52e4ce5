-- ===== src/Protocol/Packet/Write.antt =====
-- src/protocol.rs: what `build_aad` and `write_packet` return, on every branch.
use fin_amor_s_ideal_udp_fiu.Base.{
  ap, [], Bool-cases, ◌≡◌, refl, inl, inr, Bytes, ◌++◌, append_assoc, arith, ◌==◌, ==_iff,
  if◌then◌else◌, length, take, drop, length-append, length-take, length-drop, take-append-drop,
}
use fin_amor_s_ideal_udp_fiu.Error.{ok, err, invalid_shard_size}
use fin_amor_s_ideal_udp_fiu.Slice.{copy_from_slice-append, copy_last}
use fin_amor_s_ideal_udp_fiu.Types.SessionId
use fin_amor_s_ideal_udp_fiu.Types.ShardIndex
use fin_amor_s_ideal_udp_fiu.Types.ShardIndex.{ShardIndex}
use fin_amor_s_ideal_udp_fiu.Types.DataShardCount
use fin_amor_s_ideal_udp_fiu.Types.ParityShardCount
use fin_amor_s_ideal_udp_fiu.Types.RendezvousSecs
use fin_amor_s_ideal_udp_fiu.Protocol.Layout.{packet_size, shard_size, aad_size, tag_size}
use fin_amor_s_ideal_udp_fiu.Protocol.Packet.{PacketBuilder, build_aad, fill_packet, write_packet}

-- The five header fields in wire order.
abbrev pub header_bytes : PacketBuilder → ShardIndex → Bytes
header_bytes b shard_index =
    SessionId.to_be_bytes b.session_id
    ++ (ShardIndex.to_be_bytes shard_index
        ++ (DataShardCount.to_be_bytes b.data_shards
            ++ (ParityShardCount.to_be_bytes b.parity_shards
                ++ RendezvousSecs.to_be_bytes b.rendezvous_secs)))

-- The five copies stay within bounds and do not overlap.
pub build_aad-eq : (b : PacketBuilder) (i : ShardIndex) → build_aad b i ≡ ok (header_bytes b i)
unfolding build_aad
build_aad-eq b i = refl

fill_parts :
    (o₁ o₂ o₃ aad tag payload : Bytes)
    → length o₁ ≡ aad_size
    → length o₂ ≡ tag_size
    → length o₃ ≡ shard_size
    → length aad ≡ aad_size
    → length tag ≡ tag_size
    → length payload ≡ shard_size
    → fill_packet (o₁ ++ (o₂ ++ o₃)) aad tag payload ≡ ok (aad ++ (tag ++ payload))
unfolding fill_packet
fill_parts o₁ o₂ o₃ aad tag payload h₁ h₂ h₃ ha ht hp =
    rw
      (
        copy_from_slice-append 0 12 [] o₁ (o₂ ++ o₃) aad refl (omega arith) (omega arith),
        copy_from_slice-append 12 28 aad o₂ o₃ tag ha (omega arith) (omega arith),
        ← append_assoc aad tag o₃,
        copy_last 28 1428 (aad ++ tag) o₃ payload (omega (arith, length-append aad tag))
            (omega arith) (omega (arith, length-append aad tag)),
      )
      (ap ok (append_assoc aad tag payload))

-- Three copies fill a buffer of 1428 bytes, whatever it held before.
pub fill_packet-eq :
    (out aad tag payload : Bytes)
    → length out ≡ packet_size
    → length aad ≡ aad_size
    → length tag ≡ tag_size
    → length payload ≡ shard_size
    → fill_packet out aad tag payload ≡ ok (aad ++ (tag ++ payload))
fill_packet-eq out aad tag payload ho ha ht hp =
    rw (← take-append-drop 12 out, ← take-append-drop 16 (drop 12 out))
      (fill_parts (take 12 out) (take 16 (drop 12 out)) (drop 16 (drop 12 out)) aad tag payload
        (omega (arith, length-take 12 out))
        (omega (arith, length-take 16 (drop 12 out), length-drop 12 out))
        (omega (arith, length-drop 16 (drop 12 out), length-drop 12 out)) ha ht hp)

-- For a buffer, a header and a tag of their declared lengths `write_packet` never panics: it gives
-- the header, the tag and the payload one after the other, or an error if the payload has not 1400
-- bytes.
pub write_packet-eq :
    (b : PacketBuilder) (out aad tag payload : Bytes)
    → length out ≡ packet_size
    → length aad ≡ aad_size
    → length tag ≡ tag_size
    → write_packet b out aad tag payload ≡ (
        if length payload == shard_size
        then ok (aad ++ (tag ++ payload))
        else err (invalid_shard_size (length payload) shard_size))
unfolding write_packet
write_packet-eq b out aad tag payload ho ha ht = elim (Bool-cases (length payload == shard_size)) [
  | inl full ↦
      rw full
        (fill_packet-eq out aad tag payload ho ha ht ((==_iff (length payload) shard_size).0 full))
  | inr bad ↦ rw bad
]
