-- ===== src/Protocol/Padding.antt =====
-- src/protocol.rs, `pad_to_shard_size`.
pub mod Laws
use fin_amor_s_ideal_udp_fiu.Base.{◌-◌, ◌%◌, Bytes, add_usize, ◌==◌, if◌then◌else◌, length}
use fin_amor_s_ideal_udp_fiu.Slice.{resize}
use fin_amor_s_ideal_udp_fiu.Protocol.Layout.{shard_size}

-- The result is what `buf` holds after the call.
unfoldable pub pad_to_shard_size : Bytes → Bytes
unfolding resize
pad_to_shard_size buf =
    let rem = length buf % shard_size in
    if rem == 0 then buf else resize (add_usize (length buf) (shard_size - rem)) 0 buf
