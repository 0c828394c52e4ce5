-- ===== src/Sender/Seal.antt =====
-- src/sender.rs, the loop of `FiudpSender::send` that makes a packet of each shard.
pub mod Receive
use fin_amor_s_ideal_udp_fiu.Base.{ℕ, ◌+◌, ◌%◌, Bytes, List, [], ◌∷◌, u16_mod, replicate}
use fin_amor_s_ideal_udp_fiu.Error.{Result, ok, err, ◌>>=◌}
use fin_amor_s_ideal_udp_fiu.Types.SessionId.{SessionId}
use fin_amor_s_ideal_udp_fiu.Types.ShardIndex
use fin_amor_s_ideal_udp_fiu.Types.ShardIndex.{ShardIndex}
use fin_amor_s_ideal_udp_fiu.Protocol.Layout.{packet_size}
use fin_amor_s_ideal_udp_fiu.Protocol.Packet.{PacketBuilder, build_aad, write_packet}
use fin_amor_s_ideal_udp_fiu.Crypto.{Encryptor}
use fin_amor_s_ideal_udp_fiu.Crypto.Nonce.{derive_nonce}

-- `index as u16`
abbrev pub shard_index : ℕ → ShardIndex
shard_index index = ShardIndex.new (index % u16_mod)

module _ (encryptor : Encryptor) (builder : PacketBuilder) (session_id : SessionId) where
  -- One round of the loop, which encrypts the shard in place.
  unfoldable pub seal_shard : ℕ → Bytes → Result Bytes
  seal_shard index shard = do
    nonce ← derive_nonce session_id (shard_index index)
    aad ← build_aad builder (shard_index index)
    (shard', tag) ← encryptor.encrypt_in_place nonce aad shard
    write_packet builder (replicate packet_size 0) aad tag shard'

  -- The loop from `index` on. The first failure ends it.
  unfoldable pub seal_shards : ℕ → List Bytes → Result (List Bytes)
  unfolding seal_shard
  seal_shards index [] = ok []
  seal_shards index (shard ∷ shards) = do
    packet ← seal_shard index shard
    packets ← seal_shards (index + 1) shards
    ok (packet ∷ packets)
