-- ===== src/Protocol/Layout.antt =====
-- src/protocol.rs: the sizes and offsets of the wire format.
use fin_amor_s_ideal_udp_fiu.Base.{ℕ, ◌+◌}

abbrev pub shard_size : ℕ
shard_size = 1400

abbrev pub nonce_size : ℕ
nonce_size = 12

abbrev pub tag_size : ℕ
tag_size = 16

abbrev pub rendezvous_size : ℕ
rendezvous_size = 4

abbrev pub session_id_size : ℕ
session_id_size = 2

abbrev pub shard_index_size : ℕ
shard_index_size = 2

abbrev pub data_shards_size : ℕ
data_shards_size = 2

abbrev pub parity_shards_size : ℕ
parity_shards_size = 2

abbrev pub aad_size : ℕ
aad_size =
    session_id_size + shard_index_size + data_shards_size + parity_shards_size + rendezvous_size

abbrev pub header_size : ℕ
header_size = aad_size + tag_size

abbrev pub packet_size : ℕ
packet_size = header_size + shard_size

abbrev pub session_id_offset : ℕ
session_id_offset = 0

abbrev pub shard_index_offset : ℕ
shard_index_offset = session_id_offset + session_id_size

abbrev pub data_shards_offset : ℕ
data_shards_offset = shard_index_offset + shard_index_size

abbrev pub parity_shards_offset : ℕ
parity_shards_offset = data_shards_offset + data_shards_size

abbrev pub rendezvous_offset : ℕ
rendezvous_offset = parity_shards_offset + parity_shards_size

abbrev pub tag_offset : ℕ
tag_offset = rendezvous_offset + rendezvous_size

abbrev pub payload_offset : ℕ
payload_offset = tag_offset + tag_size
