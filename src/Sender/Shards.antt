-- ===== src/Sender/Shards.antt =====
-- src/sender.rs, the first half of `FiudpSender::send`: from the frame to the shards with parity.
pub mod Split
use fin_amor_s_ideal_udp_fiu.Base.{
  ℕ, ◌+◌, ◌/◌, Bytes, List, [], ◌∷◌, ◌++◌, Bool, add_usize, u16_mod, ltb, ◌==◌, if◌then◌else◌,
  length, replicate,
}
use fin_amor_s_ideal_udp_fiu.Error.{Result, ok, err, ◌>>=◌, empty_input, too_many_shards}
use fin_amor_s_ideal_udp_fiu.Slice.{chunks_exact}
use fin_amor_s_ideal_udp_fiu.Protocol.Layout.{shard_size}
use fin_amor_s_ideal_udp_fiu.Protocol.Padding.{pad_to_shard_size}
use fin_amor_s_ideal_udp_fiu.Config.ParityRatio.{ParityRatio, parity_shards}
use fin_amor_s_ideal_udp_fiu.Fec.{FecEngine}

-- The two counts, and the slices: the data first, then the parity.
pub record Shards : Type 0 where
  pub data_shards : ℕ
  pub parity_shards : ℕ
  pub slices : List Bytes

abbrev pub u16_max : ℕ
u16_max = 65535

-- The slices of the padded payload, and a zeroed buffer for each parity shard.
abbrev pub split_payload : Bytes → ℕ → ℕ → Shards
split_payload payload data_shards parity = record {
  data_shards = data_shards;
  parity_shards = parity;
  slices = chunks_exact shard_size payload ++ replicate parity (replicate shard_size 0);
}

-- From the padded payload: the checks on the counts.
unfoldable pub count_shards : ParityRatio → Bytes → Result Shards
count_shards ratio payload =
    let data_shards = length payload / shard_size in
    let parity = parity_shards ratio data_shards in
    let total_shards = add_usize data_shards parity in
    if data_shards == 0
    then err empty_input
    else if ltb u16_max total_shards
    then err (too_many_shards total_shards)
    else ok (split_payload payload data_shards parity)

-- From the frame as it was read.
unfoldable pub split_frame : ParityRatio → Bytes → Result Shards
unfolding count_shards
split_frame ratio payload =
    if length payload == 0 then err empty_input else count_shards ratio (pad_to_shard_size payload)

-- The parity slices are filled if there are any.
unfoldable pub encode_parity : FecEngine → Shards → Result (List Bytes)
encode_parity engine s =
    if ltb 0 s.parity_shards
    then engine.encode s.data_shards s.parity_shards s.slices
    else ok s.slices
