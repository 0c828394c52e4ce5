-- ===== src/Crypto/Nonce.antt =====
-- src/crypto.rs, `derive_nonce`: session identifier, shard index, eight zeros.
use fin_amor_s_ideal_udp_fiu.Base.{◌≡◌, refl, ◌++◌, Bytes, arith, take, drop, replicate}
use fin_amor_s_ideal_udp_fiu.Error.{Result, ok, ◌>>=◌}
use fin_amor_s_ideal_udp_fiu.Slice.{copy_from_slice}
use fin_amor_s_ideal_udp_fiu.Types.SessionId
use fin_amor_s_ideal_udp_fiu.Types.SessionId.{SessionId}
use fin_amor_s_ideal_udp_fiu.Types.ShardIndex
use fin_amor_s_ideal_udp_fiu.Types.ShardIndex.{ShardIndex}
use fin_amor_s_ideal_udp_fiu.Protocol.Layout.{nonce_size}

unfoldable pub derive_nonce : SessionId → ShardIndex → Result Bytes
unfolding copy_from_slice take drop replicate
derive_nonce session_id shard_index = do
  nonce ← copy_from_slice 0 2 (replicate nonce_size 0) (SessionId.to_be_bytes session_id)
  copy_from_slice 2 4 nonce (ShardIndex.to_be_bytes shard_index)

-- The layout of SPEC.md §3.3.
abbrev pub nonce_bytes : SessionId → ShardIndex → Bytes
nonce_bytes s i = SessionId.to_be_bytes s ++ (ShardIndex.to_be_bytes i ++ replicate 8 0)

-- The two copies stay within bounds: the nonce is the concatenation of SPEC.md §3.3.
pub derive_nonce-eq : (s : SessionId) (i : ShardIndex) → derive_nonce s i ≡ ok (nonce_bytes s i)
unfolding derive_nonce
derive_nonce-eq s i = refl

-- Two pairs of a session identifier and a shard index, all within `u16`, that have the same nonce
-- are the same pair.
pub derive_nonce-injective :
    (s t : SessionId) (i j : ShardIndex)
    → SessionId.IsU16 s
    → SessionId.IsU16 t
    → ShardIndex.IsU16 i
    → ShardIndex.IsU16 j
    → derive_nonce s i ≡ derive_nonce t j
    → (s ≡ t) × (i ≡ j)
unfolding derive_nonce
derive_nonce-injective s t i j hs ht hi hj e = ground arith
