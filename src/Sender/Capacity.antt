-- ===== src/Sender/Capacity.antt =====
-- src/sender.rs, the call of `ReedSolomonEngine` of src/fec.rs: which slices get their parity.
use fin_amor_s_ideal_udp_fiu.Base.{
  ℕ, ◌+◌, ◌≤◌, ◌<◌, ◌≡◌, ◌⊎◌, refl, inl, inr, List, Bytes, arith, All, length, ltb, Bool-cases,
}
use fin_amor_s_ideal_udp_fiu.Error.{ok}
use fin_amor_s_ideal_udp_fiu.Fec.{good, ReedSolomon, reed_solomon_engine}
use fin_amor_s_ideal_udp_fiu.Protocol.Layout.{shard_size}
use fin_amor_s_ideal_udp_fiu.Sender.Shards.{Shards, encode_parity}
use fin_amor_s_ideal_udp_fiu.Sender.Shards.Split.{IsSplit}

-- What the crate `reed-solomon-erasure` refuses over GF(2⁸) is no data or no parity shards, more than
-- 256 shards, and slices of another number, of no bytes, or of different sizes. This is what it does
-- for one pair of counts.
pub record IsGaloisEight {Codec : Type 0} (rs : ReedSolomon Codec) (d p : ℕ) : Type 0 where
  pub makes : 0 < d → 0 < p → d + p ≤ 256 → (codec : Codec) × (rs.new d p ≡ good codec)
  pub fills :
      (size : ℕ) (codec : Codec) (shards : List Bytes)
      → rs.new d p ≡ good codec
      → length shards ≡ d + p
      → 0 < size
      → All (λ (shard : Bytes). length shard ≡ size) shards
      → (out : List Bytes) × (rs.encode codec shards ≡ good out)

-- Slices of a split get their parity if there are at most 256 of them, or none is parity.
pub encode_parity_total :
    {Codec : Type 0} (rs : ReedSolomon Codec) (frame : Bytes) (s : Shards)
    → IsGaloisEight rs s.data_shards s.parity_shards
    → IsSplit frame s
    → (s.data_shards + s.parity_shards ≤ 256) ⊎ (s.parity_shards ≡ 0)
    → (out : List Bytes) × (encode_parity (reed_solomon_engine rs) s ≡ ok out)
unfolding encode_parity reed_solomon_engine
encode_parity_total rs frame s crate split small = elim (Bool-cases (ltb 0 s.parity_shards)) [
  | inr no_parity ↦ (s.slices, rw no_parity refl)
  | inl some_parity ↦
      let within : s.data_shards + s.parity_shards ≤ 256 = ground arith in
      let (codec, made) = crate.makes split.nonempty (ground arith) within in
      let (out, filled) =
        crate.fills shard_size codec s.slices made split.count (omega arith) split.sizes in
      (out, rw (some_parity, made, filled) refl)
]
