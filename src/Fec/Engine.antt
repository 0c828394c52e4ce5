-- ===== src/Fec/Engine.antt =====
-- src/fec.rs, `ReedSolomonEngine`, by what the crate `reed-solomon-erasure` documents.
use fin_amor_s_ideal_udp_fiu.Base.{
  ℕ, String, ◌<>◌, ◌+◌, ◌<◌, ◌≡◌, ◌⊎◌, refl, inl, inr, List, Bytes, arith, All, length, take,
}
use fin_amor_s_ideal_udp_fiu.Error.{ok, err, fec}
use fin_amor_s_ideal_udp_fiu.Fec.{Answer, good, bad, ReedSolomon, IsSystematic, reed_solomon_engine}

-- Encoding works in place on the parity slices; and over GF(2⁸) there are at most 256 shards.
pub record IsReedSolomon {Codec : Type 0} (rs : ReedSolomon Codec) : Type 0 where
  pub keeps_data :
      (d p : ℕ) (codec : Codec) (shards : List Bytes) {out : List Bytes}
      → rs.new d p ≡ good codec
      → rs.encode codec shards ≡ good out
      → length shards ≡ d + p
      → take d out ≡ take d shards
  pub keeps_count :
      (codec : Codec) (shards : List Bytes) {out : List Bytes}
      → rs.encode codec shards ≡ good out
      → length out ≡ length shards
  pub keeps_size :
      (size : ℕ) (codec : Codec) (shards : List Bytes) {out : List Bytes}
      → rs.encode codec shards ≡ good out
      → All (λ (shard : Bytes). length shard ≡ size) shards
      → All (λ (shard : Bytes). length shard ≡ size) out
  pub at_most_256 : (d p : ℕ) → 256 < d + p → (text : String) × (rs.new d p ≡ bad text)

pub Answer-cases :
    {A : Type 0} (a : Answer A) → ((x : A) × (a ≡ good x)) ⊎ ((text : String) × (a ≡ bad text))
Answer-cases (good x) = inl (x, refl)
Answer-cases (bad text) = inr (text, refl)

module _ {Codec : Type 0} (rs : ReedSolomon Codec) (law : IsReedSolomon rs) where
  -- A successful call went through both calls of the crate.
  pub encode_good :
      (d p : ℕ) (shards out : List Bytes)
      → (reed_solomon_engine rs).encode d p shards ≡ ok out
      → (codec : Codec) × (rs.new d p ≡ good codec) × (rs.encode codec shards ≡ good out)
  unfolding reed_solomon_engine
  encode_good d p shards out h = elim (Answer-cases (rs.new d p)) [
    | inr (text, e) ↦ absurd (ground arith)
    | inl (codec, e) ↦ elim (Answer-cases (rs.encode codec shards)) [
      | inr (text, f) ↦ absurd (ground arith)
      | inl (result, f) ↦ (codec, e, ground arith)
    ]
  ]

  -- Over an erasure code that keeps the data slices, the number of slices and their size, the
  -- production engine keeps the contract of the trait.
  pub reed_solomon_engine-IsSystematic : IsSystematic (reed_solomon_engine rs)
  reed_solomon_engine-IsSystematic = record {
    keeps_data = λ d p shards {out} h n.
        let (codec, e, f) = encode_good d p shards out h in law.keeps_data d p codec shards e f n;
    keeps_count = λ d p shards {out} h.
        let (codec, e, f) = encode_good d p shards out h in law.keeps_count codec shards f;
    keeps_size = λ d p size shards {out} h n.
        let (codec, e, f) = encode_good d p shards out h in law.keeps_size size codec shards f n;
  }

  -- More than 256 shards are refused by the encoder.
  pub encode_too_many :
      (d p : ℕ) (shards : List Bytes)
      → 256 < d + p
      → (text : String) × ((reed_solomon_engine rs).encode d p shards ≡ err (fec text))
  unfolding reed_solomon_engine
  encode_too_many d p shards h =
      let (text, e) = law.at_most_256 d p h in
      ("failed to initialize Reed-Solomon encoder: " <> text, rw e)
