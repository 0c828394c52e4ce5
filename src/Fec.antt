-- ===== src/Fec.antt =====
-- src/fec.rs: the erasure code. The code itself is the crate `reed-solomon-erasure`.
pub mod Engine
use fin_amor_s_ideal_udp_fiu.Base.{
  ℕ, ◌+◌, ◌<◌, ◌≤◌, ◌<>◌, String, ◌≡◌, ◌⊎◌, List, Bytes, length, take, All,
}
use fin_amor_s_ideal_udp_fiu.Error.{Result, ok, err, fec}

-- The trait. `encode data_shards parity_shards shards` returns what the slices hold after the call.
pub record FecEngine : Type 0 where
  pub encode : ℕ → ℕ → List Bytes → Result (List Bytes)

-- What a call of the crate returns.
pub data Answer (A : Type 0) : Type 0 where
  good : A → Answer A
  bad : String → Answer A

-- The crate: an encoder for given numbers of data and parity shards, and its `encode`, which works
-- in place.
pub record ReedSolomon (Codec : Type 0) : Type 0 where
  pub new : ℕ → ℕ → Answer Codec
  pub encode : Codec → List Bytes → Answer (List Bytes)

module _ {Codec : Type 0} (rs : ReedSolomon Codec) where
  generated : Answer (List Bytes) → Result (List Bytes)
  generated (good shards) = ok shards
  generated (bad text) = err (fec ("failed to generate parity shards: " <> text))

  initialized : Answer Codec → List Bytes → Result (List Bytes)
  initialized (good codec) shards = generated (rs.encode codec shards)
  initialized (bad text) shards = err (fec ("failed to initialize Reed-Solomon encoder: " <> text))

  unfoldable pub reed_solomon_engine : FecEngine
  unfolding generated initialized
  reed_solomon_engine = record {
    encode =
        λ data_shards parity_shards shards. initialized (rs.new data_shards parity_shards) shards;
  }

-- What a receiver may take slices for: there is no parity, or they came out of a successful call.
abbrev pub IsCodeword : FecEngine → ℕ → ℕ → List Bytes → Type 0
IsCodeword engine d p slices =
    (p ≡ 0)
    ⊎ ((shards : List Bytes) × (length shards ≡ d + p) × (engine.encode d p shards ≡ ok slices))

-- What the trait promises and slices guarantee: a successful `encode` fills the parity slices, and
-- keeps the data slices, the number of slices and their size.
pub record IsSystematic (engine : FecEngine) : Type 0 where
  pub keeps_data :
      (d p : ℕ) (shards : List Bytes) {out : List Bytes}
      → engine.encode d p shards ≡ ok out
      → length shards ≡ d + p
      → take d out ≡ take d shards
  pub keeps_count :
      (d p : ℕ) (shards : List Bytes) {out : List Bytes}
      → engine.encode d p shards ≡ ok out
      → length out ≡ length shards
  pub keeps_size :
      (d p size : ℕ) (shards : List Bytes) {out : List Bytes}
      → engine.encode d p shards ≡ ok out
      → All (λ (shard : Bytes). length shard ≡ size) shards
      → All (λ (shard : Bytes). length shard ≡ size) out
