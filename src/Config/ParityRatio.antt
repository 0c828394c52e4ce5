-- ===== src/Config/ParityRatio.antt =====
-- src/config.rs, `ParityRatio`: a percentage, and the number of parity shards it asks for.
pub mod Bounds
use fin_amor_s_ideal_udp_fiu.Base.{ℕ, ◌≤◌, saturating_mul, div_ceil, ltb, ◌==◌, if◌then◌else◌}
use fin_amor_s_ideal_udp_fiu.Error.{Result, ok, err, invalid_parity_ratio}

pub record ParityRatio : Type 0 where
  pub value : ℕ

-- What the constructor checks.
abbrev pub IsPercent : ParityRatio → Type 0
IsPercent r = r.value ≤ 100

-- `TryFrom<u8>`
unfoldable pub try_from : ℕ → Result ParityRatio
try_from value =
    if ltb 100 value then err (invalid_parity_ratio value) else ok (record { value = value })

unfoldable pub parity_shards : ParityRatio → ℕ → ℕ
parity_shards r data_shards =
    if r.value == 0
    then 0
    else let numerator = saturating_mul data_shards r.value in div_ceil numerator 100
