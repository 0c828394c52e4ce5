-- ===== src/Config/ParityRatio/Bounds.antt =====
-- src/config.rs: the bounds of `ParityRatio::parity_shards`, and the values that `try_from` accepts.
use fin_amor_s_ideal_udp_fiu.Base.{
  ℕ, ◌+◌, ◌*◌, ◌≤◌, ◌<◌, ◌≡◌, ap, ==_iff, ◌⊎◌, inl, inr, Bool-cases, div_ceil, saturating_mul, ltb,
  ◌==◌, arith, isize_max, ltb,
}
use fin_amor_s_ideal_udp_fiu.Error.{ok, err, invalid_parity_ratio}
use fin_amor_s_ideal_udp_fiu.Config.ParityRatio.{ParityRatio, IsPercent, try_from, parity_shards}

div_ceil_bounds :
    (n : ℕ)
    → (n ≤ 100 * div_ceil n 100) × (100 * div_ceil n 100 < n + 100) × (0 < n → 0 < div_ceil n 100)
div_ceil_bounds n = ground arith

product-le : (shards percent : ℕ) → percent ≤ 100 → shards * percent ≤ shards * 100
product-le shards percent h = grind arith

product_pos : (percent shards : ℕ) → 0 < percent → 0 < shards → 0 < shards * percent
product_pos percent shards a b = grind arith

-- For a percentage and a number of data shards whose hundredfold is at most the largest `isize`,
-- the number of parity shards is the exact product divided by 100 and rounded up, is at most the
-- number of data shards, and is positive if both factors are.
pub parity_shards_bounds :
    (r : ParityRatio) (shards : ℕ)
    → IsPercent r
    → shards * 100 ≤ isize_max
    → (shards * r.value ≤ 100 * parity_shards r shards)
      × (100 * parity_shards r shards < shards * r.value + 100)
      × (parity_shards r shards ≤ shards)
      × (0 < r.value → 0 < shards → 0 < parity_shards r shards)
unfolding parity_shards
parity_shards_bounds r shards h k =
    let below = product-le shards r.value h in
    let pos = product_pos r.value shards in
    elim (Bool-cases (r.value == 0)) [
      | inl none_asked ↦
          ground (arith, ap (λ (t : ℕ). shards * t) ((==_iff r.value 0).0 none_asked))
      | inr asked ↦
          let exact : saturating_mul shards r.value ≡ shards * r.value = omega arith in
          let (lo, hi, up) = div_ceil_bounds (shards * r.value) in
          rw (asked, exact) (lo, hi, omega arith, λ a b. up (pos a b))
    ]

-- The constructor accepts exactly the percentages, and refuses any other value by name.
pub try_from_iff :
    (value : ℕ)
    → ((value ≤ 100) × (try_from value ≡ ok (record { value = value })))
      ⊎ ((100 < value) × (try_from value ≡ err (invalid_parity_ratio value)))
unfolding try_from
try_from_iff value = elim (Bool-cases (ltb 100 value)) [
  | inl over ↦ inr (ground arith)
  | inr within ↦ inl (ground arith)
]
