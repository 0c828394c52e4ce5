-- ===== src/Config/Builder/Laws.antt =====
-- src/config.rs: `ConfigBuilder::build` beside `Config::try_from`, and the builders that the setters make.
use fin_amor_s_ideal_udp_fiu.Base.{
  ℕ, ◌≤◌, ◌<◌, ◌≡◌, ◌⊎◌, inl, inr, Bool, Bool-cases, Option-cases, Option, none, some, arith, ltb,
}
use fin_amor_s_ideal_udp_fiu.Error.{ok, err, panic, invalid_parity_ratio}
use fin_amor_s_ideal_udp_fiu.FilePath.{FilePath}
use fin_amor_s_ideal_udp_fiu.Config.Types.{Args, Ipv4Addr, Config, IsValid}
use fin_amor_s_ideal_udp_fiu.Config.FromArgs
use fin_amor_s_ideal_udp_fiu.Config.Builder.{
  ConfigBuilder, default, target, wake_at, key_file, image, parity_ratio, port, delay_us,
  chaos_drop, chaos_burst, chaos_shuffle, build,
}

-- One setter for each argument; the image only if it is given.
abbrev set_image : Option FilePath → ConfigBuilder → ConfigBuilder
set_image none b = b
set_image (some path) b = image path b

abbrev configure : Args → ConfigBuilder → ConfigBuilder
configure a b = target a.target (
    wake_at a.wake_at (
      key_file a.key_file (
        set_image a.image (
          parity_ratio a.parity_ratio (
            port a.port (
              delay_us a.delay_us (
                chaos_drop a.chaos_drop
                  (chaos_burst a.chaos_burst (chaos_shuffle a.chaos_shuffle b)))))))))

-- Setting every argument on a fresh builder and building is the same as validating the arguments,
-- also where the parity ratio is refused.
build-configure : (a : Args) → build (configure a default) ≡ FromArgs.try_from a
unfolding build FromArgs.try_from target wake_at key_file image parity_ratio port delay_us
    chaos_drop chaos_burst chaos_shuffle
build-configure a = ground arith

-- A builder that was made by the setters, in any order and any number.
pub data Built : ConfigBuilder → Type 0 where
  start : Built default
  by_target : {b : ConfigBuilder} (ip : Ipv4Addr) → Built b → Built (target ip b)
  by_wake_at : {b : ConfigBuilder} (secs : ℕ) → Built b → Built (wake_at secs b)
  by_key_file : {b : ConfigBuilder} (path : FilePath) → Built b → Built (key_file path b)
  by_image : {b : ConfigBuilder} (path : FilePath) → Built b → Built (image path b)
  by_parity_ratio : {b : ConfigBuilder} (percent : ℕ) → Built b → Built (parity_ratio percent b)
  by_port : {b : ConfigBuilder} (number : ℕ) → Built b → Built (port number b)
  by_delay_us : {b : ConfigBuilder} (us : ℕ) → Built b → Built (delay_us us b)
  by_chaos_drop : {b : ConfigBuilder} (percent : ℕ) → Built b → Built (chaos_drop percent b)
  by_chaos_burst : {b : ConfigBuilder} (count : ℕ) → Built b → Built (chaos_burst count b)
  by_chaos_shuffle :
      {b : ConfigBuilder} (shuffle : Bool) → Built b → Built (chaos_shuffle shuffle b)

Built-drop : {b : ConfigBuilder} → Built b → b.drop_percent ≤ 100
unfolding target wake_at key_file image parity_ratio port delay_us chaos_drop chaos_burst
    chaos_shuffle
Built-drop start = omega arith
Built-drop (by_target ip h) = Built-drop h
Built-drop (by_wake_at secs h) = Built-drop h
Built-drop (by_key_file path h) = Built-drop h
Built-drop (by_image path h) = Built-drop h
Built-drop (by_parity_ratio percent h) = Built-drop h
Built-drop (by_port n h) = Built-drop h
Built-drop (by_delay_us us h) = Built-drop h
Built-drop (by_chaos_drop percent h) = omega arith
Built-drop (by_chaos_burst count h) = Built-drop h
Built-drop (by_chaos_shuffle shuffle h) = Built-drop h

-- Whatever setters were called, in any order, a configuration that `build` gives has a parity ratio
-- and a loss of at most 100 percent.
pub build-IsValid : {b : ConfigBuilder} {c : Config} → Built b → build b ≡ ok c → IsValid c
unfolding build
build-IsValid {b} h e = ground (arith, Built-drop h)

-- The configuration of a builder that has the three required fields.
abbrev config_of : ConfigBuilder → Ipv4Addr → ℕ → FilePath → Config
config_of b ip secs path = record {
  target_ip = ip;
  rendezvous_secs = secs;
  key_path = path;
  input = FromArgs.input_of b.image_path;
  parity_ratio = record { value = b.parity_percent };
  target_port = b.udp_port;
  delay = b.delay;
  chaos_drop = b.drop_percent;
  chaos_burst = b.burst;
  chaos_shuffle = b.shuffled;
}

-- `build` gives an error for a parity ratio above 100, also where a required field is missing;
-- otherwise it panics if a required field is missing; and otherwise it gives a configuration with
-- the three fields.
pub build_cases :
    (b : ConfigBuilder)
    → ((100 < b.parity_percent) × (build b ≡ err (invalid_parity_ratio b.parity_percent)))
      ⊎ (((b.parity_percent ≤ 100)
            × ((b.target_ip ≡ none) ⊎ ((b.rendezvous_secs ≡ none) ⊎ (b.key_path ≡ none)))
            × (build b ≡ panic))
          ⊎ ((c : Config) × (b.parity_percent ≤ 100)
              × (build b ≡ ok c)
              × (b.target_ip ≡ some c.target_ip)
              × (b.rendezvous_secs ≡ some c.rendezvous_secs)
              × (b.key_path ≡ some c.key_path)))
unfolding build
build_cases b = elim (Bool-cases (ltb 100 b.parity_percent)) [
  | inl over ↦ inl (ground arith)
  | inr within ↦ elim (Option-cases b.target_ip) [
    | inl no_target ↦ inr (inl (ground arith, inl no_target, ground arith))
    | inr (ip, t) ↦ elim (Option-cases b.rendezvous_secs) [
      | inl no_secs ↦ inr (inl (ground arith, inr (inl no_secs), ground arith))
      | inr (secs, r) ↦ elim (Option-cases b.key_path) [
        | inl no_key ↦ inr (inl (ground arith, inr (inr no_key), ground arith))
        | inr (path, k) ↦ inr (inr (config_of b ip secs path, ground arith, ground arith, t, r, k))
      ]
    ]
  ]
]
