-- ===== src/Tests/Settings.antt =====
-- The configuration and the key file, at the fixtures.
use fin_amor_s_ideal_udp_fiu.Base.{
  ◌+◌, ◌*◌, ◌≤◌, ◌<◌, ◌≡◌, ◌⊎◌, refl, arith, some, none, true, false,
}
use fin_amor_s_ideal_udp_fiu.Error.{ok, err, panic, invalid_parity_ratio}
use fin_amor_s_ideal_udp_fiu.Config.ParityRatio.{parity_shards}
use fin_amor_s_ideal_udp_fiu.Config.ParityRatio.Bounds.{parity_shards_bounds}
use fin_amor_s_ideal_udp_fiu.Config.Types.{Config, IsValid, stdin}
use fin_amor_s_ideal_udp_fiu.Config.FromArgs
use fin_amor_s_ideal_udp_fiu.Config.Builder.{
  ConfigBuilder, default, target, wake_at, key_file, parity_ratio, chaos_drop, build,
}
use fin_amor_s_ideal_udp_fiu.Config.CommandLine.{Flags, args_of, call_setters, build-call_setters}
use fin_amor_s_ideal_udp_fiu.Config.Builder.Laws.{
  Built, start, by_target, by_wake_at, by_key_file, by_chaos_drop, build-IsValid, build_cases,
}
use fin_amor_s_ideal_udp_fiu.Tests.Fixtures.{key_path, image_path, ratio}

parity_shards_bounds_example :
    (35 * 15 ≤ 100 * parity_shards ratio 35)
    × (100 * parity_shards ratio 35 < 35 * 15 + 100)
    × (parity_shards ratio 35 ≤ 35)
    × (0 < ratio.value → 0 < 35 → 0 < parity_shards ratio 35)
parity_shards_bounds_example = parity_shards_bounds ratio 35 (omega arith) (omega arith)

-- At the default percentage a frame of 35 slices gets 6 parity slices.
default_parity : parity_shards ratio 35 ≡ 6
unfolding parity_shards
default_parity = refl

-- A command line with the default port and parity, and a loss of 150 percent, which is cut to 100.
abbrev flags : Flags
flags = record {
  target = (192, 168, 1, 7);
  wake_at = 3600;
  key_file = key_path;
  image = some image_path;
  parity_ratio = none;
  port = none;
  delay_us = some 2000;
  chaos_burst = some 6;
  chaos_drop = some 150;
  chaos_shuffle = true;
}

build-call_setters_example : build (call_setters flags default) ≡ FromArgs.try_from (args_of flags)
build-call_setters_example = build-call_setters flags

-- A builder with the required fields and a loss of 250 percent, which is cut to 100.
abbrev builder : ConfigBuilder
builder = chaos_drop 250 (key_file key_path (wake_at 3600 (target (192, 168, 1, 7) default)))

builder-Built : Built builder
builder-Built =
    by_chaos_drop 250 (by_key_file key_path (by_wake_at 3600 (by_target (192, 168, 1, 7) start)))

abbrev built_config : Config
built_config = record {
  target_ip = (192, 168, 1, 7);
  rendezvous_secs = 3600;
  key_path = key_path;
  input = stdin;
  parity_ratio = ratio;
  target_port = 5050;
  delay = 500;
  chaos_drop = 100;
  chaos_burst = 0;
  chaos_shuffle = false;
}

builder_builds : build builder ≡ ok built_config
unfolding build chaos_drop key_file wake_at target
builder_builds = refl

build-IsValid_example : IsValid built_config
build-IsValid_example = build-IsValid builder-Built builder_builds

-- A ratio of 101 on a builder without its required fields.
abbrev refused_builder : ConfigBuilder
refused_builder = parity_ratio 101 default

build_cases_example :
    ((100 < refused_builder.parity_percent)
      × (build refused_builder ≡ err (invalid_parity_ratio refused_builder.parity_percent)))
    ⊎ (((refused_builder.parity_percent ≤ 100)
          × ((refused_builder.target_ip ≡ none)
              ⊎ ((refused_builder.rendezvous_secs ≡ none) ⊎ (refused_builder.key_path ≡ none)))
          × (build refused_builder ≡ panic))
        ⊎ ((c : Config) × (refused_builder.parity_percent ≤ 100)
            × (build refused_builder ≡ ok c)
            × (refused_builder.target_ip ≡ some c.target_ip)
            × (refused_builder.rendezvous_secs ≡ some c.rendezvous_secs)
            × (refused_builder.key_path ≡ some c.key_path)))
build_cases_example = build_cases refused_builder
