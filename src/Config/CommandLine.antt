-- ===== src/Config/CommandLine.antt =====
-- src/config.rs, the `#[arg(…)]` attributes of `Args`: the options of the command line and their
-- defaults, beside a builder on which only the setters of the given options are called. The parser
-- itself is the crate `clap`; `Flags` is what its user wrote.
use fin_amor_s_ideal_udp_fiu.Base.{ℕ, ◌≡◌, arith, Bool, true, false, Option, none, some}
use fin_amor_s_ideal_udp_fiu.FilePath.{FilePath}
use fin_amor_s_ideal_udp_fiu.Config.Types.{
  Ipv4Addr, Args, default_udp_port, default_inter_packet_delay_us,
}
use fin_amor_s_ideal_udp_fiu.Config.FromArgs
use fin_amor_s_ideal_udp_fiu.Config.Builder.{
  ConfigBuilder, default, target, wake_at, key_file, image, parity_ratio, port, delay_us,
  chaos_drop, chaos_burst, chaos_shuffle, build,
}

-- The options with the three required ones, and whether `--chaos-shuffle` is there.
pub record Flags : Type 0 where
  pub target : Ipv4Addr
  pub wake_at : ℕ
  pub key_file : FilePath
  pub image : Option FilePath
  pub parity_ratio : Option ℕ
  pub port : Option ℕ
  pub delay_us : Option ℕ
  pub chaos_burst : Option ℕ
  pub chaos_drop : Option ℕ
  pub chaos_shuffle : Bool

-- `default_value_t`
abbrev pub default_value_t : ℕ → Option ℕ → ℕ
default_value_t value none = value
default_value_t value (some given) = given

unfoldable pub args_of : Flags → Args
args_of f = record {
  target = f.target;
  wake_at = f.wake_at;
  key_file = f.key_file;
  image = f.image;
  parity_ratio = default_value_t 15 f.parity_ratio;
  port = default_value_t default_udp_port f.port;
  delay_us = default_value_t default_inter_packet_delay_us f.delay_us;
  chaos_burst = default_value_t 0 f.chaos_burst;
  chaos_drop = default_value_t 0 f.chaos_drop;
  chaos_shuffle = f.chaos_shuffle;
}

-- A setter that is called if its option is given.
abbrev pub if_given {ℓ} :
    {A : Type ℓ} → (A → ConfigBuilder → ConfigBuilder) → Option A → ConfigBuilder → ConfigBuilder
if_given set none b = b
if_given set (some value) b = set value b

abbrev pub if_set : (Bool → ConfigBuilder → ConfigBuilder) → Bool → ConfigBuilder → ConfigBuilder
if_set set true b = set true b
if_set set false b = b

abbrev pub call_setters : Flags → ConfigBuilder → ConfigBuilder
call_setters f b = target f.target (
    wake_at f.wake_at (
      key_file f.key_file (
        if_given image f.image (
          if_given parity_ratio f.parity_ratio (
            if_given port f.port (
              if_given delay_us f.delay_us (
                if_given chaos_drop f.chaos_drop (
                  if_given chaos_burst f.chaos_burst
                    (if_set chaos_shuffle f.chaos_shuffle b)))))))))

-- Whatever options are given, a fresh builder on which the setters of just those options are called
-- builds what the arguments of that command line, with their defaults, give when they are
-- validated; also where the parity ratio is refused.
pub build-call_setters :
    (f : Flags) → build (call_setters f default) ≡ FromArgs.try_from (args_of f)
unfolding args_of build FromArgs.try_from target wake_at key_file image parity_ratio port delay_us
    chaos_drop chaos_burst chaos_shuffle
build-call_setters f = ground arith
