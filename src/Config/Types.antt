-- ===== src/Config/Types.antt =====
-- src/config.rs: the raw arguments, the input source and the validated configuration. Parsing the
-- command line is the crate `clap`; `Args` is what it hands over.
use fin_amor_s_ideal_udp_fiu.Base.{ℕ, Bool, Option, ◌≤◌}
use fin_amor_s_ideal_udp_fiu.FilePath.{FilePath}
use fin_amor_s_ideal_udp_fiu.Config.ParityRatio.{ParityRatio, IsPercent}

abbrev pub default_udp_port : ℕ
default_udp_port = 5050

abbrev pub default_inter_packet_delay_us : ℕ
default_inter_packet_delay_us = 500

-- `std::net::Ipv4Addr`
abbrev pub Ipv4Addr : Type 0
Ipv4Addr = ℕ × ℕ × ℕ × ℕ

pub record Args : Type 0 where
  pub target : Ipv4Addr
  pub wake_at : ℕ
  pub key_file : FilePath
  pub image : Option FilePath
  pub parity_ratio : ℕ
  pub port : ℕ
  pub delay_us : ℕ
  pub chaos_burst : ℕ
  pub chaos_drop : ℕ
  pub chaos_shuffle : Bool

pub data InputSource : Type 0 where
  file : FilePath → InputSource
  stdin : InputSource

-- `delay` is a `Duration`, here in microseconds.
pub record Config : Type 0 where
  pub target_ip : Ipv4Addr
  pub rendezvous_secs : ℕ
  pub key_path : FilePath
  pub input : InputSource
  pub parity_ratio : ParityRatio
  pub target_port : ℕ
  pub delay : ℕ
  pub chaos_drop : ℕ
  pub chaos_burst : ℕ
  pub chaos_shuffle : Bool

-- Both percentages are at most 100.
pub record IsValid (c : Config) : Type 0 where
  pub ratio : IsPercent c.parity_ratio
  pub loss : c.chaos_drop ≤ 100
