-- ===== src/Config/Builder.antt =====
-- src/config.rs, `ConfigBuilder`: the defaults, the setters and `build`.
pub mod Laws
use fin_amor_s_ideal_udp_fiu.Base.{ℕ, Bool, false, Option, none, some, min}
use fin_amor_s_ideal_udp_fiu.Error.{Result, ok, panic, ◌>>=◌}
use fin_amor_s_ideal_udp_fiu.FilePath.{FilePath}
use fin_amor_s_ideal_udp_fiu.Config.ParityRatio
use fin_amor_s_ideal_udp_fiu.Config.Types.{
  Ipv4Addr, Config, default_udp_port, default_inter_packet_delay_us,
}
use fin_amor_s_ideal_udp_fiu.Config.FromArgs.{input_of}

pub record ConfigBuilder : Type 0 where
  pub target_ip : Option Ipv4Addr
  pub rendezvous_secs : Option ℕ
  pub key_path : Option FilePath
  pub image_path : Option FilePath
  pub parity_percent : ℕ
  pub udp_port : ℕ
  pub delay : ℕ
  pub drop_percent : ℕ
  pub burst : ℕ
  pub shuffled : Bool

-- `Default`, and `Config::builder`
abbrev pub default : ConfigBuilder
default = record {
  target_ip = none;
  rendezvous_secs = none;
  key_path = none;
  image_path = none;
  parity_percent = 15;
  udp_port = default_udp_port;
  delay = default_inter_packet_delay_us;
  drop_percent = 0;
  burst = 0;
  shuffled = false;
}

unfoldable pub target : Ipv4Addr → ConfigBuilder → ConfigBuilder
target ip b = record b { target_ip = some ip }

unfoldable pub wake_at : ℕ → ConfigBuilder → ConfigBuilder
wake_at secs b = record b { rendezvous_secs = some secs }

unfoldable pub key_file : FilePath → ConfigBuilder → ConfigBuilder
key_file path b = record b { key_path = some path }

unfoldable pub image : FilePath → ConfigBuilder → ConfigBuilder
image path b = record b { image_path = some path }

unfoldable pub parity_ratio : ℕ → ConfigBuilder → ConfigBuilder
parity_ratio percent b = record b { parity_percent = percent }

unfoldable pub port : ℕ → ConfigBuilder → ConfigBuilder
port number b = record b { udp_port = number }

unfoldable pub delay_us : ℕ → ConfigBuilder → ConfigBuilder
delay_us us b = record b { delay = us }

unfoldable pub chaos_drop : ℕ → ConfigBuilder → ConfigBuilder
chaos_drop percent b = record b { drop_percent = min percent 100 }

unfoldable pub chaos_burst : ℕ → ConfigBuilder → ConfigBuilder
chaos_burst count b = record b { burst = count }

unfoldable pub chaos_shuffle : Bool → ConfigBuilder → ConfigBuilder
chaos_shuffle shuffle b = record b { shuffled = shuffle }

-- `Option::expect`
abbrev pub expect : {A : Type 0} → Option A → Result A
expect (some a) = ok a
expect none = panic

unfoldable pub build : ConfigBuilder → Result Config
unfolding ParityRatio.try_from
build b = do
  ratio ← ParityRatio.try_from b.parity_percent
  target_ip ← expect b.target_ip
  rendezvous_secs ← expect b.rendezvous_secs
  key_path ← expect b.key_path
  ok (record {
    target_ip = target_ip;
    rendezvous_secs = rendezvous_secs;
    key_path = key_path;
    input = input_of b.image_path;
    parity_ratio = ratio;
    target_port = b.udp_port;
    delay = b.delay;
    chaos_drop = b.drop_percent;
    chaos_burst = b.burst;
    chaos_shuffle = b.shuffled;
  })
