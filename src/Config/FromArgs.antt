-- ===== src/Config/FromArgs.antt =====
-- src/config.rs, `TryFrom<Args> for Config`.
use fin_amor_s_ideal_udp_fiu.Base.{Option, none, some, min}
use fin_amor_s_ideal_udp_fiu.Error.{Result, ok, ◌>>=◌}
use fin_amor_s_ideal_udp_fiu.FilePath.{FilePath}
use fin_amor_s_ideal_udp_fiu.Config.ParityRatio
use fin_amor_s_ideal_udp_fiu.Config.Types.{Args, Config, InputSource, file, stdin}

abbrev pub input_of : Option FilePath → InputSource
input_of (some path) = file path
input_of none = stdin

unfoldable pub try_from : Args → Result Config
unfolding ParityRatio.try_from
try_from args = do
  parity_ratio ← ParityRatio.try_from args.parity_ratio
  ok (record {
    target_ip = args.target;
    rendezvous_secs = args.wake_at;
    key_path = args.key_file;
    input = input_of args.image;
    parity_ratio = parity_ratio;
    target_port = args.port;
    delay = args.delay_us;
    chaos_drop = min args.chaos_drop 100;
    chaos_burst = args.chaos_burst;
    chaos_shuffle = args.chaos_shuffle;
  })
