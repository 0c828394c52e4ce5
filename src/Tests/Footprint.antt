-- ===== src/Tests/Footprint.antt =====
-- One round of the footprint test, at 5000 bytes and a parity of 10 percent.
use fin_amor_s_ideal_udp_fiu.Base
use fin_amor_s_ideal_udp_fiu.Base.{ℕ, ◌+◌}
use fin_amor_s_ideal_udp_fiu.Config.ParityRatio.{ParityRatio}
use fin_amor_s_ideal_udp_fiu.Sender.Transport.{Runtime}
use fin_amor_s_ideal_udp_fiu.Footprint.{Tally}

abbrev rt : Runtime Tally
rt = record {
  sleep = λ us t. t;
  gen_range_inclusive = λ lo hi t. (lo, t);
  gen_range = λ lo hi t. (lo, t);
  shuffle = λ packets t. (packets, t);
}

abbrev tenth : ParityRatio
tenth = record { value = 10 }

abbrev size : ℕ
size = 5000
