-- ===== src/Main.antt =====
-- src/main.rs: the exit status and what is printed on standard error. The command line is parsed by
-- the crate `clap` before.
pub mod Outcome
pub mod Status
pub mod Recovery
pub mod Delivery
use fin_amor_s_ideal_udp_fiu.Base.{ℕ, String, ◌<>◌, List, [], ◌∷◌, ⊤}
use fin_amor_s_ideal_udp_fiu.Error.{Result, ok, err, panic, to_string}
use fin_amor_s_ideal_udp_fiu.Os.{Os}
use fin_amor_s_ideal_udp_fiu.Config.Types.{Args, Config}
use fin_amor_s_ideal_udp_fiu.Config.FromArgs
use fin_amor_s_ideal_udp_fiu.Crypto.{ChaCha20Poly1305}
use fin_amor_s_ideal_udp_fiu.Fec.{ReedSolomon}
use fin_amor_s_ideal_udp_fiu.Sender.Transport.{Rng}
use fin_amor_s_ideal_udp_fiu.Run.{run}

pub record Exit : Type 0 where
  pub status : ℕ
  pub stderr : List String

-- A panic ends the process with status 101. Its message is printed by the runtime: `stderr` has what
-- the program prints itself.
unfoldable pub exit_of {ℓ} : {A : Type ℓ} → Result A → Exit
unfolding to_string
exit_of (ok a) = record { status = 0; stderr = [] }
exit_of (err e) = record { status = 1; stderr = ("error: " <> to_string e) ∷ [] }
exit_of panic = record { status = 101; stderr = [] }

module _ {G Codec : Type 0} (cipher : ChaCha20Poly1305) (rs : ReedSolomon Codec) (rng : Rng G) where
  run_config : Result Config → Os G → Exit × Os G
  run_config (ok config) os =
      let (result, os') = run cipher rs rng config os in (exit_of result, os')
  run_config (err e) os = (exit_of {A = ⊤} (err e), os)
  run_config panic os = (exit_of {A = ⊤} panic, os)

  unfoldable pub main : Args → Os G → Exit × Os G
  unfolding run_config exit_of FromArgs.try_from
  main args os = run_config (FromArgs.try_from args) os
