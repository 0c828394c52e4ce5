-- ===== src/SendFrame.antt =====
-- examples/send_frame.rs: the program that sends a frame through the builder, without a command line.
use fin_amor_s_ideal_udp_fiu.Base.{
  ℕ, String, ◌<>◌, ◌≡◌, ◌<◌, ◌⊎◌, inl, inr, refl, List, [], ◌∷◌, some, none, false, ⊤, arith,
}
use fin_amor_s_ideal_udp_fiu.Error.{Result, ok, err, panic, FiudpError, empty_input, io, to_string}
use fin_amor_s_ideal_udp_fiu.FilePath.{FilePath}
use fin_amor_s_ideal_udp_fiu.Os.{Os}
use fin_amor_s_ideal_udp_fiu.Config.Types.{Config}
use fin_amor_s_ideal_udp_fiu.Config.FromArgs
use fin_amor_s_ideal_udp_fiu.Config.Builder.{
  default, target, wake_at, key_file, image, parity_ratio, build,
}
use fin_amor_s_ideal_udp_fiu.Config.CommandLine.{Flags, args_of}
use fin_amor_s_ideal_udp_fiu.Crypto.{ChaCha20Poly1305}
use fin_amor_s_ideal_udp_fiu.Fec.{ReedSolomon}
use fin_amor_s_ideal_udp_fiu.Sender.Transport.{Rng}
use fin_amor_s_ideal_udp_fiu.Run.{run}
use fin_amor_s_ideal_udp_fiu.Main.{exit_of, main}

pub record Ended : Type 0 where
  pub status : ℕ
  pub stdout : List String
  pub stderr : List String

abbrev pub key_path : FilePath
key_path = record { parent = "./"; file_name = "psk.bin" }

abbrev pub frame_path : FilePath
frame_path = record { parent = "./"; file_name = "frame.raw" }

-- The arms of the match on an error.
unfoldable pub complaint : FiudpError → String
unfolding to_string
complaint empty_input = "Error: input file is empty."
complaint (io context source) = "I/O error (" <> context <> "): " <> source.message
complaint e = "Error: " <> to_string e

unfoldable pub report : Result ⊤ → Ended
unfolding complaint
report (ok t) = record { status = 0; stdout = "Frame sent successfully." ∷ []; stderr = [] }
report (err e) = record { status = 1; stdout = []; stderr = complaint e ∷ [] }
report panic = record { status = 101; stdout = []; stderr = [] }

unfoldable pub config : Result Config
unfolding target wake_at key_file image parity_ratio build
config = build (
    parity_ratio 20
      (image frame_path (key_file key_path (wake_at 3600 (target (192, 168, 1, 42) default)))))

abbrev pub success : List String
success = "Frame sent successfully." ∷ []

report_cases :
    (r : Result ⊤)
    → ((report r).status ≡ (exit_of r).status)
      × ((((report r).status ≡ 0) × ((report r).stdout ≡ success) × ((report r).stderr ≡ []))
          ⊎ ((0 < (report r).status) × ((report r).stdout ≡ [])))
unfolding report exit_of
report_cases (ok t) = (refl, inl (refl, refl, refl))
report_cases (err e) = (refl, inr (omega arith, refl))
report_cases panic = (refl, inr (omega arith, refl))

-- The command line that asks for the same.
abbrev pub flags : Flags
flags = record {
  target = (192, 168, 1, 42);
  wake_at = 3600;
  key_file = key_path;
  image = some frame_path;
  parity_ratio = some 20;
  port = none;
  delay_us = none;
  chaos_burst = none;
  chaos_drop = none;
  chaos_shuffle = false;
}

module _ {G Codec : Type 0} (cipher : ChaCha20Poly1305) (rs : ReedSolomon Codec) (rng : Rng G) where
  -- `expect` on the configuration, and the match on the run.
  unfoldable pub send_frame : Os G → Ended × Os G
  unfolding config report
  send_frame os = elim config [
    | ok c ↦ let (result, os') = run cipher rs rng c os in (report result, os')
    | err e ↦ (report panic, os)
    | panic ↦ (report panic, os)
  ]

  -- The example program leaves the state as the command with the same settings does, and ends with
  -- the same status; if that is 0 it prints its success and no complaint, and otherwise no success.
  pub send_frame-main :
      (os : Os G)
      → let (ended, os') = send_frame os in
        let (exit, os'') = main cipher rs rng (args_of flags) os in
        (os' ≡ os'')
        × (ended.status ≡ exit.status)
        × (((ended.status ≡ 0) × (ended.stdout ≡ success) × (ended.stderr ≡ []))
            ⊎ ((0 < ended.status) × (ended.stdout ≡ [])))
  unfolding send_frame main FromArgs.try_from args_of
  send_frame-main os = let (statuses, texts) = report_cases _ in (refl, statuses, texts)
