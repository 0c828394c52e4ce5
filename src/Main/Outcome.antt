-- ===== src/Main/Outcome.antt =====
-- src/main.rs: the two ways through `main`, and what exit status 0 tells.
use fin_amor_s_ideal_udp_fiu.Base.{
  ◌≤◌, ◌<◌, ◌≡◌, ◌⊎◌, refl, ap, ◌∙◌, sym, inl, inr, min, [], ◌∷◌, ◌<>◌, arith, ⊤,
}
use fin_amor_s_ideal_udp_fiu.Error.{Result, ok, err, panic, invalid_parity_ratio, to_string}
use fin_amor_s_ideal_udp_fiu.Os.{Os}
use fin_amor_s_ideal_udp_fiu.Config.ParityRatio.Bounds.{try_from_iff}
use fin_amor_s_ideal_udp_fiu.Config.Types.{Args, Config, IsValid}
use fin_amor_s_ideal_udp_fiu.Config.FromArgs
use fin_amor_s_ideal_udp_fiu.Crypto.{ChaCha20Poly1305}
use fin_amor_s_ideal_udp_fiu.Fec.{ReedSolomon}
use fin_amor_s_ideal_udp_fiu.Sender.Transport.{Rng}
use fin_amor_s_ideal_udp_fiu.Run.{run}
use fin_amor_s_ideal_udp_fiu.Main.{Exit, exit_of, main}

-- The configuration that the arguments ask for.
abbrev pub config_of : Args → Config
config_of args = record {
  target_ip = args.target;
  rendezvous_secs = args.wake_at;
  key_path = args.key_file;
  input = FromArgs.input_of args.image;
  parity_ratio = record { value = args.parity_ratio };
  target_port = args.port;
  delay = args.delay_us;
  chaos_drop = min args.chaos_drop 100;
  chaos_burst = args.chaos_burst;
  chaos_shuffle = args.chaos_shuffle;
}

-- Arguments are refused for their parity ratio alone, and give a valid configuration otherwise.
pub try_from_cases :
    (args : Args)
    → ((100 < args.parity_ratio)
        × (FromArgs.try_from args ≡ err (invalid_parity_ratio args.parity_ratio)))
      ⊎ ((args.parity_ratio ≤ 100)
          × (FromArgs.try_from args ≡ ok (config_of args))
          × IsValid (config_of args))
unfolding FromArgs.try_from
try_from_cases args = elim (try_from_iff args.parity_ratio) [
  | inr (over, refused) ↦ inl (over, rw refused)
  | inl (within, accepted) ↦
      inr (within, rw accepted, record { ratio = within; loss = omega arith })
]

-- Status 0 is the status of a success.
exit_of_ok : (r : Result ⊤) → (exit_of r).status ≡ 0 → r ≡ ok tt
unfolding exit_of
exit_of_ok (ok t) h = refl
exit_of_ok (err e) h = absurd (omega arith)
exit_of_ok panic h = absurd (omega arith)

stderr_of_ok : (r : Result ⊤) → r ≡ ok tt → (exit_of r).stderr ≡ []
unfolding exit_of
stderr_of_ok r success = rw success

module _ {G Codec : Type 0} (cipher : ChaCha20Poly1305) (rs : ReedSolomon Codec) (rng : Rng G)
    (args : Args) (os : Os G) where
  -- A parity ratio above 100 ends the process with status 1 and its message, with the state as it
  -- was; with any other the arguments give a configuration whose parity ratio and loss are at most
  -- 100 percent, and the process ends with the status, the message and the state of its run.
  pub main_cases :
      ((100 < args.parity_ratio)
        × (main cipher rs rng args os ≡ (
          record {
            status = 1;
            stderr = ("error: " <> to_string (invalid_parity_ratio args.parity_ratio)) ∷ [];
          },
          os,
        )))
      ⊎ ((config : Config) × (args.parity_ratio ≤ 100)
          × (FromArgs.try_from args ≡ ok config)
          × IsValid config
          × (main cipher rs rng args os
              ≡ (exit_of (run cipher rs rng config os).0, (run cipher rs rng config os).1)))
  unfolding main exit_of
  main_cases = elim (try_from_cases args) [
    | inl (over, refused) ↦ inl (over, rw refused)
    | inr (within, accepted, valid) ↦ inr (config_of args, within, accepted, valid, rw accepted)
  ]

  -- If the process exits with status 0, the arguments gave a configuration whose parity ratio and
  -- loss are at most 100 percent, the run of that configuration succeeded, nothing was printed on
  -- standard error, and the state is as that run left it.
  pub main_success :
      (main cipher rs rng args os).0.status ≡ 0
      → (config : Config) × (FromArgs.try_from args ≡ ok config)
        × IsValid config
        × ((run cipher rs rng config os).0 ≡ ok tt)
        × ((main cipher rs rng args os).0.stderr ≡ [])
        × ((main cipher rs rng args os).1 ≡ (run cipher rs rng config os).1)
  main_success zero_status = elim main_cases [
    | inl (over, ended) ↦
        absurd (omega (arith, zero_status, ap (λ (r : Exit × Os G). r.0.status) ended))
    | inr (config, within, accepted, valid, ended) ↦
        let exit = ap (λ (r : Exit × Os G). r.0) ended in
        let success =
          exit_of_ok (run cipher rs rng config os).0
            (sym (ap (λ (e : Exit). e.status) exit) ∙ zero_status) in
        (
          config,
          accepted,
          valid,
          success,
          ap (λ (e : Exit). e.stderr) exit ∙ stderr_of_ok (run cipher rs rng config os).0 success,
          ap (λ (r : Exit × Os G). r.1) ended,
        )
  ]
