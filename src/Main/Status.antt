-- ===== src/Main/Status.antt =====
-- src/main.rs: the status with which the process ends.
use fin_amor_s_ideal_udp_fiu.Base.{◌<◌, ◌≡◌, ◌⊎◌, refl, inl, inr, [], Bytes, length, ⊤, u32_mod}
use fin_amor_s_ideal_udp_fiu.Error.{Result, ok, err, panic, DoesNotPanic}
use fin_amor_s_ideal_udp_fiu.Os.{Os}
use fin_amor_s_ideal_udp_fiu.Config.Types.{Args}
use fin_amor_s_ideal_udp_fiu.Config.FromArgs
use fin_amor_s_ideal_udp_fiu.Crypto.{ChaCha20Poly1305, Opener}
use fin_amor_s_ideal_udp_fiu.Crypto.Cipher.{IsChaCha}
use fin_amor_s_ideal_udp_fiu.Fec.{ReedSolomon}
use fin_amor_s_ideal_udp_fiu.Fec.Engine.{IsReedSolomon}
use fin_amor_s_ideal_udp_fiu.Session
use fin_amor_s_ideal_udp_fiu.Sender.Chaos.{IsRandom}
use fin_amor_s_ideal_udp_fiu.Sender.Transport.{Rng, os_runtime}
use fin_amor_s_ideal_udp_fiu.Run.{run}
use fin_amor_s_ideal_udp_fiu.Run.NoPanic.{FitsMemory, run-DoesNotPanic}
use fin_amor_s_ideal_udp_fiu.Main.{Exit, exit_of, main}
use fin_amor_s_ideal_udp_fiu.Main.Outcome.{config_of, try_from_cases}

-- Success without a complaint, or failure with one.
abbrev pub IsReported : Exit → Type 0
IsReported exit =
    ((exit.status ≡ 0) × (exit.stderr ≡ [])) ⊎ ((exit.status ≡ 1) × (length exit.stderr ≡ 1))

exit_of-IsReported : (r : Result ⊤) → DoesNotPanic r → IsReported (exit_of r)
unfolding exit_of
exit_of-IsReported (ok t) returned = inl (refl, refl)
exit_of-IsReported (err e) returned = inr (refl, refl)
exit_of-IsReported panic returned = absurd (returned refl)

module _ {G Codec : Type 0} (cipher : ChaCha20Poly1305) (opener : Bytes → Opener)
    (chacha : IsChaCha cipher opener) (rs : ReedSolomon Codec) (reed_solomon : IsReedSolomon rs)
    (rng : Rng G) (random : IsRandom (os_runtime rng)) where
  -- For arguments whose numbers are in the range of their types, an input that fits in memory, a
  -- cipher, an erasure code and a generator that keep what their crates document, and any result of
  -- every read, write and send, the process ends with status 0 and nothing on standard error, or
  -- with status 1 and one line on it.
  pub main-IsReported :
      (args : Args) (os : Os G)
      → args.wake_at < u32_mod
      → args.chaos_burst < u32_mod
      → FitsMemory (FromArgs.input_of args.image) (Session.next (Session.new args.key_file) os).1
      → IsReported (main cipher rs rng args os).0
  unfolding main exit_of
  main-IsReported args os secs_u32 burst_u32 fits = elim (try_from_cases args) [
    | inl (over, refused) ↦ rw refused (inr (refl, refl))
    | inr (within, accepted, valid) ↦ rw accepted (
        exit_of-IsReported (run cipher rs rng (config_of args) os).0 (
          run-DoesNotPanic cipher opener chacha rs reed_solomon rng random (config_of args) valid
            secs_u32 burst_u32 os fits))
  ]
