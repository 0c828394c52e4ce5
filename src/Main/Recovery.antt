-- ===== src/Main/Recovery.antt =====
-- src/main.rs: what a receiver gets of a process that ended with status 0.
use mathlib.Core.List.{Nodup}
use fin_amor_s_ideal_udp_fiu.Base.{
  ◌≤◌, ◌<◌, ◌≡◌, ◌⊎◌, inl, inr, sym, subst, ap, ◌∙◌, none, some, Bytes, List, ◌++◌, Mem, arith,
  length, replicate, u32_mod,
}
use fin_amor_s_ideal_udp_fiu.Error.{ok}
use fin_amor_s_ideal_udp_fiu.Os.{Os}
use fin_amor_s_ideal_udp_fiu.Protocol.Padding.Laws.{padding}
use fin_amor_s_ideal_udp_fiu.Config.Types.{Config, IsValid}
use fin_amor_s_ideal_udp_fiu.Crypto.{ChaCha20Poly1305, Opener}
use fin_amor_s_ideal_udp_fiu.Crypto.Cipher.{IsChaCha}
use fin_amor_s_ideal_udp_fiu.Fec.{ReedSolomon, reed_solomon_engine}
use fin_amor_s_ideal_udp_fiu.Fec.Engine.{IsReedSolomon}
use fin_amor_s_ideal_udp_fiu.Receiver.{receive}
use fin_amor_s_ideal_udp_fiu.Receiver.Reassembly.{Decoder, IsDecoder, reassemble}
use fin_amor_s_ideal_udp_fiu.Session
use fin_amor_s_ideal_udp_fiu.Sender.Shards.Split.{IsFrame, data_count}
use fin_amor_s_ideal_udp_fiu.Sender.Chaos.{IsRandom}
use fin_amor_s_ideal_udp_fiu.Sender.Transmit.{schedule}
use fin_amor_s_ideal_udp_fiu.Sender.Transport.{Rng, os_runtime}
use fin_amor_s_ideal_udp_fiu.Run.{read_input, run}
use fin_amor_s_ideal_udp_fiu.Config.Types.{Args}
use fin_amor_s_ideal_udp_fiu.Config.FromArgs
use fin_amor_s_ideal_udp_fiu.Main.{main}
use fin_amor_s_ideal_udp_fiu.Main.Outcome.{config_of, try_from_cases, main_success}
use fin_amor_s_ideal_udp_fiu.Run.Recovery.{run_recovers}

-- The only configuration that arguments give is the one that they ask for.
try_from-config_of :
    (args : Args) (config : Config) → FromArgs.try_from args ≡ ok config → config ≡ config_of args
try_from-config_of args config accepted = elim (try_from_cases args) [
  | inl (over, refused) ↦ absurd (ground (arith, accepted, refused))
  | inr (within, accepted', valid) ↦ ground (arith, accepted, accepted')
]

module _ {G Codec : Type 0} (cipher : ChaCha20Poly1305) (opener : Bytes → Opener)
    (chacha : IsChaCha cipher opener) (rs : ReedSolomon Codec) (reed_solomon : IsReedSolomon rs)
    (decode : Decoder) (law : IsDecoder (reed_solomon_engine rs) decode) (rng : Rng G)
    (random : IsRandom (os_runtime rng)) (args : Args) (secs_u32 : args.wake_at < u32_mod)
    (burst_u32 : args.chaos_burst < u32_mod) where
  -- A process that ended with status 0 has run the configuration of its arguments with success.
  main-ran :
      (os : Os G)
      → (main cipher rs rng args os).0.status ≡ 0
      → IsValid (config_of args)
        × ((run cipher rs rng (config_of args) os).0 ≡ ok tt)
        × ((main cipher rs rng args os).1 ≡ (run cipher rs rng (config_of args) os).1)
  main-ran os zero_status =
      let (config, accepted, valid, success, quiet, state) =
        main_success cipher rs rng args os zero_status in
      subst
        (λ c.
          IsValid c
          × ((run cipher rs rng c os).0 ≡ ok tt)
          × ((main cipher rs rng args os).1 ≡ (run cipher rs rng c os).1))
        (try_from-config_of args config accepted) (valid, success, state)

  -- If the process exits with status 0, on a frame that is not empty and fits in memory and with
  -- arguments whose numbers are in the range of their types, over a cipher, an erasure code and a
  -- generator that keep what their crates document, and a decoder that completes any code word from
  -- as many of its slices as it has data slices, then a receiver with the key of the key file puts
  -- together the frame and its padding zeros from any datagrams that arrived in any order, with
  -- repeats, if each of them is one that the process sent or does not open under that key, and at
  -- least as many different ones of the process's arrived as the frame has data slices.
  pub main_recovers :
      (os : Os G) (frame key : Bytes) (sent arrivals heard : List Bytes)
      → (read_input
          (FromArgs.input_of args.image)
          (Session.next (Session.new args.key_file) os).1).0
        ≡ ok frame
      → IsFrame frame
      → (main cipher rs rng args os).0.status ≡ 0
      → os.files args.key_file ≡ some key
      → (main cipher rs rng args os).1.events
        ≡ os.events ++ schedule (record { ip = args.target; port = args.port }) args.delay_us sent
      → ((x : Bytes) → Mem x arrivals → Mem x sent ⊎ (receive (opener key) x ≡ none))
      → Nodup heard
      → ((x : Bytes) → Mem x heard → Mem x arrivals × Mem x sent)
      → data_count frame ≤ length heard
      → reassemble (opener key) decode arrivals ≡ some (frame ++ replicate (padding frame) 0)
  main_recovers os frame key sent arrivals heard read f zero_status key_file wire genuine distinct
        arrived enough =
      let (valid, success, state) = main-ran os zero_status in
      run_recovers cipher opener chacha rs reed_solomon decode law rng random (config_of args) valid
        secs_u32 burst_u32 os frame key sent arrivals heard read f success key_file
        (ap (λ (o : Os G). o.events) (sym state) ∙ wire) genuine distinct arrived enough
