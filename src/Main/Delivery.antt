-- ===== src/Main/Delivery.antt =====
-- src/main.rs: a process that the system serves well, from the command line to what a receiver gets.
use fin_amor_s_ideal_udp_fiu.Base.{
  ◌≤◌, ◌<◌, ◌≡◌, inl, inr, none, some, Bytes, arith, length, u32_mod, List, ◌++◌, [], refl,
  replicate,
}
use fin_amor_s_ideal_udp_fiu.Error.{ok}
use fin_amor_s_ideal_udp_fiu.Os.{Os}
use fin_amor_s_ideal_udp_fiu.Config.ParityRatio.{parity_shards}
use fin_amor_s_ideal_udp_fiu.Crypto.{ChaCha20Poly1305, Opener}
use fin_amor_s_ideal_udp_fiu.Crypto.Cipher.{IsChaCha}
use fin_amor_s_ideal_udp_fiu.Fec.{ReedSolomon, reed_solomon_engine}
use fin_amor_s_ideal_udp_fiu.Fec.Engine.{IsReedSolomon}
use fin_amor_s_ideal_udp_fiu.Session
use fin_amor_s_ideal_udp_fiu.Session.Next.{IsHealthy}
use fin_amor_s_ideal_udp_fiu.Sender.Shards.Split.{IsFrame, data_count}
use fin_amor_s_ideal_udp_fiu.Sender.Chaos.{IsRandom}
use fin_amor_s_ideal_udp_fiu.Sender.Outcome.{TakesAll}
use fin_amor_s_ideal_udp_fiu.Sender.Transport.{Rng, os_runtime}
use fin_amor_s_ideal_udp_fiu.Run.{read_input}
use fin_amor_s_ideal_udp_fiu.Run.Delivery.{target_of}
use fin_amor_s_ideal_udp_fiu.Protocol.Padding.Laws.{padding}
use fin_amor_s_ideal_udp_fiu.Receiver.Reassembly.{Decoder, IsDecoder, reassemble}
use fin_amor_s_ideal_udp_fiu.Sender.Transmit.{schedule}
use fin_amor_s_ideal_udp_fiu.Config.Types.{Args}
use fin_amor_s_ideal_udp_fiu.Config.FromArgs
use fin_amor_s_ideal_udp_fiu.Main.{main, exit_of}
use fin_amor_s_ideal_udp_fiu.Main.Outcome.{config_of, try_from_cases}
use fin_amor_s_ideal_udp_fiu.Run.Success.{SealsShards, HasNext, Encodes, HasRoom, run_succeeds}
use fin_amor_s_ideal_udp_fiu.Run.Survival.{run_survives_burst}

-- The parity makes up for the packets that the process loses on purpose.
pub record LosesLittle (args : Args) (frame : Bytes) : Type 0 where
  pub no_drop : args.chaos_drop ≡ 0
  pub within_parity :
      args.chaos_burst ≤ parity_shards (config_of args).parity_ratio (data_count frame)

-- What the process needs of the system.
pub record IsServed {G : Type 0} (args : Args) (key : Bytes) (os : Os G) : Type 0 where
  pub key_readable : os.read_fault args.key_file ≡ none
  pub key_content : os.files args.key_file ≡ some key
  pub key_size : length key ≡ 32
  pub healthy : IsHealthy (Session.new args.key_file) os
  pub has_next : HasNext (Session.new args.key_file) os
  pub bound : os.bind_fault ≡ none
  pub connected : os.connect_fault ≡ none
  pub takes_all : TakesAll os

module _ {G Codec : Type 0} (cipher : ChaCha20Poly1305) (opener : Bytes → Opener)
    (chacha : IsChaCha cipher opener) (seals : SealsShards cipher) (rs : ReedSolomon Codec)
    (reed_solomon : IsReedSolomon rs) (decode : Decoder)
    (law : IsDecoder (reed_solomon_engine rs) decode) (rng : Rng G)
    (random : IsRandom (os_runtime rng)) (args : Args) (secs_u32 : args.wake_at < u32_mod)
    (burst_u32 : args.chaos_burst < u32_mod) where
  -- Over a system with a readable key file of 32 bytes, a readable and writable session file that
  -- is missing or holds a counter below 65535, a socket that is made and a network that takes every
  -- packet; with arguments whose numbers are in the range of their types, a parity ratio of at most
  -- 100 percent, no random loss and a burst loss of at most the number of the frame's parity
  -- shards; an input that is not empty, fits in memory and has at most 256 data and parity shards,
  -- or no parity and at most 65535 shards; a cipher, an erasure code and a generator that keep what
  -- their crates document, of which the first seals every shard and the second refuses nothing, at
  -- the frame's counts, but what its crate does; and a decoder that completes any code word from as
  -- many of its slices as it has data slices: the process exits with status 0 and nothing on
  -- standard error, what it added to the wire is the schedule of some packets, and a receiver with
  -- the key of the key file puts together the frame and its padding zeros from them.
  pub main_delivers :
      (os : Os G) (key frame : Bytes)
      → args.parity_ratio ≤ 100
      → IsServed args key os
      → (read_input
          (FromArgs.input_of args.image)
          (Session.next (Session.new args.key_file) os).1).0
        ≡ ok frame
      → IsFrame frame
      → Encodes rs (config_of args) frame
      → HasRoom (config_of args) frame
      → LosesLittle args frame
      → let (exit, os') = main cipher rs rng args os in
        (exit.status ≡ 0)
        × (exit.stderr ≡ [])
        × ((sent : List Bytes) × (os'.events
              ≡ os.events ++ schedule (target_of (config_of args)) args.delay_us sent)
            × (reassemble (opener key) decode sent ≡ some (frame ++ replicate (padding frame) 0)))
  unfolding main exit_of
  main_delivers os key frame percent served read f crate room little = elim (try_from_cases args) [
    | inl (over, refused) ↦ absurd (omega arith)
    | inr (within, accepted, valid) ↦
        let success =
          run_succeeds cipher opener chacha seals rs reed_solomon rng random (config_of args) valid
            secs_u32 burst_u32 os key frame served.key_readable served.key_content served.key_size
            served.healthy served.has_next served.bound served.connected read f crate room
            served.takes_all in
        let no_drop : (config_of args).chaos_drop ≡ 0 = omega (arith, little.no_drop) in
        rw accepted (
          rw success refl,
          rw success refl,
          run_survives_burst cipher opener chacha rs reed_solomon decode law rng random
              (config_of args) valid secs_u32 burst_u32 os frame key read f success
              served.key_content no_drop little.within_parity,
        )
  ]
