-- ===== src/Run.antt =====
-- src/lib.rs, `run`, with `InputSource`'s reader of src/config.rs: the whole program over the
-- operating system, the cipher, the erasure code and the generator of random numbers.
pub mod Effects
pub mod Delivery
pub mod EmptyInput
pub mod Recovery
pub mod Nonces
pub mod Heads
pub mod NoPanic
pub mod Replay
pub mod Success
pub mod Survival
use fin_amor_s_ideal_udp_fiu.Base.{ℕ, ◌<>◌, Bytes, ⊤}
use fin_amor_s_ideal_udp_fiu.Error.{Result, map_err, io}
use fin_amor_s_ideal_udp_fiu.Io.{Io, ◌>>=◌, ◌>>◌}
use fin_amor_s_ideal_udp_fiu.FilePath
use fin_amor_s_ideal_udp_fiu.Os.{Os, Target, read_file}
use fin_amor_s_ideal_udp_fiu.Types.RendezvousSecs
use fin_amor_s_ideal_udp_fiu.Config.Types.{Config, InputSource, file, stdin}
use fin_amor_s_ideal_udp_fiu.Crypto.{ChaCha20Poly1305, FileKeySource, cha_cha_encryptor, load_key}
use fin_amor_s_ideal_udp_fiu.Fec.{ReedSolomon, reed_solomon_engine}
use fin_amor_s_ideal_udp_fiu.Session
use fin_amor_s_ideal_udp_fiu.Sender.{FiudpSender, send}
use fin_amor_s_ideal_udp_fiu.Sender.Transport.{
  InputReader, Rng, os_runtime, new_udp_sender, udp_packet_sender,
}

module _ {G : Type 0} where
  -- `InputReader for InputSource`
  unfoldable pub read_input : InputSource → Io (Os G) Bytes
  unfolding read_file FilePath.display
  read_input (file path) os = (
    map_err (λ e. io ("failed to read input file " <> FilePath.display path) e) (read_file path os),
    os,
  )
  read_input stdin os = (map_err (λ e. io "failed to read from stdin" e) os.stdin, os)

  module _ {Codec : Type 0} (cipher : ChaCha20Poly1305) (rs : ReedSolomon Codec) (rng : Rng G) where
    -- The parts that `run` puts together, once it has the key and the socket.
    abbrev pub pipeline : Config → Bytes → Target → FiudpSender (Os G)
    pipeline config key target = record {
      reader = record { read_all = read_input config.input };
      fec = reed_solomon_engine rs;
      encryptor = cha_cha_encryptor cipher key;
      sender = udp_packet_sender target;
      delay = config.delay;
      chaos_drop = config.chaos_drop;
      chaos_burst = config.chaos_burst;
      chaos_shuffle = config.chaos_shuffle;
    }

    unfoldable pub run : Config → Io (Os G) ⊤
    run config = do
      key ← load_key (record { path = config.key_path })
      session_id ← Session.next (Session.new config.key_path)
      target ← new_udp_sender (record { ip = config.target_ip; port = config.target_port })
      send (os_runtime rng) (pipeline config key target) config.parity_ratio
          (RendezvousSecs.new config.rendezvous_secs) session_id
