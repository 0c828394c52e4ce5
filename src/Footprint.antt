-- ===== src/Footprint.antt =====
-- tests/network_footprint.rs: the pipeline between a reader of a constant frame and a sender that
-- counts, and what the test finds on its counters.
use fin_amor_s_ideal_udp_fiu.Base.{ℕ, ◌+◌, ◌*◌, false, Bytes, ⊤, length, replicate}
use fin_amor_s_ideal_udp_fiu.Error.{Result, ok, err, panic, ◌>>=◌, ◌>>◌}
use fin_amor_s_ideal_udp_fiu.Io.{Io}
use fin_amor_s_ideal_udp_fiu.Types.SessionId
use fin_amor_s_ideal_udp_fiu.Types.RendezvousSecs
use fin_amor_s_ideal_udp_fiu.Config.ParityRatio
use fin_amor_s_ideal_udp_fiu.Config.ParityRatio.{ParityRatio}
use fin_amor_s_ideal_udp_fiu.Crypto.{ChaCha20Poly1305, cha_cha_encryptor}
use fin_amor_s_ideal_udp_fiu.Fec.{ReedSolomon, reed_solomon_engine}
use fin_amor_s_ideal_udp_fiu.Sender.{FiudpSender, send}
use fin_amor_s_ideal_udp_fiu.Sender.Transport.{InputReader, PacketSender, Runtime}

-- The two counters, which the sender shares with the test.
pub record Tally : Type 0 where
  pub packet_count : ℕ
  pub byte_count : ℕ

abbrev pub dummy_payload : ℕ → Bytes
dummy_payload size = replicate size 66

abbrev pub dummy_reader : ℕ → InputReader Tally
dummy_reader size = record { read_all = λ t. (ok (dummy_payload size), t) }

unfoldable pub accounting_send : Bytes → Io Tally ⊤
accounting_send packet t =
    (ok tt, record { packet_count = t.packet_count + 1; byte_count = t.byte_count + length packet })

abbrev pub accounting_sender : PacketSender Tally
accounting_sender = record { send = accounting_send }

-- `unwrap`
abbrev pub unwrap : {A : Type 0} → Result A → Result A
unwrap (ok a) = ok a
unwrap (err e) = panic
unwrap panic = panic

-- The UDP payloads with 28 bytes of UDP and IPv4 headers each.
abbrev pub ip_footprint : Tally → ℕ
ip_footprint t = t.byte_count + t.packet_count * 28

-- A success with counters.
abbrev counted : ℕ → ℕ → Result ⊤ × Tally
counted packets bytes = (ok tt, record { packet_count = packets; byte_count = bytes })

abbrev pub zero_key : Bytes
zero_key = replicate 32 0

module _ {Codec : Type 0} (cipher : ChaCha20Poly1305) (rs : ReedSolomon Codec)
    (rt : Runtime Tally) where
  abbrev pub test_pipeline : ℕ → FiudpSender Tally
  test_pipeline size = record {
    reader = dummy_reader size;
    fec = reed_solomon_engine rs;
    encryptor = cha_cha_encryptor cipher zero_key;
    sender = accounting_sender;
    delay = 0;
    chaos_drop = 0;
    chaos_burst = 0;
    chaos_shuffle = false;
  }

  -- One round of the test's loops: the final counters.
  unfoldable pub measure : ℕ → ℕ → Result Tally
  unfolding ParityRatio.try_from
  measure size pct = do
    ratio ← unwrap (ParityRatio.try_from pct)
    let (sent, t) =
        send rt (test_pipeline size) ratio (RendezvousSecs.new 3600) (SessionId.new 1)
          (record { packet_count = 0; byte_count = 0 })
    unwrap sent
    ok t
