-- ===== src/Tests/Nonces.antt =====
-- Two runs on the files of the fixtures, one after the other.
use mathlib.Core.List.{Nodup}
use fin_amor_s_ideal_udp_fiu.Base
use fin_amor_s_ideal_udp_fiu.Base.{
  ℕ, ◌+◌, ◌≤◌, ◌≡◌, ◌⊎◌, refl, sym, subst, ◌∙◌, Bytes, List, [], ◌∷◌, arith, length, ⊤,
}
use fin_amor_s_ideal_udp_fiu.Slice.{copy_from_slice, chunks_exact, resize}
use fin_amor_s_ideal_udp_fiu.Crypto.{load_key, cha_cha_encryptor}
use fin_amor_s_ideal_udp_fiu.Crypto.Nonce.{derive_nonce}
use fin_amor_s_ideal_udp_fiu.Protocol.Layout.{shard_size}
use fin_amor_s_ideal_udp_fiu.Protocol.Packet.{build_aad, write_packet}
use fin_amor_s_ideal_udp_fiu.Protocol.Padding.{pad_to_shard_size}
use fin_amor_s_ideal_udp_fiu.Config.ParityRatio.{parity_shards}
use fin_amor_s_ideal_udp_fiu.Fec.{reed_solomon_engine}
use fin_amor_s_ideal_udp_fiu.Sender.{send, make_packets, transmit, chaos}
use fin_amor_s_ideal_udp_fiu.Sender.Heads.{heads}
use fin_amor_s_ideal_udp_fiu.Sender.Shards.{split_frame, encode_parity}
use fin_amor_s_ideal_udp_fiu.Sender.Seal.{seal_shards}
use fin_amor_s_ideal_udp_fiu.Sender.Transport.{new_udp_sender, udp_send}
use fin_amor_s_ideal_udp_fiu.Error.{ok}
use fin_amor_s_ideal_udp_fiu.FilePath.{same_path}
use fin_amor_s_ideal_udp_fiu.Os.{Os}
use fin_amor_s_ideal_udp_fiu.Session
use fin_amor_s_ideal_udp_fiu.Run.{read_input, run}
use fin_amor_s_ideal_udp_fiu.Run.Heads.{Adds, run_steps}
use fin_amor_s_ideal_udp_fiu.Run.Nonces.{Runs, Runs-Nodup}
use fin_amor_s_ideal_udp_fiu.Tests.Fixtures.{
  config-IsValid, frame_read, key_path, frame, os, rng, rng-IsRandom, cipher, cipher-IsChaCha,
  opener, codec, codec-IsReedSolomon, config,
}

frame_fits : (frame' : Bytes) → ok frame ≡ ok frame' → length frame' + shard_size ≤ Base.isize_max
frame_fits frame' same = ground arith

abbrev first : Os ⊤
first = (run cipher codec rng config os).1

read_second :
    (read_input config.input (Session.next (Session.new config.key_path) first).1).0 ≡ ok frame
unfolding run same_path load_key Base.replicate copy_from_slice Session.next Session.new
    new_udp_sender send read_input split_frame pad_to_shard_size parity_shards encode_parity
    reed_solomon_engine seal_shards chunks_exact derive_nonce build_aad Base.drop Base.take
    cha_cha_encryptor write_packet udp_send make_packets transmit chaos resize
read_second = refl

after_both :
    Runs cipher opener cipher-IsChaCha codec codec-IsReedSolomon rng rng-IsRandom key_path os
      (run cipher codec rng config first).1
after_both =
    Runs.one_run config config-IsValid (omega arith) (omega arith) refl
      (λ frame' read. frame_fits frame' (sym read_second ∙ read))
      (Runs.one_run config config-IsValid (omega arith) (omega arith) refl
        (λ frame' read. frame_fits frame' (sym frame_read ∙ read)) Runs.begin)

quiet : heads os.events ≡ []
unfolding heads
quiet = refl

Runs-Nodup_example : Nodup (heads (run cipher codec rng config first).1.events)
Runs-Nodup_example =
    Runs-Nodup cipher opener cipher-IsChaCha codec codec-IsReedSolomon rng rng-IsRandom key_path
      after_both quiet

run_steps_example :
    let (result, os') = run cipher codec rng config os in
    (os' ≡ os)
    ⊎ ((os'.files ≡ (Session.next (Session.new config.key_path) os).1.files)
        × Adds (Session.next (Session.new config.key_path) os).0 os.events os'.events)
run_steps_example =
    run_steps cipher opener cipher-IsChaCha codec codec-IsReedSolomon rng rng-IsRandom config
      config-IsValid (omega arith) (omega arith) os
      (λ frame' read. frame_fits frame' (sym frame_read ∙ read))
