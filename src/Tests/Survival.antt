-- ===== src/Tests/Survival.antt =====
-- A run and a process on the files of the fixtures that lose one of their two packets on purpose.
use fin_amor_s_ideal_udp_fiu.Base
use fin_amor_s_ideal_udp_fiu.Base.{
  length-replicate, inr, ◌+◌, ◌<◌, ℕ, ◌≤◌, ◌≡◌, ◌⊎◌, inl, refl, Bytes, List, [], ◌∷◌, ◌++◌, Mem,
  arith, length, drop, replicate, some, true,
}
use fin_amor_s_ideal_udp_fiu.Slice.{copy_from_slice, chunks_exact, resize}
use fin_amor_s_ideal_udp_fiu.Crypto.{load_key, cha_cha_encryptor}
use fin_amor_s_ideal_udp_fiu.Crypto.Nonce.{derive_nonce}
use fin_amor_s_ideal_udp_fiu.Protocol.Packet.{build_aad, write_packet}
use fin_amor_s_ideal_udp_fiu.Protocol.Padding.{pad_to_shard_size}
use fin_amor_s_ideal_udp_fiu.Config.ParityRatio.{parity_shards}
use fin_amor_s_ideal_udp_fiu.Fec.{reed_solomon_engine}
use fin_amor_s_ideal_udp_fiu.Sender.{send, make_packets, transmit, chaos}
use fin_amor_s_ideal_udp_fiu.Sender.Shards.{split_frame, encode_parity}
use fin_amor_s_ideal_udp_fiu.Sender.Seal.{seal_shards}
use fin_amor_s_ideal_udp_fiu.Sender.Transport.{new_udp_sender, udp_send}
use fin_amor_s_ideal_udp_fiu.Error.{ok}
use fin_amor_s_ideal_udp_fiu.FilePath.{same_path}
use fin_amor_s_ideal_udp_fiu.Protocol.Padding.Laws.{padding}
use fin_amor_s_ideal_udp_fiu.Receiver.Reassembly.{reassemble}
use fin_amor_s_ideal_udp_fiu.Session
use fin_amor_s_ideal_udp_fiu.Run.{read_input, run}
use fin_amor_s_ideal_udp_fiu.Run.Survival.{run_survives_burst}
use fin_amor_s_ideal_udp_fiu.Run.Delivery.{target_of}
use fin_amor_s_ideal_udp_fiu.Config.Types.{Args, Config, IsValid}
use fin_amor_s_ideal_udp_fiu.Main.{main}
use fin_amor_s_ideal_udp_fiu.Main.Outcome.{config_of}
use fin_amor_s_ideal_udp_fiu.Main.Delivery.{IsServed, main_delivers}
use fin_amor_s_ideal_udp_fiu.Run.Success.{SealsShards, Encodes, HasRoom}
use fin_amor_s_ideal_udp_fiu.Session.Next.{Holds}
use fin_amor_s_ideal_udp_fiu.Sender.Shards.Split.{data_count}
use fin_amor_s_ideal_udp_fiu.Sender.Transmit.{schedule}
use fin_amor_s_ideal_udp_fiu.Tests.Copies.{
  copies, copy_all_of, copies-IsReedSolomon, decode_copies, decode_copies-IsDecoder,
}
use fin_amor_s_ideal_udp_fiu.Tests.Fixtures.{
  key_path, image_path, frame_read, key, frame, frame-IsFrame, os, rng, rng-IsRandom, cipher,
  cipher-IsChaCha, opener, config,
}

abbrev lossy : Config
lossy = record config { chaos_burst = 1; chaos_shuffle = true }

lossy-IsValid : IsValid lossy
lossy-IsValid = record { ratio = omega arith; loss = omega arith }

lossy_success : (run cipher copies rng lossy os).0 ≡ ok tt
unfolding run same_path load_key Base.replicate copy_from_slice Session.next Session.new
    new_udp_sender send read_input split_frame pad_to_shard_size parity_shards encode_parity
    reed_solomon_engine seal_shards chunks_exact derive_nonce build_aad Base.drop Base.take
    cha_cha_encryptor write_packet udp_send make_packets transmit chaos resize
lossy_success = refl

lossy_key : os.files lossy.key_path ≡ some key
unfolding same_path
lossy_key = refl

parity_left : lossy.chaos_burst ≤ parity_shards lossy.parity_ratio (data_count frame)
unfolding parity_shards
parity_left = omega arith

run_survives_burst_example :
    (sent : List Bytes) × ((run cipher copies rng lossy os).1.events
      ≡ os.events ++ schedule (target_of lossy) 500 sent)
    × (reassemble (opener key) decode_copies sent ≡ some (frame ++ replicate (padding frame) 0))
run_survives_burst_example =
    run_survives_burst cipher opener cipher-IsChaCha copies copies-IsReedSolomon decode_copies
      decode_copies-IsDecoder rng rng-IsRandom lossy lossy-IsValid (omega arith) (omega arith) os
      frame key frame_read frame-IsFrame lossy_success lossy_key refl parity_left

abbrev lossy_args : Args
lossy_args = record {
  target = (192, 168, 1, 7);
  wake_at = 3600;
  key_file = key_path;
  image = some image_path;
  parity_ratio = 15;
  port = 5050;
  delay_us = 500;
  chaos_burst = 1;
  chaos_drop = 0;
  chaos_shuffle = true;
}

cipher-SealsShards : SealsShards cipher
cipher-SealsShards k nonce aad buffer size = (buffer, replicate 16 9, refl)

-- With one data and one parity shard the copies are what the crate would make.
copies-Encodes : Encodes copies (config_of lossy_args) frame
unfolding parity_shards
copies-Encodes = record {
  makes = λ some_data some_parity within. (tt, refl);
  fills = λ size c shards made count some_bytes sizes. (copy_all_of shards, refl);
}

counter : Holds (Session.new key_path) os 41
unfolding Session.new same_path
counter = refl

served : IsServed lossy_args key os
served = record {
  key_readable = refl;
  key_content = lossy_key;
  key_size = length-replicate {A = ℕ} 32 7;
  healthy = record { readable = refl; writable = refl };
  has_next = inr (41, omega arith, counter);
  bound = refl;
  connected = refl;
  takes_all = λ n. refl;
}

frame_room : HasRoom (config_of lossy_args) frame
unfolding parity_shards
frame_room = inl (omega arith)

main_delivers_example :
    let (exit, os') = main cipher copies rng lossy_args os in
    (exit.status ≡ 0)
    × (exit.stderr ≡ [])
    × ((sent : List Bytes) × (os'.events
          ≡ os.events ++ schedule (target_of (config_of lossy_args)) 500 sent)
        × (reassemble (opener key) decode_copies sent
            ≡ some (frame ++ replicate (padding frame) 0)))
main_delivers_example =
    main_delivers cipher opener cipher-IsChaCha cipher-SealsShards copies copies-IsReedSolomon
      decode_copies decode_copies-IsDecoder rng rng-IsRandom lossy_args (omega arith) (omega arith)
      os key frame (omega arith) served frame_read frame-IsFrame copies-Encodes frame_room
      (record { no_drop = refl; within_parity = parity_left })
