-- ===== src/Tests/Whole.antt =====
-- Whole runs on the files of the fixtures.
use fin_amor_s_ideal_udp_fiu.Base.{
  ℕ, ◌≤◌, ◌⊎◌, ◌<>◌, ◌+◌, u16_to_be_bytes, ◌<◌, ◌≡◌, refl, Bytes, List, [], ◌∷◌, arith, ⊤, false,
  true, some,
}
use fin_amor_s_ideal_udp_fiu.Base
use fin_amor_s_ideal_udp_fiu.Slice.{copy_from_slice, chunks_exact, resize}
use fin_amor_s_ideal_udp_fiu.Crypto.{load_key, cha_cha_encryptor}
use fin_amor_s_ideal_udp_fiu.Crypto.Nonce.{derive_nonce}
use fin_amor_s_ideal_udp_fiu.Protocol.Packet.{build_aad, write_packet}
use fin_amor_s_ideal_udp_fiu.Protocol.Padding.{pad_to_shard_size}
use fin_amor_s_ideal_udp_fiu.Config.ParityRatio.{parity_shards}
use fin_amor_s_ideal_udp_fiu.Fec.{reed_solomon_engine}
use fin_amor_s_ideal_udp_fiu.Sender.{send, make_packets, transmit, chaos}
use fin_amor_s_ideal_udp_fiu.Sender.Shards.{split_frame, encode_parity}
use fin_amor_s_ideal_udp_fiu.Sender.Seal.{seal_shards}
use fin_amor_s_ideal_udp_fiu.Sender.Transport.{new_udp_sender, udp_send}
use fin_amor_s_ideal_udp_fiu.Error.{ok, err, empty_input}
use fin_amor_s_ideal_udp_fiu.FilePath.{same_path}
use fin_amor_s_ideal_udp_fiu.Config.Types.{Config, stdin, IsValid}
use fin_amor_s_ideal_udp_fiu.Session
use fin_amor_s_ideal_udp_fiu.Run.{read_input, run}
use fin_amor_s_ideal_udp_fiu.Run.Effects.{run_other_files, run_key_file}
use fin_amor_s_ideal_udp_fiu.Run.Delivery.{HasDelivered, run-HasDelivered}
use fin_amor_s_ideal_udp_fiu.Run.EmptyInput.{run_empty_input}
use fin_amor_s_ideal_udp_fiu.Session.Next.{IsHealthy}
use fin_amor_s_ideal_udp_fiu.Error.{invalid_parity_ratio, to_string}
use fin_amor_s_ideal_udp_fiu.Config.Types.{Args}
use fin_amor_s_ideal_udp_fiu.Config.FromArgs
use fin_amor_s_ideal_udp_fiu.Main.{main, exit_of}
use fin_amor_s_ideal_udp_fiu.SendFrame.{send_frame, flags, success, send_frame-main}
use fin_amor_s_ideal_udp_fiu.Config.CommandLine.{args_of}
use fin_amor_s_ideal_udp_fiu.Main.Outcome.{main_cases}
use fin_amor_s_ideal_udp_fiu.Tests.Fixtures.{
  config-IsValid, frame_read, key, key_path, image_path, frame, frame-IsFrame, os, rng,
  rng-IsRandom, cipher, cipher-IsChaCha, opener, codec, codec-IsReedSolomon, config,
}

image_is_not_session : same_path (Session.new config.key_path).path image_path ≡ false
unfolding same_path Session.new
image_is_not_session = refl

run_other_files_example : (run cipher codec rng config os).1.files image_path ≡ os.files image_path
run_other_files_example = run_other_files cipher codec rng config image_path os image_is_not_session

run_key_file_example :
    (run cipher codec rng config os).1.files config.key_path ≡ os.files config.key_path
run_key_file_example = run_key_file cipher codec rng config os

run_succeeds : (run cipher codec rng config os).0 ≡ ok tt
unfolding run same_path load_key Base.replicate copy_from_slice Session.next Session.new
    new_udp_sender send read_input split_frame pad_to_shard_size parity_shards encode_parity
    reed_solomon_engine seal_shards chunks_exact derive_nonce build_aad Base.drop Base.take
    cha_cha_encryptor write_packet udp_send make_packets transmit chaos resize
run_succeeds = refl

run-HasDelivered_example :
    HasDelivered cipher opener cipher-IsChaCha codec codec-IsReedSolomon rng rng-IsRandom config
      config-IsValid
      (omega arith)
      (omega arith)
      frame
      os
      (run cipher codec rng config os).1
run-HasDelivered_example =
    run-HasDelivered cipher opener cipher-IsChaCha codec codec-IsReedSolomon rng rng-IsRandom config
      config-IsValid (omega arith) (omega arith) os frame frame_read frame-IsFrame run_succeeds

-- The frame comes from standard input, which is empty.
abbrev piped : Config
piped = record config { input = stdin }

abbrev piped_store : Session.SessionIdStore
piped_store = Session.new key_path

piped-IsHealthy : IsHealthy piped_store os
piped-IsHealthy = record { readable = refl; writable = refl }

key_loads : (load_key (record { path = key_path }) os).0 ≡ ok key
unfolding load_key same_path Base.replicate copy_from_slice Base.take Base.drop
key_loads = refl

piped_counter : os.files piped_store.path ≡ some (u16_to_be_bytes 41)
unfolding Session.new same_path
piped_counter = refl

piped_read : (read_input stdin (Session.next piped_store os).1).0 ≡ ok []
unfolding read_input Session.next Session.new same_path
piped_read = refl

run_empty_input_example :
    ((run cipher codec rng piped os).0 ≡ err empty_input)
    × ((run cipher codec rng piped os).1.files piped_store.path ≡ some (u16_to_be_bytes (41 + 1)))
    × ((run cipher codec rng piped os).1.events ≡ os.events)
run_empty_input_example =
    run_empty_input cipher codec rng piped os key 41 key_loads piped-IsHealthy piped_counter
      (omega arith) refl refl piped_read

-- The command line that asks for the configuration of the fixtures.
abbrev args : Args
args = record {
  target = (192, 168, 1, 7);
  wake_at = 3600;
  key_file = key_path;
  image = some image_path;
  parity_ratio = 15;
  port = 5050;
  delay_us = 500;
  chaos_burst = 0;
  chaos_drop = 0;
  chaos_shuffle = false;
}

abbrev refused_args : Args
refused_args = record args { parity_ratio = 150 }

main_cases_example :
    ((100 < refused_args.parity_ratio)
      × (main cipher codec rng refused_args os ≡ (
        record {
          status = 1;
          stderr = ("error: " <> to_string (invalid_parity_ratio refused_args.parity_ratio)) ∷ [];
        },
        os,
      )))
    ⊎ ((c : Config) × (refused_args.parity_ratio ≤ 100)
        × (FromArgs.try_from refused_args ≡ ok c)
        × IsValid c
        × (main cipher codec rng refused_args os
            ≡ (exit_of (run cipher codec rng c os).0, (run cipher codec rng c os).1)))
main_cases_example = main_cases cipher codec rng refused_args os

exits_with_zero : (main cipher codec rng args os).0.status ≡ 0
unfolding main run same_path load_key Base.replicate copy_from_slice Session.next Session.new
    new_udp_sender send read_input split_frame pad_to_shard_size parity_shards encode_parity
    reed_solomon_engine seal_shards chunks_exact derive_nonce build_aad Base.drop Base.take
    cha_cha_encryptor write_packet udp_send make_packets transmit chaos resize
exits_with_zero = refl

-- The example's program on the files of the fixtures, where it finds no key.
send_frame-main_example :
    let (ended, os') = send_frame cipher codec rng os in
    let (exit, os'') = main cipher codec rng (args_of flags) os in
    (os' ≡ os'')
    × (ended.status ≡ exit.status)
    × (((ended.status ≡ 0) × (ended.stdout ≡ success) × (ended.stderr ≡ []))
        ⊎ ((0 < ended.status) × (ended.stdout ≡ [])))
send_frame-main_example = send_frame-main cipher codec rng os
