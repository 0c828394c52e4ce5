-- ===== src/Tests/Recovery.antt =====
-- A run on the files of the fixtures, of whose two packets only the parity packet arrives.
use mathlib.Core.List.{Nodup, Nodup-cons, Nodup-nil, mem-cons_of_mem, not-mem-nil}
use fin_amor_s_ideal_udp_fiu.Base
use fin_amor_s_ideal_udp_fiu.Base.{
  ℕ, ◌≤◌, ◌≡◌, ◌⊎◌, inl, refl, Bytes, List, [], ◌∷◌, ◌++◌, Mem, arith, length, drop, replicate,
  some, false,
}
use fin_amor_s_ideal_udp_fiu.Slice.{copy_from_slice, chunks_exact, resize}
use fin_amor_s_ideal_udp_fiu.Crypto.{load_key, cha_cha_encryptor}
use fin_amor_s_ideal_udp_fiu.Crypto.Nonce.{derive_nonce}
use fin_amor_s_ideal_udp_fiu.Protocol.Packet.{build_aad, write_packet}
use fin_amor_s_ideal_udp_fiu.Protocol.Padding.{pad_to_shard_size}
use fin_amor_s_ideal_udp_fiu.Config.ParityRatio.{parity_shards}
use fin_amor_s_ideal_udp_fiu.Fec.{reed_solomon_engine}
use fin_amor_s_ideal_udp_fiu.Sender.{send, make_packets, transmit, chaos}
use fin_amor_s_ideal_udp_fiu.Sender.Shards.{split_frame, encode_parity}
use fin_amor_s_ideal_udp_fiu.Sender.Seal.{seal_shards}
use fin_amor_s_ideal_udp_fiu.Sender.Transport.{new_udp_sender, udp_send}
use fin_amor_s_ideal_udp_fiu.Error.{ok}
use fin_amor_s_ideal_udp_fiu.FilePath.{same_path}
use fin_amor_s_ideal_udp_fiu.Os.{Event, datagram, pause}
use fin_amor_s_ideal_udp_fiu.Protocol.Padding.Laws.{padding}
use fin_amor_s_ideal_udp_fiu.Receiver.Reassembly.{reassemble}
use fin_amor_s_ideal_udp_fiu.Session
use fin_amor_s_ideal_udp_fiu.Run.{read_input, run}
use fin_amor_s_ideal_udp_fiu.Run.Recovery.{run_recovers}
use fin_amor_s_ideal_udp_fiu.Main.{main}
use fin_amor_s_ideal_udp_fiu.Main.Recovery.{main_recovers}
use fin_amor_s_ideal_udp_fiu.Config.Types.{Args}
use fin_amor_s_ideal_udp_fiu.Sender.Transmit.{schedule}
use fin_amor_s_ideal_udp_fiu.Tests.Copies.{
  copies, copies-IsReedSolomon, decode_copies, decode_copies-IsDecoder,
}
use fin_amor_s_ideal_udp_fiu.Tests.Fixtures.{
  config-IsValid, frame_read, key, key_path, image_path, target, frame, frame-IsFrame, os, rng,
  rng-IsRandom, cipher, cipher-IsChaCha, opener, config,
}

unfoldable pub datagrams : List Event → List Bytes
datagrams [] = []
datagrams (datagram t packet ∷ events) = packet ∷ datagrams events
datagrams (pause us ∷ events) = datagrams events

abbrev sent : List Bytes
sent = datagrams (run cipher copies rng config os).1.events

pub mem-drop_one : (l : List Bytes) (x : Bytes) → Mem x (drop 1 l) → Mem x l
unfolding drop
mem-drop_one [] x m = m
mem-drop_one (y ∷ l) x m = mem-cons_of_mem y m

pub one_left : (l : List Bytes) → length l ≡ 2 → Nodup (drop 1 l) × (length (drop 1 l) ≡ 1)
unfolding drop
one_left [] h = absurd (omega arith)
one_left (x ∷ []) h = absurd (omega arith)
one_left (x ∷ y ∷ []) h = (Nodup-cons.1 (not-mem-nil, Nodup-nil), refl)
one_left (x ∷ y ∷ z ∷ l) h = absurd (omega arith)

abbrev lone_parity : List Bytes
lone_parity = drop 1 sent

outcome_of_copies :
    (length sent ≡ 2)
    × ((run cipher copies rng config os).0 ≡ ok tt)
    × ((run cipher copies rng config os).1.events ≡ os.events ++ schedule target 500 sent)
unfolding datagrams run same_path load_key Base.replicate copy_from_slice Session.next Session.new
    new_udp_sender send read_input split_frame pad_to_shard_size parity_shards encode_parity
    reed_solomon_engine seal_shards chunks_exact derive_nonce build_aad Base.drop Base.take
    cha_cha_encryptor write_packet udp_send make_packets transmit chaos resize
outcome_of_copies = (refl, refl, refl)

key_content : os.files key_path ≡ some key
unfolding same_path
key_content = refl

run_recovers_example :
    reassemble (opener key) decode_copies lone_parity ≡ some (frame ++ replicate (padding frame) 0)
run_recovers_example =
    run_recovers cipher opener cipher-IsChaCha copies copies-IsReedSolomon decode_copies
      decode_copies-IsDecoder rng rng-IsRandom config config-IsValid (omega arith) (omega arith) os
      frame key sent lone_parity lone_parity frame_read frame-IsFrame outcome_of_copies.1
      key_content outcome_of_copies.2 (λ x m. inl (mem-drop_one sent x m))
      (one_left sent outcome_of_copies.0).0 (λ x m. (m, mem-drop_one sent x m))
      (omega (arith, (one_left sent outcome_of_copies.0).1))

-- The command with the same settings.
abbrev args : Args
args = record {
  target = (192, 168, 1, 7);
  wake_at = 3600;
  key_file = key_path;
  image = some image_path;
  parity_ratio = 15;
  port = 5050;
  delay_us = 500;
  chaos_burst = 0;
  chaos_drop = 0;
  chaos_shuffle = false;
}

outcome_of_command :
    ((main cipher copies rng args os).0.status ≡ 0)
    × ((main cipher copies rng args os).1.events ≡ os.events ++ schedule target 500 sent)
unfolding main datagrams run same_path load_key Base.replicate copy_from_slice Session.next
    Session.new new_udp_sender send read_input split_frame pad_to_shard_size parity_shards
    encode_parity reed_solomon_engine seal_shards chunks_exact derive_nonce build_aad Base.drop
    Base.take cha_cha_encryptor write_packet udp_send make_packets transmit chaos resize
outcome_of_command = (refl, refl)

main_recovers_example :
    reassemble (opener key) decode_copies lone_parity ≡ some (frame ++ replicate (padding frame) 0)
main_recovers_example =
    main_recovers cipher opener cipher-IsChaCha copies copies-IsReedSolomon decode_copies
      decode_copies-IsDecoder rng rng-IsRandom args (omega arith) (omega arith) os frame key sent
      lone_parity lone_parity frame_read frame-IsFrame outcome_of_command.0 key_content
      outcome_of_command.1 (λ x m. inl (mem-drop_one sent x m))
      (one_left sent outcome_of_copies.0).0 (λ x m. (m, mem-drop_one sent x m))
      (omega (arith, (one_left sent outcome_of_copies.0).1))
