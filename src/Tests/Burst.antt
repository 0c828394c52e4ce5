-- ===== src/Tests/Burst.antt =====
-- The pipeline of a burst, on the frame of the fixtures.
use mathlib.Core.List.{Sublistᴰ, Perm}
use fin_amor_s_ideal_udp_fiu.Base.{
  ℕ, String, ◌+◌, ◌≤◌, ◌<◌, ◌≡◌, ◌⊎◌, refl, Bytes, List, [], ◌∷◌, arith, length, replicate,
  length-replicate, min, All, ⊤, false, true,
}
use fin_amor_s_ideal_udp_fiu.Error.{fec, ok, err, empty_input, too_many_shards}
use fin_amor_s_ideal_udp_fiu.Os.{Os}
use fin_amor_s_ideal_udp_fiu.Protocol.Layout.{shard_size, packet_size}
use fin_amor_s_ideal_udp_fiu.Protocol.Packet.{PacketBuilder, IsTyped}
use fin_amor_s_ideal_udp_fiu.Config.ParityRatio.{parity_shards}
use fin_amor_s_ideal_udp_fiu.Fec.{reed_solomon_engine}
use fin_amor_s_ideal_udp_fiu.Sender.{
  FiudpSender, make_packets, chaos, drop_burst, transmit, send, session_builder,
}
use fin_amor_s_ideal_udp_fiu.Sender.Shards.{u16_max, split_frame, encode_parity}
use fin_amor_s_ideal_udp_fiu.Sender.Shards.Split.{IsFrame, data_count, total_count, parts_of}
use fin_amor_s_ideal_udp_fiu.Sender.Seal.{seal_shards}
use fin_amor_s_ideal_udp_fiu.Sender.Seal.Receive.{
  ArePacketsOf, seal_shards-ArePacketsOf, seal_shards_total,
}
use fin_amor_s_ideal_udp_fiu.Sender.Packets.{IsBurst, make_packets-IsBurst}
use fin_amor_s_ideal_udp_fiu.Sender.Transmit.{Transmitted, transmit-Transmitted}
use fin_amor_s_ideal_udp_fiu.Sender.Transport.{os_runtime, udp_packet_sender}
use fin_amor_s_ideal_udp_fiu.Sender.Chaos.{drop_burst-LosesRun, least_kept, chaos_keeps}
use fin_amor_s_ideal_udp_fiu.Sender.Chaos.Losses.{LosesRun}
use fin_amor_s_ideal_udp_fiu.Sender.Burst.{udp_pipeline, IsDelivered, send-IsDelivered}
use fin_amor_s_ideal_udp_fiu.Sender.Outcome.{
  plain_pipeline, send_checks, send_succeeds, make_packets_total,
}
use fin_amor_s_ideal_udp_fiu.Sender.Limits.{send_too_many}
use fin_amor_s_ideal_udp_fiu.Tests.Fixtures.{
  codec, codec-IsReedSolomon, frame, frame-IsFrame, os, rng, rng-IsRandom, key, opener, engine,
  engine-IsSystematic, encryptor, encryptor-IsAead, encryptor-SealsAll, reader, ratio, secs,
  session_id, target,
}

abbrev builder : PacketBuilder
builder = session_builder session_id secs 1 1

builder-IsTyped : IsTyped builder
builder-IsTyped = record {
  session_id = omega arith;
  rendezvous_secs = omega arith;
  data_shards = omega arith;
  parity_shards = omega arith;
}

abbrev slices : List Bytes
slices = replicate 1400 5 ∷ replicate 1400 6 ∷ []

slices_size : All (λ (shard : Bytes). length shard ≡ shard_size) slices
slices_size = (length-replicate {A = ℕ} 1400 5, (length-replicate {A = ℕ} 1400 6, tt))

seal_shards_total_example :
    (packets : List Bytes) × (seal_shards encryptor builder session_id 0 slices ≡ ok packets)
    × (length packets ≡ length slices)
seal_shards_total_example =
    seal_shards_total encryptor (opener key) encryptor-IsAead builder builder-IsTyped 0 slices
      slices_size encryptor-SealsAll

-- The packets that the loop makes of the two slices.
abbrev two_packets : List Bytes
two_packets =
    (seal_shards_total encryptor (opener key) encryptor-IsAead builder builder-IsTyped 0 slices
      slices_size encryptor-SealsAll).0

two_packets_sealed : seal_shards encryptor builder session_id 0 slices ≡ ok two_packets
two_packets_sealed =
    (seal_shards_total encryptor (opener key) encryptor-IsAead builder builder-IsTyped 0 slices
      slices_size encryptor-SealsAll).1

seal_shards-ArePacketsOf_example :
    ArePacketsOf encryptor
      (opener key)
      encryptor-IsAead
      builder
      builder-IsTyped
      0
      slices
      two_packets
seal_shards-ArePacketsOf_example =
    seal_shards-ArePacketsOf encryptor (opener key) encryptor-IsAead builder builder-IsTyped 0
      slices two_packets (omega arith) slices_size two_packets_sealed

frame_total : total_count ratio frame ≤ u16_max
unfolding parity_shards
frame_total = omega arith

frame_encoded : encode_parity engine (parts_of ratio frame) ≡ ok ((parts_of ratio frame).slices)
unfolding encode_parity reed_solomon_engine parity_shards
frame_encoded = refl

abbrev made :
    (packets : List Bytes) × (make_packets engine encryptor ratio secs session_id frame
      ≡ ok packets)
    × All (λ (packet : Bytes). length packet ≡ packet_size) packets
    × (length packets ≡ total_count ratio frame)
made =
    make_packets_total engine encryptor (opener key) ratio secs session_id frame
      ((parts_of ratio frame).slices) engine-IsSystematic encryptor-IsAead encryptor-SealsAll
      (omega arith) (omega arith) (omega arith) frame-IsFrame frame_total frame_encoded

make_packets-IsBurst_example :
    (d : ℕ) × (p : ℕ) × (d + p ≤ u16_max)
    × (d + p ≡ total_count ratio frame)
    × IsBurst engine (opener key) (session_builder session_id secs d p) frame made.0
make_packets-IsBurst_example =
    make_packets-IsBurst engine engine-IsSystematic encryptor (opener key) encryptor-IsAead ratio
      (omega arith) secs session_id (omega arith) (omega arith) frame frame-IsFrame made.0 made.1

transmit-Transmitted_example :
    let (r, os') = transmit (os_runtime rng) (udp_packet_sender target) 500 slices os in
    Transmitted target 500 slices os.events os'.events r
transmit-Transmitted_example = transmit-Transmitted target rng 500 slices os

drop_burst-LosesRun_example :
    (out : List Bytes) × ((drop_burst (os_runtime rng) 1 slices os).0 ≡ ok out)
    × LosesRun (min 1 2) slices out
drop_burst-LosesRun_example =
    drop_burst-LosesRun (os_runtime rng) rng-IsRandom 1 slices os (omega arith) (omega arith)

-- All three options on.
abbrev chaotic : FiudpSender (Os ⊤)
chaotic =
    udp_pipeline rng rng-IsRandom target reader engine engine-IsSystematic encryptor (opener key)
      encryptor-IsAead 500 10 1 true (omega arith)

chaos_keeps_example :
    (kept : List Bytes) × (sent : List Bytes) × ((chaos (os_runtime rng) chaotic slices os).0
      ≡ ok sent)
    × (least_kept 10 1 (length slices) ≤ length kept)
    × Sublistᴰ kept slices
    × Perm sent kept
chaos_keeps_example =
    chaos_keeps (os_runtime rng) rng-IsRandom chaotic slices os (omega arith) (omega arith)

abbrev plain : FiudpSender (Os ⊤)
plain = plain_pipeline target reader engine encryptor 500

send_checks_example :
    ((length frame ≡ 0)
      × (send (os_runtime rng) plain ratio secs session_id os ≡ (err empty_input, os)))
    ⊎ (((0 < length frame)
          × (u16_max < total_count ratio frame)
          × (send (os_runtime rng) plain ratio secs session_id os
              ≡ (err (too_many_shards (total_count ratio frame)), os)))
        ⊎ ((0 < length frame)
            × (total_count ratio frame ≤ u16_max)
            × (split_frame ratio frame ≡ ok (parts_of ratio frame))))
send_checks_example =
    send_checks (os_runtime rng) plain ratio (omega arith) secs session_id os os frame refl
      (omega arith)

sent : (send (os_runtime rng) plain ratio secs session_id os).0 ≡ ok tt
sent =
    send_succeeds rng target reader engine encryptor (opener key) 500 ratio secs session_id os os
      frame ((parts_of ratio frame).slices) engine-IsSystematic encryptor-IsAead encryptor-SealsAll
      (omega arith) (omega arith) (omega arith) refl frame-IsFrame frame_total frame_encoded
      (λ n. refl)

send-IsDelivered_example :
    IsDelivered engine
      (opener key)
      secs
      session_id
      frame
      2
      target
      500
      os.events
      (send (os_runtime rng) plain ratio secs session_id os).1.events
unfolding parity_shards
send-IsDelivered_example =
    send-IsDelivered rng rng-IsRandom target reader engine engine-IsSystematic encryptor
      (opener key) encryptor-IsAead 500 0 0 false (omega arith) ratio secs session_id os os frame
      (omega arith) (omega arith) (omega arith) refl frame-IsFrame sent

-- A frame of 250 data slices, which get 38 parity slices.
abbrev large_frame : Bytes
large_frame = replicate 350000 7

length-large_frame : length large_frame ≡ 350000
length-large_frame = length-replicate {A = ℕ} 350000 7

large_frame-IsFrame : IsFrame large_frame
large_frame-IsFrame = record {
  fits = omega (arith, length-large_frame);
  nonempty = omega (arith, length-large_frame);
}

large_frame_data : data_count large_frame ≡ 250
large_frame_data = omega (arith, length-large_frame)

large_frame_parity : parity_shards ratio (data_count large_frame) ≡ 38
unfolding parity_shards
large_frame_parity = rw large_frame_data refl

send_too_many_example :
    (text : String) × (send
        (os_runtime rng)
        (record (plain_pipeline target
          (record { read_all = λ w. (ok large_frame, w) })
          engine
          encryptor
          500) { fec = reed_solomon_engine codec })
        ratio
        secs
        session_id
        os
      ≡ (err (fec text), os))
send_too_many_example =
    send_too_many codec codec-IsReedSolomon ratio (omega arith) large_frame large_frame-IsFrame
      (omega (arith, large_frame_data, large_frame_parity))
      (omega (arith, large_frame_data, large_frame_parity)) (omega (arith, large_frame_parity))
      (os_runtime rng)
      (plain_pipeline target (record { read_all = λ w. (ok large_frame, w) }) engine encryptor 500)
      secs session_id os os refl
