-- ===== src/Tests/Replay.antt =====
-- Two runs on the files of the fixtures. All datagrams of the first arrive again, and of the second only
-- the parity packet does, at a receiver that has processed the first.
use mathlib.Core.List.{mem-cons_self, mem-append, mem-map, Mem-prop, dec_mem, List-discrete}
use mathlib.Core.Logic.Or
use native.Mathlib.Decide.{ℕ_discrete}
use fin_amor_s_ideal_udp_fiu.Base
use fin_amor_s_ideal_udp_fiu.Base.{
  ℕ, ◌+◌, ◌≤◌, ◌≡◌, ◌⊎◌, inl, inr, none, refl, sym, subst, ◌∙◌, Bytes, List, [], ◌∷◌, ◌++◌, Mem,
  map, arith, length, drop, replicate, some, ⊤,
}
use fin_amor_s_ideal_udp_fiu.Slice.{copy_from_slice, chunks_exact, resize}
use fin_amor_s_ideal_udp_fiu.Crypto.{load_key, cha_cha_encryptor}
use fin_amor_s_ideal_udp_fiu.Crypto.Nonce.{derive_nonce}
use fin_amor_s_ideal_udp_fiu.Protocol.Layout.{shard_size}
use fin_amor_s_ideal_udp_fiu.Protocol.Packet.{build_aad, write_packet}
use fin_amor_s_ideal_udp_fiu.Protocol.Padding.{pad_to_shard_size}
use fin_amor_s_ideal_udp_fiu.Config.ParityRatio.{parity_shards}
use fin_amor_s_ideal_udp_fiu.Fec.{reed_solomon_engine}
use fin_amor_s_ideal_udp_fiu.Sender.{send, make_packets, transmit, chaos}
use fin_amor_s_ideal_udp_fiu.Sender.Heads.{heads, head_of}
use fin_amor_s_ideal_udp_fiu.Sender.Shards.{split_frame, encode_parity}
use fin_amor_s_ideal_udp_fiu.Sender.Seal.{seal_shards}
use fin_amor_s_ideal_udp_fiu.Sender.Transmit.{schedule}
use fin_amor_s_ideal_udp_fiu.Sender.Transport.{new_udp_sender, udp_send}
use fin_amor_s_ideal_udp_fiu.Error.{ok}
use fin_amor_s_ideal_udp_fiu.FilePath.{same_path}
use fin_amor_s_ideal_udp_fiu.Os.{Os}
use fin_amor_s_ideal_udp_fiu.Protocol.Padding.Laws.{padding}
use fin_amor_s_ideal_udp_fiu.Receiver.{receive}
use fin_amor_s_ideal_udp_fiu.Receiver.Replay.{receive_frame}
use fin_amor_s_ideal_udp_fiu.Session
use fin_amor_s_ideal_udp_fiu.Types.SessionId.{SessionId}
use fin_amor_s_ideal_udp_fiu.Run.{read_input, run}
use fin_amor_s_ideal_udp_fiu.Run.Nonces.{Runs}
use fin_amor_s_ideal_udp_fiu.Run.Replay.{WasSeen, run_recovers_replayed}
use fin_amor_s_ideal_udp_fiu.Tests.Copies.{
  copies, copies-IsReedSolomon, decode_copies, decode_copies-IsDecoder,
}
use fin_amor_s_ideal_udp_fiu.Tests.Recovery.{datagrams, mem-drop_one, one_left}
use fin_amor_s_ideal_udp_fiu.Tests.Fixtures.{
  config-IsValid, frame_read, key, key_path, target, frame, frame-IsFrame, os, rng, rng-IsRandom,
  cipher, cipher-IsChaCha, opener, config,
}

abbrev first : Os ⊤
first = (run cipher copies rng config os).1

abbrev second : Os ⊤
second = (run cipher copies rng config first).1

-- What the second run sent, and what arrives.
abbrev sent_second : List Bytes
sent_second = drop 2 (datagrams second.events)

abbrev arrivals : List Bytes
arrivals = datagrams first.events ++ drop 1 sent_second

frame_fits : (frame' : Bytes) → ok frame ≡ ok frame' → length frame' + shard_size ≤ Base.isize_max
frame_fits frame' same = ground arith

after_first :
    Runs cipher opener cipher-IsChaCha copies copies-IsReedSolomon rng rng-IsRandom key_path os
      first
after_first =
    Runs.one_run config config-IsValid (omega arith) (omega arith) refl
      (λ frame' read. frame_fits frame' (sym frame_read ∙ read)) Runs.begin

quiet : heads os.events ≡ []
unfolding heads
quiet = refl

outcome_of_second :
    ((read_input config.input (Session.next (Session.new config.key_path) first).1).0 ≡ ok frame)
    × ((run cipher copies rng config first).0 ≡ ok tt)
    × (first.files key_path ≡ some key)
    × (length sent_second ≡ 2)
    × (second.events ≡ first.events ++ schedule target 500 sent_second)
unfolding datagrams run same_path load_key Base.replicate copy_from_slice Session.next Session.new
    new_udp_sender send read_input split_frame pad_to_shard_size parity_shards encode_parity
    reed_solomon_engine seal_shards chunks_exact derive_nonce build_aad Base.drop Base.take
    cha_cha_encryptor write_packet udp_send make_packets transmit chaos resize
outcome_of_second = (refl, refl, refl, refl, refl)

first_wire :
    (heads first.events ≡ (42, 0) ∷ (42, 1) ∷ [])
    × (map head_of (datagrams first.events) ≡ heads first.events)
unfolding heads datagrams run same_path load_key Base.replicate copy_from_slice Session.next
    Session.new new_udp_sender send read_input split_frame pad_to_shard_size parity_shards
    encode_parity reed_solomon_engine seal_shards chunks_exact derive_nonce build_aad Base.drop
    Base.take cha_cha_encryptor write_packet udp_send make_packets transmit chaos resize
first_wire = (refl, refl)

seen : WasSeen (some 42) first.events
seen h same = (
  0,
  subst (λ (n : ℕ). Mem (n, 0) (heads first.events)) (ground (arith, same))
      (subst (λ hs. Mem (42, 0) hs) (sym first_wire.0) mem-cons_self),
)

genuine :
    (x : Bytes)
    → Mem x arrivals
    → Mem x sent_second ⊎ (Mem (head_of x) (heads first.events) ⊎ (receive (opener key) x ≡ none))
genuine x m = elim (dec_mem (List-discrete ℕ_discrete) x sent_second) [
  | yes of_second ↦ inl of_second
  | no absent ↦ inr (
      inl (
        Or.elim Mem-prop (mem-append.0 m)
          (λ of_first.
            subst (λ hs. Mem (head_of x) hs) first_wire.1 (mem-map.1 ∣ (x, of_first, refl) ∣₁))
          (λ later. absurd (absent (mem-drop_one sent_second x later)))))
]

run_recovers_replayed_example :
    (id : SessionId) × ((Session.next (Session.new config.key_path) first).0 ≡ ok id)
    × (receive_frame (some 42) id.value (opener key) decode_copies arrivals
        ≡ some (frame ++ replicate (padding frame) 0))
run_recovers_replayed_example =
    run_recovers_replayed cipher opener cipher-IsChaCha copies copies-IsReedSolomon rng rng-IsRandom
      key_path decode_copies decode_copies-IsDecoder config config-IsValid (omega arith)
      (omega arith) frame key sent_second arrivals (drop 1 sent_second) (some 42) after_first quiet
      refl outcome_of_second.0 frame-IsFrame outcome_of_second.1 outcome_of_second.2
      outcome_of_second.4 seen genuine (one_left sent_second outcome_of_second.3).0
      (λ x m. (mem-append.1 (Or.inr m), mem-drop_one sent_second x m))
      (omega (arith, (one_left sent_second outcome_of_second.3).1))
