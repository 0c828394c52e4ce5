-- ===== src/Sender/Outcome.antt =====
-- src/sender.rs: when `send` refuses, and when it succeeds.
use fin_amor_s_ideal_udp_fiu.Base.{
  ℕ, ◌+◌, ◌≤◌, ◌<◌, ◌≡◌, ◌⊎◌, refl, inl, inr, false, Bytes, List, [], ◌∷◌, arith, length, isize_max,
  ◌∙◌, Bool-cases, ◌==◌, ==_iff, All,
}
use fin_amor_s_ideal_udp_fiu.Error.{ok, err, done, empty_input, too_many_shards}
use fin_amor_s_ideal_udp_fiu.Os.{Os, Target}
use fin_amor_s_ideal_udp_fiu.Types.SessionId
use fin_amor_s_ideal_udp_fiu.Types.SessionId.{SessionId}
use fin_amor_s_ideal_udp_fiu.Types.RendezvousSecs
use fin_amor_s_ideal_udp_fiu.Types.RendezvousSecs.{RendezvousSecs}
use fin_amor_s_ideal_udp_fiu.Protocol.Layout.{packet_size, shard_size}
use fin_amor_s_ideal_udp_fiu.Config.ParityRatio.{ParityRatio, IsPercent}
use fin_amor_s_ideal_udp_fiu.Crypto.{Encryptor, Opener, IsAead}
use fin_amor_s_ideal_udp_fiu.Fec.{FecEngine, IsSystematic}
use fin_amor_s_ideal_udp_fiu.Sender.{FiudpSender, make_packets, transmit, send, session_builder}
use fin_amor_s_ideal_udp_fiu.Sender.Shards.{u16_max, split_frame, encode_parity}
use fin_amor_s_ideal_udp_fiu.Sender.Shards.Split.{
  parts_of-IsSplit, IsFrame, total_count, parts_of, split_frame_cases,
}
use fin_amor_s_ideal_udp_fiu.Sender.Seal.Receive.{seal_shards_total}
use fin_amor_s_ideal_udp_fiu.Sender.Packets.{encode_parity_keeps, make_packets-IsBurst}
use fin_amor_s_ideal_udp_fiu.Sender.Chaos.{chaos_off}
use fin_amor_s_ideal_udp_fiu.Sender.Burst.{send-of_packets}
use fin_amor_s_ideal_udp_fiu.Protocol.Packet.{IsTyped}
use fin_amor_s_ideal_udp_fiu.Sender.Transport.{
  InputReader, Runtime, Rng, os_runtime, udp_send, udp_packet_sender,
}

module _ {W : Type 0} (rt : Runtime W) (s : FiudpSender W) (ratio : ParityRatio)
    (percent : IsPercent ratio) (secs : RendezvousSecs) (id : SessionId) (w w' : W) (frame : Bytes)
    (read : s.reader.read_all w ≡ (ok frame, w'))
    (fits : length frame + shard_size ≤ isize_max) where
  -- Once a frame that fits in memory is read, at a parity ratio of at most 100 percent, an empty
  -- one is refused as empty, and one with more than 65535 shards is refused with their number, both
  -- with the state as the read left it; any other frame is split.
  pub send_checks :
      ((length frame ≡ 0) × (send rt s ratio secs id w ≡ (err empty_input, w')))
      ⊎ (((0 < length frame)
            × (u16_max < total_count ratio frame)
            × (send rt s ratio secs id w ≡ (err (too_many_shards (total_count ratio frame)), w')))
          ⊎ ((0 < length frame)
              × (total_count ratio frame ≤ u16_max)
              × (split_frame ratio frame ≡ ok (parts_of ratio frame))))
  unfolding send make_packets split_frame
  send_checks = elim (Bool-cases (length frame == 0)) [
    | inl none_read ↦ inl ((==_iff (length frame) 0).0 none_read, rw (read, none_read))
    | inr some_read ↦
        let f : IsFrame frame = record { fits = fits; nonempty = ground arith } in
        elim (split_frame_cases ratio percent frame f) [
          | inl (within, split) ↦ inr (inr (f.nonempty, within, split))
          | inr (over, refused) ↦ inr (inl (f.nonempty, over, rw (read, refused)))
        ]
  ]

-- The network takes every packet whole.
abbrev pub TakesAll : {G : Type 0} → Os G → Type 0
TakesAll os = (n : ℕ) → os.send_answer n ≡ done packet_size

-- The cipher refuses no shard.
abbrev pub SealsAll : Encryptor → Type 0
SealsAll e =
    (nonce aad shard : Bytes)
    → length shard ≡ shard_size
    → (r : Bytes × Bytes) × (e.encrypt_in_place nonce aad shard ≡ ok r)

-- The production transport, without the chaos options.
abbrev pub plain_pipeline :
    {G : Type 0} → Target → InputReader (Os G) → FecEngine → Encryptor → ℕ → FiudpSender (Os G)
plain_pipeline target reader engine encryptor delay = record {
  reader = reader;
  fec = engine;
  encryptor = encryptor;
  sender = udp_packet_sender target;
  delay = delay;
  chaos_drop = 0;
  chaos_burst = 0;
  chaos_shuffle = false;
}

module _ {G : Type 0} (rng : Rng G) (target : Target) (delay : ℕ) where
  udp_send_takes :
      (packet : Bytes) (os : Os G)
      → length packet ≡ packet_size
      → TakesAll os
      → ((udp_send target packet os).0 ≡ ok tt) × TakesAll (udp_send target packet os).1
  unfolding udp_send
  udp_send_takes packet os size takes = (rw (takes os.sends, size), takes)

  -- The loop succeeds if the network takes every packet.
  pub transmit_takes :
      (packets : List Bytes) (os : Os G)
      → All (λ (packet : Bytes). length packet ≡ packet_size) packets
      → TakesAll os
      → (transmit (os_runtime rng) (udp_packet_sender target) delay packets os).0 ≡ ok tt
  unfolding transmit
  transmit_takes [] os sizes takes = refl
  transmit_takes (packet ∷ []) os sizes takes = (udp_send_takes packet os sizes.0 takes).0
  transmit_takes (packet ∷ next ∷ packets) os sizes takes =
      let (first, takes') = udp_send_takes packet os sizes.0 takes in
      rw first (
        transmit_takes (next ∷ packets) ((os_runtime rng).sleep delay (udp_send target packet os).1)
          sizes.1 takes')

-- The packets of a frame are made if the cipher and the erasure code do their part.
pub make_packets_total :
    (engine : FecEngine) (encryptor : Encryptor) (opener : Opener) (ratio : ParityRatio)
    (secs : RendezvousSecs) (id : SessionId) (frame : Bytes) (shards : List Bytes)
    → IsSystematic engine
    → IsAead encryptor opener
    → SealsAll encryptor
    → IsPercent ratio
    → RendezvousSecs.IsU32 secs
    → SessionId.IsU16 id
    → IsFrame frame
    → total_count ratio frame ≤ u16_max
    → encode_parity engine (parts_of ratio frame) ≡ ok shards
    → (packets : List Bytes) × (make_packets engine encryptor ratio secs id frame ≡ ok packets)
      × All (λ (packet : Bytes). length packet ≡ packet_size) packets
      × (length packets ≡ total_count ratio frame)
unfolding make_packets
make_packets_total engine encryptor opener ratio secs id frame shards systematic aead seals percent
      u32 u16 f within encoded =
    let s = parts_of ratio frame in
    let kept =
      encode_parity_keeps engine systematic frame s shards
        (parts_of-IsSplit ratio percent frame f within) encoded in
    let builder = session_builder id secs s.data_shards s.parity_shards in
    let typed : IsTyped builder = record {
      session_id = u16;
      rendezvous_secs = u32;
      data_shards = omega arith;
      parity_shards = omega arith;
    } in
    let (packets, sealed, count) =
      seal_shards_total encryptor opener aead builder typed 0 shards kept.sizes seals in
    let made : make_packets engine encryptor ratio secs id frame ≡ ok packets =
      elim (split_frame_cases ratio percent frame f) [
        | inl (within', split) ↦ rw (split, encoded) sealed
        | inr (over, refused) ↦ absurd (omega arith)
      ] in
    let (d, p, fits, total, burst) =
      make_packets-IsBurst engine systematic encryptor opener aead ratio percent secs id u32 u16
        frame f packets made in
    (packets, made, burst.sizes, count ∙ kept.count)

-- Without the chaos options, at a parity ratio of at most 100 percent, with arguments in the range
-- of their types, a cipher that keeps its contract and seals every shard, an erasure code that
-- keeps its contract and fills the parity of this frame, and a network that takes every packet,
-- `send` succeeds for every frame that is not empty, fits in memory and has at most 65535 shards.
pub send_succeeds :
    {G : Type 0} (rng : Rng G) (target : Target) (reader : InputReader (Os G)) (engine : FecEngine)
    (encryptor : Encryptor) (opener : Opener) (delay : ℕ) (ratio : ParityRatio)
    (secs : RendezvousSecs) (id : SessionId) (os os₁ : Os G) (frame : Bytes) (shards : List Bytes)
    → IsSystematic engine
    → IsAead encryptor opener
    → SealsAll encryptor
    → IsPercent ratio
    → RendezvousSecs.IsU32 secs
    → SessionId.IsU16 id
    → reader.read_all os ≡ (ok frame, os₁)
    → IsFrame frame
    → total_count ratio frame ≤ u16_max
    → encode_parity engine (parts_of ratio frame) ≡ ok shards
    → TakesAll os₁
    → (send
        (os_runtime rng)
        (plain_pipeline target reader engine encryptor delay)
        ratio
        secs
        id
        os).0
      ≡ ok tt
send_succeeds rng target reader engine encryptor opener delay ratio secs id os os₁ frame shards
      systematic aead seals percent u32 u16 read f within encoded takes =
    let s = plain_pipeline target reader engine encryptor delay in
    let (packets, made, sizes, count) =
      make_packets_total engine encryptor opener ratio secs id frame shards systematic aead seals
        percent u32 u16 f within encoded in
    let off = chaos_off (os_runtime rng) s packets os₁ refl refl refl in
    rw (send-of_packets (os_runtime rng) s ratio secs id os os₁ frame read packets made, off)
      (transmit_takes rng target delay packets os₁ sizes takes)
