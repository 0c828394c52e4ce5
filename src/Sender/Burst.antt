-- ===== src/Sender/Burst.antt =====
-- src/sender.rs: what `send` as a whole puts on the wire, over the UDP transport.
use mathlib.Core.List.{Sublistᴰ, Perm}
use fin_amor_s_ideal_udp_fiu.Base.{
  ℕ, ◌+◌, ◌≤◌, ◌<◌, ◌≡◌, refl, ap, ◌∙◌, sym, inl, inr, Bool, Bytes, List, [], ◌∷◌, ◌++◌, arith,
  subst, length, length-map, some, Option, suc, ⊤, u32_mod,
}
use fin_amor_s_ideal_udp_fiu.Error.{Result, ok, err, panic, FiudpError, Result-cases}
use fin_amor_s_ideal_udp_fiu.Io.{resume}
use fin_amor_s_ideal_udp_fiu.Os.{Os, Target, Event}
use fin_amor_s_ideal_udp_fiu.Types.SessionId
use fin_amor_s_ideal_udp_fiu.Types.SessionId.{SessionId}
use fin_amor_s_ideal_udp_fiu.Types.RendezvousSecs
use fin_amor_s_ideal_udp_fiu.Types.RendezvousSecs.{RendezvousSecs}
use fin_amor_s_ideal_udp_fiu.Config.ParityRatio.{ParityRatio, IsPercent}
use fin_amor_s_ideal_udp_fiu.Crypto.{Encryptor, Opener, IsAead}
use fin_amor_s_ideal_udp_fiu.Fec.{FecEngine, IsSystematic}
use fin_amor_s_ideal_udp_fiu.Sender.{
  FiudpSender, make_packets, chaos, transmit, send, session_builder,
}
use fin_amor_s_ideal_udp_fiu.Protocol.Packet.{PacketBuilder}
use fin_amor_s_ideal_udp_fiu.Receiver.{Received, receive}
use fin_amor_s_ideal_udp_fiu.Sender.Shards.{u16_max}
use fin_amor_s_ideal_udp_fiu.Sender.Shards.Split.{IsFrame, total_count}
use fin_amor_s_ideal_udp_fiu.Sender.Seal.Receive.{number}
use fin_amor_s_ideal_udp_fiu.Sender.Packets.{IsBurst, make_packets-IsBurst}
use fin_amor_s_ideal_udp_fiu.Sender.Chaos.{IsRandom, least_kept, chaos_keeps}
use fin_amor_s_ideal_udp_fiu.Sender.Chaos.State.{chaos-OnlyRng}
use fin_amor_s_ideal_udp_fiu.Sender.Transmit.{schedule, Transmitted-ok, transmit-Transmitted}
use fin_amor_s_ideal_udp_fiu.Sender.Transport.{
  InputReader, Runtime, Rng, os_runtime, udp_packet_sender,
}

module _ {W : Type 0} (rt : Runtime W) (s : FiudpSender W) (ratio : ParityRatio)
    (secs : RendezvousSecs) (id : SessionId) (w w' : W) (frame : Bytes)
    (read : s.reader.read_all w ≡ (ok frame, w')) where
  -- The pipeline, once the frame is read and its packets are made.
  pub send-of_packets :
      (packets : List Bytes)
      → make_packets s.fec s.encryptor ratio secs id frame ≡ ok packets
      → send rt s ratio secs id w
        ≡ resume (chaos rt s packets w').0 (transmit rt s.sender s.delay) (chaos rt s packets w').1
  unfolding send
  send-of_packets packets made = rw (read, made)

  -- And once the chaos options have chosen what goes out.
  pub send-of_sent :
      (packets sent : List Bytes)
      → make_packets s.fec s.encryptor ratio secs id frame ≡ ok packets
      → (chaos rt s packets w').0 ≡ ok sent
      → send rt s ratio secs id w ≡ transmit rt s.sender s.delay sent (chaos rt s packets w').1
  send-of_sent packets sent made chosen = send-of_packets packets made ∙ rw chosen refl

  pub send-of_failure :
      (e : FiudpError)
      → make_packets s.fec s.encryptor ratio secs id frame ≡ err e
      → send rt s ratio secs id w ≡ (err e, w')
  unfolding send
  send-of_failure e made = rw (read, made)

  pub send-of_panic :
      make_packets s.fec s.encryptor ratio secs id frame ≡ panic
      → send rt s ratio secs id w ≡ (panic, w')
  unfolding send
  send-of_panic made = rw (read, made)

  -- A call that succeeds has made the packets.
  packets_of_success :
      (send rt s ratio secs id w).0 ≡ ok tt
      → (packets : List Bytes) × (make_packets s.fec s.encryptor ratio secs id frame ≡ ok packets)
  packets_of_success success =
      elim (Result-cases (make_packets s.fec s.encryptor ratio secs id frame)) [
        | inl made ↦ made
        | inr (inl (e, made)) ↦ absurd (ground (arith, send-of_failure e made))
        | inr (inr made) ↦ absurd (ground (arith, send-of_panic made))
      ]

-- What a burst that succeeded has put on the wire: packets from which the receiver gets the frame,
-- less those that were dropped on purpose, which leaves at least `least`, in the order of the
-- shuffle, with the delay between them.
pub record IsDelivered (engine : FecEngine) (opener : Opener) (secs : RendezvousSecs)
    (id : SessionId) (frame : Bytes) (least : ℕ) (target : Target) (delay : ℕ)
    (before after : List Event) : Type 0 where
  pub data_shards : ℕ
  pub parity_shards : ℕ
  pub packets : List Bytes
  pub kept : List Bytes
  pub sent : List Bytes
  pub fits_u16 : data_shards + parity_shards ≤ u16_max
  pub burst :
      IsBurst engine opener (session_builder id secs data_shards parity_shards) frame packets
  pub enough_kept : least ≤ length kept
  pub lost : Sublistᴰ kept packets
  pub reordered : Perm sent kept
  pub wire : after ≡ before ++ schedule target delay sent

length-number :
    (b : PacketBuilder) (index : ℕ) (slices : List Bytes)
    → length (number b index slices) ≡ length slices
length-number b index [] = refl
length-number b index (slice ∷ slices) = ap suc (length-number b (index + 1) slices)

-- A burst has a packet for each data and each parity shard.
length-of_counts :
    (engine : FecEngine) (opener : Opener) (b : PacketBuilder) (frame : Bytes)
    (packets : List Bytes)
    → IsBurst engine opener b frame packets
    → length packets ≡ b.data_shards.value + b.parity_shards.value
length-of_counts engine opener b frame packets h = omega (
  arith,
  ap (λ (l : List (Option Received)). length l) h.opened,
  length-map (receive opener) packets,
  length-map {B = Option Received} some (number b 0 h.slices),
  length-number b 0 h.slices,
  h.count,
)

-- And they are at most 65535.
pub length-IsBurst :
    (engine : FecEngine) (opener : Opener) (b : PacketBuilder) (frame : Bytes)
    (packets : List Bytes)
    → IsBurst engine opener b frame packets
    → length packets ≤ u16_max
length-IsBurst engine opener b frame packets h =
    omega (arith, length-of_counts engine opener b frame packets h, h.count, h.fits_u16)

module _ {G : Type 0} (rng : Rng G) (random : IsRandom (os_runtime rng)) (target : Target)
    (reader : InputReader (Os G)) (engine : FecEngine) (systematic : IsSystematic engine)
    (encryptor : Encryptor) (opener : Opener) (aead : IsAead encryptor opener) (delay : ℕ)
    (chaos_drop chaos_burst : ℕ) (chaos_shuffle : Bool) (small : chaos_burst < u32_mod) where
  -- The sender with its production transport.
  abbrev pub udp_pipeline : FiudpSender (Os G)
  udp_pipeline = record {
    reader = reader;
    fec = engine;
    encryptor = encryptor;
    sender = udp_packet_sender target;
    delay = delay;
    chaos_drop = chaos_drop;
    chaos_burst = chaos_burst;
    chaos_shuffle = chaos_shuffle;
  }

  -- If `send` succeeds over the UDP transport on a frame that is not empty and fits in memory, with
  -- a parity ratio of at most 100 percent, arguments in the range of their types, and a cipher, an
  -- erasure code and a random generator that keep their contracts, then the wire holds the packets
  -- of a burst, less those that the chaos options lost, which without the random loss are at most
  -- as many as the burst loss asks for, in the order of their shuffle, with the delay between them;
  -- each packet of the burst opens to its slice under one header, and the data slices put together
  -- are the frame and its zeros.
  pub send-IsDelivered :
      (ratio : ParityRatio) (secs : RendezvousSecs) (id : SessionId) (os os₁ : Os G) (frame : Bytes)
      → IsPercent ratio
      → RendezvousSecs.IsU32 secs
      → SessionId.IsU16 id
      → reader.read_all os ≡ (ok frame, os₁)
      → IsFrame frame
      → (send (os_runtime rng) udp_pipeline ratio secs id os).0 ≡ ok tt
      → IsDelivered engine opener secs id frame
          (least_kept chaos_drop chaos_burst (total_count ratio frame))
          target
          delay
          os₁.events
          (send (os_runtime rng) udp_pipeline ratio secs id os).1.events
  send-IsDelivered ratio secs id os os₁ frame percent u32 u16 read f success =
      let rt = os_runtime rng in
      let (packets, made) =
        packets_of_success rt udp_pipeline ratio secs id os os₁ frame read success in
      let (d, p, fits, total, burst) =
        make_packets-IsBurst engine systematic encryptor opener aead ratio percent secs id u32 u16
          frame f packets made in
      let few = length-IsBurst engine opener (session_builder id secs d p) frame packets burst in
      let (kept, sent, chosen, many, lost, reordered) =
        chaos_keeps rt random udp_pipeline packets os₁ small (omega arith) in
      let os₂ = (chaos rt udp_pipeline packets os₁).1 in
      let run =
        send-of_sent rt udp_pipeline ratio secs id os os₁ frame read packets sent made chosen in
      let same : os₂.events ≡ os₁.events =
        ap (λ (o : Os G). o.events) (chaos-OnlyRng rng udp_pipeline packets os₁) in
      record {
        data_shards = d;
        parity_shards = p;
        packets = packets;
        kept = kept;
        sent = sent;
        fits_u16 = fits;
        burst = burst;
        enough_kept =
            subst (λ n. least_kept chaos_drop chaos_burst n ≤ length kept)
              (omega (
                arith,
                length-of_counts engine opener (session_builder id secs d p) frame packets burst,
                fits,
                total,
              ))
              many;
        lost = lost;
        reordered = reordered;
        wire =
            ap (λ (r : Result ⊤ × Os G). r.1.events) run
            ∙ Transmitted-ok (transmit-Transmitted target rng delay sent os₂)
                (sym (ap (λ (r : Result ⊤ × Os G). r.0) run) ∙ success)
            ∙ ap (λ (events : List Event). events ++ schedule target delay sent) same;
      }
