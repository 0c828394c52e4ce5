-- ===== src/Sender/NoPanic.antt =====
-- src/sender.rs: that no slice operation of the pipeline leaves its bounds.
use fin_amor_s_ideal_udp_fiu.Base.{
  ℕ, ◌+◌, ◌≤◌, ◌<◌, ◌≡◌, sym, subst, refl, inl, inr, Bool, Bool-cases, Bytes, List, [], ◌∷◌, arith,
  length, ltb, ◌==◌, replicate, length-replicate, ⊤, u32_mod, isize_max,
}
use fin_amor_s_ideal_udp_fiu.Error.{
  Result, ok, err, panic, DoesNotPanic, bind-DoesNotPanic, map_err-DoesNotPanic, Result-cases,
  map_err,
}
use fin_amor_s_ideal_udp_fiu.Io.{resume-DoesNotPanic}
use fin_amor_s_ideal_udp_fiu.Os.{Os, Target}
use fin_amor_s_ideal_udp_fiu.Types.SessionId
use fin_amor_s_ideal_udp_fiu.Types.SessionId.{SessionId}
use fin_amor_s_ideal_udp_fiu.Types.RendezvousSecs
use fin_amor_s_ideal_udp_fiu.Types.RendezvousSecs.{RendezvousSecs}
use fin_amor_s_ideal_udp_fiu.Protocol.Layout.{packet_size, shard_size}
use fin_amor_s_ideal_udp_fiu.Protocol.Packet.{PacketBuilder, IsTyped, write_packet}
use fin_amor_s_ideal_udp_fiu.Protocol.Packet.Write.{header_bytes, write_packet-eq}
use fin_amor_s_ideal_udp_fiu.Config.ParityRatio.{ParityRatio, IsPercent}
use fin_amor_s_ideal_udp_fiu.Crypto.{Encryptor, Opener, IsAead}
use fin_amor_s_ideal_udp_fiu.Crypto.Nonce.{nonce_bytes}
use fin_amor_s_ideal_udp_fiu.Fec.{FecEngine, IsSystematic}
use fin_amor_s_ideal_udp_fiu.Sender.{
  FiudpSender, session_builder, make_packets, chaos, transmit, send,
}
use fin_amor_s_ideal_udp_fiu.Sender.Shards.{Shards, split_frame, encode_parity}
use fin_amor_s_ideal_udp_fiu.Sender.Shards.Split.{IsFrame, split_frame_cases}
use fin_amor_s_ideal_udp_fiu.Sender.Seal.{shard_index, seal_shard, seal_shards}
use fin_amor_s_ideal_udp_fiu.Sender.Seal.Receive.{seal_shard-bind}
use fin_amor_s_ideal_udp_fiu.Sender.Packets.{make_packets-IsBurst}
use fin_amor_s_ideal_udp_fiu.Sender.Chaos.{IsRandom, chaos_keeps}
use fin_amor_s_ideal_udp_fiu.Sender.Burst.{
  send-of_sent, send-of_failure, length-IsBurst, udp_pipeline,
}
use fin_amor_s_ideal_udp_fiu.Sender.Heads.Send.{frame_nonempty}
use fin_amor_s_ideal_udp_fiu.Sender.Transport.{
  InputReader, Rng, os_runtime, udp_send, udp_packet_sender,
}

-- A cipher and an erasure code that return whatever they are given.
abbrev pub SealsOrRefuses : Encryptor → Type 0
SealsOrRefuses e = (nonce aad shard : Bytes) → DoesNotPanic (e.encrypt_in_place nonce aad shard)

abbrev pub EncodesOrRefuses : FecEngine → Type 0
EncodesOrRefuses engine = (d p : ℕ) (shards : List Bytes) → DoesNotPanic (engine.encode d p shards)

write_packet-DoesNotPanic :
    (b : PacketBuilder) (out aad tag payload : Bytes)
    → length out ≡ packet_size
    → length aad ≡ 12
    → length tag ≡ 16
    → DoesNotPanic (write_packet b out aad tag payload)
write_packet-DoesNotPanic b out aad tag payload ho ha ht =
    rw (write_packet-eq b out aad tag payload ho ha ht)
      (elim (Bool-cases (length payload == shard_size)) [
        | inl full ↦ rw full (λ e. ground arith)
        | inr short ↦ rw short (λ e. ground arith)
      ])

module _ (e : Encryptor) (opener : Opener) (aead : IsAead e opener) (returns : SealsOrRefuses e)
    (b : PacketBuilder) (t : IsTyped b) where
  seal_shard-DoesNotPanic :
      (index : ℕ) (shard : Bytes) → DoesNotPanic (seal_shard e b b.session_id index shard)
  seal_shard-DoesNotPanic index shard =
      let i = shard_index index in
      subst DoesNotPanic (sym (seal_shard-bind e opener aead b t index shard)) (
        bind-DoesNotPanic (e.encrypt_in_place (nonce_bytes b.session_id i) (header_bytes b i) shard)
          _ (returns (nonce_bytes b.session_id i) (header_bytes b i) shard)
          (λ r sealed.
            write_packet-DoesNotPanic b (replicate packet_size 0) (header_bytes b i) r.1 r.0
              (length-replicate packet_size 0) refl
              (aead.length_tag (nonce_bytes b.session_id i) (header_bytes b i) shard sealed)))

  seal_shards-DoesNotPanic :
      (index : ℕ) (shards : List Bytes) → DoesNotPanic (seal_shards e b b.session_id index shards)
  unfolding seal_shards
  seal_shards-DoesNotPanic index [] = λ e. ground arith
  seal_shards-DoesNotPanic index (shard ∷ shards) =
      bind-DoesNotPanic (seal_shard e b b.session_id index shard) _
        (seal_shard-DoesNotPanic index shard)
        (λ packet one.
          bind-DoesNotPanic (seal_shards e b b.session_id (index + 1) shards) _
            (seal_shards-DoesNotPanic (index + 1) shards) (λ packets more e. ground arith))

module _ (engine : FecEngine) (systematic : IsSystematic engine) (encodes : EncodesOrRefuses engine)
    (e : Encryptor) (opener : Opener) (aead : IsAead e opener) (returns : SealsOrRefuses e)
    (ratio : ParityRatio) (percent : IsPercent ratio) (secs : RendezvousSecs) (id : SessionId)
    (u32 : RendezvousSecs.IsU32 secs) (u16 : SessionId.IsU16 id) where
  split_frame-DoesNotPanic :
      (frame : Bytes)
      → length frame + shard_size ≤ isize_max
      → DoesNotPanic (split_frame ratio frame)
  unfolding split_frame
  split_frame-DoesNotPanic frame fits = elim (Bool-cases (length frame == 0)) [
    | inl none_read ↦ rw none_read (λ same. ground arith)
    | inr some_read ↦
        elim (split_frame_cases ratio percent frame
          (record { fits = fits; nonempty = ground arith })) [
            | inl (within, split) ↦ rw (split, split_frame) (λ same. ground arith)
            | inr (over, refused) ↦ rw (refused, split_frame) (λ same. ground arith)
          ]
  ]

  encode_parity-DoesNotPanic : (s : Shards) → DoesNotPanic (encode_parity engine s)
  unfolding encode_parity
  encode_parity-DoesNotPanic s = elim (Bool-cases (ltb 0 s.parity_shards)) [
    | inl some_parity ↦ rw some_parity (encodes s.data_shards s.parity_shards s.slices)
    | inr no_parity ↦ rw no_parity (λ same. ground arith)
  ]

  make_packets-DoesNotPanic :
      (frame : Bytes)
      → length frame + shard_size ≤ isize_max
      → DoesNotPanic (make_packets engine e ratio secs id frame)
  unfolding make_packets
  make_packets-DoesNotPanic frame fits =
      bind-DoesNotPanic (split_frame ratio frame) _ (split_frame-DoesNotPanic frame fits)
        (λ s split.
          bind-DoesNotPanic (encode_parity engine s) _ (encode_parity-DoesNotPanic s)
            (λ shards encoded.
              seal_shards-DoesNotPanic e opener aead returns
                (session_builder id secs s.data_shards s.parity_shards)
                (record {
                  session_id = u16;
                  rendezvous_secs = u32;
                  data_shards = omega arith;
                  parity_shards = omega arith;
                })
                0 shards))

module _ {G : Type 0} (rng : Rng G) (target : Target) (delay : ℕ) where
  udp_send-DoesNotPanic : (packet : Bytes) (os : Os G) → DoesNotPanic (udp_send target packet os).0
  unfolding udp_send
  udp_send-DoesNotPanic packet os =
      bind-DoesNotPanic (map_err _ (os.send_answer os.sends)) _
        (map_err-DoesNotPanic _ (os.send_answer os.sends))
        (λ n answered. elim (Bool-cases (n == length packet)) [
          | inl all ↦ rw all (λ same. ground arith)
          | inr short ↦ rw short (λ same. ground arith)
        ])

  transmit-DoesNotPanic :
      (packets : List Bytes) (os : Os G)
      → DoesNotPanic (transmit (os_runtime rng) (udp_packet_sender target) delay packets os).0
  unfolding transmit
  transmit-DoesNotPanic [] os = λ same. ground arith
  transmit-DoesNotPanic (packet ∷ []) os = udp_send-DoesNotPanic packet os
  transmit-DoesNotPanic (packet ∷ next ∷ packets) os =
      resume-DoesNotPanic (udp_send target packet os).0 _ (udp_send target packet os).1
        (udp_send-DoesNotPanic packet os)
        (λ t sent.
          transmit-DoesNotPanic (next ∷ packets)
            ((os_runtime rng).sleep delay (udp_send target packet os).1))

module _ {G : Type 0} (rng : Rng G) (random : IsRandom (os_runtime rng)) (target : Target)
    (reader : InputReader (Os G)) (engine : FecEngine) (systematic : IsSystematic engine)
    (encodes : EncodesOrRefuses engine) (encryptor : Encryptor) (opener : Opener)
    (aead : IsAead encryptor opener) (returns : SealsOrRefuses encryptor) (delay : ℕ)
    (chaos_drop chaos_burst : ℕ) (chaos_shuffle : Bool) (small : chaos_burst < u32_mod)
    (ratio : ParityRatio) (secs : RendezvousSecs) (id : SessionId) (percent : IsPercent ratio)
    (u32 : RendezvousSecs.IsU32 secs) (u16 : SessionId.IsU16 id) (os os₁ : Os G) where
  abbrev pipe : FiudpSender (Os G)
  pipe =
      udp_pipeline rng random target reader engine systematic encryptor opener aead delay chaos_drop
        chaos_burst chaos_shuffle small

  packets-DoesNotPanic :
      (frame : Bytes) (packets : List Bytes)
      → reader.read_all os ≡ (ok frame, os₁)
      → length frame + shard_size ≤ isize_max
      → make_packets engine encryptor ratio secs id frame ≡ ok packets
      → DoesNotPanic (send (os_runtime rng) pipe ratio secs id os).0
  packets-DoesNotPanic frame packets read fits made =
      let f : IsFrame frame = record {
        fits = fits;
        nonempty = frame_nonempty engine encryptor ratio secs id frame packets made;
      } in
      let rt = os_runtime rng in
      let (d, p, few, total, burst) =
        make_packets-IsBurst engine systematic encryptor opener aead ratio percent secs id u32 u16
          frame f packets made in
      let short = length-IsBurst engine opener (session_builder id secs d p) frame packets burst in
      let (kept, sent, chosen, many, lost, reordered) =
        chaos_keeps rt random pipe packets os₁ small (omega arith) in
      subst (λ (r : Result ⊤ × Os G). DoesNotPanic r.0)
        (sym (send-of_sent rt pipe ratio secs id os os₁ frame read packets sent made chosen))
        (transmit-DoesNotPanic rng target delay sent (chaos rt pipe packets os₁).1)

  -- However the call ends, it returns.
  pub send-DoesNotPanic :
      (answer : Result Bytes)
      → reader.read_all os ≡ (answer, os₁)
      → DoesNotPanic answer
      → ((frame : Bytes) → answer ≡ ok frame → length frame + shard_size ≤ isize_max)
      → DoesNotPanic (send (os_runtime rng) pipe ratio secs id os).0
  unfolding send
  send-DoesNotPanic (err e) read returned fits = rw read (λ same. ground arith)
  send-DoesNotPanic panic read returned fits = absurd (returned refl)
  send-DoesNotPanic (ok frame) read returned fits =
      elim (Result-cases (make_packets engine encryptor ratio secs id frame)) [
        | inl (packets, made) ↦ packets-DoesNotPanic frame packets read (fits frame refl) made
        | inr (inl (e, made)) ↦
            subst (λ (r : Result ⊤ × Os G). DoesNotPanic r.0)
              (sym (send-of_failure (os_runtime rng) pipe ratio secs id os os₁ frame read e made))
              (λ same. ground arith)
        | inr (inr made) ↦ absurd (
            make_packets-DoesNotPanic engine systematic encodes encryptor opener aead returns ratio
              percent secs id u32 u16 frame (fits frame refl) made)
      ]
