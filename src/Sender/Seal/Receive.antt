-- ===== src/Sender/Seal/Receive.antt =====
-- src/sender.rs: what the packet loop makes of the shards, and what a receiver gets from it.
use fin_amor_s_ideal_udp_fiu.Base.{
  ℕ, suc, ◌+◌, ◌≤◌, ◌<◌, ◌%◌, ◌≡◌, refl, ap, ◌∙◌, sym, Bytes, List, [], ◌∷◌, map, some, arith,
  length, replicate, All, u16_mod, length-replicate, ==_iff,
}
use fin_amor_s_ideal_udp_fiu.Error.{ok, ◌>>=◌, steps_of_ok}
use fin_amor_s_ideal_udp_fiu.Protocol.Layout.{packet_size, shard_size}
use fin_amor_s_ideal_udp_fiu.Protocol.Packet.{PacketBuilder, IsTyped, write_packet}
use fin_amor_s_ideal_udp_fiu.Protocol.Packet.Write.{header_bytes, build_aad-eq, write_packet-eq}
use fin_amor_s_ideal_udp_fiu.Protocol.Packet.RoundTrip.{
  packet_bytes, length-packet_bytes, parse_packet-packet_bytes,
}
use fin_amor_s_ideal_udp_fiu.Crypto.{Encryptor, Opener, IsAead}
use fin_amor_s_ideal_udp_fiu.Crypto.Nonce.{derive_nonce-eq, nonce_bytes}
use fin_amor_s_ideal_udp_fiu.Receiver.{Received, receive}
use fin_amor_s_ideal_udp_fiu.Sender.Seal.{shard_index, seal_shard, seal_shards}

-- What the receiver should find in the packet of a shard.
abbrev pub received : PacketBuilder → ℕ → Bytes → Received
received b index shard = record {
  session_id = b.session_id.value;
  shard_index = index;
  data_shards = b.data_shards.value;
  parity_shards = b.parity_shards.value;
  rendezvous_secs = b.rendezvous_secs.value;
  shard = shard;
}

-- The shards in order, from a first index on.
abbrev pub number : PacketBuilder → ℕ → List Bytes → List Received
number b index [] = []
number b index (shard ∷ shards) = received b index shard ∷ number b (index + 1) shards

module _ (e : Encryptor) (opener : Opener) (aead : IsAead e opener) (b : PacketBuilder)
    (t : IsTyped b) where
  -- One shard: sealing it, if the cipher does, gives its packet.
  pub seal_shard-eq :
      (index : ℕ) (shard out tag : Bytes)
      → length shard ≡ shard_size
      → e.encrypt_in_place
          (nonce_bytes b.session_id (shard_index index))
          (header_bytes b (shard_index index))
          shard
        ≡ ok (out, tag)
      → seal_shard e b b.session_id index shard ≡ ok (packet_bytes b (shard_index index) tag out)
  unfolding seal_shard
  seal_shard-eq index shard out tag h enc =
      let i = shard_index index in
      let full : length out ≡ shard_size = aead.keeps_length _ _ shard enc ∙ h in
      rw (
        derive_nonce-eq b.session_id i,
        build_aad-eq b i,
        enc,
        write_packet-eq b (replicate packet_size 0) (header_bytes b i) tag out
            (length-replicate packet_size 0) refl (aead.length_tag _ _ shard enc),
        (==_iff (length out) shard_size).1 full,
      )

  receive-packet_bytes :
      (index : ℕ) (shard out tag : Bytes)
      → index < u16_mod
      → length shard ≡ shard_size
      → e.encrypt_in_place
          (nonce_bytes b.session_id (shard_index index))
          (header_bytes b (shard_index index))
          shard
        ≡ ok (out, tag)
      → receive opener (packet_bytes b (shard_index index) tag out) ≡ some (received b index shard)
  unfolding receive
  receive-packet_bytes index shard out tag small h enc =
      let i = shard_index index in
      let same : index % u16_mod ≡ index = omega arith in
      rw (
        parse_packet-packet_bytes b i tag out (aead.length_tag _ _ shard enc)
            (aead.keeps_length _ _ shard enc ∙ h) t (omega arith),
        receive,
        aead.opens _ _ shard enc,
        same,
      )

  -- A packet is 1428 bytes, and the receiver gets the shard and the header from it.
  abbrev pub IsPacketOf : ℕ → Bytes → Bytes → Type 0
  IsPacketOf index shard packet =
      (length packet ≡ packet_size) × (receive opener packet ≡ some (received b index shard))

  pub seal_shard-bind :
      (index : ℕ) (shard : Bytes)
      → seal_shard e b b.session_id index shard ≡ (
          e.encrypt_in_place
            (nonce_bytes b.session_id (shard_index index))
            (header_bytes b (shard_index index))
            shard
          >>= λ r.
              write_packet b (replicate packet_size 0) (header_bytes b (shard_index index)) r.1 r.0)
  unfolding seal_shard
  seal_shard-bind index shard =
      rw (derive_nonce-eq b.session_id (shard_index index), build_aad-eq b (shard_index index))

  -- A shard that was sealed went through the cipher.
  pub seal_shard_cipher :
      (index : ℕ) (shard : Bytes) {packet : Bytes}
      → seal_shard e b b.session_id index shard ≡ ok packet
      → (r : Bytes × Bytes) × (e.encrypt_in_place
            (nonce_bytes b.session_id (shard_index index))
            (header_bytes b (shard_index index))
            shard
          ≡ ok r)
  seal_shard_cipher index shard {packet} h =
      let i = shard_index index in
      let (r, enc, rest) =
        steps_of_ok (e.encrypt_in_place (nonce_bytes b.session_id i) (header_bytes b i) shard)
          (λ (r : Bytes × Bytes).
            write_packet b (replicate packet_size 0) (header_bytes b i) r.1 r.0)
          (sym (seal_shard-bind index shard) ∙ h) in
      (r, enc)

  seal_shard-IsPacketOf :
      (index : ℕ) (shard packet : Bytes)
      → index < u16_mod
      → length shard ≡ shard_size
      → seal_shard e b b.session_id index shard ≡ ok packet
      → IsPacketOf index shard packet
  seal_shard-IsPacketOf index shard packet small h ok_packet =
      let ((out, tag), enc) = seal_shard_cipher index shard ok_packet in
      let i = shard_index index in
      let same : packet_bytes b i tag out ≡ packet =
        ground (arith, seal_shard-eq index shard out tag h enc) in
      rw (← same) (
        length-packet_bytes b i tag out (aead.length_tag _ _ shard enc)
            (aead.keeps_length _ _ shard enc ∙ h),
        receive-packet_bytes index shard out tag small h enc,
      )

  -- The packets of the shards from `index` on.
  abbrev pub ArePacketsOf : ℕ → List Bytes → List Bytes → Type 0
  ArePacketsOf index shards packets =
      All (λ (packet : Bytes). length packet ≡ packet_size) packets
      × (map (receive opener) packets ≡ map some (number b index shards))

  -- If the packet loop succeeds, with a cipher that keeps its contract and header fields in the
  -- range of their types, on shards of 1400 bytes whose indices fit a `u16`, there is a packet of
  -- 1428 bytes for each shard, in order, from which the receiver gets the shard, its index and the
  -- header.
  pub seal_shards-ArePacketsOf :
      (index : ℕ) (shards packets : List Bytes)
      → index + length shards ≤ u16_mod
      → All (λ (shard : Bytes). length shard ≡ shard_size) shards
      → seal_shards e b b.session_id index shards ≡ ok packets
      → ArePacketsOf index shards packets
  unfolding seal_shards
  seal_shards-ArePacketsOf index [] packets fits sizes h =
      let same : [] ≡ packets = ground (arith, h) in rw (← same) (tt, refl)
  seal_shards-ArePacketsOf index (shard ∷ shards) packets fits (size, sizes) h =
      let (p, sealed_p, rest) =
        steps_of_ok (seal_shard e b b.session_id index shard)
          (λ packet.
            seal_shards e b b.session_id (index + 1) shards >>= λ others. ok (packet ∷ others))
          h in
      let (ps, sealed_ps, e₂) =
        steps_of_ok (seal_shards e b b.session_id (index + 1) shards) (λ others. ok (p ∷ others))
          rest in
      let one = seal_shard-IsPacketOf index shard p (omega arith) size sealed_p in
      let more = seal_shards-ArePacketsOf (index + 1) shards ps (omega arith) sizes sealed_ps in
      let same : p ∷ ps ≡ packets = ground (arith, e₂) in
      rw (← same) ((one.0, more.0), rw (one.1, more.1))

  -- If the cipher keeps its contract and refuses no shard of 1400 bytes, and the header fields are
  -- in the range of their types, the packet loop gives a packet for each of its shards of that
  -- size: no copy panics and no check fails.
  pub seal_shards_total :
      (index : ℕ) (shards : List Bytes)
      → All (λ (shard : Bytes). length shard ≡ shard_size) shards
      → ((nonce aad shard : Bytes)
          → length shard ≡ shard_size
          → (r : Bytes × Bytes) × (e.encrypt_in_place nonce aad shard ≡ ok r))
      → (packets : List Bytes) × (seal_shards e b b.session_id index shards ≡ ok packets)
        × (length packets ≡ length shards)
  unfolding seal_shards
  seal_shards_total index [] sizes total = ([], refl, refl)
  seal_shards_total index (shard ∷ shards) (size, sizes) total =
      let i = shard_index index in
      let ((out, tag), enc) = total (nonce_bytes b.session_id i) (header_bytes b i) shard size in
      let (packets, rest, count) = seal_shards_total (index + 1) shards sizes total in
      (
        packet_bytes b i tag out ∷ packets,
        rw (seal_shard-eq index shard out tag size enc, rest),
        ap suc count,
      )
