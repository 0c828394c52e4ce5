-- ===== src/Sender/Packets.antt =====
-- src/sender.rs: the packets of a burst, from the frame to what a receiver puts together.
use mathlib.Core.List.{flatten}
use fin_amor_s_ideal_udp_fiu.Base.{
  ℕ, ◌+◌, ◌≤◌, ◌%◌, ◌≡◌, refl, ◌∙◌, inl, inr, Bool-cases, Bytes, List, ◌++◌, map, some, arith,
  length, replicate, take, All, u16_mod, ltb,
}
use fin_amor_s_ideal_udp_fiu.Error.{ok, ◌>>=◌, steps_of_ok}
use fin_amor_s_ideal_udp_fiu.Types.SessionId
use fin_amor_s_ideal_udp_fiu.Types.SessionId.{SessionId}
use fin_amor_s_ideal_udp_fiu.Types.RendezvousSecs
use fin_amor_s_ideal_udp_fiu.Types.RendezvousSecs.{RendezvousSecs}
use fin_amor_s_ideal_udp_fiu.Protocol.Layout.{packet_size, shard_size}
use fin_amor_s_ideal_udp_fiu.Protocol.Packet.{PacketBuilder, IsTyped}
use fin_amor_s_ideal_udp_fiu.Protocol.Padding.Laws.{padding}
use fin_amor_s_ideal_udp_fiu.Config.ParityRatio.{ParityRatio, IsPercent}
use fin_amor_s_ideal_udp_fiu.Crypto.{Encryptor, Opener, IsAead}
use fin_amor_s_ideal_udp_fiu.Fec.{FecEngine, IsSystematic, IsCodeword}
use fin_amor_s_ideal_udp_fiu.Receiver.{receive}
use fin_amor_s_ideal_udp_fiu.Sender.{session_builder, make_packets}
use fin_amor_s_ideal_udp_fiu.Sender.Shards.{Shards, u16_max, split_frame, encode_parity}
use fin_amor_s_ideal_udp_fiu.Sender.Shards.Split.{
  data_count, total_count, parts_of, split_frame_cases, IsFrame, IsSplit, split_frame-IsSplit,
}
use fin_amor_s_ideal_udp_fiu.Sender.Seal.{seal_shards}
use fin_amor_s_ideal_udp_fiu.Sender.Seal.Receive.{number, seal_shards-ArePacketsOf}

-- A burst as the wire sees it: in order, the packets of slices whose data part is the frame with
-- its zeros, numbered from 0, with one header but for the index.
pub record IsBurst (engine : FecEngine) (opener : Opener) (builder : PacketBuilder) (frame : Bytes)
    (packets : List Bytes) : Type 0 where
  pub slices : List Bytes
  pub sizes : All (λ (packet : Bytes). length packet ≡ packet_size) packets
  pub opened : map (receive opener) packets ≡ map some (number builder 0 slices)
  pub count : length slices ≡ builder.data_shards.value + builder.parity_shards.value
  pub fits_u16 : length slices ≤ u16_max
  pub content :
      flatten (take builder.data_shards.value slices) ≡ frame ++ replicate (padding frame) 0
  pub codeword : IsCodeword engine builder.data_shards.value builder.parity_shards.value slices
  pub as_asked : builder.data_shards.value ≡ data_count frame

module _ (engine : FecEngine) (systematic : IsSystematic engine) (frame : Bytes) where
  -- Filling the parity slices keeps what a split keeps.
  pub encode_parity_keeps :
      (s : Shards) (out : List Bytes)
      → IsSplit frame s
      → encode_parity engine s ≡ ok out
      → IsSplit frame (record s { slices = out })
  unfolding encode_parity
  encode_parity_keeps s out h e = elim (Bool-cases (ltb 0 s.parity_shards)) [
    | inl some_parity ↦
        let enc : engine.encode s.data_shards s.parity_shards s.slices ≡ ok out =
          (rw some_parity at e) in
        record {
          content =
              rw (systematic.keeps_data s.data_shards s.parity_shards s.slices enc h.count)
                h.content;
          sizes =
              systematic.keeps_size s.data_shards s.parity_shards shard_size s.slices enc h.sizes;
          count = systematic.keeps_count s.data_shards s.parity_shards s.slices enc ∙ h.count;
          fits_u16 = h.fits_u16;
          nonempty = h.nonempty;
          as_asked = h.as_asked;
        }
    | inr no_parity ↦ let same : s.slices ≡ out = ground (arith, e) in rw (← same) h
  ]

-- Slices that `encode_parity` returns are a codeword.
encode_parity-IsCodeword :
    (engine : FecEngine) (s : Shards) (out : List Bytes)
    → length s.slices ≡ s.data_shards + s.parity_shards
    → encode_parity engine s ≡ ok out
    → IsCodeword engine s.data_shards s.parity_shards out
unfolding encode_parity
encode_parity-IsCodeword engine s out count e = elim (Bool-cases (ltb 0 s.parity_shards)) [
  | inl some_parity ↦ inr (s.slices, count, (rw some_parity at e))
  | inr no_parity ↦ inl (ground arith)
]

module _ (engine : FecEngine) (systematic : IsSystematic engine) (e : Encryptor) (opener : Opener)
    (aead : IsAead e opener) (ratio : ParityRatio) (percent : IsPercent ratio)
    (rendezvous_secs : RendezvousSecs) (session_id : SessionId)
    (rendezvous_u32 : RendezvousSecs.IsU32 rendezvous_secs)
    (session_u16 : SessionId.IsU16 session_id) (frame : Bytes) (f : IsFrame frame) where
  -- The packets of slices that keep the frame.
  sealed-IsBurst :
      (s : Shards) (packets : List Bytes)
      → IsSplit frame s
      → IsCodeword engine s.data_shards s.parity_shards s.slices
      → let builder = session_builder session_id rendezvous_secs s.data_shards s.parity_shards in
        seal_shards e builder session_id 0 s.slices ≡ ok packets
        → IsBurst engine opener builder frame packets
  sealed-IsBurst s packets h codeword sealing =
      let d : s.data_shards % u16_mod ≡ s.data_shards = omega (arith, h.fits_u16) in
      let p : s.parity_shards % u16_mod ≡ s.parity_shards = omega (arith, h.fits_u16) in
      let builder = session_builder session_id rendezvous_secs s.data_shards s.parity_shards in
      let typed : IsTyped builder = record {
        session_id = session_u16;
        rendezvous_secs = rendezvous_u32;
        data_shards = omega arith;
        parity_shards = omega arith;
      } in
      let (sizes, opened) =
        seal_shards-ArePacketsOf e opener aead builder typed 0 s.slices packets
          (omega (arith, h.fits_u16, h.count)) h.sizes sealing in
      record {
        slices = s.slices;
        sizes = sizes;
        opened = opened;
        count = rw (d, p) h.count;
        fits_u16 = omega (arith, h.fits_u16, h.count);
        content = rw d h.content;
        codeword = rw (d, p) codeword;
        as_asked = d ∙ h.as_asked;
      }

  total_of_split :
      (s : Shards)
      → split_frame ratio frame ≡ ok s
      → s.data_shards + s.parity_shards ≡ total_count ratio frame
  total_of_split s split = elim (split_frame_cases ratio percent frame f) [
    | inl (within, e) ↦
        let same : parts_of ratio frame ≡ s = ground (arith, e, split) in rw (← same) refl
    | inr (over, e) ↦ absurd (ground (arith, e))
  ]

  -- If the packets of a frame that is not empty and fits in memory are made, at a parity ratio of
  -- at most 100 percent, with arguments in the range of their types and a cipher and an erasure
  -- code that keep their contracts, there are as many as the frame has data and parity shards, at
  -- most 65535, each of 1428 bytes; the receiver's call opens each to its slice under one header
  -- and its index, counted from 0; and the data slices put together are the frame and its zeros.
  pub make_packets-IsBurst :
      (packets : List Bytes)
      → make_packets engine e ratio rendezvous_secs session_id frame ≡ ok packets
      → (data_shards parity_shards : ℕ) × (data_shards + parity_shards ≤ u16_max)
        × (data_shards + parity_shards ≡ total_count ratio frame)
        × IsBurst engine opener
            (session_builder session_id rendezvous_secs data_shards parity_shards)
            frame
            packets
  unfolding make_packets
  make_packets-IsBurst packets h =
      let (s, split, rest) =
        steps_of_ok (split_frame ratio frame)
          (λ s. encode_parity engine s >>= λ shards.
            seal_shards e (session_builder session_id rendezvous_secs s.data_shards s.parity_shards)
              session_id 0 shards)
          h in
      let (shards, encoded, sealing) =
        steps_of_ok (encode_parity engine s)
          (λ shards.
            seal_shards e (session_builder session_id rendezvous_secs s.data_shards s.parity_shards)
              session_id 0 shards)
          rest in
      let kept =
        encode_parity_keeps engine systematic frame s shards
          (split_frame-IsSplit ratio percent frame f s split) encoded in
      let codeword =
        encode_parity-IsCodeword engine s shards
          (split_frame-IsSplit ratio percent frame f s split).count encoded in
      (
        s.data_shards,
        s.parity_shards,
        kept.fits_u16,
        total_of_split s split,
        sealed-IsBurst (record s { slices = shards }) packets kept codeword sealing,
      )
