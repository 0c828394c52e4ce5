-- ===== src/Sender.antt =====
-- src/sender.rs: the pipeline of a burst. It is generic over the reader, the erasure code, the
-- encryptor, the transport, and the state `W` on which these act.
pub mod Shards
pub mod Seal
pub mod Transport
pub mod Packets
pub mod Transmit
pub mod Chaos
pub mod Burst
pub mod Outcome
pub mod Limits
pub mod Capacity
pub mod Entries
pub mod Recovery
pub mod Heads
pub mod NoPanic
pub mod Success
use fin_amor_s_ideal_udp_fiu.Base.{
  ℕ, ◌+◌, ◌-◌, ◌%◌, min, Bytes, List, [], ◌∷◌, ◌++◌, Bool, ◌&&◌, add_usize, saturating_sub, u16_mod,
  leb, ltb, ◌==◌, if◌then◌else◌, length, take, drop, ⊤,
}
use fin_amor_s_ideal_udp_fiu.Error.{Result, ok, err, panic, ◌>>=◌ as ◌>>=?◌}
use fin_amor_s_ideal_udp_fiu.Io.{Io, pure, lift, ◌>>=◌, ◌>>◌}
use fin_amor_s_ideal_udp_fiu.Types.SessionId.{SessionId}
use fin_amor_s_ideal_udp_fiu.Types.DataShardCount
use fin_amor_s_ideal_udp_fiu.Types.ParityShardCount
use fin_amor_s_ideal_udp_fiu.Types.RendezvousSecs.{RendezvousSecs}
use fin_amor_s_ideal_udp_fiu.Protocol.Packet.{PacketBuilder}
use fin_amor_s_ideal_udp_fiu.Config.ParityRatio.{ParityRatio}
use fin_amor_s_ideal_udp_fiu.Crypto.{Encryptor}
use fin_amor_s_ideal_udp_fiu.Fec.{FecEngine}
use Shards.{split_frame, encode_parity}
use Seal.{seal_shards}
use Transport.{InputReader, PacketSender, Runtime}

pub record FiudpSender (W : Type 0) : Type 0 where
  pub reader : InputReader W
  pub fec : FecEngine
  pub encryptor : Encryptor
  pub sender : PacketSender W
  -- microseconds
  pub delay : ℕ
  pub chaos_drop : ℕ
  pub chaos_burst : ℕ
  pub chaos_shuffle : Bool

-- The builder of a session: the counts are cast to `u16`.
abbrev pub session_builder : SessionId → RendezvousSecs → ℕ → ℕ → PacketBuilder
session_builder session_id rendezvous_secs data_shards parity_shards = record {
  session_id = session_id;
  rendezvous_secs = rendezvous_secs;
  data_shards = DataShardCount.new (data_shards % u16_mod);
  parity_shards = ParityShardCount.new (parity_shards % u16_mod);
}

-- From the frame to the packets of the burst, without effects.
unfoldable pub make_packets :
    FecEngine → Encryptor → ParityRatio → RendezvousSecs → SessionId → Bytes → Result (List Bytes)
make_packets engine encryptor parity_ratio rendezvous_secs session_id payload =
    split_frame parity_ratio payload >>=? λ s. encode_parity engine s >>=? λ shards.
    seal_shards encryptor (session_builder session_id rendezvous_secs s.data_shards s.parity_shards)
      session_id 0 shards

-- `drain(start..end)`: what is left. The range must lie in the vector.
unfoldable pub drain {ℓ} : {A : Type ℓ} → ℕ → ℕ → List A → Result (List A)
drain start end xs =
    if leb start end && leb end (length xs) then ok (take start xs ++ drop end xs) else panic

module _ {W : Type 0} (rt : Runtime W) where
  -- The consecutive loss, which starts at a random packet.
  unfoldable pub drop_burst : ℕ → List Bytes → Io W (List Bytes)
  unfolding drain
  drop_burst chaos_burst packets w =
      let count = length packets in
      let (start, w') = rt.gen_range_inclusive 0 (saturating_sub count chaos_burst) w in
      if ltb 0 chaos_burst && ltb 0 count
      then (drain start (min count (add_usize start chaos_burst)) packets, w')
      else (ok packets, w)

  -- `retain`, with a number below 100 drawn for each packet.
  unfoldable pub retain_packets : ℕ → List Bytes → W → List Bytes × W
  retain_packets chaos_drop [] w = ([], w)
  retain_packets chaos_drop (packet ∷ packets) w =
      let (n, w₁) = rt.gen_range 0 100 w in
      let (kept, w₂) = retain_packets chaos_drop packets w₁ in
      (if leb chaos_drop n then packet ∷ kept else kept, w₂)

  unfoldable pub drop_random : ℕ → List Bytes → W → List Bytes × W
  unfolding retain_packets
  drop_random chaos_drop packets w =
      if ltb 0 chaos_drop then retain_packets chaos_drop packets w else (packets, w)

  unfoldable pub shuffle_packets : Bool → List Bytes → W → List Bytes × W
  shuffle_packets chaos_shuffle packets w =
      if chaos_shuffle then rt.shuffle packets w else (packets, w)

  -- The three chaos options, in the order of the code.
  unfoldable pub chaos : FiudpSender W → List Bytes → Io W (List Bytes)
  unfolding drop_burst drop_random shuffle_packets
  chaos s packets = do
    ready_packets ← drop_burst s.chaos_burst packets
    λ w.
        let (kept, w₁) = drop_random s.chaos_drop ready_packets w in
        let (shuffled, w₂) = shuffle_packets s.chaos_shuffle kept w₁ in (ok shuffled, w₂)

  -- The loop that sends, and sleeps after every packet but the last. The first failure ends it.
  unfoldable pub transmit : PacketSender W → ℕ → List Bytes → Io W ⊤
  transmit sender delay [] = pure tt
  transmit sender delay (packet ∷ []) = sender.send packet
  transmit sender delay (packet ∷ next ∷ packets) = do
    sender.send packet
    λ w. transmit sender delay (next ∷ packets) (rt.sleep delay w)

  unfoldable pub send : FiudpSender W → ParityRatio → RendezvousSecs → SessionId → Io W ⊤
  unfolding make_packets chaos transmit
  send s parity_ratio rendezvous_secs session_id = do
    payload ← s.reader.read_all
    ready_packets ←
        lift (make_packets s.fec s.encryptor parity_ratio rendezvous_secs session_id payload)
    packets ← chaos s ready_packets
    transmit s.sender s.delay packets
