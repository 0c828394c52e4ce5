-- ===== src/Run/Survival.antt =====
-- src/lib.rs: a run that loses packets on purpose, but no more than it has sent parity for.
use mathlib.Core.List.Pairwise
use mathlib.Core.List.Perm
use mathlib.Core.List.{Nodup}
use fin_amor_s_ideal_udp_fiu.Base.{
  ℕ, ◌+◌, ◌≤◌, ◌<◌, ◌≡◌, inl, subst, ap, some, Bytes, List, ◌++◌, arith, length, replicate, u32_mod,
}
use fin_amor_s_ideal_udp_fiu.Error.{ok}
use fin_amor_s_ideal_udp_fiu.Os.{Os, Target, Event}
use fin_amor_s_ideal_udp_fiu.Types.SessionId.{SessionId}
use fin_amor_s_ideal_udp_fiu.Types.RendezvousSecs.{RendezvousSecs}
use fin_amor_s_ideal_udp_fiu.Protocol.Padding.Laws.{padding}
use fin_amor_s_ideal_udp_fiu.Config.Types.{Config, IsValid}
use fin_amor_s_ideal_udp_fiu.Crypto.{ChaCha20Poly1305, Opener}
use fin_amor_s_ideal_udp_fiu.Crypto.Cipher.{IsChaCha}
use fin_amor_s_ideal_udp_fiu.Fec.{FecEngine, ReedSolomon, reed_solomon_engine}
use fin_amor_s_ideal_udp_fiu.Fec.Engine.{IsReedSolomon}
use fin_amor_s_ideal_udp_fiu.Receiver.Reassembly.{Decoder, IsDecoder, reassemble}
use fin_amor_s_ideal_udp_fiu.Session
use fin_amor_s_ideal_udp_fiu.Sender.{session_builder}
use fin_amor_s_ideal_udp_fiu.Sender.Shards.Split.{IsFrame, data_count}
use fin_amor_s_ideal_udp_fiu.Sender.Chaos.{IsRandom}
use fin_amor_s_ideal_udp_fiu.Sender.Transmit.{schedule}
use fin_amor_s_ideal_udp_fiu.Sender.Transport.{Rng, os_runtime}
use fin_amor_s_ideal_udp_fiu.Sender.Burst.{IsDelivered}
use fin_amor_s_ideal_udp_fiu.Run.{read_input, run}
use fin_amor_s_ideal_udp_fiu.Run.Delivery.{target_of, least_sent, run-HasDelivered}
use fin_amor_s_ideal_udp_fiu.Config.ParityRatio.{parity_shards}
use fin_amor_s_ideal_udp_fiu.Sender.Chaos.{least_kept}
use fin_amor_s_ideal_udp_fiu.Sender.Heads.{head_of, sent-IsOneSession}
use fin_amor_s_ideal_udp_fiu.Run.Recovery.{IsDelivered-recovers}

-- The packets that the chaos options keep are all different.
kept-Nodup :
    (engine : FecEngine) (opener : Opener) (secs : RendezvousSecs) (id : SessionId) (frame : Bytes)
    (least : ℕ) (target : Target) (delay : ℕ) (before after : List Event)
    (h : IsDelivered engine opener secs id frame least target delay before after)
    → Nodup h.kept
kept-Nodup engine opener secs id frame least target delay before after h =
    Pairwise.of_map head_of (λ x y different same. different (ap head_of same))
      (sent-IsOneSession engine opener (session_builder id secs h.data_shards h.parity_shards) frame
        h.packets h.kept h.kept h.burst h.lost (Perm.refl h.kept)).0

-- A burst loss that the parity makes up for leaves enough packets.
least_kept-enough :
    (chaos_drop chaos_burst shards parity : ℕ)
    → chaos_drop ≡ 0
    → chaos_burst ≤ parity
    → shards ≤ least_kept chaos_drop chaos_burst (shards + parity)
least_kept-enough chaos_drop chaos_burst shards parity no_drop within = rw no_drop (omega arith)

module _ {G Codec : Type 0} (cipher : ChaCha20Poly1305) (opener : Bytes → Opener)
    (chacha : IsChaCha cipher opener) (rs : ReedSolomon Codec) (reed_solomon : IsReedSolomon rs)
    (decode : Decoder) (law : IsDecoder (reed_solomon_engine rs) decode) (rng : Rng G)
    (random : IsRandom (os_runtime rng)) (config : Config) (valid : IsValid config)
    (secs_u32 : config.rendezvous_secs < u32_mod) (burst_u32 : config.chaos_burst < u32_mod) where
  -- If a run without the random loss, and with a burst loss of at most the number of the frame's
  -- parity shards, succeeds on a frame that is not empty and fits in memory, over a valid
  -- configuration in the range of its types, a cipher, an erasure code and a generator that keep
  -- what their crates document, and a decoder that completes any code word from as many of its
  -- slices as it has data slices, then what it added to the wire is the schedule of some packets,
  -- and a receiver with the key of the key file puts together the frame and its padding zeros from
  -- them.
  pub run_survives_burst :
      (os : Os G) (frame key : Bytes)
      → (read_input config.input (Session.next (Session.new config.key_path) os).1).0 ≡ ok frame
      → IsFrame frame
      → (run cipher rs rng config os).0 ≡ ok tt
      → os.files config.key_path ≡ some key
      → config.chaos_drop ≡ 0
      → config.chaos_burst ≤ parity_shards config.parity_ratio (data_count frame)
      → (sent : List Bytes) × ((run cipher rs rng config os).1.events
          ≡ os.events ++ schedule (target_of config) config.delay sent)
        × (reassemble (opener key) decode sent ≡ some (frame ++ replicate (padding frame) 0))
  run_survives_burst os frame key read f success key_file no_drop within =
      let h =
        run-HasDelivered cipher opener chacha rs reed_solomon rng random config valid secs_u32
          burst_u32 os frame read f success in
      let d = h.delivered in
      let same_key : h.key ≡ key = ground (arith, h.key_file) in
      let enough : data_count frame ≤ length d.kept = omega (
        arith,
        d.enough_kept,
        least_kept-enough config.chaos_drop config.chaos_burst (data_count frame)
            (parity_shards config.parity_ratio (data_count frame)) no_drop within,
      ) in
      (
        d.sent,
        d.wire,
        subst
            (λ k. reassemble (opener k) decode d.sent ≡ some (frame ++ replicate (padding frame) 0))
            same_key
            (IsDelivered-recovers (reed_solomon_engine rs) (opener h.key) _ h.id frame
              (least_sent config frame) (target_of config) config.delay os.events _ d decode d.sent
              d.kept law (omega (arith, f.nonempty)) (λ x m. inl m)
              (kept-Nodup (reed_solomon_engine rs) (opener h.key) _ h.id frame
                (least_sent config frame) (target_of config) config.delay os.events _ d)
              (λ x m. let there = Perm.subset (Perm.symm d.reordered) x m in (there, there))
              enough),
      )
