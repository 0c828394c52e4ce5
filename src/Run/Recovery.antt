-- ===== src/Run/Recovery.antt =====
-- src/lib.rs: what a receiver gets of a run that succeeded, over a network that loses, reorders and
-- repeats packets.
use mathlib.Core.List.Perm
use mathlib.Core.List.Sublistᴰ
use mathlib.Core.List.{Nodup, append_cancel_left}
use fin_amor_s_ideal_udp_fiu.Base.{
  ℕ, ◌≤◌, ◌<◌, ◌≡◌, ◌⊎◌, inl, inr, refl, sym, subst, ap, ◌∙◌, none, some, Bytes, List, [], ◌∷◌,
  ◌++◌, Mem, arith, length, replicate, u32_mod,
}
use fin_amor_s_ideal_udp_fiu.Error.{ok}
use fin_amor_s_ideal_udp_fiu.Os.{Os, Target, Event}
use fin_amor_s_ideal_udp_fiu.Types.SessionId.{SessionId}
use fin_amor_s_ideal_udp_fiu.Types.RendezvousSecs.{RendezvousSecs}
use fin_amor_s_ideal_udp_fiu.Protocol.Padding.Laws.{padding}
use fin_amor_s_ideal_udp_fiu.Config.Types.{Config, IsValid}
use fin_amor_s_ideal_udp_fiu.Crypto.{ChaCha20Poly1305, Opener}
use fin_amor_s_ideal_udp_fiu.Crypto.Cipher.{IsChaCha}
use fin_amor_s_ideal_udp_fiu.Fec.{FecEngine, ReedSolomon, reed_solomon_engine}
use fin_amor_s_ideal_udp_fiu.Fec.Engine.{IsReedSolomon}
use fin_amor_s_ideal_udp_fiu.Receiver.{receive}
use fin_amor_s_ideal_udp_fiu.Receiver.Reassembly.{Decoder, IsDecoder, reassemble}
use fin_amor_s_ideal_udp_fiu.Session
use fin_amor_s_ideal_udp_fiu.Sender.{session_builder}
use fin_amor_s_ideal_udp_fiu.Sender.Shards.Split.{IsFrame, data_count}
use fin_amor_s_ideal_udp_fiu.Sender.Chaos.{IsRandom}
use fin_amor_s_ideal_udp_fiu.Sender.Transmit.{schedule}
use fin_amor_s_ideal_udp_fiu.Sender.Transport.{Rng, os_runtime}
use fin_amor_s_ideal_udp_fiu.Sender.Burst.{IsDelivered}
use fin_amor_s_ideal_udp_fiu.Sender.Recovery.{burst_recovers}
use fin_amor_s_ideal_udp_fiu.Run.{read_input, run}
use fin_amor_s_ideal_udp_fiu.Run.Delivery.{target_of, least_sent, run-HasDelivered}

-- The wire tells what was sent.
pub schedule-injective :
    (target : Target) (delay : ℕ) (xs ys : List Bytes)
    → schedule target delay xs ≡ schedule target delay ys
    → xs ≡ ys
schedule-injective target delay [] [] h = refl
schedule-injective target delay [] (y ∷ []) h = absurd (ground arith)
schedule-injective target delay [] (y ∷ y' ∷ ys) h = absurd (ground arith)
schedule-injective target delay (x ∷ []) [] h = absurd (ground arith)
schedule-injective target delay (x ∷ []) (y ∷ []) h = ground arith
schedule-injective target delay (x ∷ []) (y ∷ y' ∷ ys) h = absurd (ground arith)
schedule-injective target delay (x ∷ x' ∷ xs) [] h = absurd (ground arith)
schedule-injective target delay (x ∷ x' ∷ xs) (y ∷ []) h = absurd (ground arith)
schedule-injective target delay (x ∷ x' ∷ xs) (y ∷ y' ∷ ys) h =
    let rest : schedule target delay (x' ∷ xs) ≡ schedule target delay (y' ∷ ys) = ground arith in
    let first : x ≡ y = ground arith in
    ap (λ p. p ∷ x' ∷ xs) first
    ∙ ap (λ ps. y ∷ ps) (schedule-injective target delay (x' ∷ xs) (y' ∷ ys) rest)

module _ (engine : FecEngine) (opener : Opener) (secs : RendezvousSecs) (id : SessionId)
    (frame : Bytes) (least : ℕ) (target : Target) (delay : ℕ) (before after : List Event)
    (h : IsDelivered engine opener secs id frame least target delay before after) where
  mem-sent : (x : Bytes) → Mem x h.sent → Mem x h.packets
  mem-sent x m = Sublistᴰ.subset h.lost x (Perm.subset h.reordered x m)

  pub IsDelivered-recovers :
      (decode : Decoder) (arrivals heard : List Bytes)
      → IsDecoder engine decode
      → 0 < data_count frame
      → ((x : Bytes) → Mem x arrivals → Mem x h.sent ⊎ (receive opener x ≡ none))
      → Nodup heard
      → ((x : Bytes) → Mem x heard → Mem x arrivals × Mem x h.sent)
      → data_count frame ≤ length heard
      → reassemble opener decode arrivals ≡ some (frame ++ replicate (padding frame) 0)
  IsDelivered-recovers decode arrivals heard law positive genuine distinct arrived enough =
      burst_recovers engine decode opener (session_builder id secs h.data_shards h.parity_shards)
        frame h.packets arrivals heard law h.burst positive
        (λ x m. elim (genuine x m) [
          | inl from_wire ↦ inl (mem-sent x from_wire)
          | inr noise ↦ inr noise
        ])
        distinct (λ x m. ((arrived x m).0, mem-sent x (arrived x m).1)) enough

module _ {G Codec : Type 0} (cipher : ChaCha20Poly1305) (opener : Bytes → Opener)
    (chacha : IsChaCha cipher opener) (rs : ReedSolomon Codec) (reed_solomon : IsReedSolomon rs)
    (decode : Decoder) (law : IsDecoder (reed_solomon_engine rs) decode) (rng : Rng G)
    (random : IsRandom (os_runtime rng)) (config : Config) (valid : IsValid config)
    (secs_u32 : config.rendezvous_secs < u32_mod) (burst_u32 : config.chaos_burst < u32_mod) where
  -- If a run succeeds on a frame that is not empty and fits in memory, over a valid configuration
  -- in the range of its types, a cipher, an erasure code and a generator that keep what their
  -- crates document, and a decoder that completes any code word from as many of its slices as it
  -- has data slices, then a receiver with the key of the key file puts together the frame and its
  -- padding zeros from any datagrams that arrived in any order, with repeats, if each of them is
  -- one that the run sent or does not open under that key, and at least as many different ones of
  -- the run's arrived as the frame has data slices.
  pub run_recovers :
      (os : Os G) (frame key : Bytes) (sent arrivals heard : List Bytes)
      → (read_input config.input (Session.next (Session.new config.key_path) os).1).0 ≡ ok frame
      → IsFrame frame
      → (run cipher rs rng config os).0 ≡ ok tt
      → os.files config.key_path ≡ some key
      → (run cipher rs rng config os).1.events
        ≡ os.events ++ schedule (target_of config) config.delay sent
      → ((x : Bytes) → Mem x arrivals → Mem x sent ⊎ (receive (opener key) x ≡ none))
      → Nodup heard
      → ((x : Bytes) → Mem x heard → Mem x arrivals × Mem x sent)
      → data_count frame ≤ length heard
      → reassemble (opener key) decode arrivals ≡ some (frame ++ replicate (padding frame) 0)
  run_recovers os frame key sent arrivals heard read f success key_file wire genuine distinct
        arrived enough =
      let h =
        run-HasDelivered cipher opener chacha rs reed_solomon rng random config valid secs_u32
          burst_u32 os frame read f success in
      let same_key : h.key ≡ key = ground (arith, h.key_file) in
      let same_sent : sent ≡ h.delivered.sent =
        schedule-injective (target_of config) config.delay sent h.delivered.sent
          (append_cancel_left os.events _ _ (sym wire ∙ h.delivered.wire)) in
      subst
        (λ k. reassemble (opener k) decode arrivals ≡ some (frame ++ replicate (padding frame) 0))
        same_key
        (IsDelivered-recovers (reed_solomon_engine rs) (opener h.key) _ h.id frame
          (least_sent config frame) (target_of config) config.delay os.events _ h.delivered decode
          arrivals heard law (omega (arith, f.nonempty))
          (λ x m. elim (genuine x m) [
            | inl from_wire ↦ inl (subst (λ l. Mem x l) same_sent from_wire)
            | inr noise ↦ inr (subst (λ k. receive (opener k) x ≡ none) (sym same_key) noise)
          ])
          distinct (λ x m. ((arrived x m).0, subst (λ l. Mem x l) same_sent (arrived x m).1))
          enough)
