-- ===== src/Sender/Success.antt =====
-- src/sender.rs: when `send` succeeds, whatever the chaos options are.
use fin_amor_s_ideal_udp_fiu.Base.{ℕ, ◌≤◌, ◌<◌, ◌≡◌, sym, subst, Bool, Bytes, List, arith, u32_mod}
use fin_amor_s_ideal_udp_fiu.Error.{ok}
use fin_amor_s_ideal_udp_fiu.Os.{Os, Target}
use fin_amor_s_ideal_udp_fiu.Types.SessionId
use fin_amor_s_ideal_udp_fiu.Types.SessionId.{SessionId}
use fin_amor_s_ideal_udp_fiu.Types.RendezvousSecs
use fin_amor_s_ideal_udp_fiu.Types.RendezvousSecs.{RendezvousSecs}
use fin_amor_s_ideal_udp_fiu.Config.ParityRatio.{ParityRatio, IsPercent}
use fin_amor_s_ideal_udp_fiu.Crypto.{Encryptor, Opener, IsAead}
use fin_amor_s_ideal_udp_fiu.Fec.{FecEngine, IsSystematic}
use fin_amor_s_ideal_udp_fiu.Sender.{chaos, send}
use fin_amor_s_ideal_udp_fiu.Sender.Shards.{u16_max, encode_parity}
use fin_amor_s_ideal_udp_fiu.Sender.Shards.Split.{IsFrame, total_count, parts_of}
use fin_amor_s_ideal_udp_fiu.Sender.Chaos.{IsRandom, chaos_keeps}
use fin_amor_s_ideal_udp_fiu.Sender.Chaos.State.{chaos-OnlyRng}
use fin_amor_s_ideal_udp_fiu.Sender.Burst.{send-of_sent, udp_pipeline}
use fin_amor_s_ideal_udp_fiu.Sender.Heads.Send.{sent_sizes}
use fin_amor_s_ideal_udp_fiu.Sender.Outcome.{TakesAll, SealsAll, make_packets_total, transmit_takes}
use fin_amor_s_ideal_udp_fiu.Sender.Transport.{InputReader, Rng, os_runtime}

module _ {G : Type 0} (rng : Rng G) (random : IsRandom (os_runtime rng)) (target : Target)
    (reader : InputReader (Os G)) (engine : FecEngine) (systematic : IsSystematic engine)
    (encryptor : Encryptor) (opener : Opener) (aead : IsAead encryptor opener) (delay : ℕ)
    (chaos_drop chaos_burst : ℕ) (chaos_shuffle : Bool) (small : chaos_burst < u32_mod) where
  -- What the chaos options leave goes out, if the network takes every packet.
  pub send_succeeds_chaos :
      (ratio : ParityRatio) (secs : RendezvousSecs) (id : SessionId) (os os₁ : Os G) (frame : Bytes)
      (shards : List Bytes)
      → SealsAll encryptor
      → IsPercent ratio
      → RendezvousSecs.IsU32 secs
      → SessionId.IsU16 id
      → reader.read_all os ≡ (ok frame, os₁)
      → IsFrame frame
      → total_count ratio frame ≤ u16_max
      → encode_parity engine (parts_of ratio frame) ≡ ok shards
      → TakesAll os₁
      → (send
          (os_runtime rng)
          (udp_pipeline rng random target reader engine systematic encryptor opener aead delay
            chaos_drop chaos_burst chaos_shuffle small)
          ratio
          secs
          id
          os).0
        ≡ ok tt
  send_succeeds_chaos ratio secs id os os₁ frame shards seals percent u32 u16 read f within encoded
        takes =
      let s =
        udp_pipeline rng random target reader engine systematic encryptor opener aead delay
          chaos_drop chaos_burst chaos_shuffle small in
      let (packets, made, sizes, count) =
        make_packets_total engine encryptor opener ratio secs id frame shards systematic aead seals
          percent u32 u16 f within encoded in
      let (kept, sent, chosen, many, lost, reordered) =
        chaos_keeps (os_runtime rng) random s packets os₁ small (omega (arith, count, within)) in
      let os₂ = (chaos (os_runtime rng) s packets os₁).1 in
      let takes' : TakesAll os₂ = subst TakesAll (sym (chaos-OnlyRng rng s packets os₁)) takes in
      rw (send-of_sent (os_runtime rng) s ratio secs id os os₁ frame read packets sent made chosen)
        (transmit_takes rng target delay sent os₂
          (sent_sizes packets kept sent sizes lost reordered) takes')
