-- ===== src/Sender/Chaos/State.antt =====
-- src/sender.rs: what the chaos options do to the system's state beside the packets.
use fin_amor_s_ideal_udp_fiu.Base.{
  ℕ, ◌≡◌, refl, ap, ◌∙◌, inl, inr, Bool, true, false, Bool-cases, Bytes, List, [], ◌∷◌, ◌&&◌, ltb,
  length,
}
use fin_amor_s_ideal_udp_fiu.Error.{Result, ok, err, panic}
use fin_amor_s_ideal_udp_fiu.Io.{Io, resume}
use fin_amor_s_ideal_udp_fiu.Os.{Os}
use fin_amor_s_ideal_udp_fiu.Sender.{
  FiudpSender, drop_burst, retain_packets, drop_random, shuffle_packets, chaos,
}
use fin_amor_s_ideal_udp_fiu.Sender.Transport.{Rng, os_runtime}

-- The random generator is all that changed.
abbrev pub OnlyRng : {G : Type 0} → Os G → Os G → Type 0
OnlyRng os os' = os' ≡ record os { rng = os'.rng }

OnlyRng-trans : {G : Type 0} (a b c : Os G) → OnlyRng a b → OnlyRng b c → OnlyRng a c
OnlyRng-trans {G} a b c e f = f ∙ ap {B = Os G} (λ os. record os { rng = c.rng }) e

module _ {G : Type 0} (rng : Rng G) where
  drop_burst-OnlyRng :
      (burst : ℕ) (packets : List Bytes) (os : Os G)
      → OnlyRng os (drop_burst (os_runtime rng) burst packets os).1
  unfolding drop_burst
  drop_burst-OnlyRng burst packets os = elim (Bool-cases (ltb 0 burst && ltb 0 (length packets))) [
    | inl active ↦ rw active
    | inr idle ↦ rw idle
  ]

  retain_packets-OnlyRng :
      (percent : ℕ) (packets : List Bytes) (os : Os G)
      → OnlyRng os (retain_packets (os_runtime rng) percent packets os).1
  unfolding retain_packets
  retain_packets-OnlyRng percent [] os = refl
  retain_packets-OnlyRng percent (packet ∷ packets) os =
      let os₁ : Os G = record os { rng = (rng.gen_range 0 100 os.rng).1 } in
      OnlyRng-trans os os₁ (retain_packets (os_runtime rng) percent packets os₁).1 refl
        (retain_packets-OnlyRng percent packets os₁)

  drop_random-OnlyRng :
      (percent : ℕ) (packets : List Bytes) (os : Os G)
      → OnlyRng os (drop_random (os_runtime rng) percent packets os).1
  unfolding drop_random
  drop_random-OnlyRng percent packets os = elim (Bool-cases (ltb 0 percent)) [
    | inl active ↦ rw active (retain_packets-OnlyRng percent packets os)
    | inr idle ↦ rw idle
  ]

  shuffle_packets-OnlyRng :
      (shuffled : Bool) (packets : List Bytes) (os : Os G)
      → OnlyRng os (shuffle_packets (os_runtime rng) shuffled packets os).1
  unfolding shuffle_packets
  shuffle_packets-OnlyRng true packets os = refl
  shuffle_packets-OnlyRng false packets os = refl

  -- The rest of the options, after each way for the burst loss to end.
  after_burst : FiudpSender (Os G) → List Bytes → Io (Os G) (List Bytes)
  after_burst s packets os =
      let (kept, os₁) = drop_random (os_runtime rng) s.chaos_drop packets os in
      let (shuffled, os₂) = shuffle_packets (os_runtime rng) s.chaos_shuffle kept os₁ in
      (ok shuffled, os₂)

  after_burst-OnlyRng :
      (s : FiudpSender (Os G)) (r : Result (List Bytes)) (os : Os G)
      → OnlyRng os (resume r (after_burst s) os).1
  unfolding after_burst
  after_burst-OnlyRng s (ok packets) os =
      let (kept, os₁) = drop_random (os_runtime rng) s.chaos_drop packets os in
      let os₂ = (shuffle_packets (os_runtime rng) s.chaos_shuffle kept os₁).1 in
      OnlyRng-trans os os₁ os₂ (drop_random-OnlyRng s.chaos_drop packets os)
        (shuffle_packets-OnlyRng s.chaos_shuffle kept os₁)
  after_burst-OnlyRng s (err e) os = refl
  after_burst-OnlyRng s panic os = refl

  pub chaos-OnlyRng :
      (s : FiudpSender (Os G)) (packets : List Bytes) (os : Os G)
      → OnlyRng os (chaos (os_runtime rng) s packets os).1
  unfolding chaos after_burst
  chaos-OnlyRng s packets os =
      let (r, os₁) = drop_burst (os_runtime rng) s.chaos_burst packets os in
      OnlyRng-trans os os₁ (resume r (after_burst s) os₁).1
        (drop_burst-OnlyRng s.chaos_burst packets os) (after_burst-OnlyRng s r os₁)
