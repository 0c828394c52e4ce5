-- ===== src/Sender/Chaos.antt =====
-- src/sender.rs: what the two losses and the shuffle do to a burst. The crate `rand` enters by what its
-- documentation promises.
pub mod State
pub mod Losses
use mathlib.Core.List.{Sublistᴰ, Perm}
use mathlib.Core.List.Sublistᴰ
use mathlib.Core.List.Sublistᴰ.{slnil, cons, cons-cons}
use mathlib.Core.List.Perm
use fin_amor_s_ideal_udp_fiu.Base.{
  ℕ, zero, suc, ◌+◌, ◌-◌, ◌≤◌, ◌<◌, ◌≡◌, ◌≢◌, refl, ap, sym, append-nil, ◌&&◌, ◌∙◌, drop-drop, inl,
  inr, min, Bool, true, false, Bool-cases, Bytes, List, [], ◌∷◌, ◌++◌, arith, length, take, drop,
  take-append-drop, length-take, length-drop, ltb, lt→ltb, leb, leb→le, le→leb, if◌then◌else◌,
  u32_mod, add_usize, saturating_sub, isize_max,
}
use fin_amor_s_ideal_udp_fiu.Error.{ok}
use fin_amor_s_ideal_udp_fiu.Sender.{
  FiudpSender, drain, drop_burst, retain_packets, drop_random, shuffle_packets, chaos,
}
use fin_amor_s_ideal_udp_fiu.Sender.Chaos.Losses.{
  LosesRun, drain-LosesRun, LosesRun-Sublistᴰ, length-LosesRun,
}
use fin_amor_s_ideal_udp_fiu.Sender.Transport.{Runtime}

-- A range that is not empty gives a number in it, and a shuffle permutes.
pub record IsRandom {W : Type 0} (rt : Runtime W) : Type 0 where
  pub in_range_inclusive :
      (lo hi : ℕ) (w : W)
      → lo ≤ hi
      → (lo ≤ (rt.gen_range_inclusive lo hi w).0) × ((rt.gen_range_inclusive lo hi w).0 ≤ hi)
  pub in_range :
      (lo hi : ℕ) (w : W)
      → lo < hi
      → (lo ≤ (rt.gen_range lo hi w).0) × ((rt.gen_range lo hi w).0 < hi)
  pub permutes : (packets : List Bytes) (w : W) → Perm (rt.shuffle packets w).0 packets

-- How many of the packets are kept at least: without the random loss all but those of the burst loss.
abbrev pub least_kept : ℕ → ℕ → ℕ → ℕ
least_kept zero chaos_burst count = count - chaos_burst
least_kept (suc chaos_drop) chaos_burst count = 0

module _ {W : Type 0} (rt : Runtime W) (random : IsRandom rt) where
  -- With a generator that keeps its ranges, a `u32` number to lose and packets that fit in memory,
  -- the burst loss does not panic and takes out one run of consecutive packets, whose length is the
  -- number asked for, or the whole burst if that is shorter; everything else stays in order.
  pub drop_burst-LosesRun :
      (chaos_burst : ℕ) (packets : List Bytes) (w : W)
      → chaos_burst < u32_mod
      → length packets ≤ isize_max
      → (out : List Bytes) × ((drop_burst rt chaos_burst packets w).0 ≡ ok out)
        × LosesRun (min chaos_burst (length packets)) packets out
  unfolding drop_burst
  drop_burst-LosesRun chaos_burst packets w small fits =
      let count = length packets in
      let start = (rt.gen_range_inclusive 0 (saturating_sub count chaos_burst) w).0 in
      let (lo, hi) =
        random.in_range_inclusive 0 (saturating_sub count chaos_burst) w (omega arith) in
      elim (Bool-cases (ltb 0 chaos_burst && ltb 0 count)) [
        | inl active ↦
            let end_eq : min count (add_usize start chaos_burst) ≡ start + min chaos_burst count =
              omega arith in
            rw (active, drop_burst, end_eq)
              (drain-LosesRun start (min chaos_burst count) packets (omega arith))
        | inr idle ↦
            let nothing : min chaos_burst count ≡ 0 = ground arith in
            rw (idle, nothing)
              (
                packets,
                refl,
                (packets, [], [], sym (append-nil packets), sym (append-nil packets), refl),
              )
      ]

  -- Each packet is kept or lost, in order.
  retain_packets-Sublistᴰ :
      (chaos_drop : ℕ) (packets : List Bytes) (w : W)
      → Sublistᴰ (retain_packets rt chaos_drop packets w).0 packets
  unfolding retain_packets
  retain_packets-Sublistᴰ chaos_drop [] w = slnil
  retain_packets-Sublistᴰ chaos_drop (packet ∷ packets) w =
      let w₁ = (rt.gen_range 0 100 w).1 in
      let rest = retain_packets-Sublistᴰ chaos_drop packets w₁ in
      elim (Bool-cases (leb chaos_drop (rt.gen_range 0 100 w).0)) [
        | inl kept ↦ rw kept (cons-cons refl rest)
        | inr lost ↦ rw lost (cons rest)
      ]

  retain_packets-all :
      (chaos_drop : ℕ) (packets : List Bytes) (w : W)
      → 100 ≤ chaos_drop
      → (retain_packets rt chaos_drop packets w).0 ≡ []
  unfolding retain_packets
  retain_packets-all chaos_drop [] w h = refl
  retain_packets-all chaos_drop (packet ∷ packets) w h = ground (
    arith,
    random.in_range 0 100 w,
    retain_packets-all chaos_drop packets (rt.gen_range 0 100 w).1 h,
  )

  -- With a generator that keeps its ranges, at a loss of at least 100 percent every packet is lost,
  -- whatever numbers are drawn.
  drop_random-all :
      (chaos_drop : ℕ) (packets : List Bytes) (w : W)
      → 100 ≤ chaos_drop
      → (drop_random rt chaos_drop packets w).0 ≡ []
  unfolding drop_random
  drop_random-all chaos_drop packets w h =
      rw (lt→ltb 0 chaos_drop (omega arith)) (retain_packets-all chaos_drop packets w h)

  drop_random-Sublistᴰ :
      (chaos_drop : ℕ) (packets : List Bytes) (w : W)
      → Sublistᴰ (drop_random rt chaos_drop packets w).0 packets
  unfolding drop_random
  drop_random-Sublistᴰ chaos_drop packets w = elim (Bool-cases (ltb 0 chaos_drop)) [
    | inl active ↦ rw active (retain_packets-Sublistᴰ chaos_drop packets w)
    | inr idle ↦ rw idle (Sublistᴰ.refl packets)
  ]

  shuffle_packets-perm :
      (shuffled : Bool) (packets : List Bytes) (w : W)
      → Perm (shuffle_packets rt shuffled packets w).0 packets
  unfolding shuffle_packets
  shuffle_packets-perm true packets w = random.permutes packets w
  shuffle_packets-perm false packets w = Perm.refl packets

  drop_random-least :
      (chaos_drop chaos_burst : ℕ) (packets left : List Bytes) (w : W)
      → length packets ≤ length left + chaos_burst
      → least_kept chaos_drop chaos_burst (length packets)
        ≤ length (drop_random rt chaos_drop left w).0
  unfolding drop_random
  drop_random-least zero chaos_burst packets left w few = omega arith
  drop_random-least (suc chaos_drop) chaos_burst packets left w few = omega arith

  -- With a generator that keeps its ranges and permutes, a `u32` number for the burst loss and
  -- packets that fit in memory: the three chaos options do not panic, and after them the packets
  -- are a permutation of some of the burst's packets: none is made up, changed or sent twice, and
  -- without the random loss all but at most as many as the burst loss asks for are kept.
  pub chaos_keeps :
      (s : FiudpSender W) (packets : List Bytes) (w : W)
      → s.chaos_burst < u32_mod
      → length packets ≤ isize_max
      → (kept : List Bytes) × (sent : List Bytes) × ((chaos rt s packets w).0 ≡ ok sent)
        × (least_kept s.chaos_drop s.chaos_burst (length packets) ≤ length kept)
        × Sublistᴰ kept packets
        × Perm sent kept
  unfolding chaos
  chaos_keeps s packets w small fits =
      let (left, done, run) = drop_burst-LosesRun s.chaos_burst packets w small fits in
      let w₁ = (drop_burst rt s.chaos_burst packets w).1 in
      let (kept, w₂) = drop_random rt s.chaos_drop left w₁ in
      (
        kept,
        (shuffle_packets rt s.chaos_shuffle kept w₂).0,
        rw done refl,
        drop_random-least s.chaos_drop s.chaos_burst packets left w₁
            (length-LosesRun s.chaos_burst packets left run),
        Sublistᴰ.trans (drop_random-Sublistᴰ s.chaos_drop left w₁)
            (LosesRun-Sublistᴰ _ packets left run),
        shuffle_packets-perm s.chaos_shuffle kept w₂,
      )

-- Without the options the burst goes out as it was made, and no random number is drawn.
pub chaos_off :
    {W : Type 0} (rt : Runtime W) (s : FiudpSender W) (packets : List Bytes) (w : W)
    → s.chaos_burst ≡ 0
    → s.chaos_drop ≡ 0
    → s.chaos_shuffle ≡ false
    → chaos rt s packets w ≡ (ok packets, w)
unfolding chaos
chaos_off rt s packets w a b c = rw (a, b, c)
