-- ===== src/Sender/Heads/Loop.antt =====
-- src/sender.rs: the heads that the sending loop shows on the wire, however it ends.
use mathlib.Core.List.Sublistᴰ
use mathlib.Core.List.{Sublistᴰ}
use fin_amor_s_ideal_udp_fiu.Base.{
  ℕ, zero, suc, ◌≤◌, ◌≡◌, refl, sym, subst, ap, ◌∙◌, inl, inr, Bytes, List, [], ◌∷◌, ◌++◌, map,
  arith, length, take, take-of_length, drop, All, leb, leb→le, le→leb, true, length-take,
  Bool-cases, ⊤,
}
use fin_amor_s_ideal_udp_fiu.Error.{Result}
use fin_amor_s_ideal_udp_fiu.Os.{Event, Target, datagram, pause}
use fin_amor_s_ideal_udp_fiu.Protocol.Layout.{packet_size}
use fin_amor_s_ideal_udp_fiu.Sender.Transmit.{schedule, IsCut, Transmitted, complete, stopped}
use fin_amor_s_ideal_udp_fiu.Sender.Heads.{head_of, heads, heads-append}

-- Four bytes are enough to show a head.
head_of-take : (n : ℕ) (x : Bytes) → 4 ≤ length (take n x) → head_of (take n x) ≡ head_of x
unfolding take drop
head_of-take (suc (suc (suc (suc n)))) (a ∷ b ∷ c ∷ d ∷ x) h = refl
head_of-take zero x h = absurd (omega arith)
head_of-take (suc n) [] h = absurd (omega arith)
head_of-take (suc zero) (a ∷ x) h = absurd (omega arith)
head_of-take (suc (suc n)) (a ∷ []) h = absurd (omega arith)
head_of-take (suc (suc zero)) (a ∷ b ∷ x) h = absurd (omega arith)
head_of-take (suc (suc (suc n))) (a ∷ b ∷ []) h = absurd (omega arith)
head_of-take (suc (suc (suc zero))) (a ∷ b ∷ c ∷ x) h = absurd (omega arith)
head_of-take (suc (suc (suc (suc n)))) (a ∷ b ∷ c ∷ []) h = absurd (omega arith)

-- A part of a packet shows the head of the packet, or none.
cut-heads :
    (target : Target) (n : ℕ) (packet : Bytes) (rest : List Event)
    → Sublistᴰ
        (heads (datagram target (take n packet) ∷ []))
        (heads (datagram target packet ∷ rest))
unfolding heads
cut-heads target n packet rest = elim (Bool-cases (leb 4 (length (take n packet)))) [
  | inr short ↦ rw short (Sublistᴰ.nil-sublist _)
  | inl long ↦
      let enough : 4 ≤ length (take n packet) = leb→le 4 (length (take n packet)) long in
      let whole : leb 4 (length packet) ≡ true =
        le→leb 4 (length packet) (omega (arith, length-take n packet)) in
      rw (long, whole)
        (Sublistᴰ.cons-cons (head_of-take n packet enough) (Sublistᴰ.nil-sublist (heads rest)))
]

tail_heads :
    (target : Target) (packet : Bytes) (tail rest : List Event)
    → IsCut target packet tail
    → Sublistᴰ (heads tail) (heads (datagram target packet ∷ rest))
unfolding heads
tail_heads target packet tail rest (inl none_sent) = rw none_sent (Sublistᴰ.nil-sublist _)
tail_heads target packet tail rest (inr (n, other, part)) = rw part (cut-heads target n packet rest)

heads-schedule :
    (target : Target) (delay : ℕ) (packets : List Bytes)
    → All (λ (packet : Bytes). length packet ≡ packet_size) packets
    → heads (schedule target delay packets) ≡ map head_of packets
unfolding heads
heads-schedule target delay [] sizes = refl
heads-schedule target delay (packet ∷ []) sizes = rw sizes.0
heads-schedule target delay (packet ∷ next ∷ packets) sizes =
    rw sizes.0
      (ap (λ hs. head_of packet ∷ hs) (heads-schedule target delay (next ∷ packets) sizes.1))

-- A packet of the session.
abbrev pub IsOf : ℕ → Bytes → Type 0
IsOf id packet = (length packet ≡ packet_size) × ((head_of packet).0 ≡ id)

-- A packet of the session, or the first part of one.
abbrev pub IsPartOf : ℕ → Event → Type 0
IsPartOf id (pause us) = ⊤
IsPartOf id (datagram target x) = (packet : Bytes) × (n : ℕ) × IsOf id packet × (x ≡ take n packet)

take-take : (n m : ℕ) (x : Bytes) → (k : ℕ) × (take n (take m x) ≡ take k x)
unfolding take
take-take zero m x = (0, refl)
take-take (suc n) zero x = (0, refl)
take-take (suc n) (suc m) [] = (0, refl)
take-take (suc n) (suc m) (a ∷ x) = let (k, e) = take-take n m x in (suc k, ap (λ l. a ∷ l) e)

whole_part :
    (id : ℕ) (target : Target) (packet : Bytes)
    → IsOf id packet
    → IsPartOf id (datagram target packet)
whole_part id target packet h =
    (packet, length packet, h, sym (take-of_length (length packet) packet (omega arith)))

schedule-parts :
    (id : ℕ) (target : Target) (delay : ℕ) (packets : List Bytes)
    → All (IsOf id) packets
    → All (IsPartOf id) (schedule target delay packets)
schedule-parts id target delay [] h = tt
schedule-parts id target delay (packet ∷ []) h = (whole_part id target packet h.0, tt)
schedule-parts id target delay (packet ∷ next ∷ packets) h =
    (whole_part id target packet h.0, (tt, schedule-parts id target delay (next ∷ packets) h.1))

-- The schedule up to a packet, and a part of that packet.
cut-parts :
    (id : ℕ) (target : Target) (packet : Bytes) (sent tail rest : List Event)
    → IsCut target packet tail
    → All (IsPartOf id) (sent ++ (datagram target packet ∷ rest))
    → All (IsPartOf id) (sent ++ tail)
cut-parts id target packet (event ∷ sent) tail rest c h =
    (h.0, cut-parts id target packet sent tail rest c h.1)
cut-parts id target packet [] tail rest (inl none_sent) h = rw none_sent tt
cut-parts id target packet [] tail rest (inr (n, other, part)) h =
    let (whole, m, of, cut) = h.0 in
    let (k, e) = take-take n m whole in rw part ((whole, k, of, ap (take n) cut ∙ e), tt)

sizes_of :
    (id : ℕ) (packets : List Bytes)
    → All (IsOf id) packets
    → All (λ (packet : Bytes). length packet ≡ packet_size) packets
sizes_of id [] h = tt
sizes_of id (packet ∷ packets) h = (h.0.0, sizes_of id packets h.1)

-- However the loop ends, the wire shows heads of its packets, in order and once each.
pub Transmitted-heads :
    {target : Target} {delay : ℕ} {packets : List Bytes} {before after : List Event} {r : Result ⊤}
    (id : ℕ)
    → All (IsOf id) packets
    → Transmitted target delay packets before after r
    → (tail : List Event) × (after ≡ before ++ tail)
      × Sublistᴰ (heads tail) (map head_of packets)
      × All (IsPartOf id) tail
Transmitted-heads {target} {delay} {packets} id h (complete e) = (
  schedule target delay packets,
  e,
  rw (heads-schedule target delay packets (sizes_of id packets h))
      (Sublistᴰ.refl (map head_of packets)),
  schedule-parts id target delay packets h,
)
Transmitted-heads {target} {delay} {packets} id h (stopped sent rest tail packet s c e) = (
  sent ++ tail,
  e,
  subst (Sublistᴰ (heads (sent ++ tail)))
      (sym (heads-append sent (datagram target packet ∷ rest))
        ∙ sym (ap heads s)
        ∙ heads-schedule target delay packets (sizes_of id packets h))
      (rw (heads-append sent tail)
        (Sublistᴰ.append (Sublistᴰ.refl (heads sent)) (tail_heads target packet tail rest c))),
  cut-parts id target packet sent tail rest c
      (subst (All (IsPartOf id)) s (schedule-parts id target delay packets h)),
)
