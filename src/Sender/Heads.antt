-- ===== src/Sender/Heads.antt =====
-- src/sender.rs: the session identifiers and shard indices that an observer reads off the wire. A
-- pair of them fixes the nonce of its packet.
pub mod Loop
pub mod Send
use mathlib.Core.List.Nodup
use mathlib.Core.List.Perm
use mathlib.Core.List.Sublistᴰ
use mathlib.Core.List.{
  Nodup, Nodup-cons, Nodup-nil, Sublistᴰ, Perm, mem-cons, mem-cons_self, not-mem-nil, filter_map,
  filter_map-eq-map, mem-map,
}
use mathlib.Core.Logic.Or
use mathlib.Core.Logic.{∥∥₁_elim}
use native.Mathlib.Bridge.{le_prop}
use fin_amor_s_ideal_udp_fiu.Base.{
  ℕ, zero, suc, ◌+◌, ◌≤◌, ◌<◌, ◌≡◌, refl, sym, subst, ap, ◌∙◌, inl, inr, ◌⊎◌, Bytes, List, [], ◌∷◌,
  ◌++◌, map, Mem, some, none, Option, arith, length, take, drop, All, leb, leb→le, le→leb, true,
  length-take, Bool-cases, if◌then◌else◌, ⊤, ◌==◌,
}
use fin_amor_s_ideal_udp_fiu.Error.{Result, ok, err}
use fin_amor_s_ideal_udp_fiu.Os.{Event, Target, datagram, pause}
use fin_amor_s_ideal_udp_fiu.Protocol.Layout.{packet_size}
use fin_amor_s_ideal_udp_fiu.Protocol.Packet.{PacketBuilder}
use fin_amor_s_ideal_udp_fiu.Protocol.Packet.Wire.{WirePacket, number_at, parse_packet, read_fields}
use fin_amor_s_ideal_udp_fiu.Crypto.{Opener}
use fin_amor_s_ideal_udp_fiu.Fec.{FecEngine}
use fin_amor_s_ideal_udp_fiu.Receiver.{Received, accept, receive}
use fin_amor_s_ideal_udp_fiu.Sender.Seal.Receive.{received, number}
use fin_amor_s_ideal_udp_fiu.Sender.Packets.{IsBurst}
use fin_amor_s_ideal_udp_fiu.Sender.Transmit.{schedule, IsCut, Transmitted, complete, stopped}

-- The first two fields of a packet.
abbrev pub head_of : Bytes → ℕ × ℕ
head_of packet = (number_at 0 2 packet, number_at 2 2 packet)

-- Those of the datagrams that are long enough to have them, in order.
unfoldable pub heads : List Event → List (ℕ × ℕ)
heads [] = []
heads (pause us ∷ events) = heads events
heads (datagram target packet ∷ events) =
    if leb 4 (length packet) then head_of packet ∷ heads events else heads events

pub heads-append : (xs ys : List Event) → heads (xs ++ ys) ≡ heads xs ++ heads ys
unfolding heads
heads-append [] ys = refl
heads-append (pause us ∷ xs) ys = heads-append xs ys
heads-append (datagram target packet ∷ xs) ys = elim (Bool-cases (leb 4 (length packet))) [
  | inl long ↦ rw long (ap (λ hs. head_of packet ∷ hs) (heads-append xs ys))
  | inr short ↦ rw short (heads-append xs ys)
]

accept-some :
    (p : WirePacket) (opened : Option Bytes) (r : Received)
    → accept p opened ≡ some r
    → (p.session_id ≡ r.session_id) × (p.shard_index ≡ r.shard_index)
accept-some p none r h = absurd (ground arith)
accept-some p (some shard) r h = ground arith

-- A packet that opens shows what it was received with.
head_of-received :
    (opener : Opener) (packet : Bytes) (r : Received)
    → receive opener packet ≡ some r
    → head_of packet ≡ (r.session_id, r.shard_index)
unfolding receive parse_packet
head_of-received opener packet r h = elim (Bool-cases (length packet == 1428)) [
  | inr other ↦ absurd (ground arith)
  | inl full ↦
      let (id, index) = accept-some (read_fields packet) _ r (rw full at h) in
      ap (λ (n : ℕ). (n, number_at 2 2 packet)) id ∙ ap (λ (n : ℕ). (r.session_id, n)) index
]

-- The heads of a burst, from an index on.
abbrev pub pairs : ℕ → ℕ → List Bytes → List (ℕ × ℕ)
pairs id start [] = []
pairs id start (slice ∷ slices) = (id, start) ∷ pairs id (start + 1) slices

heads-opened :
    (opener : Opener) (b : PacketBuilder) (start : ℕ) (packets slices : List Bytes)
    → map (receive opener) packets ≡ map some (number b start slices)
    → map head_of packets ≡ pairs b.session_id.value start slices
heads-opened opener b start [] [] h = refl
heads-opened opener b start [] (s ∷ slices) h = absurd (ground arith)
heads-opened opener b start (p ∷ packets) [] h = absurd (ground arith)
heads-opened opener b start (p ∷ packets) (s ∷ slices) h =
    let first : receive opener p ≡ some (received b start s) = ground arith in
    let rest : map (receive opener) packets ≡ map some (number b (start + 1) slices) =
      ground arith in
    rw (head_of-received opener p (received b start s) first) (
      ap (λ hs. (b.session_id.value, start) ∷ hs)
        (heads-opened opener b (start + 1) packets slices rest))

mem-pairs :
    (id start : ℕ) (slices : List Bytes) (h : ℕ × ℕ)
    → Mem h (pairs id start slices)
    → (h.0 ≡ id) × (start ≤ h.1)
mem-pairs id start [] h m = absurd (not-mem-nil m)
mem-pairs id start (s ∷ slices) h m =
    Or.elim (hlevel (le_prop)) (mem-cons.0 m)
      (λ e. (ap (λ (q : ℕ × ℕ). q.0) e, omega (arith, ap (λ (q : ℕ × ℕ). q.1) e)))
      (λ later. let (same, above) = mem-pairs id (start + 1) slices h later in (same, omega arith))

pairs-Nodup : (id start : ℕ) (slices : List Bytes) → Nodup (pairs id start slices)
pairs-Nodup id start [] = Nodup-nil
pairs-Nodup id start (s ∷ slices) = Nodup-cons.1 (
  (λ m. omega (arith, (mem-pairs id (start + 1) slices (id, start) m).1)),
  pairs-Nodup id (start + 1) slices,
)

-- All heads are different, and of one session.
abbrev pub IsOneSession : ℕ → List (ℕ × ℕ) → Type 0
IsOneSession id hs = Nodup hs × ((h : ℕ × ℕ) → Mem h hs → h.0 ≡ id)

burst-IsOneSession :
    (engine : FecEngine) (opener : Opener) (b : PacketBuilder) (frame : Bytes)
    (packets : List Bytes)
    → IsBurst engine opener b frame packets
    → IsOneSession b.session_id.value (map head_of packets)
burst-IsOneSession engine opener b frame packets h =
    rw (heads-opened opener b 0 packets h.slices h.opened) (
      pairs-Nodup b.session_id.value 0 h.slices,
      λ q m. (mem-pairs b.session_id.value 0 h.slices q m).0,
    )

Sublistᴰ-IsOneSession :
    {xs ys : List (ℕ × ℕ)} (id : ℕ) → Sublistᴰ xs ys → IsOneSession id ys → IsOneSession id xs
Sublistᴰ-IsOneSession id sub (distinct, same) =
    (Nodup.sublist ∣ sub ∣₁ distinct, λ h m. same h (Sublistᴰ.subset sub h m))

Perm-IsOneSession :
    {xs ys : List (ℕ × ℕ)} (id : ℕ) → Perm xs ys → IsOneSession id ys → IsOneSession id xs
Perm-IsOneSession id p (distinct, same) =
    (Perm.nodup (Perm.symm p) distinct, λ h m. same h (Perm.subset p h m))

map-Sublistᴰ : (xs ys : List Bytes) → Sublistᴰ xs ys → Sublistᴰ (map head_of xs) (map head_of ys)
map-Sublistᴰ xs ys sub =
    subst (λ (l : List (ℕ × ℕ)). Sublistᴰ l (map head_of ys)) (filter_map-eq-map head_of xs)
      (subst (λ (l : List (ℕ × ℕ)). Sublistᴰ (filter_map (λ (x : Bytes). some (head_of x)) xs) l)
        (filter_map-eq-map head_of ys) (Sublistᴰ.filter_map (λ (x : Bytes). some (head_of x)) sub))

-- What is left of a burst after losses and a shuffle is of one session too.
pub sent-IsOneSession :
    (engine : FecEngine) (opener : Opener) (b : PacketBuilder) (frame : Bytes)
    (packets kept sent : List Bytes)
    → IsBurst engine opener b frame packets
    → Sublistᴰ kept packets
    → Perm sent kept
    → IsOneSession b.session_id.value (map head_of sent)
sent-IsOneSession engine opener b frame packets kept sent burst lost reordered =
    Perm-IsOneSession b.session_id.value (Perm.map head_of reordered) (
      Sublistᴰ-IsOneSession b.session_id.value (map-Sublistᴰ kept packets lost)
        (burst-IsOneSession engine opener b frame packets burst))
