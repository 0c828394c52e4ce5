-- ===== src/Sender/Entries.antt =====
-- src/sender.rs: where each packet of a burst stands among its slices.
use mathlib.Core.List.{mem-cons, not-mem-nil}
use mathlib.Core.Logic.Or
use mathlib.Core.Logic.{∥∥₁_elim}
use fin_amor_s_ideal_udp_fiu.Base.{
  ℕ, suc, ◌+◌, ◌≡◌, refl, sym, ap, some, Bytes, List, [], ◌∷◌, map, Mem, arith, get_elem?,
}
use fin_amor_s_ideal_udp_fiu.Protocol.Packet.{PacketBuilder}
use fin_amor_s_ideal_udp_fiu.Crypto.{Opener}
use fin_amor_s_ideal_udp_fiu.Receiver.{receive}
use fin_amor_s_ideal_udp_fiu.Sender.Seal.Receive.{received, number}

-- Where a packet of a burst stands, and what the receiver gets from it.
pub record Entry (opener : Opener) (b : PacketBuilder) (start : ℕ) (packets slices : List Bytes)
    (packet : Bytes) : Type 0 where
  pub index : ℕ
  pub slice : Bytes
  pub at_packet : get_elem? packets index ≡ some packet
  pub at_slice : get_elem? slices index ≡ some slice
  pub opens : receive opener packet ≡ some (received b (start + index) slice)

module _ (opener : Opener) (b : PacketBuilder) where
  Entry-later :
      (start : ℕ) (packets slices : List Bytes) (p s packet : Bytes)
      → Entry opener b (start + 1) packets slices packet
      → Entry opener b start (p ∷ packets) (s ∷ slices) packet
  Entry-later start packets slices p s packet e = record {
    index = suc e.index;
    slice = e.slice;
    at_packet = e.at_packet;
    at_slice = e.at_slice;
    opens =
        let same : start + 1 + e.index ≡ start + suc e.index = omega arith in (rw same at e.opens);
  }

  -- Every packet of a burst has an entry.
  pub mem-Entry :
      (start : ℕ) (packets slices : List Bytes) (packet : Bytes)
      → map (receive opener) packets ≡ map some (number b start slices)
      → Mem packet packets
      → ∥ Entry opener b start packets slices packet ∥₁
  mem-Entry start [] slices packet opened m = absurd (not-mem-nil m)
  mem-Entry start (p ∷ packets) [] packet opened m = absurd (ground arith)
  mem-Entry start (p ∷ packets) (s ∷ slices) packet opened m =
      Or.elim (hlevel) (mem-cons.0 m)
        (λ same. ∣ record {
          index = 0;
          slice = s;
          at_packet = ap some (sym same);
          at_slice = refl;
          opens =
              (let zero_added : start + 0 ≡ start = omega arith in
                rw (same, zero_added) (ground arith));
        } ∣₁)
        (λ later.
          ∥∥₁_elim (mem-Entry (start + 1) packets slices packet (ground arith) later) (hlevel)
            (λ e. ∣ Entry-later start packets slices p s packet e ∣₁))

  -- Packets with one index are one packet.
  pub Entry-injective :
      (start : ℕ) (packets slices : List Bytes) (x y : Bytes)
      → (e : Entry opener b start packets slices x) → (f : Entry opener b start packets slices y)
      → e.index ≡ f.index
      → x ≡ y
  Entry-injective start packets slices x y e f same =
      let found : get_elem? packets e.index ≡ some y = rw same f.at_packet in
      ground (arith, e.at_packet)
