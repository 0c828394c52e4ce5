-- ===== src/Sender/Recovery.antt =====
-- src/sender.rs: what a receiver recovers from a part of a burst's packets, in any order.
use mathlib.Core.List.{
  filter_map, flatten, Nodup, Pairwise-prop, Mem-prop, mem-cons_self, Nodup-cons, Nodup-nil,
  mem-cons, mem-map, mem-filter_map, filter_map-cons-some, not-mem-nil,
}
use mathlib.Core.Logic.Or
use mathlib.Core.Option
use mathlib.Core.Logic.{∥∥₁_elim}
use fin_amor_s_ideal_udp_fiu.Base.{
  ℕ, suc, ◌+◌, ◌≤◌, ◌<◌, ◌≡◌, ◌≢◌, refl, sym, subst, ap, ◌∙◌, inl, inr, ◌⊎◌, none, some, Bytes,
  List, [], ◌∷◌, ◌++◌, map, Mem, arith, length, take, get_elem?, replicate,
}
use fin_amor_s_ideal_udp_fiu.Protocol.Packet.{PacketBuilder}
use fin_amor_s_ideal_udp_fiu.Protocol.Padding.Laws.{padding}
use fin_amor_s_ideal_udp_fiu.Crypto.{Opener}
use fin_amor_s_ideal_udp_fiu.Fec.{FecEngine, IsCodeword}
use fin_amor_s_ideal_udp_fiu.Receiver.{Received, receive}
use fin_amor_s_ideal_udp_fiu.Receiver.Reassembly.{Decoder, IsDecoder, piece, assemble, reassemble}
use fin_amor_s_ideal_udp_fiu.Sender.Shards.Split.{data_count}
use fin_amor_s_ideal_udp_fiu.Sender.Seal.Receive.{received, number}
use fin_amor_s_ideal_udp_fiu.Sender.Packets.{IsBurst}
use fin_amor_s_ideal_udp_fiu.Sender.Entries.{Entry, mem-Entry, Entry-injective}

module _ (opener : Opener) (b : PacketBuilder) where
  abbrev pub opened_by : List Bytes → List Received
  opened_by = filter_map (receive opener)

  abbrev pub indices_of : List Bytes → List ℕ
  indices_of packets = map (λ (r : Received). r.shard_index) (opened_by packets)

  no_index :
      (indices : List ℕ) → 0 < length indices → ¬ ((i : ℕ) → Mem i indices → Mem {A = ℕ} i [])
  no_index [] positive all = absurd (omega arith)
  no_index (i ∷ indices) positive all = not-mem-nil (all i mem-cons_self)

  module _ (packets slices : List Bytes)
      (opened : map (receive opener) packets ≡ map some (number b 0 slices)) where
    -- What is received of arrivals: entries of the burst.
    mem-opened_by :
        (arrivals : List Bytes) (r : Received)
        → ((x : Bytes) → Mem x arrivals → Mem x packets ⊎ (receive opener x ≡ none))
        → Mem r (opened_by arrivals)
        → ∥ (
            (x : Bytes) × Mem x arrivals
            × ((e : Entry opener b 0 packets slices x) × (r ≡ received b e.index e.slice))) ∥₁
    mem-opened_by arrivals r genuine m =
        ∥∥₁_elim ((mem-filter_map (receive opener) arrivals).0 m) (hlevel) (λ (x, mx, rx).
          elim (genuine x mx) [
            | inr noise ↦ absurd (ground arith)
            | inl mp ↦
                ∥∥₁_elim (mem-Entry opener b 0 packets slices x opened mp) (hlevel)
                  (λ e. ∣ (x, mx, (e, ground (arith, e.opens))) ∣₁)
          ])

    indices_of-cons :
        (x : Bytes) (heard : List Bytes) (e : Entry opener b 0 packets slices x)
        → indices_of (x ∷ heard) ≡ e.index ∷ indices_of heard
    indices_of-cons x heard e =
        ap (map (λ (r : Received). r.shard_index))
          (filter_map-cons-some (receive opener) x heard e.opens)
        ∙ ap (λ (i : ℕ). i ∷ indices_of heard) (omega arith)

    -- An index of some packets is the index of one of them.
    mem-indices_of :
        (heard : List Bytes) (x : Bytes) (e : Entry opener b 0 packets slices x)
        → ((y : Bytes) → Mem y heard → Mem y packets)
        → Mem e.index (indices_of heard)
        → Mem x heard
    mem-indices_of heard x e inside m = ∥∥₁_elim (mem-map.0 m) Mem-prop (λ (r, mr, same).
        ∥∥₁_elim (mem-opened_by heard r (λ y my. inl (inside y my)) mr) Mem-prop
          (λ (y, my, (f, is_entry)).
            let index : e.index ≡ f.index =
              ground (arith, ap (λ (q : Received). q.shard_index) is_entry) in
            subst (λ z. Mem z heard) (sym (Entry-injective opener b 0 packets slices x y e f index))
              my))

    -- Different packets of the burst have different indices.
    indices-Nodup :
        (heard : List Bytes)
        → Nodup heard
        → ((x : Bytes) → Mem x heard → Mem x packets)
        → Nodup (indices_of heard)
    unfolding filter_map
    indices-Nodup [] distinct inside = Nodup-nil
    indices-Nodup (x ∷ heard) distinct inside =
        let (absent, rest) = Nodup-cons.0 distinct in
        let inside' : (y : Bytes) → Mem y heard → Mem y packets =
          λ y my. inside y (mem-cons.1 (Or.inr my)) in
        ∥∥₁_elim (mem-Entry opener b 0 packets slices x opened (inside x mem-cons_self))
          (Pairwise-prop (λ i j. hlevel))
          (λ e. subst Nodup (sym (indices_of-cons x heard e)) (
            Nodup-cons.1 (
              (λ m. absent (mem-indices_of heard x e inside' m)),
              indices-Nodup heard rest inside',
            )))

    length-indices_of :
        (heard : List Bytes)
        → ((x : Bytes) → Mem x heard → Mem x packets)
        → length (indices_of heard) ≡ length heard
    unfolding filter_map
    length-indices_of [] inside = refl
    length-indices_of (x ∷ heard) inside =
        let inside' : (y : Bytes) → Mem y heard → Mem y packets =
          λ y my. inside y (mem-cons.1 (Or.inr my)) in
        ∥∥₁_elim (mem-Entry opener b 0 packets slices x opened (inside x mem-cons_self)) (hlevel)
          (λ e.
            ap (λ (l : List ℕ). length l) (indices_of-cons x heard e)
            ∙ ap suc (length-indices_of heard inside'))

    module _ (engine : FecEngine) (decode : Decoder) (law : IsDecoder engine decode) (d p : ℕ)
        (count : length slices ≡ d + p) (codeword : IsCodeword engine d p slices)
        (arrivals heard : List Bytes)
        (genuine : (x : Bytes) → Mem x arrivals → Mem x packets ⊎ (receive opener x ≡ none))
        (distinct : Nodup heard)
        (arrived : (x : Bytes) → Mem x heard → Mem x arrivals × Mem x packets)
        (enough : d ≤ length heard) where
      pieces_genuine :
          (q : ℕ × Bytes) → Mem q (map piece (opened_by arrivals)) → get_elem? slices q.0 ≡ some q.1
      pieces_genuine q m = ∥∥₁_elim (mem-map.0 m) (hlevel) (λ (r, mr, same).
          ∥∥₁_elim (mem-opened_by arrivals r genuine mr) (hlevel) (λ (x, mx, (e, is_entry)).
            subst (λ (t : ℕ × Bytes). get_elem? slices t.0 ≡ some t.1)
              (ap piece (sym is_entry) ∙ same) e.at_slice))

      indices_arrived :
          (i : ℕ)
          → Mem i (indices_of heard)
          → Mem i (map (λ (q : ℕ × Bytes). q.0) (map piece (opened_by arrivals)))
      indices_arrived i m = ∥∥₁_elim (mem-map.0 m) Mem-prop (λ (r, mr, same).
          ∥∥₁_elim ((mem-filter_map (receive opener) heard).0 mr) Mem-prop (λ (x, mx, rx).
            let there : Mem r (opened_by arrivals) =
              (mem-filter_map (receive opener) arrivals).1 ∣ (x, (arrived x mx).0, rx) ∣₁ in
            mem-map.1 ∣ (piece r, mem-map.1 ∣ (r, there, refl) ∣₁, same) ∣₁))

      decoded : decode d p (map piece (opened_by arrivals)) ≡ some (take d slices)
      decoded =
          let inside : (x : Bytes) → Mem x heard → Mem x packets = λ x m. (arrived x m).1 in
          law.recovers d p slices (map piece (opened_by arrivals)) (indices_of heard) count codeword
            pieces_genuine (indices-Nodup heard distinct inside) indices_arrived
            (omega (arith, length-indices_of heard inside))

      -- The header of a shard that was received is the builder's.
      header_counts :
          (r : Received)
          → Mem r (opened_by arrivals)
          → (r.data_shards ≡ b.data_shards.value) × (r.parity_shards ≡ b.parity_shards.value)
      header_counts r m =
          ∥∥₁_elim (mem-opened_by arrivals r genuine m) (hlevel) (λ (x, mx, (e, is_entry)). (
            ap (λ (q : Received). q.data_shards) is_entry,
            ap (λ (q : Received). q.parity_shards) is_entry,
          ))

      some_arrived : 0 < d → opened_by arrivals ≢ []
      some_arrived positive none_opened =
          let inside : (x : Bytes) → Mem x heard → Mem x packets = λ x m. (arrived x m).1 in
          no_index (indices_of heard) (omega (arith, length-indices_of heard inside)) (λ i m.
            subst (λ (l : List Received). Mem i (map (λ (q : ℕ × Bytes). q.0) (map piece l)))
              none_opened (indices_arrived i m))

      assemble-opened :
          (arrived_shards : List Received)
          → opened_by arrivals ≡ arrived_shards
          → 0 < d
          → b.data_shards.value ≡ d
          → b.parity_shards.value ≡ p
          → assemble decode arrived_shards ≡ some (flatten (take d slices))
      assemble-opened [] none_opened positive ed ep = absurd (some_arrived positive none_opened)
      assemble-opened (r ∷ rest) opened_all positive ed ep =
          let (hd, hp) = header_counts r (subst (λ l. Mem r l) (sym opened_all) mem-cons_self) in
          rw (hd, hp, ed, ep)
            (ap (Option.map flatten)
              (ap (λ l. decode d p (map piece l)) (sym opened_all) ∙ decoded))

-- The frame, with its zeros, is recovered from any packets that open, as long as as many different
-- ones of the burst are among them as the frame has data slices.
pub burst_recovers :
    (engine : FecEngine) (decode : Decoder) (opener : Opener) (b : PacketBuilder) (frame : Bytes)
    (packets arrivals heard : List Bytes)
    → IsDecoder engine decode
    → IsBurst engine opener b frame packets
    → 0 < data_count frame
    → ((x : Bytes) → Mem x arrivals → Mem x packets ⊎ (receive opener x ≡ none))
    → Nodup heard
    → ((x : Bytes) → Mem x heard → Mem x arrivals × Mem x packets)
    → data_count frame ≤ length heard
    → reassemble opener decode arrivals ≡ some (frame ++ replicate (padding frame) 0)
unfolding reassemble
burst_recovers engine decode opener b frame packets arrivals heard law burst positive genuine
      distinct arrived enough =
    assemble-opened opener b packets burst.slices burst.opened engine decode law b.data_shards.value
      b.parity_shards.value burst.count burst.codeword arrivals heard genuine distinct arrived
      (omega (arith, burst.as_asked)) (opened_by opener b arrivals) refl
      (omega (arith, burst.as_asked)) refl refl
    ∙ ap some burst.content
