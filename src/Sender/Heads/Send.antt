-- ===== src/Sender/Heads/Send.antt =====
-- src/sender.rs: the heads that a whole call of `send` shows on the wire, however it ends.
use mathlib.Core.List.{mem-cons_of_mem}
use mathlib.Core.List.{mem-cons_self}
use mathlib.Core.List.{Nodup-cons}
use mathlib.Core.List.{Perm, Sublistᴰ, Nodup-nil, not-mem-nil, append-nil}
use fin_amor_s_ideal_udp_fiu.Base.{
  ℕ, ◌+◌, ◌≤◌, ◌<◌, ◌≡◌, refl, sym, subst, ap, ◌∙◌, inl, inr, Bool, Bool-cases, Bytes, List, [],
  ◌++◌, ◌∷◌, map, arith, length, All, All-kept, ⊤, u32_mod, isize_max, ◌==◌,
}
use fin_amor_s_ideal_udp_fiu.Error.{Result, ok, err, panic, Result-cases}
use fin_amor_s_ideal_udp_fiu.Os.{Os, Event, Target}
use fin_amor_s_ideal_udp_fiu.Types.SessionId
use fin_amor_s_ideal_udp_fiu.Types.SessionId.{SessionId}
use fin_amor_s_ideal_udp_fiu.Types.RendezvousSecs
use fin_amor_s_ideal_udp_fiu.Types.RendezvousSecs.{RendezvousSecs}
use fin_amor_s_ideal_udp_fiu.Protocol.Layout.{shard_size, packet_size}
use fin_amor_s_ideal_udp_fiu.Config.ParityRatio.{ParityRatio, IsPercent}
use fin_amor_s_ideal_udp_fiu.Crypto.{Encryptor, Opener, IsAead}
use fin_amor_s_ideal_udp_fiu.Fec.{FecEngine, IsSystematic}
use fin_amor_s_ideal_udp_fiu.Sender.{FiudpSender, make_packets, chaos, send, session_builder}
use fin_amor_s_ideal_udp_fiu.Sender.Shards.{split_frame}
use fin_amor_s_ideal_udp_fiu.Sender.Shards.Split.{IsFrame}
use fin_amor_s_ideal_udp_fiu.Sender.Packets.{make_packets-IsBurst}
use fin_amor_s_ideal_udp_fiu.Sender.Transmit.{transmit-Transmitted}
use fin_amor_s_ideal_udp_fiu.Sender.Transport.{InputReader, Rng, os_runtime}
use fin_amor_s_ideal_udp_fiu.Sender.Chaos.{IsRandom, chaos_keeps}
use fin_amor_s_ideal_udp_fiu.Sender.Chaos.State.{chaos-OnlyRng}
use fin_amor_s_ideal_udp_fiu.Sender.Burst.{
  send-of_sent, send-of_failure, send-of_panic, length-IsBurst, udp_pipeline,
}
use fin_amor_s_ideal_udp_fiu.Sender.Heads.{
  head_of, heads, IsOneSession, sent-IsOneSession, Sublistᴰ-IsOneSession,
}
use fin_amor_s_ideal_udp_fiu.Sender.Heads.Loop.{IsOf, IsPartOf, Transmitted-heads}

-- What a call may add to the wire: packets of one session and first parts of them, and each index is
-- shown at most once.
abbrev pub AddsSession : ℕ → List Event → List Event → Type 0
AddsSession id before after =
    (tail : List Event) × (after ≡ before ++ tail)
    × IsOneSession id (heads tail)
    × All (IsPartOf id) tail

pub AddsSession-nothing : (id : ℕ) (before : List Event) → AddsSession id before before
unfolding heads
AddsSession-nothing id before =
    ([], sym (append-nil before), (Nodup-nil, λ h m. absurd (not-mem-nil m)), tt)

-- What is left of a burst has its packets' size.
pub sent_sizes :
    (packets kept sent : List Bytes)
    → All (λ (packet : Bytes). length packet ≡ packet_size) packets
    → Sublistᴰ kept packets
    → Perm sent kept
    → All (λ (packet : Bytes). length packet ≡ packet_size) sent
sent_sizes packets kept sent sizes lost reordered =
    All-kept (λ (packet : Bytes). length packet ≡ packet_size) (λ packet. hlevel) packets kept sent
      sizes lost reordered

sent-IsOf :
    (id : ℕ) (sent : List Bytes)
    → All (λ (packet : Bytes). length packet ≡ packet_size) sent
    → IsOneSession id (map head_of sent)
    → All (IsOf id) sent
sent-IsOf id [] sizes session = tt
sent-IsOf id (x ∷ sent) sizes (distinct, one) = (
  (sizes.0, one (head_of x) mem-cons_self),
  sent-IsOf id sent sizes.1
      ((Nodup-cons.0 distinct).1, λ h m. one h (mem-cons_of_mem (head_of x) m)),
)

pub frame_nonempty :
    (engine : FecEngine) (e : Encryptor) (ratio : ParityRatio) (secs : RendezvousSecs)
    (id : SessionId) (frame : Bytes) (packets : List Bytes)
    → make_packets engine e ratio secs id frame ≡ ok packets
    → 0 < length frame
unfolding make_packets split_frame
frame_nonempty engine e ratio secs id frame packets made = elim (Bool-cases (length frame == 0)) [
  | inl none_read ↦ absurd (ground arith)
  | inr some_read ↦ ground arith
]

module _ {G : Type 0} (rng : Rng G) (random : IsRandom (os_runtime rng)) (target : Target)
    (reader : InputReader (Os G)) (engine : FecEngine) (systematic : IsSystematic engine)
    (encryptor : Encryptor) (opener : Opener) (aead : IsAead encryptor opener) (delay : ℕ)
    (chaos_drop chaos_burst : ℕ) (chaos_shuffle : Bool) (small : chaos_burst < u32_mod)
    (ratio : ParityRatio) (secs : RendezvousSecs) (id : SessionId) (percent : IsPercent ratio)
    (u32 : RendezvousSecs.IsU32 secs) (u16 : SessionId.IsU16 id) (os : Os G) where
  abbrev pipe : FiudpSender (Os G)
  pipe =
      udp_pipeline rng random target reader engine systematic encryptor opener aead delay chaos_drop
        chaos_burst chaos_shuffle small

  abbrev result : Result ⊤ × Os G
  result = send (os_runtime rng) pipe ratio secs id os

  packets-AddsSession :
      (frame : Bytes) (packets : List Bytes)
      → reader.read_all os ≡ (ok frame, os)
      → length frame + shard_size ≤ isize_max
      → make_packets engine encryptor ratio secs id frame ≡ ok packets
      → AddsSession id.value os.events result.1.events
  packets-AddsSession frame packets read fits made =
      let f : IsFrame frame = record {
        fits = fits;
        nonempty = frame_nonempty engine encryptor ratio secs id frame packets made;
      } in
      let rt = os_runtime rng in
      let (d, p, few, total, burst) =
        make_packets-IsBurst engine systematic encryptor opener aead ratio percent secs id u32 u16
          frame f packets made in
      let short = length-IsBurst engine opener (session_builder id secs d p) frame packets burst in
      let (kept, sent, chosen, many, lost, reordered) =
        chaos_keeps rt random pipe packets os small (omega arith) in
      let os₂ = (chaos rt pipe packets os).1 in
      let run = send-of_sent rt pipe ratio secs id os os frame read packets sent made chosen in
      let same : os₂.events ≡ os.events =
        ap (λ (o : Os G). o.events) (chaos-OnlyRng rng pipe packets os) in
      let session =
        sent-IsOneSession engine opener (session_builder id secs d p) frame packets kept sent burst
          lost reordered in
      let (tail, wire, shown, parts) =
        Transmitted-heads id.value
          (sent-IsOf id.value sent (sent_sizes packets kept sent burst.sizes lost reordered)
            session)
          (transmit-Transmitted target rng delay sent os₂) in
      (
        tail,
        ap (λ (r : Result ⊤ × Os G). r.1.events) run
            ∙ wire
            ∙ ap (λ (events : List Event). events ++ tail) same,
        Sublistᴰ-IsOneSession id.value shown session,
        parts,
      )

  -- However the call ends, what it adds to the wire is of its session.
  pub send-AddsSession :
      (answer : Result Bytes)
      → reader.read_all os ≡ (answer, os)
      → ((frame : Bytes) → answer ≡ ok frame → length frame + shard_size ≤ isize_max)
      → AddsSession id.value os.events result.1.events
  unfolding send
  send-AddsSession (err e) read fits = rw read (AddsSession-nothing id.value os.events)
  send-AddsSession panic read fits = rw read (AddsSession-nothing id.value os.events)
  send-AddsSession (ok frame) read fits =
      elim (Result-cases (make_packets engine encryptor ratio secs id frame)) [
        | inl (packets, made) ↦ packets-AddsSession frame packets read (fits frame refl) made
        | inr (inl (e, made)) ↦
            subst (λ (r : Result ⊤ × Os G). AddsSession id.value os.events r.1.events)
              (sym (send-of_failure (os_runtime rng) pipe ratio secs id os os frame read e made))
              (AddsSession-nothing id.value os.events)
        | inr (inr made) ↦
            subst (λ (r : Result ⊤ × Os G). AddsSession id.value os.events r.1.events)
              (sym (send-of_panic (os_runtime rng) pipe ratio secs id os os frame read made))
              (AddsSession-nothing id.value os.events)
      ]
