-- ===== src/Receiver/Replay.antt =====
-- The receiver of SPEC.md §3.5 over packets of several sessions: those of a session that is not above
-- the highest one it has processed are discarded, and the rest are grouped by session.
use mathlib.Core.List.{filter_map, mem-filter_map}
use mathlib.Core.Logic.{∥∥₁_elim}
use fin_amor_s_ideal_udp_fiu.Base.{
  ℕ, ◌≡◌, refl, subst, inl, inr, Bool, true, Bool-cases, Option, none, some, Bytes, List, Mem, ltb,
  ◌==◌, if◌then◌else◌, arith,
}
use fin_amor_s_ideal_udp_fiu.Crypto.{Opener}
use fin_amor_s_ideal_udp_fiu.Protocol.Packet.Wire.{number_at}
use fin_amor_s_ideal_udp_fiu.Receiver.Reassembly.{Decoder, reassemble}

abbrev pub session_of : Bytes → ℕ
session_of packet = number_at 0 2 packet

abbrev pub is_fresh : Option ℕ → Bytes → Bool
is_fresh none packet = true
is_fresh (some highest) packet = ltb highest (session_of packet)

abbrev pub is_of : ℕ → Bytes → Bool
is_of id packet = session_of packet == id

abbrev pick : (Bytes → Bool) → Bytes → Option Bytes
pick test packet = if test packet then some packet else none

abbrev pub keep : (Bytes → Bool) → List Bytes → List Bytes
keep test arrivals = filter_map (pick test) arrivals

-- What is left of the arrivals for one session.
abbrev pub group : Option ℕ → ℕ → List Bytes → List Bytes
group highest id arrivals = keep (is_of id) (keep (is_fresh highest) arrivals)

-- The frame of one session, for a receiver that has processed sessions up to `highest`.
unfoldable pub receive_frame : Option ℕ → ℕ → Opener → Decoder → List Bytes → Option Bytes
receive_frame highest id opener decode arrivals =
    reassemble opener decode (group highest id arrivals)

pick-some : (test : Bytes → Bool) (x y : Bytes) → pick test x ≡ some y → (x ≡ y) × (test x ≡ true)
pick-some test x y h = elim (Bool-cases (test x)) [
  | inl passes ↦ (ground arith, passes)
  | inr fails ↦ absurd (ground arith)
]

pub mem-keep :
    (test : Bytes → Bool) (arrivals : List Bytes) (x : Bytes)
    → Mem x arrivals
    → test x ≡ true
    → Mem x (keep test arrivals)
mem-keep test arrivals x m passes =
    (mem-filter_map (pick test) arrivals).1 ∣ (x, m, rw passes refl) ∣₁

pub mem_of_keep :
    (test : Bytes → Bool) (arrivals : List Bytes) (x : Bytes)
    → Mem x (keep test arrivals)
    → Mem x arrivals × (test x ≡ true)
mem_of_keep test arrivals x m =
    ∥∥₁_elim ((mem-filter_map (pick test) arrivals).0 m) (hlevel) (λ (y, my, picked).
      let (same, passes) = pick-some test y x picked in
      (subst (λ z. Mem z arrivals) same my, subst (λ z. test z ≡ true) same passes))
