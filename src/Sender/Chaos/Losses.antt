-- ===== src/Sender/Chaos/Losses.antt =====
-- src/sender.rs: what is left of a burst after a run of consecutive packets is drained from it.
use mathlib.Core.List.{Sublistᴰ}
use mathlib.Core.List.Sublistᴰ
use mathlib.Core.List.Sublistᴰ.{cons, cons-cons}
use fin_amor_s_ideal_udp_fiu.Base.{
  ℕ, ◌+◌, ◌≤◌, ◌≡◌, refl, ap, sym, drop-drop, min, Bytes, List, [], ◌∷◌, ◌++◌, arith, length, take,
  drop, take-append-drop, length-take, length-drop, le→leb, length-append,
}
use fin_amor_s_ideal_udp_fiu.Error.{ok}
use fin_amor_s_ideal_udp_fiu.Sender.{drain}

-- What a burst loss leaves: all but one run of consecutive packets.
abbrev pub LosesRun : ℕ → List Bytes → List Bytes → Type 0
LosesRun count packets out =
    (pre : List Bytes) × (mid : List Bytes) × (rest : List Bytes) × (packets ≡ pre ++ (mid ++ rest))
    × (out ≡ pre ++ rest)
    × (length mid ≡ count)

-- `drain` takes out the middle of three parts.
pub drain-LosesRun :
    (start count : ℕ) (xs : List Bytes)
    → start + count ≤ length xs
    → (out : List Bytes) × (drain start (start + count) xs ≡ ok out) × LosesRun count xs out
unfolding drain
drain-LosesRun start count xs h = (
  take start xs ++ drop (start + count) xs,
  rw (le→leb start (start + count) (omega arith), le→leb (start + count) (length xs) h) refl,
  (
    take start xs,
    take count (drop start xs),
    drop (start + count) xs,
    sym (
        rw (← drop-drop start count xs, take-append-drop count (drop start xs))
          (take-append-drop start xs)),
    refl,
    omega (arith, length-take count (drop start xs), length-drop start xs),
  ),
)

Sublistᴰ-append_right : (xs ys : List Bytes) → Sublistᴰ ys (xs ++ ys)
Sublistᴰ-append_right [] ys = Sublistᴰ.refl ys
Sublistᴰ-append_right (x ∷ xs) ys = cons (Sublistᴰ-append_right xs ys)

Sublistᴰ-drop_middle : (pre mid rest : List Bytes) → Sublistᴰ (pre ++ rest) (pre ++ (mid ++ rest))
Sublistᴰ-drop_middle [] mid rest = Sublistᴰ-append_right mid rest
Sublistᴰ-drop_middle (x ∷ pre) mid rest = cons-cons refl (Sublistᴰ-drop_middle pre mid rest)

pub LosesRun-Sublistᴰ :
    (count : ℕ) (packets out : List Bytes) → LosesRun count packets out → Sublistᴰ out packets
LosesRun-Sublistᴰ count packets out (pre, mid, rest, e, o, n) =
    rw (e, o) (Sublistᴰ-drop_middle pre mid rest)

pub length-LosesRun :
    (chaos_burst : ℕ) (packets out : List Bytes)
    → LosesRun (min chaos_burst (length packets)) packets out
    → length packets ≤ length out + chaos_burst
length-LosesRun chaos_burst packets out (pre, mid, rest, e, o, n) =
    let whole : length packets ≡ length (pre ++ (mid ++ rest)) = ap length e in
    let left : length out ≡ length (pre ++ rest) = ap length o in
    omega (
      arith,
      whole,
      left,
      length-append pre (mid ++ rest),
      length-append mid rest,
      length-append pre rest,
    )
