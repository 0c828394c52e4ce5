-- ===== src/Tests/Below.antt =====
-- Different numbers below a bound, for the decoder of the tests' erasure code.
use mathlib.Core.List.Nodup
use mathlib.Core.List.{Nodup, Nodup-cons, mem-cons, mem-cons_self, dec_mem, erase, erase-sublist}
use mathlib.Core.Logic.Or
use native.Mathlib.Bridge.{le_prop}
use native.Mathlib.Decide.{ℕ_discrete}
use fin_amor_s_ideal_udp_fiu.Base.{ℕ, zero, suc, ◌+◌, ◌≤◌, ◌<◌, List, [], ◌∷◌, Mem, arith, length}

-- At most `d` different numbers are below `d`.
length-erase : (xs : List ℕ) (n : ℕ) → length xs ≤ length (erase ℕ_discrete xs n) + 1
length-erase [] n = omega arith
length-erase (x ∷ xs) n = ground (arith, length-erase xs n)

few_below : (d : ℕ) (xs : List ℕ) → Nodup xs → ((x : ℕ) → Mem x xs → x < d) → length xs ≤ d
few_below zero [] distinct below = omega arith
few_below zero (x ∷ xs) distinct below = absurd (omega (arith, below x mem-cons_self))
few_below (suc d) xs distinct below =
    let rest =
      few_below d (erase ℕ_discrete xs d) (Nodup.sublist (erase-sublist ℕ_discrete d) distinct)
        (λ x m.
          let (other, inside) = (Nodup.mem-erase_iff ℕ_discrete distinct).0 m in
          omega (arith, below x inside, other)) in
    omega (arith, length-erase xs d)

pub all_below :
    (d : ℕ) (xs : List ℕ)
    → Nodup xs
    → ((x : ℕ) → Mem x xs → x < d)
    → d ≤ length xs
    → (i : ℕ) → i < d
    → Mem i xs
all_below d xs distinct below enough i small = elim (dec_mem ℕ_discrete i xs) [
  | yes m ↦ m
  | no absent ↦ absurd (
      omega (
        arith,
        few_below d (i ∷ xs) (Nodup-cons.1 (absent, distinct))
            (λ x m. Or.elim le_prop (mem-cons.0 m) (λ e. omega arith) (below x)),
      ))
]
