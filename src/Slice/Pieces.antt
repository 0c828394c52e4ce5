-- ===== src/Slice/Pieces.antt =====
-- `chunks_exact` on a list whose length is a multiple of the size.
use mathlib.Core.List.{flatten}
use fin_amor_s_ideal_udp_fiu.Base.{
  ℕ, zero, suc, ◌*◌, ◌≡◌, refl, ap, List, [], ◌∷◌, arith, length, drop, All, length-take,
  length-drop, take-append-drop,
}
use fin_amor_s_ideal_udp_fiu.Slice.{pieces}

module _ {ℓ} {A : Type ℓ} (size : ℕ) where
  pub length-pieces : (count : ℕ) (xs : List A) → length (pieces size count xs) ≡ count
  unfolding pieces
  length-pieces zero xs = refl
  length-pieces (suc count) xs = ap suc (length-pieces count (drop size xs))

  pub flatten-pieces :
      (count : ℕ) (xs : List A) → length xs ≡ count * size → flatten (pieces size count xs) ≡ xs
  unfolding pieces flatten
  flatten-pieces zero [] h = refl
  flatten-pieces zero (x ∷ xs) h = absurd (omega arith)
  flatten-pieces (suc count) xs h =
      rw (flatten-pieces count (drop size xs) (omega (arith, length-drop size xs)))
        (take-append-drop size xs)

  pub pieces-All_size :
      (count : ℕ) (xs : List A)
      → length xs ≡ count * size
      → All (λ (piece : List A). length piece ≡ size) (pieces size count xs)
  unfolding pieces
  pieces-All_size zero xs h = tt
  pieces-All_size (suc count) xs h = (
    omega (arith, length-take size xs),
    pieces-All_size count (drop size xs) (omega (arith, length-drop size xs)),
  )
