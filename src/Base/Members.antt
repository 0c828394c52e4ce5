-- ===== src/Base/Members.antt =====
-- A proposition that holds of every element of a list holds of every element of a reordered part.
use mathlib.Core.List.Perm
use mathlib.Core.List.Sublistᴰ
use mathlib.Core.List.{
  List, [], ◌∷◌, Mem, Perm, Sublistᴰ, mem-cons, mem-cons_self, mem-cons_of_mem, not-mem-nil,
}
use mathlib.Core.Logic.Or
use mathlib.Core.Path.{sym, subst}
use fin_amor_s_ideal_udp_fiu.Base.Lists.{All}

module _ {A : Type 0} (P : A → Type 0) (prop : (a : A) → IsProp (P a)) where
  mem-All : (xs : List A) (x : A) → All P xs → Mem x xs → P x
  mem-All [] x all m = absurd (not-mem-nil m)
  mem-All (y ∷ xs) x all m =
      Or.elim (prop x) (mem-cons.0 m) (λ e. subst P (sym e) all.0) (mem-All xs x all.1)

  pub All-of_mem : (xs : List A) → ((x : A) → Mem x xs → P x) → All P xs
  All-of_mem [] holds = tt
  All-of_mem (x ∷ xs) holds =
      (holds x mem-cons_self, All-of_mem xs (λ y m. holds y (mem-cons_of_mem x m)))

  pub All-kept : (xs kept ys : List A) → All P xs → Sublistᴰ kept xs → Perm ys kept → All P ys
  All-kept xs kept ys all lost reordered =
      All-of_mem ys (λ y m. mem-All xs y all (Sublistᴰ.subset lost y (Perm.subset reordered y m)))
