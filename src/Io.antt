-- ===== src/Io.antt =====
-- A call that reads and changes some state `W` and ends in a `Result`: the shape of every method
-- with effects. The state comes back on an error too, since what was done stays done.
use fin_amor_s_ideal_udp_fiu.Base.{◌≡◌, refl, ⊤}
use fin_amor_s_ideal_udp_fiu.Error.{Result, ok, err, panic, FiudpError, DoesNotPanic}

abbrev pub Io : Type 0 → Type 0 → Type 0
Io W A = W → Result A × W

module _ {W : Type 0} {A : Type 0} where
  abbrev pub pure : A → Io W A
  pure a w = (ok a, w)

  -- A computation without effects.
  abbrev pub lift : Result A → Io W A
  lift r w = (r, w)

  abbrev pub raise : FiudpError → Io W A
  raise e w = (err e, w)

-- What follows a call that ended in a result and left a state.
abbrev pub resume : {W A B : Type 0} → Result A → (A → Io W B) → Io W B
resume (ok a) f w = f a w
resume (err e) f w = (err e, w)
resume panic f w = (panic, w)

infixl 5 ◌>>=◌ ◌>>◌
abbrev pub ◌>>=◌ : {W A B : Type 0} → Io W A → (A → Io W B) → Io W B
◌>>=◌ m f w = let (r, w') = m w in resume r f w'

abbrev pub ◌>>◌ : {W B : Type 0} → Io W ⊤ → Io W B → Io W B
m >> k = m >>= λ _. k

-- A chain returns if each of its steps does.
pub resume-DoesNotPanic :
    {W A B : Type 0} (r : Result A) (f : A → Io W B) (w : W)
    → DoesNotPanic r
    → ((a : A) → r ≡ ok a → DoesNotPanic (f a w).0)
    → DoesNotPanic (resume r f w).0
resume-DoesNotPanic (ok a) f w h k = k a refl
resume-DoesNotPanic (err e) f w h k = λ same. cc
resume-DoesNotPanic panic f w h k = absurd (h refl)
