-- ===== src/FilePath.antt =====
-- `std::path::PathBuf`, as far as the program takes paths apart: the text up to the last component,
-- and the last component, which is empty where the path has none (`/`, `..`).
use Prim.Native.Char.{code}
use text.Mathlib.Text.{◌==◌ as str_eq}
use text.Mathlib.TextEquality.{eq_iff}
use text.Mathlib.TextPositions.{eq_refl}
use fin_amor_s_ideal_udp_fiu.Base.{
  String, ◌<>◌, ◌≡◌, Bool, true, ◌&&◌, Option, none, some, arith, ◌==◌, if◌then◌else◌,
}

pub record FilePath : Type 0 where
  pub parent : String
  pub file_name : String

-- `path.display()`
unfoldable pub display : FilePath → String
display p = p.parent <> p.file_name

unfoldable pub same_path : FilePath → FilePath → Bool
same_path p q = str_eq p.parent q.parent && str_eq p.file_name q.file_name

-- The text before the last dot, if there is a dot.
before_last_dot : String → Option String
before_last_dot String.[] = none
before_last_dot (String.◌∷◌ c s) = elim (before_last_dot s) [
  | some t ↦ some (String.◌∷◌ c t)
  | none ↦ if code c == b'.' then some "" else none
]

-- `Path::file_stem`: a name whose only dot comes first is its own stem.
unfoldable pub file_stem : String → String
unfolding before_last_dot
file_stem name = elim (before_last_dot name) [
  | none ↦ name
  | some t ↦ if str_eq t "" then name else t
]

-- `PathBuf::set_extension`, at an extension that is not empty.
unfoldable pub set_extension : String → FilePath → FilePath
unfolding file_stem
set_extension extension p =
    if str_eq p.file_name ""
    then p
    else record p { file_name = file_stem p.file_name <> "." <> extension }

pub same_path_refl : (p : FilePath) → same_path p p ≡ true
unfolding same_path
same_path_refl p = rw (eq_refl p.parent, eq_refl p.file_name)

pub eq_of_same_path : (p q : FilePath) → same_path p q ≡ true → p ≡ q
unfolding same_path
eq_of_same_path p q h = ground (arith, eq_iff p.parent q.parent, eq_iff p.file_name q.file_name)
