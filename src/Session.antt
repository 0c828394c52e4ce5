-- ===== src/Session.antt =====
-- src/session.rs: the session counter, kept in a file beside the key.
pub mod History
pub mod Next
pub mod Nonces
pub mod Interleaved
pub mod Rollback
use fin_amor_s_ideal_udp_fiu.Base.{
  ℕ, ◌+◌, ◌<>◌, Option, none, some, Bytes, ⊤, u16_mod, from_be_bytes, u16_to_be_bytes, ltb, ◌==◌,
  if◌then◌else◌, length,
}
use fin_amor_s_ideal_udp_fiu.Error.{
  Result, ok, err, IoErrorKind, not_found, other, IoResult, done, failed, map_err, io,
  invalid_session_file, session_id_overflow, ◌>>=◌ as ◌>>=?◌,
}
use fin_amor_s_ideal_udp_fiu.Io.{Io, pure, lift, ◌>>=◌, ◌>>◌}
use fin_amor_s_ideal_udp_fiu.Os.{Os, read_file, write_file}
use fin_amor_s_ideal_udp_fiu.FilePath.{FilePath, display, set_extension}
use fin_amor_s_ideal_udp_fiu.Types.SessionId
use fin_amor_s_ideal_udp_fiu.Types.SessionId.{SessionId}

pub record SessionIdStore : Type 0 where
  pub path : FilePath

unfoldable pub new : FilePath → SessionIdStore
unfolding set_extension
new key_path = record { path = set_extension "session_id" key_path }

-- The match on what `fs::read` returned: the persisted counter, or none if there is no file.
unfoldable pub current : SessionIdStore → IoResult Bytes → Result (Option ℕ)
unfolding display
current s (done bytes) =
    if length bytes == 2 then ok (some (from_be_bytes bytes)) else err invalid_session_file
current s (failed e) = elim e.kind [
  | not_found ↦ ok none
  | other code ↦ err (io ("failed to read session_id file " <> display s.path) e)
]

-- `checked_add(1)`, or the first identifier.
unfoldable pub next_raw : Option ℕ → Result ℕ
next_raw (some value) = if ltb (value + 1) u16_mod then ok (value + 1) else err session_id_overflow
next_raw none = ok 1

-- What follows the `fs::write`.
unfoldable pub answered : SessionIdStore → IoResult ⊤ → ℕ → Result SessionId
unfolding display
answered s r raw =
    map_err (λ e. io ("failed to write session_id file " <> display s.path) e) r >>=? λ _.
    ok (SessionId.new raw)

module _ {G : Type 0} where
  -- The first half of `next`: read the file, and add one.
  unfoldable pub propose : SessionIdStore → Io (Os G) ℕ
  unfolding read_file current next_raw
  propose s os = (current s (read_file s.path os) >>=? next_raw, os)

  -- The second half: write the file, and return the identifier.
  unfoldable pub persist : SessionIdStore → ℕ → Io (Os G) SessionId
  unfolding write_file answered
  persist s raw os =
      let (r, os') = write_file s.path (u16_to_be_bytes raw) os in (answered s r raw, os')

  unfoldable pub next : SessionIdStore → Io (Os G) SessionId
  unfolding propose persist
  next s = do raw ← propose s; persist s raw
