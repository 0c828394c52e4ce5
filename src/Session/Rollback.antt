-- ===== src/Session/Rollback.antt =====
-- src/session.rs: a process that reads the session file, and writes it after others have gone on.
use fin_amor_s_ideal_udp_fiu.Base.{
  ℕ, ◌+◌, ◌<◌, ◌≡◌, refl, some, arith, u16_mod, from_be_bytes-u16, u16_to_be_bytes, lt→ltb,
}
use fin_amor_s_ideal_udp_fiu.Error.{ok}
use fin_amor_s_ideal_udp_fiu.Io.{resume}
use fin_amor_s_ideal_udp_fiu.Os.{Os, update, update_self}
use fin_amor_s_ideal_udp_fiu.Types.SessionId
use fin_amor_s_ideal_udp_fiu.Session.{SessionIdStore, current, next_raw, propose, persist, next}
use fin_amor_s_ideal_udp_fiu.Session.Next.{IsHealthy, Holds}

module _ {G : Type 0} (s : SessionIdStore) where
  -- The state after `raw` was written.
  abbrev holding : ℕ → Os G → Os G
  holding raw os = record os { files = update os.files s.path (some (u16_to_be_bytes raw)) }

  propose-eq :
      (os : Os G) (value : ℕ)
      → value + 1 < u16_mod
      → IsHealthy s os
      → Holds s os value
      → propose s os ≡ (ok (value + 1), os)
  unfolding propose current next_raw
  propose-eq os value below w e =
      rw (w.readable, e, from_be_bytes-u16 value (omega arith), lt→ltb (value + 1) u16_mod below)
        refl

  persist-eq :
      (os : Os G) (raw : ℕ)
      → IsHealthy s os
      → persist s raw os ≡ (ok (SessionId.new raw), holding raw os)
  unfolding persist
  persist-eq os raw w = rw w.writable

  next-resume : (os : Os G) → next s os ≡ resume (propose s os).0 (persist s) (propose s os).1
  unfolding next
  next-resume os = refl

  next-eq :
      (os : Os G) (value : ℕ)
      → value + 1 < u16_mod
      → IsHealthy s os
      → Holds s os value
      → next s os ≡ (ok (SessionId.new (value + 1)), holding (value + 1) os)
  next-eq os value below w e =
      rw (next-resume os, propose-eq os value below w e) (persist-eq os (value + 1) w)

  holding-IsHealthy : (os : Os G) (raw : ℕ) → IsHealthy s os → IsHealthy s (holding raw os)
  holding-IsHealthy os raw w = record { readable = w.readable; writable = w.writable }

  next-holding :
      (os : Os G) (raw : ℕ)
      → raw + 1 < u16_mod
      → IsHealthy s os
      → next s (holding raw os) ≡ (ok (SessionId.new (raw + 1)), holding (raw + 1) (holding raw os))
  next-holding os raw below w =
      next-eq (holding raw os) raw below (holding-IsHealthy os raw w)
        (update_self os.files s.path (some (u16_to_be_bytes raw)))

  -- If a process reads the session file, two calls by others succeed, and then the first process
  -- writes, on a readable and writable file with a counter at least two below the largest, then the
  -- next call, which overlaps no other, gives the identifier that the second of the two calls gave.
  pub next_rollback :
      (os : Os G) (value : ℕ)
      → value + 1 + 1 < u16_mod
      → IsHealthy s os
      → Holds s os value
      → let (stale, _) = propose s os in
        let (first, os₁) = next s os in
        let (second, os₂) = next s os₁ in
        let (late, os₃) = persist s (value + 1) os₂ in
        (stale ≡ ok (value + 1))
        × (first ≡ ok (SessionId.new (value + 1)))
        × (second ≡ ok (SessionId.new (value + 1 + 1)))
        × (late ≡ ok (SessionId.new (value + 1)))
        × ((next s os₃).0 ≡ ok (SessionId.new (value + 1 + 1)))
  next_rollback os value below w e =
      let w₁ = holding-IsHealthy os (value + 1) w in
      let w₂ = holding-IsHealthy (holding (value + 1) os) (value + 1 + 1) w₁ in
      rw
        (
          propose-eq os value (omega arith) w e,
          next-eq os value (omega arith) w e,
          next-holding os (value + 1) below w,
          persist-eq (holding (value + 1 + 1) (holding (value + 1) os)) (value + 1) w₂,
          next-holding (holding (value + 1 + 1) (holding (value + 1) os)) (value + 1) below w₂,
        )
        (refl, refl, refl, refl, refl)
