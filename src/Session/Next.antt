-- ===== src/Session/Next.antt =====
-- src/session.rs, single calls of `next`: the successor, the end of the range, a damaged file, what
-- else a call touches, and two processes that share a session file.
use fin_amor_s_ideal_udp_fiu.Base.{
  ℕ, ◌+◌, ◌<◌, ◌≡◌, ◌≢◌, refl, inl, inr, ◌⊎◌, Option, none, some, Bytes, arith, length, u16_mod,
  from_be_bytes, from_be_bytes-u16, u16_to_be_bytes, ltb, ltb→lt, Bool-cases,
}
use fin_amor_s_ideal_udp_fiu.Error.{
  Result, ok, err, panic, ◌>>=◌ as ◌>>=?◌, invalid_session_file, session_id_overflow,
}
use fin_amor_s_ideal_udp_fiu.Io.{resume}
use fin_amor_s_ideal_udp_fiu.Os.{Os, written, read_file, answer_read, update, update_self}
use fin_amor_s_ideal_udp_fiu.Types.SessionId
use fin_amor_s_ideal_udp_fiu.Types.SessionId.{SessionId}
use fin_amor_s_ideal_udp_fiu.Session.{SessionIdStore, current, next_raw, propose, persist, next}

module _ {G : Type 0} (s : SessionIdStore) (os : Os G) where
  -- The system reads and writes the session file without a failure.
  pub record IsHealthy : Type 0 where
    pub readable : os.read_fault s.path ≡ none
    pub writable : os.write_outcome s.path ≡ written

  -- The file holds the counter `value`.
  abbrev pub Holds : ℕ → Type 0
  Holds value = os.files s.path ≡ some (u16_to_be_bytes value)

  -- The call, once it is known what was read.
  next-of_file :
      (file : Option Bytes) (r : Result ℕ)
      → os.read_fault s.path ≡ none
      → os.files s.path ≡ file
      → (current s (answer_read none file) >>=? next_raw) ≡ r
      → next s os ≡ resume r (persist s) os
  unfolding next
  next-of_file file r ok_read e h = rw (ok_read, e, h)

  persist-written :
      (raw : ℕ)
      → os.write_outcome s.path ≡ written
      → persist s raw os ≡ (
        ok (SessionId.new raw),
        record os { files = update os.files s.path (some (u16_to_be_bytes raw)) },
      )
  unfolding persist
  persist-written raw w = rw w

  next-of_raw :
      (file : Option Bytes) (raw : ℕ)
      → IsHealthy
      → os.files s.path ≡ file
      → (current s (answer_read none file) >>=? next_raw) ≡ ok raw
      → ((next s os).0 ≡ ok (SessionId.new raw))
        × ((next s os).1.files s.path ≡ some (u16_to_be_bytes raw))
  next-of_raw file raw w e h =
      rw (next-of_file file (ok raw) w.readable e h, persist-written raw w.writable)
        (refl, update_self os.files s.path (some (u16_to_be_bytes raw)))

  -- On a file that is readable and writable and holds a counter, `next` gives the successor, which
  -- the file then holds, if that is a `u16`; and at 65535 it fails as an overflow and changes
  -- nothing.
  pub next_successor :
      (value : ℕ)
      → value < u16_mod
      → IsHealthy
      → Holds value
      → ((value + 1 < u16_mod)
          × ((next s os).0 ≡ ok (SessionId.new (value + 1)))
          × ((next s os).1.files s.path ≡ some (u16_to_be_bytes (value + 1))))
        ⊎ ((value ≡ 65535) × (next s os ≡ (err session_id_overflow, os)))
  unfolding current next_raw
  next_successor value h w e =
      let same : from_be_bytes (u16_to_be_bytes value) ≡ value = from_be_bytes-u16 value h in
      elim (Bool-cases (ltb (value + 1) u16_mod)) [
        | inl below ↦
            let (result, file) =
              next-of_raw (some (u16_to_be_bytes value)) (value + 1) w e (rw (same, below)) in
            inl (ltb→lt (value + 1) u16_mod below, result, file)
        | inr last ↦ inr (
          ground arith,
          next-of_file (some (u16_to_be_bytes value)) (err session_id_overflow) w.readable e
              (rw (same, last)),
        )
      ]

  -- On a healthy system without the file the first identifier is 1, which the file then holds.
  pub next_first :
      IsHealthy
      → os.files s.path ≡ none
      → ((next s os).0 ≡ ok (SessionId.new 1))
        × ((next s os).1.files s.path ≡ some (u16_to_be_bytes 1))
  unfolding current next_raw
  next_first w e = next-of_raw none 1 w e refl

  -- On a readable session file of a length other than two, `next` fails as an invalid session file
  -- and the state is unchanged.
  pub next_malformed :
      (content : Bytes)
      → os.read_fault s.path ≡ none
      → os.files s.path ≡ some content
      → length content ≢ 2
      → next s os ≡ (err invalid_session_file, os)
  unfolding current
  next_malformed content r e h =
      next-of_file (some content) (err invalid_session_file) r e (ground arith)

  -- If two processes read the session file before either writes it, and the writes succeed, both
  -- calls succeed with the same identifier.
  next_race :
      (raw : ℕ)
      → (propose s os).0 ≡ ok raw
      → os.write_outcome s.path ≡ written
      → let (second, os₁) = propose s (propose s os).1 in
        let (id, os₂) = persist s raw os₁ in
        (second ≡ ok raw)
        × (id ≡ ok (SessionId.new raw))
        × ((persist s raw os₂).0 ≡ ok (SessionId.new raw))
  unfolding propose persist
  next_race raw h w = (h, rw w, rw w)

  -- Nothing of the state changes but the session file.
  abbrev pub ChangesOnlyFile : Os G → Type 0
  ChangesOnlyFile os' =
      (content : Option Bytes) × (os' ≡ record os { files = update os.files s.path content })

  resume_frame :
      (r : Result ℕ)
      → (resume r (persist s) os).1 ≡ os ⊎ ChangesOnlyFile (resume r (persist s) os).1
  unfolding persist
  resume_frame (ok raw) = inr (_, refl)
  resume_frame (err e) = inl refl
  resume_frame panic = inl refl

  -- A call of `next`, however it ends, leaves the state as it was or changes the session file and
  -- nothing else.
  pub next_frame : (next s os).1 ≡ os ⊎ ChangesOnlyFile (next s os).1
  unfolding next
  next_frame = resume_frame (current s (read_file s.path os) >>=? next_raw)
