-- ===== src/Session/Interleaved/Steps.antt =====
-- src/session.rs: calls of `next` by several processes under one session file, as a step relation. A
-- call reads the file and writes it without a lock, and its process may die at any point. The
-- `fs::write` is taken apart: it opens the file, which empties it, and then puts its two bytes at the
-- start of whatever the file holds by then, both at once or one after the other.
use fin_amor_s_ideal_udp_fiu.Base.{
  ℕ, ◌+◌, ◌-◌, ◌<◌, ◌≡◌, Bool, false, Option, some, List, [], ◌∷◌, ◌++◌, Bytes, length, take, drop,
  replicate, u16_to_be_bytes,
}
use fin_amor_s_ideal_udp_fiu.Error.{ok, done}
use fin_amor_s_ideal_udp_fiu.Os.{Os, update}
use fin_amor_s_ideal_udp_fiu.Session.{SessionIdStore, propose, answered}
use fin_amor_s_ideal_udp_fiu.Session.History.{issue}

-- Bytes written at an offset of an open file. The rest of the file stays, and a gap is filled with
-- zeros.
unfoldable pub overwrite : ℕ → Bytes → Bytes → Bytes
overwrite offset bytes content =
    take offset content
    ++ (replicate (offset - length content) 0 ++ (bytes ++ drop (offset + length bytes) content))

-- How far a process is that has read the file: it has not opened it for the write, it has emptied
-- it, one byte is in, or both are.
pub data Phase : Type 0 where
  waiting : Phase
  emptied : Phase
  half : Phase
  stored : Phase

abbrev pub Process : Type 0
Process = ℕ × Phase

-- What a process does to the file on its way through `fs::write`. If writes are `whole`, no process
-- puts in one byte alone.
pub data Move (whole : Bool) (raw : ℕ) : Phase → Phase → Option Bytes → Option Bytes → Type 0 where
  truncate : (file : Option Bytes) → Move whole raw waiting emptied file (some [])
  store :
      (content : Bytes)
      → Move whole raw emptied stored
          (some content)
          (some (overwrite 0 (u16_to_be_bytes raw) content))
  first_byte :
      (content : Bytes)
      → whole ≡ false
      → Move whole raw emptied half
          (some content)
          (some (overwrite 0 (take 1 (u16_to_be_bytes raw)) content))
  second_byte :
      (content : Bytes)
      → Move whole raw half stored
          (some content)
          (some (overwrite 1 (drop 1 (u16_to_be_bytes raw)) content))

abbrev pub holding : {G : Type 0} → SessionIdStore → Option Bytes → Os G → Os G
holding s file os = record os { files = update os.files s.path file }

-- How many reads succeeded, the processes that have read and not yet returned, the identifiers given
-- out, the newest first, and the state. At most `limit` processes are in between. A process that has
-- read may die, or fail at its `open` or its write, and then gives out nothing.
pub data Interleaving {G : Type 0} (s : SessionIdStore) (limit : ℕ) (whole : Bool) (start : Os G)
    : ℕ → List Process → List ℕ → Os G → Type 0 where
  begin : Interleaving s limit whole start 0 [] [] start
  environment :
      {n : ℕ} {pending : List Process} {ids : List ℕ} {os : Os G} (os' : Os G)
      → Interleaving s limit whole start n pending ids os
      → os'.files s.path ≡ os.files s.path
      → Interleaving s limit whole start n pending ids os'
  read :
      {n : ℕ} {pending : List Process} {ids : List ℕ} {os : Os G} (raw : ℕ)
      → Interleaving s limit whole start n pending ids os
      → length pending < limit
      → (propose s os).0 ≡ ok raw
      → Interleaving s limit whole start (n + 1) ((raw, waiting) ∷ pending) ids os
  move :
      {n : ℕ} {ids : List ℕ} {os : Os G} {phase phase' : Phase} {file : Option Bytes}
      (before : List Process) (raw : ℕ) (after : List Process)
      → Interleaving s limit whole start n (before ++ (raw, phase) ∷ after) ids os
      → Move whole raw phase phase' (os.files s.path) file
      → Interleaving s limit whole start n (before ++ (raw, phase') ∷ after) ids (holding s file os)
  give :
      {n : ℕ} {ids : List ℕ} {os : Os G} (before : List Process) (raw : ℕ) (after : List Process)
      → Interleaving s limit whole start n (before ++ (raw, stored) ∷ after) ids os
      → Interleaving s limit whole start n
          (before ++ after)
          (issue (answered s (done tt) raw) ids)
          os
  stop :
      {n : ℕ} {ids : List ℕ} {os : Os G} (before : List Process) (p : Process)
      (after : List Process)
      → Interleaving s limit whole start n (before ++ p ∷ after) ids os
      → Interleaving s limit whole start n (before ++ after) ids os
