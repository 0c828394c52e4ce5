-- ===== src/Session/Interleaved.antt =====
-- src/session.rs: processes that share a session file, one at a time between its read and the end of
-- its write.
pub mod Steps
pub mod Bounds
pub mod Calls
use fin_amor_s_ideal_udp_fiu.Base.{
  ℕ, zero, suc, ◌+◌, ◌≤◌, ◌<◌, ◌≡◌, refl, Bool, Option, none, some, List, [], ◌∷◌, ◌++◌, Bytes, ⊤,
  arith, All, length, length-append, sym, subst, u16_mod, from_be_bytes, u16_to_be_bytes, take,
  drop, replicate,
}
use fin_amor_s_ideal_udp_fiu.Error.{Result, ok, err, panic, done}
use fin_amor_s_ideal_udp_fiu.Os.{Os, update_self}
use fin_amor_s_ideal_udp_fiu.Session.{SessionIdStore, propose, answered}
use fin_amor_s_ideal_udp_fiu.Session.History.{
  Covers, Covers-nil, Covers-raw, Covers-issue_raw, Increasing, IsAbove-propose,
}
use fin_amor_s_ideal_udp_fiu.Session.Interleaved.Steps.{
  Phase, waiting, emptied, half, stored, Process, overwrite, Move, truncate, store, first_byte,
  second_byte, holding, Interleaving, begin, environment, read, move, give, stop,
}

-- A proposal above all that was given out.
abbrev IsFresh : List ℕ → ℕ → Type 0
IsFresh ids raw = (raw < u16_mod) × All (λ j. j < raw) ids

-- What the file holds while nobody else writes it.
abbrev Shows : ℕ → Phase → Option Bytes → Type 0
Shows raw waiting file = ⊤
Shows raw emptied file = file ≡ some []
Shows raw half file = file ≡ some (take 1 (u16_to_be_bytes raw))
Shows raw stored file = file ≡ some (u16_to_be_bytes raw)

-- With one process at a time in between there is at most one proposal, it is fresh, and the file
-- holds what its process has written.
record IsExclusive (pending : List Process) (ids : List ℕ) (file : Option Bytes) : Type 0 where
  pub increasing : Increasing ids
  pub covered : Covers file ids
  pub one : length pending ≤ 1
  pub fresh : All (λ (p : Process). IsFresh ids p.0 × Shows p.0 p.1 file) pending

two_or_more :
    (p q : Process) (before after : List Process) → length (p ∷ before ++ q ∷ after) ≤ 1 → ⊥
two_or_more p q before after h = omega (arith, length-append before (q ∷ after))

Covers-short : (content : Bytes) (ids : List ℕ) → length content < 2 → Covers (some content) ids
Covers-short content ids short = λ two. absurd (omega arith)

-- Each move leaves the file bounding what was given out.
Move-Shows :
    {whole : Bool} {raw : ℕ} {phase phase' : Phase} {file file' : Option Bytes} (s : SessionIdStore)
    (ids : List ℕ)
    → Move whole raw phase phase' file file'
    → IsFresh ids raw
    → Shows raw phase file
    → Covers file' ids × Shows raw phase' file'
unfolding overwrite take drop replicate
Move-Shows s ids (truncate file) fresh shows = (Covers-short [] ids (omega arith), refl)
Move-Shows {raw = raw} s ids (store content) fresh shows =
    let empty : content ≡ [] = ground arith in rw empty (Covers-raw s ids raw fresh.0 fresh.1, refl)
Move-Shows {raw = raw} s ids (first_byte content part) fresh shows =
    let empty : content ≡ [] = ground arith in
    rw empty (Covers-short (take 1 (u16_to_be_bytes raw)) ids (omega arith), refl)
Move-Shows {raw = raw} s ids (second_byte content) fresh shows =
    let one_in : content ≡ take 1 (u16_to_be_bytes raw) = ground arith in
    rw one_in (Covers-raw s ids raw fresh.0 fresh.1, refl)

module _ (s : SessionIdStore) where
  move-IsExclusive :
      {whole : Bool} {phase phase' : Phase} {file file' : Option Bytes} (before : List Process)
      (raw : ℕ) (after : List Process) (ids : List ℕ)
      → Move whole raw phase phase' file file'
      → IsExclusive (before ++ (raw, phase) ∷ after) ids file
      → IsExclusive (before ++ (raw, phase') ∷ after) ids file'
  move-IsExclusive {phase = phase} (p ∷ before) raw after ids m h =
      absurd (two_or_more p (raw, phase) before after h.one)
  move-IsExclusive {phase = phase} [] raw (p ∷ after) ids m h =
      absurd (two_or_more (raw, phase) p [] after h.one)
  move-IsExclusive [] raw [] ids m h =
      let (covers, shows) = Move-Shows s ids m h.fresh.0.0 h.fresh.0.1 in
      record {
        increasing = h.increasing;
        covered = covers;
        one = omega arith;
        fresh = ((h.fresh.0.0, shows), tt);
      }

  give-IsExclusive :
      (before : List Process) (raw : ℕ) (after : List Process) (ids : List ℕ) (file : Option Bytes)
      → IsExclusive (before ++ (raw, stored) ∷ after) ids file
      → IsExclusive (before ++ after) (raw ∷ ids) file
  give-IsExclusive (p ∷ before) raw after ids file h =
      absurd (two_or_more p (raw, stored) before after h.one)
  give-IsExclusive [] raw (p ∷ after) ids file h =
      absurd (two_or_more (raw, stored) p [] after h.one)
  give-IsExclusive [] raw [] ids file h =
      let ((below, above), shows) = h.fresh.0 in
      record {
        increasing = (below, above, h.increasing);
        covered =
            subst (λ f. Covers f (raw ∷ ids)) (sym shows) (Covers-issue_raw s ids raw below above);
        one = omega arith;
        fresh = tt;
      }

stop-IsExclusive :
    (before : List Process) (q : Process) (after : List Process) (ids : List ℕ)
    (file : Option Bytes)
    → IsExclusive (before ++ q ∷ after) ids file
    → IsExclusive (before ++ after) ids file
stop-IsExclusive (p ∷ before) q after ids file h = absurd (two_or_more p q before after h.one)
stop-IsExclusive [] q (p ∷ after) ids file h = absurd (two_or_more q p [] after h.one)
stop-IsExclusive [] q [] ids file h = record {
  increasing = h.increasing;
  covered = h.covered;
  one = omega arith;
  fresh = tt;
}

module _ {G : Type 0} (s : SessionIdStore) where
  read-IsExclusive :
      (raw : ℕ) (pending : List Process) (ids : List ℕ) (os : Os G)
      → length pending < 1
      → (propose s os).0 ≡ ok raw
      → IsExclusive pending ids (os.files s.path)
      → IsExclusive ((raw, waiting) ∷ pending) ids (os.files s.path)
  unfolding propose
  read-IsExclusive raw (p ∷ pending) ids os free proposed h = absurd (omega arith)
  read-IsExclusive raw [] ids os free proposed h = record {
    increasing = h.increasing;
    covered = h.covered;
    one = omega arith;
    fresh = (
      (IsAbove-propose s ids (os.read_fault s.path) (os.files s.path) raw h.covered proposed, tt),
      tt,
    );
  }

  Interleaving-IsExclusive :
      {whole : Bool} {start os : Os G} {n : ℕ} {pending : List Process} {ids : List ℕ}
      → Interleaving s 1 whole start n pending ids os
      → IsExclusive pending ids (os.files s.path)
  unfolding answered
  Interleaving-IsExclusive {start = start} begin = record {
    increasing = tt;
    covered = Covers-nil (start.files s.path);
    one = omega arith;
    fresh = tt;
  }
  Interleaving-IsExclusive (environment {pending = pending} {ids = ids} os' steps same) =
      subst (IsExclusive pending ids) (sym same) (Interleaving-IsExclusive steps)
  Interleaving-IsExclusive
        (read {pending = pending} {ids = ids} {os = os} raw steps free proposed) =
      read-IsExclusive raw pending ids os free proposed (Interleaving-IsExclusive steps)
  Interleaving-IsExclusive
        (move {ids = ids} {os = os} {phase' = phase'} {file = file} before raw after steps m) =
      subst (IsExclusive (before ++ (raw, phase') ∷ after) ids)
        (sym (update_self os.files s.path file))
        (move-IsExclusive s before raw after ids m (Interleaving-IsExclusive steps))
  Interleaving-IsExclusive (give {ids = ids} {os = os} before raw after steps) =
      give-IsExclusive s before raw after ids (os.files s.path) (Interleaving-IsExclusive steps)
  Interleaving-IsExclusive (stop {ids = ids} {os = os} before p after steps) =
      stop-IsExclusive before p after ids (os.files s.path) (Interleaving-IsExclusive steps)

  -- Calls of `next` are taken apart into the read, the opening of the file for the write, which
  -- empties it, the storing of its two bytes at once or one by one, and the return. As long as only
  -- one process at a time has read the session file and neither returned nor failed or died, where
  -- a process may fail or die at any point, a read may fail in any way, and between the steps
  -- anything but that file may change: every identifier that is given out is a `u16` greater than
  -- all given out before it.
  pub Interleaving-Increasing :
      {whole : Bool} {start os : Os G} {n : ℕ} {pending : List Process} {ids : List ℕ}
      → Interleaving s 1 whole start n pending ids os
      → Increasing ids
  Interleaving-Increasing steps = (Interleaving-IsExclusive steps).increasing
