-- ===== src/Session/History.antt =====
-- src/session.rs: the identifiers that a session file gives out over its life, through every failure of
-- a read or a write, as long as nothing else changes that file.
use fin_amor_s_ideal_udp_fiu.Base.{
  ℕ, zero, suc, ◌+◌, ◌≤◌, ◌<◌, ◌≡◌, refl, inl, inr, Option, none, some, List, [], ◌∷◌, Bytes, ⊤,
  arith, All, length, take, u16_mod, from_be_bytes, from_be_bytes-u16, u16_to_be_bytes, ◌==◌,
  ==_iff, Bool-cases,
}
use fin_amor_s_ideal_udp_fiu.Error.{Result, ok, err, panic, ◌>>=◌ as ◌>>=?◌}
use fin_amor_s_ideal_udp_fiu.Io.{resume}
use fin_amor_s_ideal_udp_fiu.Os.{
  Os, WriteOutcome, written, refused, torn, read_file, update_self, Fault, answer_read,
  answer_write, after_write,
}
use fin_amor_s_ideal_udp_fiu.Types.SessionId
use fin_amor_s_ideal_udp_fiu.Types.SessionId.{SessionId}
use fin_amor_s_ideal_udp_fiu.Session.{
  SessionIdStore, current, next_raw, answered, propose, persist, next,
}

All-weaken {ℓ} :
    {A : Type ℓ} {P Q : A → Type 0} → ((a : A) → P a → Q a) → (xs : List A) → All P xs → All Q xs
All-weaken f [] h = tt
All-weaken f (x ∷ xs) h = (f x h.0, All-weaken f xs h.1)

-- The content of the session file bounds the identifiers given out, the newest first. A file that is
-- not two bytes long gives out no more.
abbrev pub Covers : Option Bytes → List ℕ → Type 0
Covers none ids = ids ≡ []
Covers (some content) ids = length content ≡ 2 → All (λ j. j ≤ from_be_bytes content) ids

abbrev pub issue : Result SessionId → List ℕ → List ℕ
issue (ok id) ids = id.value ∷ ids
issue (err e) ids = ids
issue panic ids = ids

-- What one call adds: an identifier above all that were given out, and within the type.
abbrev pub IsAbove : Result SessionId → List ℕ → Type 0
IsAbove (ok id) ids = SessionId.IsU16 id × All (λ j. j < id.value) ids
IsAbove (err e) ids = ⊤
IsAbove panic ids = ⊤

pub Covers-nil : (file : Option Bytes) → Covers file []
Covers-nil none = refl
Covers-nil (some content) = λ two. tt

module _ (s : SessionIdStore) (ids : List ℕ) where
  IsAbove-next_raw :
      (content : Bytes) (raw : ℕ)
      → Covers (some content) ids
      → (length content ≡ 2)
      → next_raw (some (from_be_bytes content)) ≡ ok raw
      → (raw < u16_mod) × All (λ j. j < raw) ids
  unfolding next_raw
  IsAbove-next_raw content raw c two h =
      let e : raw ≡ from_be_bytes content + 1 = ground arith in
      (ground arith, All-weaken (λ j p. omega arith) ids (c two))

  pub IsAbove-propose :
      (fault : Option Fault) (file : Option Bytes) (raw : ℕ)
      → Covers file ids
      → (current s (answer_read fault file) >>=? next_raw) ≡ ok raw
      → (raw < u16_mod) × All (λ j. j < raw) ids
  unfolding propose
  IsAbove-propose (some f) file raw c h = cc
  IsAbove-propose none none raw c h = rw c (ground arith)
  IsAbove-propose none (some content) raw c h = elim (Bool-cases (length content == 2)) [
    | inl two ↦ IsAbove-next_raw content raw c ((==_iff (length content) 2).0 two) (rw two at h)
    | inr other_length ↦ ground arith
  ]

  -- Two bytes that hold `raw` bound what was given out below it.
  pub Covers-raw :
      (raw : ℕ) → raw < u16_mod → All (λ j. j < raw) ids → Covers (some (u16_to_be_bytes raw)) ids
  Covers-raw raw h a two = All-weaken (λ j p. omega (arith, from_be_bytes-u16 raw h)) ids a

  -- Whatever the write did to the file, the file still bounds what was given out: two bytes were
  -- written, or none, or the file is too short to be read as a counter.
  Covers-after_write :
      (outcome : WriteOutcome) (file : Option Bytes) (raw : ℕ)
      → Covers file ids
      → raw < u16_mod
      → All (λ j. j < raw) ids
      → Covers (after_write outcome (u16_to_be_bytes raw) file) ids
  unfolding take
  Covers-after_write written file raw c h a = Covers-raw raw h a
  Covers-after_write (refused f) file raw c h a = c
  Covers-after_write (torn zero f) file raw c h a = λ short. absurd (omega arith)
  Covers-after_write (torn (suc zero) f) file raw c h a = λ short. absurd (omega arith)
  Covers-after_write (torn (suc (suc zero)) f) file raw c h a = Covers-raw raw h a
  Covers-after_write (torn (suc (suc (suc n))) f) file raw c h a = Covers-raw raw h a

  pub Covers-issue_raw :
      (raw : ℕ)
      → raw < u16_mod
      → All (λ j. j < raw) ids
      → Covers (some (u16_to_be_bytes raw)) (raw ∷ ids)
  Covers-issue_raw raw h a two = (omega (arith, from_be_bytes-u16 raw h), Covers-raw raw h a two)

  IsAbove-answered :
      (outcome : WriteOutcome) (file : Option Bytes) (raw : ℕ)
      → Covers file ids
      → raw < u16_mod
      → All (λ j. j < raw) ids
      → IsAbove (answered s (answer_write outcome) raw) ids
        × Covers
            (after_write outcome (u16_to_be_bytes raw) file)
            (issue (answered s (answer_write outcome) raw) ids)
  unfolding answered
  IsAbove-answered written file raw c h a = ((h, a), Covers-issue_raw raw h a)
  IsAbove-answered (refused f) file raw c h a = (tt, Covers-after_write (refused f) file raw c h a)
  IsAbove-answered (torn n f) file raw c h a = (tt, Covers-after_write (torn n f) file raw c h a)

  module _ {G : Type 0} (os : Os G) (c : Covers (os.files s.path) ids) where
    -- The second half of a call, after a proposal above all that was given out.
    pub persist-IsAbove :
        (raw : ℕ)
        → raw < u16_mod
        → All (λ j. j < raw) ids
        → IsAbove (persist s raw os).0 ids
          × Covers ((persist s raw os).1.files s.path) (issue (persist s raw os).0 ids)
    unfolding persist
    persist-IsAbove raw h a =
        rw
          (update_self os.files s.path
            (after_write (os.write_outcome s.path) (u16_to_be_bytes raw) (os.files s.path)))
          (IsAbove-answered (os.write_outcome s.path) (os.files s.path) raw c h a)

    IsAbove-resume :
        (r : Result ℕ)
        → ((raw : ℕ) → r ≡ ok raw → (raw < u16_mod) × All (λ j. j < raw) ids)
        → let (result, os') = resume r (persist s) os in
          IsAbove result ids × Covers (os'.files s.path) (issue result ids)
    IsAbove-resume (ok raw) h = let (u, a) = h raw refl in persist-IsAbove raw u a
    IsAbove-resume (err e) h = (tt, c)
    IsAbove-resume panic h = (tt, c)

    -- One call gives out an identifier above all before it, or none; either way the file still
    -- bounds what was given out.
    pub next-IsAbove :
        let (result, os') = next s os in
        IsAbove result ids × Covers (os'.files s.path) (issue result ids)
    unfolding next
    next-IsAbove =
        IsAbove-resume (current s (read_file s.path os) >>=? next_raw)
          (λ raw e. IsAbove-propose (os.read_fault s.path) (os.files s.path) raw c e)

-- Every identifier that a call gives out is a `u16`.
pub next-IsU16 :
    {G : Type 0} (s : SessionIdStore) (os : Os G) (id : SessionId)
    → (next s os).0 ≡ ok id
    → SessionId.IsU16 id
next-IsU16 s os id h = (rw h at ((next-IsAbove s [] os (Covers-nil (os.files s.path))).0)).0

-- The life of a session file, with the identifiers given out, the newest first. Between two calls
-- anything but that file may change: other files, and what the system will answer.
pub data History {G : Type 0} (s : SessionIdStore) (start : Os G) : List ℕ → Os G → Type 0 where
  begin : History s start [] start
  environment :
      {ids : List ℕ} {os : Os G} (os' : Os G)
      → History s start ids os
      → os'.files s.path ≡ os.files s.path
      → History s start ids os'
  call :
      {ids : List ℕ} {os : Os G}
      → History s start ids os
      → History s start (issue (next s os).0 ids) (next s os).1

-- Each identifier is a `u16` above all that came before it.
abbrev pub Increasing : List ℕ → Type 0
Increasing [] = ⊤
Increasing (id ∷ earlier) = (id < u16_mod) × All (λ j. j < id) earlier × Increasing earlier

pub Increasing-issue :
    (result : Result SessionId) (ids : List ℕ)
    → IsAbove result ids
    → Increasing ids
    → Increasing (issue result ids)
Increasing-issue (ok id) ids a h = (a.0, a.1, h)
Increasing-issue (err e) ids a h = h
Increasing-issue panic ids a h = h

module _ {G : Type 0} (s : SessionIdStore) where
  History-bounds :
      {start os : Os G} {ids : List ℕ}
      → History s start ids os
      → Increasing ids × Covers (os.files s.path) ids
  History-bounds {start} begin = (tt, Covers-nil (start.files s.path))
  History-bounds (environment os' h same) = let (inc, c) = History-bounds h in (inc, rw same c)
  History-bounds (call {ids = ids} {os = os} h) =
      let (inc, c) = History-bounds h in
      let (above, c') = next-IsAbove s ids os c in
      (Increasing-issue (next s os).0 ids above inc, c')

  -- Over any life of a session file that starts with any content, with reads and writes failing in
  -- any way, with partial writes, and with any state but that file changing between the calls,
  -- every identifier that `next` gives out is a `u16` greater than all given out before it.
  pub History-Increasing :
      {start os : Os G} {ids : List ℕ} → History s start ids os → Increasing ids
  History-Increasing h = (History-bounds h).0
