-- ===== src/Session/Interleaved/Bounds.antt =====
-- src/session.rs: the range of the identifiers that processes without any lock can get, where no
-- write puts in one byte alone.
use fin_amor_s_ideal_udp_fiu.Base.{
  ℕ, suc, ◌+◌, ◌-◌, ◌≤◌, ◌<◌, ◌≡◌, ◌≢◌, true, replicate, drop, refl, sym, subst, inl, inr, Option,
  none, some, List, [], ◌∷◌, ◌++◌, Bytes, arith, All, length, take, u16_mod, from_be_bytes,
  from_be_bytes-u16, u16_to_be_bytes, ◌==◌, ==_iff, Bool-cases,
}
use fin_amor_s_ideal_udp_fiu.Error.{ok, ◌>>=◌ as ◌>>=?◌}
use fin_amor_s_ideal_udp_fiu.Os.{Os, Fault, answer_read, update_self}
use fin_amor_s_ideal_udp_fiu.Session.{SessionIdStore, current, next_raw, answered, propose}
use fin_amor_s_ideal_udp_fiu.Session.Interleaved.Steps.{
  Phase, half, stored, Process, overwrite, Move, truncate, store, first_byte, second_byte,
  Interleaving, begin, environment, read, move, give, stop,
}

-- The counter of a file, 0 if there is none.
abbrev pub counter_of : Option Bytes → ℕ
counter_of none = 0
counter_of (some content) = from_be_bytes content

-- Above `low`, at most `high`, and a `u16`.
abbrev pub IsWithin : ℕ → ℕ → ℕ → Type 0
IsWithin low high j = (low < j) × (j ≤ high) × (j < u16_mod)

-- A file that gives a counter gives one from `low` to `high`.
abbrev CounterWithin : ℕ → ℕ → Option Bytes → Type 0
CounterWithin low high none = low ≡ 0
CounterWithin low high (some content) =
    length content ≡ 2 → (low ≤ from_be_bytes content) × (from_be_bytes content ≤ high)

-- A process with a proposal within the range, that has not put in one byte alone.
abbrev IsSound : ℕ → ℕ → Process → Type 0
IsSound low high p = IsWithin low high p.0 × (p.1 ≢ half)

record IsBounded (low n : ℕ) (pending : List Process) (ids : List ℕ) (file : Option Bytes)
    : Type 0 where
  pub counter : CounterWithin low (low + n) file
  pub proposed : All (IsSound low (low + n)) pending
  pub issued : All (IsWithin low (low + n)) ids

IsSound-suc :
    (low n : ℕ) (ps : List Process)
    → All (IsSound low (low + n)) ps
    → All (IsSound low (low + (n + 1))) ps
IsSound-suc low n [] h = tt
IsSound-suc low n (p ∷ ps) h =
    (((h.0.0.0, omega (arith, h.0.0.1), h.0.0.2), h.0.1), IsSound-suc low n ps h.1)

IsWithin-suc :
    (low n : ℕ) (js : List ℕ)
    → All (IsWithin low (low + n)) js
    → All (IsWithin low (low + (n + 1))) js
IsWithin-suc low n [] h = tt
IsWithin-suc low n (j ∷ js) h = ((h.0.0, omega (arith, h.0.1), h.0.2), IsWithin-suc low n js h.1)

CounterWithin-suc :
    (low n : ℕ) (file : Option Bytes)
    → CounterWithin low (low + n) file
    → CounterWithin low (low + (n + 1)) file
CounterWithin-suc low n none h = h
CounterWithin-suc low n (some content) h = λ two. ((h two).0, omega (arith, (h two).1))

All-split :
    (P : Process → Type 0) (before : List Process) (p : Process) (after : List Process)
    → All P (before ++ p ∷ after)
    → P p × All P (before ++ after)
All-split P [] p after h = h
All-split P (q ∷ before) p after h =
    let (this, rest) = All-split P before p after h.1 in (this, (h.0, rest))

All-insert :
    (P : Process → Type 0) (before : List Process) (p : Process) (after : List Process)
    → P p
    → All P (before ++ after)
    → All P (before ++ p ∷ after)
All-insert P [] p after this rest = (this, rest)
All-insert P (q ∷ before) p after this rest = (rest.0, All-insert P before p after this rest.1)

module _ (s : SessionIdStore) (low n : ℕ) where
  IsWithin-propose :
      (fault : Option Fault) (file : Option Bytes) (raw : ℕ)
      → CounterWithin low (low + n) file
      → (current s (answer_read fault file) >>=? next_raw) ≡ ok raw
      → IsWithin low (low + (n + 1)) raw
  unfolding current next_raw
  IsWithin-propose (some f) file raw c h = cc
  IsWithin-propose none none raw c h = ground arith
  IsWithin-propose none (some content) raw c h = elim (Bool-cases (length content == 2)) [
    | inl two ↦
        let bounds = c ((==_iff (length content) 2).0 two) in
        ground (arith, rw two at h, bounds.0, bounds.1)
    | inr other_length ↦ ground arith
  ]

  CounterWithin-raw :
      (raw : ℕ)
      → IsWithin low (low + n) raw
      → CounterWithin low (low + n) (some (u16_to_be_bytes raw))
  CounterWithin-raw raw h =
      let same = from_be_bytes-u16 raw h.2 in
      λ two. (omega (arith, same, h.0), omega (arith, same, h.1))

  CounterWithin-overwrite :
      (content : Bytes) (raw : ℕ)
      → IsWithin low (low + n) raw
      → CounterWithin low (low + n) (some (overwrite 0 (u16_to_be_bytes raw) content))
  unfolding overwrite take drop replicate
  CounterWithin-overwrite [] raw h = CounterWithin-raw raw h
  CounterWithin-overwrite (x ∷ []) raw h = CounterWithin-raw raw h
  CounterWithin-overwrite (x ∷ y ∷ []) raw h = CounterWithin-raw raw h
  CounterWithin-overwrite (x ∷ y ∷ z ∷ rest) raw h =
      let no_gap : 0 - suc (suc (suc (length rest))) ≡ 0 = omega arith in
      rw no_gap (λ two. absurd (omega arith))

  -- A move of a whole write.
  move-IsSound :
      {raw : ℕ} {phase phase' : Phase} {file file' : Option Bytes}
      → Move true raw phase phase' file file'
      → IsSound low (low + n) (raw, phase)
      → CounterWithin low (low + n) file' × IsSound low (low + n) (raw, phase')
  move-IsSound (truncate file) h = (λ two. absurd (omega arith), (h.0, λ e. ground arith))
  move-IsSound {raw = raw} (store content) h =
      (CounterWithin-overwrite content raw h.0, (h.0, λ e. ground arith))
  move-IsSound (first_byte content part) h = absurd (ground arith)
  move-IsSound (second_byte content) h = absurd (h.1 refl)

CounterWithin-start :
    (file : Option Bytes) → CounterWithin (counter_of file) (counter_of file + 0) file
CounterWithin-start none = refl
CounterWithin-start (some content) = λ two. (omega arith, omega arith)

module _ {G : Type 0} (s : SessionIdStore) (limit : ℕ) where
  Interleaving-IsBounded :
      {start os : Os G} {n : ℕ} {pending : List Process} {ids : List ℕ}
      → Interleaving s limit true start n pending ids os
      → IsBounded (counter_of (start.files s.path)) n pending ids (os.files s.path)
  unfolding propose answered
  Interleaving-IsBounded {start = start} begin = record {
    counter = CounterWithin-start (start.files s.path);
    proposed = tt;
    issued = tt;
  }
  Interleaving-IsBounded {start = start}
        (environment {n = n} {pending = pending} {ids = ids} os' steps same) =
      subst (IsBounded (counter_of (start.files s.path)) n pending ids) (sym same)
        (Interleaving-IsBounded steps)
  Interleaving-IsBounded {start = start}
        (read {n = n} {pending = pending} {ids = ids} {os = os} raw steps free proposed) =
      let h = Interleaving-IsBounded steps in
      let low = counter_of (start.files s.path) in
      record {
        counter = CounterWithin-suc low n (os.files s.path) h.counter;
        proposed = (
          (
            IsWithin-propose s low n (os.read_fault s.path) (os.files s.path) raw h.counter
                proposed,
            λ e. ground arith,
          ),
          IsSound-suc low n pending h.proposed,
        );
        issued = IsWithin-suc low n ids h.issued;
      }
  Interleaving-IsBounded {start = start}
        (move {n = n} {ids = ids} {os = os} {phase = phase} {phase' = phase'} {file = file} before
          raw after steps m) =
      let h = Interleaving-IsBounded steps in
      let low = counter_of (start.files s.path) in
      let (this, rest) = All-split (IsSound low (low + n)) before (raw, phase) after h.proposed in
      let (counter, this') = move-IsSound s low n m this in
      record {
        counter =
            subst (CounterWithin low (low + n)) (sym (update_self os.files s.path file)) counter;
        proposed = All-insert (IsSound low (low + n)) before (raw, phase') after this' rest;
        issued = h.issued;
      }
  Interleaving-IsBounded {start = start} (give {n = n} before raw after steps) =
      let h = Interleaving-IsBounded steps in
      let low = counter_of (start.files s.path) in
      let (this, rest) = All-split (IsSound low (low + n)) before (raw, stored) after h.proposed in
      record { counter = h.counter; proposed = rest; issued = (this.0, h.issued) }
  Interleaving-IsBounded {start = start} (stop {n = n} before p after steps) =
      let h = Interleaving-IsBounded steps in
      let low = counter_of (start.files s.path) in
      record {
        counter = h.counter;
        proposed = (All-split (IsSound low (low + n)) before p after h.proposed).1;
        issued = h.issued;
      }

  -- Any number of processes call `next`, in any order of their steps: the read, the opening of the
  -- file for the write, which empties it, the storing of the two bytes over the start of whatever
  -- the file then holds, and the return. A process may fail or die at any point, but none stores
  -- one byte alone; a read may fail in any way, and between the steps anything but that file may
  -- change. Every identifier that is given out is a `u16` above the counter at the start, and at
  -- most that counter and the number of successful reads together.
  pub Interleaving-IsWithin :
      {start os : Os G} {n : ℕ} {pending : List Process} {ids : List ℕ}
      → Interleaving s limit true start n pending ids os
      → All (IsWithin (counter_of (start.files s.path)) (counter_of (start.files s.path) + n)) ids
  Interleaving-IsWithin steps = (Interleaving-IsBounded steps).issued
