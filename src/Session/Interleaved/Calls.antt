-- ===== src/Session/Interleaved/Calls.antt =====
-- src/session.rs: the second half of a call of `next` as a sequence of steps.
use fin_amor_s_ideal_udp_fiu.Base.{
  ℕ, zero, suc, ◌≡◌, refl, sym, ◌∙◌, subst, false, Option, some, [], List, ◌∷◌, ◌++◌, Bytes,
  u16_to_be_bytes, take, drop, replicate, take-of_length, arith,
}
use fin_amor_s_ideal_udp_fiu.Os.{
  Os, WriteOutcome, written, refused, torn, answer_write, after_write, update_self,
}
use fin_amor_s_ideal_udp_fiu.Session.{SessionIdStore, persist, answered}
use fin_amor_s_ideal_udp_fiu.Session.History.{issue}
use fin_amor_s_ideal_udp_fiu.Session.Interleaved.Steps.{
  Phase, Move, waiting, emptied, half, stored, Process, overwrite, truncate, store, first_byte,
  holding, Interleaving, environment, move, give, stop,
}

module _ {G : Type 0} (s : SessionIdStore) (limit : ℕ) (start : Os G) (n : ℕ)
    (before : List Process) (raw : ℕ) (after : List Process) (ids : List ℕ) where
  abbrev Reaches : List ℕ → Option Bytes → Type 0
  Reaches ids' file =
      (os : Os G) × Interleaving s limit false start n (before ++ after) ids' os
      × (os.files s.path ≡ file)

  abbrev pub Pending : (p : Process) → Os G → Type 0
  Pending p os = Interleaving s limit false start n (before ++ p ∷ after) ids os

  -- A move of the process, at a file that is known.
  move_at :
      {phase phase' : Phase} {file file' : Option Bytes} (os : Os G)
      → Pending (raw, phase) os
      → os.files s.path ≡ file
      → Move false raw phase phase' file file'
      → Pending (raw, phase') (holding s file' os) × ((holding s file' os).files s.path ≡ file')
  move_at {phase = phase} {phase' = phase'} {file' = file'} os steps known m = (
    move before raw after steps (subst (λ f. Move false raw phase phase' f file') (sym known) m),
    update_self os.files s.path file',
  )

  outcome_steps :
      (outcome : WriteOutcome) (os : Os G)
      → Pending (raw, waiting) os
      → Reaches
          (issue (answered s (answer_write outcome) raw) ids)
          (after_write outcome (u16_to_be_bytes raw) (os.files s.path))
  unfolding answered overwrite take drop replicate
  outcome_steps (refused f) os steps = (os, stop before (raw, waiting) after steps, refl)
  outcome_steps written os steps =
      let (steps₁, file₁) = move_at os steps refl (truncate (os.files s.path)) in
      let (steps₂, file₂) = move_at (holding s (some []) os) steps₁ file₁ (store []) in
      (_, give before raw after steps₂, file₂)
  outcome_steps (torn zero f) os steps =
      let (steps₁, file₁) = move_at os steps refl (truncate (os.files s.path)) in
      (_, stop before (raw, emptied) after steps₁, file₁)
  outcome_steps (torn (suc zero) f) os steps =
      let (steps₁, file₁) = move_at os steps refl (truncate (os.files s.path)) in
      let (steps₂, file₂) = move_at (holding s (some []) os) steps₁ file₁ (first_byte [] refl) in
      (_, stop before (raw, half) after steps₂, file₂)
  outcome_steps (torn (suc (suc m)) f) os steps =
      let (steps₁, file₁) = move_at os steps refl (truncate (os.files s.path)) in
      let (steps₂, file₂) = move_at (holding s (some []) os) steps₁ file₁ (store []) in
      (
        _,
        stop before (raw, stored) after steps₂,
        rw (take-of_length {A = ℕ} m [] (omega arith)) file₂,
      )

  -- A process that is not interrupted goes through `persist`, whatever the outcome of its write: the
  -- identifiers given out and the state are those of the call.
  pub persist-Interleaving :
      (os : Os G)
      → Pending (raw, waiting) os
      → Interleaving s limit false start n
          (before ++ after)
          (issue (persist s raw os).0 ids)
          (persist s raw os).1
  unfolding persist
  persist-Interleaving os steps =
      let (os', reached, file) = outcome_steps (os.write_outcome s.path) os steps in
      environment (persist s raw os).1 reached (update_self os.files s.path _ ∙ sym file)
