-- ===== src/Run/Heads.antt =====
-- src/lib.rs: the heads that a run shows on the wire, and what it does to the session file, however it
-- ends.
use fin_amor_s_ideal_udp_fiu.Base.{
  ◌<>◌, ◌+◌, ◌≤◌, ◌<◌, ◌≡◌, refl, sym, subst, inl, inr, ◌⊎◌, Option-cases, Bytes, List, length, ⊤,
  u32_mod, isize_max,
}
use fin_amor_s_ideal_udp_fiu.Error.{Result, ok, err, panic, io, FiudpError}
use fin_amor_s_ideal_udp_fiu.Io.{Io, resume}
use fin_amor_s_ideal_udp_fiu.Os.{Os, Event, Target, fault_error}
use fin_amor_s_ideal_udp_fiu.Types.SessionId
use fin_amor_s_ideal_udp_fiu.Types.SessionId.{SessionId}
use fin_amor_s_ideal_udp_fiu.Types.RendezvousSecs
use fin_amor_s_ideal_udp_fiu.Protocol.Layout.{shard_size}
use fin_amor_s_ideal_udp_fiu.Config.Types.{Config, IsValid, InputSource, file, stdin}
use fin_amor_s_ideal_udp_fiu.Crypto.{ChaCha20Poly1305, Opener, load_key, cha_cha_encryptor}
use fin_amor_s_ideal_udp_fiu.Crypto.Cipher.{IsChaCha, cha_cha_encryptor-IsAead}
use fin_amor_s_ideal_udp_fiu.Fec.{ReedSolomon, reed_solomon_engine}
use fin_amor_s_ideal_udp_fiu.Fec.Engine.{IsReedSolomon, reed_solomon_engine-IsSystematic}
use fin_amor_s_ideal_udp_fiu.Session
use fin_amor_s_ideal_udp_fiu.Session.History.{next-IsU16}
use fin_amor_s_ideal_udp_fiu.Sender.{send}
use fin_amor_s_ideal_udp_fiu.Sender.Chaos.{IsRandom}
use fin_amor_s_ideal_udp_fiu.Sender.Transport.{Rng, os_runtime, display_target, new_udp_sender}
use fin_amor_s_ideal_udp_fiu.Sender.Heads.Send.{AddsSession, AddsSession-nothing, send-AddsSession}
use fin_amor_s_ideal_udp_fiu.Run.{read_input, pipeline, run}
use fin_amor_s_ideal_udp_fiu.Run.Effects.{
  after_session, after_key, session, run-resume, after_key-files,
}
use fin_amor_s_ideal_udp_fiu.Run.Delivery.{target_of, next-events}

-- What a run may add to the wire, by what its session call returned.
abbrev pub Adds : Result SessionId → List Event → List Event → Type 0
Adds (ok id) before after = AddsSession id.value before after
Adds (err e) before after = after ≡ before
Adds panic before after = after ≡ before

module _ {G : Type 0} where
  pub read_input-same :
      (input : InputSource) (os : Os G) → read_input input os ≡ ((read_input input os).0, os)
  unfolding read_input
  read_input-same (file path) os = refl
  read_input-same stdin os = refl

  pub socket_cases :
      (target : Target) (os : Os G)
      → ((new_udp_sender target os).0 ≡ ok target)
        ⊎ ((e : FiudpError) × ((new_udp_sender target os).0 ≡ err e))
  unfolding new_udp_sender
  socket_cases target os = elim (Option-cases os.bind_fault) [
    | inr (e, b) ↦ inr (io "failed to bind UDP socket" (fault_error e), rw b)
    | inl b ↦ elim (Option-cases os.connect_fault) [
      | inr (e, c) ↦ inr (
        io ("failed to connect UDP socket to " <> display_target target) (fault_error e),
        rw (b, c),
      )
      | inl c ↦ inl (rw (b, c))
    ]
  ]

module _ {G Codec : Type 0} (cipher : ChaCha20Poly1305) (opener : Bytes → Opener)
    (chacha : IsChaCha cipher opener) (rs : ReedSolomon Codec) (reed_solomon : IsReedSolomon rs)
    (rng : Rng G) (random : IsRandom (os_runtime rng)) (config : Config) (valid : IsValid config)
    (secs_u32 : config.rendezvous_secs < u32_mod) (burst_u32 : config.chaos_burst < u32_mod) where
  -- What a run reads fits in memory.
  abbrev pub Fits : Os G → Type 0
  Fits os =
      (frame : Bytes)
      → (read_input config.input os).0 ≡ ok frame
      → length frame + shard_size ≤ isize_max

  abbrev store : Session.SessionIdStore
  store = session cipher rs rng config

  after_session-AddsSession :
      (key : Bytes) (id : SessionId) (os : Os G)
      → SessionId.IsU16 id
      → Fits os
      → AddsSession id.value os.events (after_session cipher rs rng config key id os).1.events
  unfolding new_udp_sender
  after_session-AddsSession key id os u16 fits =
      let f : Target → Io (Os G) ⊤ = λ target.
        send (os_runtime rng) (pipeline cipher rs rng config key target) config.parity_ratio
          (RendezvousSecs.new config.rendezvous_secs) id in
      elim (socket_cases (target_of config) os) [
        | inr (e, failed) ↦
            subst (λ r. AddsSession id.value os.events (resume r f os).1.events) (sym failed)
              (AddsSession-nothing id.value os.events)
        | inl made ↦
            subst (λ r. AddsSession id.value os.events (resume r f os).1.events) (sym made)
              (send-AddsSession rng random (target_of config)
                (record { read_all = read_input config.input }) (reed_solomon_engine rs)
                (reed_solomon_engine-IsSystematic rs reed_solomon) (cha_cha_encryptor cipher key)
                (opener key) (cha_cha_encryptor-IsAead cipher opener chacha key) config.delay
                config.chaos_drop config.chaos_burst config.chaos_shuffle burst_u32
                config.parity_ratio (RendezvousSecs.new config.rendezvous_secs) id valid.ratio
                secs_u32 u16 os (read_input config.input os).0 (read_input-same config.input os)
                fits)
      ]

  resume-Adds :
      (r : Result SessionId) (key : Bytes) (os : Os G)
      → ((id : SessionId) → r ≡ ok id → SessionId.IsU16 id)
      → Fits os
      → Adds r os.events (resume r (after_session cipher rs rng config key) os).1.events
  resume-Adds (ok id) key os u16 fits = after_session-AddsSession key id os (u16 id refl) fits
  resume-Adds (err e) key os u16 fits = refl
  resume-Adds panic key os u16 fits = refl

  after_key-Adds :
      (key : Bytes) (os : Os G)
      → Fits (Session.next store os).1
      → Adds (Session.next store os).0 os.events (after_key cipher rs rng config key os).1.events
  unfolding after_key
  after_key-Adds key os fits =
      subst
        (λ before.
          Adds (Session.next store os).0 before (after_key cipher rs rng config key os).1.events)
        (next-events store os)
        (resume-Adds (Session.next store os).0 key (Session.next store os).1 (next-IsU16 store os)
          fits)

  key_cases :
      (r : Result Bytes) (os : Os G)
      → Fits (Session.next store os).1
      → let (result, os') = resume r (after_key cipher rs rng config) os in
        (os' ≡ os)
        ⊎ ((os'.files ≡ (Session.next store os).1.files)
            × Adds (Session.next store os).0 os.events os'.events)
  key_cases (ok key) os fits =
      inr (after_key-files cipher rs rng config key os, after_key-Adds key os fits)
  key_cases (err e) os fits = inl refl
  key_cases panic os fits = inl refl

  -- However a run ends, with a valid configuration in the range of its types, an input that fits in
  -- memory, a cipher, an erasure code and a generator that keep what their crates document: it
  -- changes nothing, or the files are as its session call left them and, if that call gave an
  -- identifier, each datagram it added to the wire is the whole or a first part of a packet of 1428
  -- bytes that starts with that identifier, and those of four bytes or more, which show a shard
  -- index, show none twice; and if that call gave no identifier, the wire is as before.
  pub run_steps :
      (os : Os G)
      → Fits (Session.next store os).1
      → let (result, os') = run cipher rs rng config os in
        (os' ≡ os)
        ⊎ ((os'.files ≡ (Session.next store os).1.files)
            × Adds (Session.next store os).0 os.events os'.events)
  run_steps os fits =
      rw (run-resume cipher rs rng config os)
        (key_cases (load_key (record { path = config.key_path }) os).0 os fits)
