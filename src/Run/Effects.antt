-- ===== src/Run/Effects.antt =====
-- src/lib.rs: what a run does to the files, whichever way it ends.
use fin_amor_s_ideal_udp_fiu.Base.{
  ℕ, ◌≡◌, ◌⊎◌, refl, ap, ◌∙◌, inl, inr, false, Bool-cases, Option, Bytes, List, [], ◌∷◌, arith, ⊤,
}
use fin_amor_s_ideal_udp_fiu.Error.{Result, ok, err, panic}
use fin_amor_s_ideal_udp_fiu.Io.{Io, resume, lift, ◌>>=◌}
use fin_amor_s_ideal_udp_fiu.FilePath.{FilePath, same_path, eq_of_same_path}
use fin_amor_s_ideal_udp_fiu.Os.{Os, Target}
use fin_amor_s_ideal_udp_fiu.Types.SessionId.{SessionId}
use fin_amor_s_ideal_udp_fiu.Types.RendezvousSecs
use fin_amor_s_ideal_udp_fiu.Types.RendezvousSecs.{RendezvousSecs}
use fin_amor_s_ideal_udp_fiu.Config.ParityRatio.{ParityRatio}
use fin_amor_s_ideal_udp_fiu.Config.Types.{Config, InputSource, file, stdin}
use fin_amor_s_ideal_udp_fiu.Crypto.{ChaCha20Poly1305, load_key}
use fin_amor_s_ideal_udp_fiu.Crypto.Key.{load_key-ok}
use fin_amor_s_ideal_udp_fiu.Fec.{ReedSolomon}
use fin_amor_s_ideal_udp_fiu.Session
use fin_amor_s_ideal_udp_fiu.Session.Next.{next_malformed, next_frame}
use fin_amor_s_ideal_udp_fiu.Sender.{FiudpSender, make_packets, chaos, transmit, send}
use fin_amor_s_ideal_udp_fiu.Sender.Chaos.State.{chaos-OnlyRng}
use fin_amor_s_ideal_udp_fiu.Sender.Transport.{
  Rng, os_runtime, udp_send, udp_packet_sender, new_udp_sender,
}
use fin_amor_s_ideal_udp_fiu.Run.{read_input, pipeline, run}

-- A call that leaves every file alone.
abbrev KeepsFiles : {G A : Type 0} → Io (Os G) A → Type 0
KeepsFiles {G} m = (os : Os G) → (m os).1.files ≡ os.files

module _ {G : Type 0} where
  resume-KeepsFiles :
      {A B : Type 0} (r : Result A) (f : A → Io (Os G) B) (os : Os G)
      → ((a : A) → KeepsFiles (f a))
      → (resume r f os).1.files ≡ os.files
  resume-KeepsFiles (ok a) f os h = h a os
  resume-KeepsFiles (err e) f os h = refl
  resume-KeepsFiles panic f os h = refl

  bind-KeepsFiles :
      {A B : Type 0} (m : Io (Os G) A) (f : A → Io (Os G) B)
      → KeepsFiles m
      → ((a : A) → KeepsFiles (f a))
      → KeepsFiles (m >>= f)
  bind-KeepsFiles m f hm hf os = resume-KeepsFiles (m os).0 f (m os).1 hf ∙ hm os

  udp_send-KeepsFiles :
      (target : Target) (packet : Bytes) → KeepsFiles {G = G} (udp_send target packet)
  unfolding udp_send
  udp_send-KeepsFiles target packet os = refl

  read_input-KeepsFiles : (input : InputSource) → KeepsFiles {G = G} (read_input input)
  unfolding read_input
  read_input-KeepsFiles (file path) os = refl
  read_input-KeepsFiles stdin os = refl

  module _ (rng : Rng G) (target : Target) (delay : ℕ) where
    transmit-KeepsFiles :
        (packets : List Bytes)
        → KeepsFiles (transmit (os_runtime rng) (udp_packet_sender target) delay packets)
    unfolding transmit
    transmit-KeepsFiles [] os = refl
    transmit-KeepsFiles (packet ∷ []) os = udp_send-KeepsFiles target packet os
    transmit-KeepsFiles (packet ∷ next ∷ packets) os =
        bind-KeepsFiles (udp_send target packet)
          (λ _ w.
            transmit (os_runtime rng) (udp_packet_sender target) delay (next ∷ packets)
              ((os_runtime rng).sleep delay w))
          (udp_send-KeepsFiles target packet)
          (λ _ w. transmit-KeepsFiles (next ∷ packets) ((os_runtime rng).sleep delay w)) os

  module _ {Codec : Type 0} (cipher : ChaCha20Poly1305) (rs : ReedSolomon Codec) (rng : Rng G)
      (config : Config) (key : Bytes) (target : Target) where
    abbrev burst : FiudpSender (Os G)
    burst = pipeline cipher rs rng config key target

    send-KeepsFiles :
        (ratio : ParityRatio) (secs : RendezvousSecs) (id : SessionId)
        → KeepsFiles (send (os_runtime rng) burst ratio secs id)
    unfolding send
    send-KeepsFiles ratio secs id =
        bind-KeepsFiles (read_input config.input) _ (read_input-KeepsFiles config.input) λ frame.
          bind-KeepsFiles (lift (make_packets burst.fec burst.encryptor ratio secs id frame)) _
            (λ os. refl)
            λ packets.
              bind-KeepsFiles (chaos (os_runtime rng) burst packets) _
                (λ os. ap (λ (o : Os G). o.files) (chaos-OnlyRng rng burst packets os))
                (transmit-KeepsFiles rng target config.delay)

  new_udp_sender-KeepsFiles : (target : Target) → KeepsFiles {G = G} (new_udp_sender target)
  unfolding new_udp_sender
  new_udp_sender-KeepsFiles target os = refl

  module _ {Codec : Type 0} (cipher : ChaCha20Poly1305) (rs : ReedSolomon Codec) (rng : Rng G)
      (config : Config) where
    -- What `run` does with the key and the session identifier.
    abbrev pub after_session : Bytes → SessionId → Io (Os G) ⊤
    after_session key id =
        new_udp_sender (record { ip = config.target_ip; port = config.target_port }) >>= λ target.
        send (os_runtime rng) (pipeline cipher rs rng config key target) config.parity_ratio
          (RendezvousSecs.new config.rendezvous_secs) id

    after_session-KeepsFiles : (key : Bytes) (id : SessionId) → KeepsFiles (after_session key id)
    after_session-KeepsFiles key id =
        bind-KeepsFiles (new_udp_sender _) _ (new_udp_sender-KeepsFiles _)
          λ target. send-KeepsFiles cipher rs rng config key target config.parity_ratio _ id

    abbrev pub session : Session.SessionIdStore
    session = Session.new config.key_path

    -- A run up to its session call, for each result of loading the key.
    unfoldable pub after_key : Bytes → Io (Os G) ⊤
    after_key key = Session.next session >>= after_session key

    pub run-resume :
        (os : Os G)
        → run cipher rs rng config os
          ≡ resume (load_key (record { path = config.key_path }) os).0 after_key os
    unfolding run load_key after_key
    run-resume os = refl

    pub after_key-files :
        (key : Bytes) (os : Os G) → (after_key key os).1.files ≡ (Session.next session os).1.files
    unfolding after_key
    after_key-files key os =
        resume-KeepsFiles (Session.next session os).0 (after_session key)
          (Session.next session os).1 (after_session-KeepsFiles key)

    -- The files after a run are those before it, or, with a key loaded, those after its session
    -- call.
    resume_key-files :
        (os : Os G) (r : Result Bytes)
        → ((resume r after_key os).1.files ≡ os.files)
          ⊎ ((key : Bytes) × (r ≡ ok key)
              × ((resume r after_key os).1.files ≡ (Session.next session os).1.files))
    resume_key-files os (ok key) = inr (key, refl, after_key-files key os)
    resume_key-files os (err e) = inl refl
    resume_key-files os panic = inl refl

    run-files :
        (os : Os G)
        → ((run cipher rs rng config os).1.files ≡ os.files)
          ⊎ ((key : Bytes) × ((load_key (record { path = config.key_path }) os).0 ≡ ok key)
              × ((run cipher rs rng config os).1.files ≡ (Session.next session os).1.files))
    run-files os =
        rw run-resume (resume_key-files os (load_key (record { path = config.key_path }) os).0)

    next-files :
        (q : FilePath) (os : Os G)
        → same_path session.path q ≡ false
        → (Session.next session os).1.files q ≡ os.files q
    next-files q os h = elim (next_frame session os) [
      | inl same ↦ ap (λ (o : Os G). o.files q) same
      | inr (content, changed) ↦ ap (λ (o : Os G). o.files q) changed ∙ rw h
    ]

    -- However a run ends, every file but the session file is as before.
    pub run_other_files :
        (q : FilePath) (os : Os G)
        → same_path session.path q ≡ false
        → (run cipher rs rng config os).1.files q ≡ os.files q
    run_other_files q os h = elim (run-files os) [
      | inl same ↦ ap (λ (files : FilePath → Option Bytes). files q) same
      | inr (key, loaded, changed) ↦
          ap (λ (files : FilePath → Option Bytes). files q) changed ∙ next-files q os h
    ]

    -- However a run ends, the key file is as before, also where its name makes it its own session
    -- file.
    pub run_key_file :
        (os : Os G)
        → (run cipher rs rng config os).1.files config.key_path ≡ os.files config.key_path
    run_key_file os = elim (Bool-cases (same_path session.path config.key_path)) [
      | inr distinct ↦ run_other_files config.key_path os distinct
      | inl shared ↦ elim (run-files os) [
        | inl same ↦ ap (λ (files : FilePath → Option Bytes). files config.key_path) same
        | inr (key, loaded, changed) ↦
            let (readable, content, size) =
              load_key-ok (record { path = config.key_path }) os key loaded in
            let path : session.path ≡ config.key_path = eq_of_same_path _ _ shared in
            ap (λ (files : FilePath → Option Bytes). files config.key_path) changed
            ∙ ap (λ (r : Result SessionId × Os G). r.1.files config.key_path)
                (next_malformed session os key (rw path readable) (rw path content) (omega arith))
      ]
    ]
