-- ===== src/Run/EmptyInput.antt =====
-- src/lib.rs: a run whose input is empty. The frame is read after the session call.
use fin_amor_s_ideal_udp_fiu.Base.{
  ℕ, ◌+◌, ◌<◌, ◌≡◌, refl, ap, ◌∙◌, inl, inr, none, some, Bytes, [], arith, ⊤, u16_mod,
  u16_to_be_bytes,
}
use fin_amor_s_ideal_udp_fiu.Error.{Result, ok, err, empty_input}
use fin_amor_s_ideal_udp_fiu.Io.{resume}
use fin_amor_s_ideal_udp_fiu.Os.{Os, Target}
use fin_amor_s_ideal_udp_fiu.Types.SessionId
use fin_amor_s_ideal_udp_fiu.Types.SessionId.{SessionId}
use fin_amor_s_ideal_udp_fiu.Types.RendezvousSecs
use fin_amor_s_ideal_udp_fiu.Types.RendezvousSecs.{RendezvousSecs}
use fin_amor_s_ideal_udp_fiu.Config.ParityRatio.{ParityRatio}
use fin_amor_s_ideal_udp_fiu.Config.Types.{Config}
use fin_amor_s_ideal_udp_fiu.Crypto.{ChaCha20Poly1305, load_key}
use fin_amor_s_ideal_udp_fiu.Fec.{ReedSolomon}
use fin_amor_s_ideal_udp_fiu.Session
use fin_amor_s_ideal_udp_fiu.Session.Next.{IsHealthy, Holds, next_successor, next_frame}
use fin_amor_s_ideal_udp_fiu.Sender.{FiudpSender, make_packets, send}
use fin_amor_s_ideal_udp_fiu.Sender.Shards.{split_frame}
use fin_amor_s_ideal_udp_fiu.Sender.Burst.{send-of_failure}
use fin_amor_s_ideal_udp_fiu.Sender.Transport.{Runtime, Rng, os_runtime, new_udp_sender}
use fin_amor_s_ideal_udp_fiu.Run.{read_input, pipeline, run}
use fin_amor_s_ideal_udp_fiu.Run.Effects.{after_session, after_key, session, run-resume}
use fin_amor_s_ideal_udp_fiu.Run.Delivery.{target_of, read_input-ok, next-events}

send_empty :
    {W : Type 0} (rt : Runtime W) (s : FiudpSender W) (ratio : ParityRatio) (secs : RendezvousSecs)
    (id : SessionId) (w w' : W)
    → s.reader.read_all w ≡ (ok [], w')
    → send rt s ratio secs id w ≡ (err empty_input, w')
unfolding make_packets split_frame
send_empty rt s ratio secs id w w' read =
    send-of_failure rt s ratio secs id w w' [] read empty_input refl

module _ {G Codec : Type 0} (cipher : ChaCha20Poly1305) (rs : ReedSolomon Codec) (rng : Rng G)
    (config : Config) (os : Os G) where
  abbrev store : Session.SessionIdStore
  store = session cipher rs rng config

  -- The state after the session call, at which the frame is read.
  abbrev pub called : Os G
  called = (Session.next store os).1

  pub called_sockets :
      (called.bind_fault ≡ os.bind_fault) × (called.connect_fault ≡ os.connect_fault)
  called_sockets = elim (next_frame store os) [
    | inl same ↦ (ap (λ (o : Os G). o.bind_fault) same, ap (λ (o : Os G). o.connect_fault) same)
    | inr (content, changed) ↦
        (ap (λ (o : Os G). o.bind_fault) changed, ap (λ (o : Os G). o.connect_fault) changed)
  ]

  pub socket_made :
      (target : Target) (o : Os G)
      → o.bind_fault ≡ none
      → o.connect_fault ≡ none
      → (new_udp_sender target o).0 ≡ ok target
  unfolding new_udp_sender
  socket_made target o b c = rw (b, c)

  after_session-empty :
      (key : Bytes) (id : SessionId) (o : Os G)
      → o.bind_fault ≡ none
      → o.connect_fault ≡ none
      → read_input config.input o ≡ (ok [], o)
      → after_session cipher rs rng config key id o ≡ (err empty_input, o)
  unfolding new_udp_sender
  after_session-empty key id o b c read =
      ap
        (λ (made : Result Target).
          resume made
            (λ target.
              send (os_runtime rng) (pipeline cipher rs rng config key target) config.parity_ratio
                (RendezvousSecs.new config.rendezvous_secs) id)
            o)
        (socket_made (target_of config) o b c)
      ∙ send_empty (os_runtime rng) (pipeline cipher rs rng config key (target_of config))
          config.parity_ratio (RendezvousSecs.new config.rendezvous_secs) id o o read

  pub run-of_session :
      (key : Bytes) (id : SessionId)
      → (load_key (record { path = config.key_path }) os).0 ≡ ok key
      → (Session.next store os).0 ≡ ok id
      → run cipher rs rng config os ≡ after_session cipher rs rng config key id called
  unfolding after_key
  run-of_session key id loaded given =
      run-resume cipher rs rng config os
      ∙ ap (λ r. resume r (after_key cipher rs rng config) os) loaded
      ∙ ap (λ r. resume r (after_session cipher rs rng config key) called) given

  -- On a readable and writable session file that holds a counter below 65535, with the key loaded
  -- and the socket made, a run whose input is empty fails as an empty input, the session file then
  -- holds the next counter, and nothing is sent.
  pub run_empty_input :
      (key : Bytes) (value : ℕ)
      → (load_key (record { path = config.key_path }) os).0 ≡ ok key
      → IsHealthy store os
      → Holds store os value
      → value + 1 < u16_mod
      → os.bind_fault ≡ none
      → os.connect_fault ≡ none
      → (read_input config.input called).0 ≡ ok []
      → ((run cipher rs rng config os).0 ≡ err empty_input)
        × ((run cipher rs rng config os).1.files store.path ≡ some (u16_to_be_bytes (value + 1)))
        × ((run cipher rs rng config os).1.events ≡ os.events)
  run_empty_input key value loaded healthy holds below b c read =
      elim (next_successor store os value (omega arith) healthy holds) [
        | inr (last, refused) ↦ absurd (omega arith)
        | inl (_, given, file) ↦
            let ended : run cipher rs rng config os ≡ (err empty_input, called) =
              run-of_session key (SessionId.new (value + 1)) loaded given
              ∙ after_session-empty key (SessionId.new (value + 1)) called (called_sockets.0 ∙ b)
                  (called_sockets.1 ∙ c) (read_input-ok config.input called [] read) in
            (
              ap (λ (r : Result ⊤ × Os G). r.0) ended,
              ap (λ (r : Result ⊤ × Os G). r.1.files store.path) ended ∙ file,
              ap (λ (r : Result ⊤ × Os G). r.1.events) ended ∙ next-events store os,
            )
      ]
