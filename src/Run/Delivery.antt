-- ===== src/Run/Delivery.antt =====
-- src/lib.rs: a run that succeeds, from the command line's configuration to the wire.
use fin_amor_s_ideal_udp_fiu.Base.{
  ℕ, ◌<◌, ◌≡◌, refl, ap, ◌∙◌, sym, subst, inl, inr, Bytes, arith, length, ⊤, u32_mod, some,
  Option-cases,
}
use fin_amor_s_ideal_udp_fiu.Error.{Result, ok, err, panic}
use fin_amor_s_ideal_udp_fiu.Io.{Io, resume, ◌>>=◌}
use fin_amor_s_ideal_udp_fiu.Os.{Os, Target}
use fin_amor_s_ideal_udp_fiu.Types.SessionId
use fin_amor_s_ideal_udp_fiu.Types.SessionId.{SessionId}
use fin_amor_s_ideal_udp_fiu.Types.RendezvousSecs
use fin_amor_s_ideal_udp_fiu.Config.Types.{Config, InputSource, file, stdin, IsValid}
use fin_amor_s_ideal_udp_fiu.Crypto.{
  ChaCha20Poly1305, Opener, load_key, FileKeySource, cha_cha_encryptor,
}
use fin_amor_s_ideal_udp_fiu.Crypto.Cipher.{IsChaCha, cha_cha_encryptor-IsAead}
use fin_amor_s_ideal_udp_fiu.Crypto.Key.{load_key-ok}
use fin_amor_s_ideal_udp_fiu.Fec.{ReedSolomon, reed_solomon_engine}
use fin_amor_s_ideal_udp_fiu.Fec.Engine.{IsReedSolomon, reed_solomon_engine-IsSystematic}
use fin_amor_s_ideal_udp_fiu.Session
use fin_amor_s_ideal_udp_fiu.Session.History.{next-IsU16}
use fin_amor_s_ideal_udp_fiu.Session.Next.{next_frame}
use fin_amor_s_ideal_udp_fiu.Sender.{send}
use fin_amor_s_ideal_udp_fiu.Sender.Shards.Split.{IsFrame, total_count}
use fin_amor_s_ideal_udp_fiu.Sender.Chaos.{IsRandom, least_kept}
use fin_amor_s_ideal_udp_fiu.Sender.Burst.{IsDelivered, send-IsDelivered}
use fin_amor_s_ideal_udp_fiu.Sender.Transport.{Rng, os_runtime, new_udp_sender}
use fin_amor_s_ideal_udp_fiu.Run.{read_input, pipeline, run}
use fin_amor_s_ideal_udp_fiu.Run.Effects.{after_session, after_key, session, run-resume}

module _ {W A B : Type 0} where
  -- A chain that succeeds has a first step that succeeds.
  resume-ok :
      (r : Result A) (f : A → Io W B) (w : W) {b : B}
      → (resume r f w).0 ≡ ok b
      → (a : A) × (r ≡ ok a) × ((f a w).0 ≡ ok b) × (resume r f w ≡ f a w)
  resume-ok (ok a) f w h = (a, refl, h, refl)
  resume-ok (err e) f w h = absurd (ground arith)
  resume-ok panic f w h = absurd (ground arith)

module _ {G : Type 0} where
  pub read_input-ok :
      (input : InputSource) (os : Os G) (frame : Bytes)
      → (read_input input os).0 ≡ ok frame
      → read_input input os ≡ (ok frame, os)
  unfolding read_input
  read_input-ok (file path) os frame h = rw h refl
  read_input-ok stdin os frame h = rw h refl

  pub next-events :
      (s : Session.SessionIdStore) (os : Os G) → (Session.next s os).1.events ≡ os.events
  next-events s os = elim (next_frame s os) [
    | inl same ↦ ap (λ (o : Os G). o.events) same
    | inr (content, changed) ↦ ap (λ (o : Os G). o.events) changed
  ]

  -- A chain that succeeds has made its socket, which leaves the state alone.
  new_udp_sender-ok :
      (target : Target) (f : Target → Io (Os G) ⊤) (os : Os G)
      → ((new_udp_sender target >>= f) os).0 ≡ ok tt
      → (new_udp_sender target >>= f) os ≡ f target os
  unfolding new_udp_sender
  new_udp_sender-ok target f os h = elim (Option-cases os.bind_fault) [
    | inr (e, b) ↦ absurd (ground arith)
    | inl b ↦ elim (Option-cases os.connect_fault) [
      | inr (e, c) ↦ absurd (ground arith)
      | inl c ↦ rw (b, c)
    ]
  ]

abbrev pub target_of : Config → Target
target_of config = record { ip = config.target_ip; port = config.target_port }

-- How many packets a run sends at least: without the random loss, all but those of the burst loss.
abbrev pub least_sent : Config → Bytes → ℕ
least_sent config frame =
    least_kept config.chaos_drop config.chaos_burst (total_count config.parity_ratio frame)

module _ {G Codec : Type 0} (cipher : ChaCha20Poly1305) (opener : Bytes → Opener)
    (chacha : IsChaCha cipher opener) (rs : ReedSolomon Codec) (reed_solomon : IsReedSolomon rs)
    (rng : Rng G) (random : IsRandom (os_runtime rng)) (config : Config) (valid : IsValid config)
    (secs_u32 : config.rendezvous_secs < u32_mod) (burst_u32 : config.chaos_burst < u32_mod) where
  abbrev store : Session.SessionIdStore
  store = session cipher rs rng config

  -- What follows the session call, once it has succeeded.
  after_session-IsDelivered :
      (key : Bytes) (id : SessionId) (os : Os G) (frame : Bytes)
      → SessionId.IsU16 id
      → (read_input config.input os).0 ≡ ok frame
      → IsFrame frame
      → (after_session cipher rs rng config key id os).0 ≡ ok tt
      → IsDelivered
          (reed_solomon_engine rs)
          (opener key)
          (RendezvousSecs.new config.rendezvous_secs)
          id
          frame
          (least_sent config frame)
          (target_of config)
          config.delay
          os.events
          (after_session cipher rs rng config key id os).1.events
  after_session-IsDelivered key id os frame u16 read f success =
      let same = new_udp_sender-ok (target_of config) _ os success in
      let run : (send (os_runtime rng) (pipeline cipher rs rng config key (target_of config))
            config.parity_ratio (RendezvousSecs.new config.rendezvous_secs) id os).0
          ≡ ok tt =
        sym (ap (λ (r : Result ⊤ × Os G). r.0) same) ∙ success in
      rw same (
        send-IsDelivered rng random (target_of config)
          (record { read_all = read_input config.input }) (reed_solomon_engine rs)
          (reed_solomon_engine-IsSystematic rs reed_solomon) (cha_cha_encryptor cipher key)
          (opener key) (cha_cha_encryptor-IsAead cipher opener chacha key) config.delay
          config.chaos_drop config.chaos_burst config.chaos_shuffle burst_u32 config.parity_ratio
          (RendezvousSecs.new config.rendezvous_secs) id os os frame valid.ratio secs_u32 u16
          (read_input-ok config.input os frame read) f run)

  -- The chain of `run`, with the key loaded, taken apart at a success.
  after_key-IsDelivered :
      (key : Bytes) (os : Os G) (frame : Bytes)
      → (read_input config.input (Session.next store os).1).0 ≡ ok frame
      → IsFrame frame
      → (after_key cipher rs rng config key os).0 ≡ ok tt
      → (id : SessionId) × ((Session.next store os).0 ≡ ok id)
        × IsDelivered
            (reed_solomon_engine rs)
            (opener key)
            (RendezvousSecs.new config.rendezvous_secs)
            id
            frame
            (least_sent config frame)
            (target_of config)
            config.delay
            os.events
            (after_key cipher rs rng config key os).1.events
  unfolding after_key
  after_key-IsDelivered key os frame read f success =
      let (id, given, s, e) =
        resume-ok (Session.next store os).0 (after_session cipher rs rng config key)
          (Session.next store os).1 success in
      (
        id,
        given,
        subst
            (λ events.
              IsDelivered (reed_solomon_engine rs) (opener key)
                (RendezvousSecs.new config.rendezvous_secs) id frame (least_sent config frame)
                (target_of config) config.delay events
                (after_key cipher rs rng config key os).1.events)
            (next-events store os)
            (subst
              (λ (r : Result ⊤ × Os G).
                IsDelivered (reed_solomon_engine rs) (opener key)
                  (RendezvousSecs.new config.rendezvous_secs) id frame (least_sent config frame)
                  (target_of config) config.delay (Session.next store os).1.events r.1.events)
              (sym e)
              (after_session-IsDelivered key id (Session.next store os).1 frame
                (next-IsU16 store os id given) read f s)),
      )

  -- What a successful run has done: the key is the 32 bytes of the key file, the identifier is the
  -- one that the session file gave out, and the frame is delivered under both.
  pub record HasDelivered (frame : Bytes) (before after : Os G) : Type 0 where
    pub key : Bytes
    pub key_file : before.files config.key_path ≡ some key
    pub key_size : length key ≡ 32
    pub id : SessionId
    pub session_call : (Session.next store before).0 ≡ ok id
    pub delivered :
        IsDelivered
          (reed_solomon_engine rs)
          (opener key)
          (RendezvousSecs.new config.rendezvous_secs)
          id
          frame
          (least_sent config frame)
          (target_of config)
          config.delay
          before.events
          after.events

  -- If a run succeeds, over a configuration with a parity ratio and a loss of at most 100 percent
  -- and fields in the range of their types, a cipher, an erasure code and a random generator that
  -- keep what their crates document, any state of the system, and a frame that is not empty and
  -- fits in memory, then the key is the 32 bytes of the key file, the session identifier is the one
  -- that the session file gave out, and what the run put on the wire is the schedule of a reordered
  -- part of a burst from which a receiver with that key gets the frame.
  pub run-HasDelivered :
      (os : Os G) (frame : Bytes)
      → (read_input config.input (Session.next store os).1).0 ≡ ok frame
      → IsFrame frame
      → (run cipher rs rng config os).0 ≡ ok tt
      → HasDelivered frame os (run cipher rs rng config os).1
  run-HasDelivered os frame read f success =
      let source : FileKeySource = record { path = config.key_path } in
      let whole = run-resume cipher rs rng config os in
      let chain = sym (ap (λ (r : Result ⊤ × Os G). r.0) whole) ∙ success in
      let (key, loaded, s, e) =
        resume-ok (load_key source os).0 (after_key cipher rs rng config) os chain in
      let (readable, content, size) = load_key-ok source os key loaded in
      let (id, given, delivered) = after_key-IsDelivered key os frame read f s in
      record {
        key = key;
        key_file = content;
        key_size = size;
        id = id;
        session_call = given;
        delivered =
            subst
              (λ (r : Result ⊤ × Os G).
                IsDelivered (reed_solomon_engine rs) (opener key)
                  (RendezvousSecs.new config.rendezvous_secs) id frame (least_sent config frame)
                  (target_of config) config.delay os.events r.1.events)
              (sym (whole ∙ e)) delivered;
      }
