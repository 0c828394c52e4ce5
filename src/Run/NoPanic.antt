-- ===== src/Run/NoPanic.antt =====
-- src/lib.rs: that a run returns.
use fin_amor_s_ideal_udp_fiu.Base.{
  ℕ, ◌+◌, ◌≤◌, ◌<◌, ◌≡◌, refl, sym, subst, inl, inr, ◌⊎◌, Bool-cases, Option, none, some, Bytes,
  arith, length, ⊤, u32_mod, u16_mod, ltb, ◌==◌, ==_iff, replicate, length-replicate, isize_max,
}
use fin_amor_s_ideal_udp_fiu.Error.{
  ok, DoesNotPanic, bind-DoesNotPanic, map_err-DoesNotPanic, map_err, IoResult, IoErrorKind, done,
  failed, not_found, other, ◌>>=◌,
}
use fin_amor_s_ideal_udp_fiu.Io.{Io, resume, resume-DoesNotPanic}
use fin_amor_s_ideal_udp_fiu.Os.{Os, Target, read_file, answer_write}
use fin_amor_s_ideal_udp_fiu.FilePath.{FilePath}
use fin_amor_s_ideal_udp_fiu.Slice.{copy_all}
use fin_amor_s_ideal_udp_fiu.Types.SessionId
use fin_amor_s_ideal_udp_fiu.Types.SessionId.{SessionId}
use fin_amor_s_ideal_udp_fiu.Types.RendezvousSecs
use fin_amor_s_ideal_udp_fiu.Protocol.Layout.{shard_size}
use fin_amor_s_ideal_udp_fiu.Config.Types.{Config, IsValid, InputSource, file, stdin}
use fin_amor_s_ideal_udp_fiu.Crypto.{
  ChaCha20Poly1305, Opener, FileKeySource, key_of, load_key, cha_cha_encryptor,
}
use fin_amor_s_ideal_udp_fiu.Crypto.Cipher.{
  IsChaCha, Sealed-cases, copy_tag-sealed, cha_cha_encryptor-IsAead,
}
use fin_amor_s_ideal_udp_fiu.Fec.{ReedSolomon, reed_solomon_engine}
use fin_amor_s_ideal_udp_fiu.Fec.Engine.{
  IsReedSolomon, reed_solomon_engine-IsSystematic, Answer-cases,
}
use fin_amor_s_ideal_udp_fiu.Session.{SessionIdStore, current, next_raw, answered, persist, next}
use fin_amor_s_ideal_udp_fiu.Session.History.{next-IsU16}
use fin_amor_s_ideal_udp_fiu.Sender.{send}
use fin_amor_s_ideal_udp_fiu.Sender.NoPanic.{SealsOrRefuses, EncodesOrRefuses, send-DoesNotPanic}
use fin_amor_s_ideal_udp_fiu.Sender.Chaos.{IsRandom}
use fin_amor_s_ideal_udp_fiu.Sender.Transport.{Rng, os_runtime, new_udp_sender}
use fin_amor_s_ideal_udp_fiu.Run.{read_input, pipeline, run}
use fin_amor_s_ideal_udp_fiu.Run.Effects.{after_session, after_key, session, run-resume}
use fin_amor_s_ideal_udp_fiu.Run.Delivery.{target_of}
use fin_amor_s_ideal_udp_fiu.Run.Heads.{read_input-same, socket_cases}

-- What is read, if anything, fits in memory with a shard of padding.
abbrev pub FitsMemory : {G : Type 0} → InputSource → Os G → Type 0
FitsMemory input os =
    (frame : Bytes) → (read_input input os).0 ≡ ok frame → length frame + shard_size ≤ isize_max

key_of-DoesNotPanic :
    (path : FilePath) (answer : IoResult Bytes) → DoesNotPanic (key_of path answer)
unfolding key_of
key_of-DoesNotPanic path (failed e) = λ same. ground arith
key_of-DoesNotPanic path (done bytes) = elim (Bool-cases (length bytes == 32)) [
  | inl exact ↦
      rw
        (
          exact,
          copy_all 32 (replicate 32 0) bytes ((==_iff (length bytes) 32).0 exact)
              (length-replicate 32 0),
        )
        (λ same. ground arith)
  | inr wrong ↦ rw wrong (λ same. ground arith)
]

IoErrorKind-cases : (kind : IoErrorKind) → (kind ≡ not_found) ⊎ ((code : ℕ) × (kind ≡ other code))
IoErrorKind-cases not_found = inl refl
IoErrorKind-cases (other code) = inr (code, refl)

current-DoesNotPanic :
    (s : SessionIdStore) (answer : IoResult Bytes) → DoesNotPanic (current s answer)
unfolding current
current-DoesNotPanic s (done bytes) = elim (Bool-cases (length bytes == 2)) [
  | inl two ↦ rw two (λ same. ground arith)
  | inr other_length ↦ rw other_length (λ same. ground arith)
]
current-DoesNotPanic s (failed e) = elim (IoErrorKind-cases e.kind) [
  | inl missing ↦ rw missing (λ same. ground arith)
  | inr (code, unreadable) ↦ rw unreadable (λ same. ground arith)
]

next_raw-DoesNotPanic : (counter : Option ℕ) → DoesNotPanic (next_raw counter)
unfolding next_raw
next_raw-DoesNotPanic none = λ same. ground arith
next_raw-DoesNotPanic (some value) = elim (Bool-cases (ltb (value + 1) u16_mod)) [
  | inl below ↦ rw below (λ same. ground arith)
  | inr last ↦ rw last (λ same. ground arith)
]

module _ {G : Type 0} where
  load_key-DoesNotPanic : (source : FileKeySource) (os : Os G) → DoesNotPanic (load_key source os).0
  unfolding load_key
  load_key-DoesNotPanic source os = key_of-DoesNotPanic source.path (read_file source.path os)

  next-DoesNotPanic : (s : SessionIdStore) (os : Os G) → DoesNotPanic (next s os).0
  unfolding next persist answered
  next-DoesNotPanic s os =
      resume-DoesNotPanic (current s (read_file s.path os) >>= next_raw) (persist s) os
        (bind-DoesNotPanic (current s (read_file s.path os)) next_raw
          (current-DoesNotPanic s (read_file s.path os))
          (λ counter read. next_raw-DoesNotPanic counter))
        (λ raw proposed.
          bind-DoesNotPanic (map_err _ (answer_write (os.write_outcome s.path))) _
            (map_err-DoesNotPanic _ (answer_write (os.write_outcome s.path)))
            (λ t wrote same. ground arith))

  read_input-DoesNotPanic : (input : InputSource) (os : Os G) → DoesNotPanic (read_input input os).0
  unfolding read_input
  read_input-DoesNotPanic (file path) os = map_err-DoesNotPanic _ (read_file path os)
  read_input-DoesNotPanic stdin os = map_err-DoesNotPanic _ os.stdin

module _ {G Codec : Type 0} (cipher : ChaCha20Poly1305) (opener : Bytes → Opener)
    (chacha : IsChaCha cipher opener) (rs : ReedSolomon Codec) (reed_solomon : IsReedSolomon rs)
    (rng : Rng G) (random : IsRandom (os_runtime rng)) (config : Config) (valid : IsValid config)
    (secs_u32 : config.rendezvous_secs < u32_mod) (burst_u32 : config.chaos_burst < u32_mod) where
  encryptor-SealsOrRefuses : (key : Bytes) → SealsOrRefuses (cha_cha_encryptor cipher key)
  unfolding cha_cha_encryptor
  encryptor-SealsOrRefuses key nonce aad shard = elim (Sealed-cases (cipher key nonce aad shard)) [
    | inl (out, tag, e) ↦
        rw
          (
            e,
            copy_tag-sealed cipher opener chacha key out tag
                (chacha.length_tag key nonce aad shard out tag e),
          )
          (λ same. ground arith)
    | inr (text, e) ↦ rw e (λ same. ground arith)
  ]

  engine-EncodesOrRefuses : EncodesOrRefuses (reed_solomon_engine rs)
  unfolding reed_solomon_engine
  engine-EncodesOrRefuses d p shards = elim (Answer-cases (rs.new d p)) [
    | inr (text, e) ↦ rw e (λ same. ground arith)
    | inl (codec, e) ↦ elim (Answer-cases (rs.encode codec shards)) [
      | inr (text, f) ↦ rw (e, f) (λ same. ground arith)
      | inl (out, f) ↦ rw (e, f) (λ same. ground arith)
    ]
  ]

  abbrev store : SessionIdStore
  store = session cipher rs rng config

  after_session-DoesNotPanic :
      (key : Bytes) (id : SessionId) (os : Os G)
      → SessionId.IsU16 id
      → FitsMemory config.input os
      → DoesNotPanic (after_session cipher rs rng config key id os).0
  unfolding new_udp_sender
  after_session-DoesNotPanic key id os u16 fits =
      let f : Target → Io (Os G) ⊤ = λ target.
        send (os_runtime rng) (pipeline cipher rs rng config key target) config.parity_ratio
          (RendezvousSecs.new config.rendezvous_secs) id in
      elim (socket_cases (target_of config) os) [
        | inr (e, no_socket) ↦
            subst (λ r. DoesNotPanic (resume r f os).0) (sym no_socket) (λ same. ground arith)
        | inl made ↦
            subst (λ r. DoesNotPanic (resume r f os).0) (sym made)
              (send-DoesNotPanic rng random (target_of config)
                (record { read_all = read_input config.input }) (reed_solomon_engine rs)
                (reed_solomon_engine-IsSystematic rs reed_solomon) engine-EncodesOrRefuses
                (cha_cha_encryptor cipher key) (opener key)
                (cha_cha_encryptor-IsAead cipher opener chacha key) (encryptor-SealsOrRefuses key)
                config.delay config.chaos_drop config.chaos_burst config.chaos_shuffle burst_u32
                config.parity_ratio (RendezvousSecs.new config.rendezvous_secs) id valid.ratio
                secs_u32 u16 os os (read_input config.input os).0 (read_input-same config.input os)
                (read_input-DoesNotPanic config.input os) fits)
      ]

  -- With a valid configuration in the range of its types, an input that fits in memory, a cipher,
  -- an erasure code and a generator that keep what their crates document, and any result of every
  -- read, write and send, a run does not panic: it succeeds or returns an error.
  pub run-DoesNotPanic :
      (os : Os G)
      → FitsMemory config.input (next store os).1
      → DoesNotPanic (run cipher rs rng config os).0
  unfolding after_key
  run-DoesNotPanic os fits =
      let source : FileKeySource = record { path = config.key_path } in
      rw (run-resume cipher rs rng config os) (
        resume-DoesNotPanic (load_key source os).0 (after_key cipher rs rng config) os
          (load_key-DoesNotPanic source os)
          (λ key loaded.
            resume-DoesNotPanic (next store os).0 (after_session cipher rs rng config key)
              (next store os).1 (next-DoesNotPanic store os)
              (λ id given.
                after_session-DoesNotPanic key id (next store os).1 (next-IsU16 store os id given)
                  fits)))
