-- ===== src/Run/Success.antt =====
-- src/lib.rs: when a run succeeds.
use fin_amor_s_ideal_udp_fiu.Base.{
  ℕ, ◌+◌, ◌≤◌, ◌<◌, ◌≡◌, ◌⊎◌, ap, ◌∙◌, sym, subst, inl, inr, none, some, Bytes, arith, length, ⊤,
  u16_mod, u32_mod,
}
use fin_amor_s_ideal_udp_fiu.Error.{Result, ok}
use fin_amor_s_ideal_udp_fiu.Io.{Io, resume}
use fin_amor_s_ideal_udp_fiu.Os.{Os, Target}
use fin_amor_s_ideal_udp_fiu.Types.SessionId
use fin_amor_s_ideal_udp_fiu.Types.SessionId.{SessionId}
use fin_amor_s_ideal_udp_fiu.Types.RendezvousSecs
use fin_amor_s_ideal_udp_fiu.Protocol.Layout.{shard_size}
use fin_amor_s_ideal_udp_fiu.Config.ParityRatio.{parity_shards}
use fin_amor_s_ideal_udp_fiu.Config.Types.{Config, IsValid}
use fin_amor_s_ideal_udp_fiu.Crypto.{
  ChaCha20Poly1305, Opener, FileKeySource, sealed, load_key, cha_cha_encryptor,
}
use fin_amor_s_ideal_udp_fiu.Crypto.Cipher.{IsChaCha, copy_tag-sealed, cha_cha_encryptor-IsAead}
use fin_amor_s_ideal_udp_fiu.Crypto.Key.{load_key_cases}
use fin_amor_s_ideal_udp_fiu.Fec.{ReedSolomon, reed_solomon_engine}
use fin_amor_s_ideal_udp_fiu.Fec.Engine.{IsReedSolomon, reed_solomon_engine-IsSystematic}
use fin_amor_s_ideal_udp_fiu.Session
use fin_amor_s_ideal_udp_fiu.Session.History.{next-IsU16}
use fin_amor_s_ideal_udp_fiu.Session.Next.{IsHealthy, Holds, next_successor, next_first, next_frame}
use fin_amor_s_ideal_udp_fiu.Sender.{send}
use fin_amor_s_ideal_udp_fiu.Sender.Shards.{u16_max}
use fin_amor_s_ideal_udp_fiu.Sender.Shards.Split.{
  IsFrame, data_count, total_count, parts_of, parts_of-IsSplit,
}
use fin_amor_s_ideal_udp_fiu.Sender.Capacity.{IsGaloisEight, encode_parity_total}
use fin_amor_s_ideal_udp_fiu.Sender.Chaos.{IsRandom}
use fin_amor_s_ideal_udp_fiu.Sender.Outcome.{TakesAll, SealsAll}
use fin_amor_s_ideal_udp_fiu.Sender.Success.{send_succeeds_chaos}
use fin_amor_s_ideal_udp_fiu.Sender.Transport.{Rng, os_runtime, new_udp_sender}
use fin_amor_s_ideal_udp_fiu.Run.{read_input, pipeline, run}
use fin_amor_s_ideal_udp_fiu.Run.Effects.{after_session}
use fin_amor_s_ideal_udp_fiu.Run.Delivery.{target_of, read_input-ok}
use fin_amor_s_ideal_udp_fiu.Run.EmptyInput.{called, called_sockets, socket_made, run-of_session}

-- The crate seals every shard.
abbrev pub SealsShards : ChaCha20Poly1305 → Type 0
SealsShards cipher =
    (key nonce aad buffer : Bytes)
    → length buffer ≡ shard_size
    → (out : Bytes) × (tag : Bytes) × (cipher key nonce aad buffer ≡ sealed out tag)

SealsShards-SealsAll :
    (cipher : ChaCha20Poly1305) (opener : Bytes → Opener) (key : Bytes)
    → IsChaCha cipher opener
    → SealsShards cipher
    → SealsAll (cha_cha_encryptor cipher key)
unfolding cha_cha_encryptor
SealsShards-SealsAll cipher opener key chacha seals nonce aad shard size =
    let (out, tag, e) = seals key nonce aad shard size in
    (
      (out, tag),
      rw e (
          copy_tag-sealed cipher opener chacha key out tag
            (chacha.length_tag key nonce aad shard out tag e)),
    )

module _ {G : Type 0} (s : Session.SessionIdStore) (os : Os G) where
  -- There is no session file yet, or it holds a counter that has a successor.
  abbrev pub HasNext : Type 0
  HasNext = (os.files s.path ≡ none) ⊎ ((value : ℕ) × (value + 1 < u16_mod) × Holds s os value)

  next_given : IsHealthy s os → HasNext → (id : SessionId) × ((Session.next s os).0 ≡ ok id)
  next_given healthy (inl missing) = (SessionId.new 1, (next_first s os healthy missing).0)
  next_given healthy (inr (value, below, holds)) =
      elim (next_successor s os value (omega arith) healthy holds) [
        | inl (_, given, file) ↦ (SessionId.new (value + 1), given)
        | inr (last, refused) ↦ absurd (omega arith)
      ]

  next-TakesAll : TakesAll os → TakesAll (Session.next s os).1
  next-TakesAll takes = elim (next_frame s os) [
    | inl same ↦ subst TakesAll (sym same) takes
    | inr (content, changed) ↦ subst TakesAll (sym changed) takes
  ]

key_loaded :
    {G : Type 0} (source : FileKeySource) (os : Os G) (key : Bytes)
    → os.read_fault source.path ≡ none
    → os.files source.path ≡ some key
    → length key ≡ 32
    → (load_key source os).0 ≡ ok key
key_loaded source os key readable content size = elim (load_key_cases source os readable) [
  | inl (key', content', size', loaded) ↦
      ap (λ (r : Result Bytes × Os _). r.0) loaded ∙ ground (arith, content, content')
  | inr (inl (content', file, wrong, refused)) ↦ absurd (ground (arith, content))
  | inr (inr (missing, refused)) ↦ absurd (ground (arith, content))
]

-- The erasure code refuses nothing but what its crate does, at the counts of a frame.
abbrev pub Encodes : {Codec : Type 0} → ReedSolomon Codec → Config → Bytes → Type 0
Encodes rs config frame =
    IsGaloisEight rs (data_count frame) (parity_shards config.parity_ratio (data_count frame))

-- A frame that the erasure code and the header have room for.
abbrev pub HasRoom : Config → Bytes → Type 0
HasRoom config frame =
    (total_count config.parity_ratio frame ≤ 256)
    ⊎ ((parity_shards config.parity_ratio (data_count frame) ≡ 0)
        × (total_count config.parity_ratio frame ≤ u16_max))

module _ {G Codec : Type 0} (cipher : ChaCha20Poly1305) (opener : Bytes → Opener)
    (chacha : IsChaCha cipher opener) (seals : SealsShards cipher) (rs : ReedSolomon Codec)
    (reed_solomon : IsReedSolomon rs) (rng : Rng G) (random : IsRandom (os_runtime rng))
    (config : Config) (valid : IsValid config) (secs_u32 : config.rendezvous_secs < u32_mod)
    (burst_u32 : config.chaos_burst < u32_mod) where
  after_session_succeeds :
      (key : Bytes) (id : SessionId) (o : Os G) (frame : Bytes)
      → SessionId.IsU16 id
      → o.bind_fault ≡ none
      → o.connect_fault ≡ none
      → (read_input config.input o).0 ≡ ok frame
      → IsFrame frame
      → Encodes rs config frame
      → HasRoom config frame
      → TakesAll o
      → (after_session cipher rs rng config key id o).0 ≡ ok tt
  unfolding new_udp_sender
  after_session_succeeds key id o frame u16 bound connected read f crate room takes =
      let target = target_of config in
      let within : total_count config.parity_ratio frame ≤ u16_max = ground arith in
      let (shards, encoded) =
        encode_parity_total rs frame (parts_of config.parity_ratio frame) crate
          (parts_of-IsSplit config.parity_ratio valid.ratio frame f within) (ground arith) in
      let burst : Target → Io (Os G) ⊤ = λ t.
        send (os_runtime rng) (pipeline cipher rs rng config key t) config.parity_ratio
          (RendezvousSecs.new config.rendezvous_secs) id in
      ap (λ (made : Result Target). (resume made burst o).0)
        (socket_made cipher rs rng config o target o bound connected)
      ∙ send_succeeds_chaos rng random target (record { read_all = read_input config.input })
          (reed_solomon_engine rs) (reed_solomon_engine-IsSystematic rs reed_solomon)
          (cha_cha_encryptor cipher key) (opener key)
          (cha_cha_encryptor-IsAead cipher opener chacha key) config.delay config.chaos_drop
          config.chaos_burst config.chaos_shuffle burst_u32 config.parity_ratio
          (RendezvousSecs.new config.rendezvous_secs) id o o frame shards
          (SealsShards-SealsAll cipher opener key chacha seals) valid.ratio secs_u32 u16
          (read_input-ok config.input o frame read) f within encoded takes

  -- With a valid configuration in the range of its types, any chaos options, a cipher and a
  -- generator that keep what their crates document, a cipher that seals every shard, an erasure
  -- code that keeps what its crate documents and, at the frame's counts, refuses nothing but what
  -- that crate does, a readable key file of 32 bytes, a readable and writable session file that is
  -- missing or holds a counter below 65535, a socket that is made, a network that takes every
  -- packet, and an input that is not empty, fits in memory and has at most 256 data and parity
  -- shards, or no parity and at most 65535 shards: the run succeeds.
  pub run_succeeds :
      (os : Os G) (key frame : Bytes)
      → os.read_fault config.key_path ≡ none
      → os.files config.key_path ≡ some key
      → length key ≡ 32
      → IsHealthy (Session.new config.key_path) os
      → HasNext (Session.new config.key_path) os
      → os.bind_fault ≡ none
      → os.connect_fault ≡ none
      → (read_input config.input (Session.next (Session.new config.key_path) os).1).0 ≡ ok frame
      → IsFrame frame
      → Encodes rs config frame
      → HasRoom config frame
      → TakesAll os
      → (run cipher rs rng config os).0 ≡ ok tt
  run_succeeds os key frame readable content size healthy has_next bound connected read f crate room
        takes =
      let store = Session.new config.key_path in
      let loaded = key_loaded (record { path = config.key_path }) os key readable content size in
      let (id, given) = next_given store os healthy has_next in
      let o = called cipher rs rng config os in
      let sockets = called_sockets cipher rs rng config os in
      rw (run-of_session cipher rs rng config os key id loaded given) (
        after_session_succeeds key id o frame (next-IsU16 store os id given) (sockets.0 ∙ bound)
          (sockets.1 ∙ connected) read f crate room (next-TakesAll store os takes))
