-- ===== src/Run/Replay.antt =====
-- src/lib.rs: a run after other runs under the same key, towards a receiver that gets packets of all of
-- them, replayed ones among them.
use mathlib.Core.List.{Nodup, append_cancel_left, mem-map}
use fin_amor_s_ideal_udp_fiu.Base.{
  ℕ, ◌≤◌, ◌<◌, ◌≡◌, ◌⊎◌, inl, inr, refl, sym, subst, ◌∙◌, Option, none, some, true, Bytes, List, [],
  ◌++◌, Mem, arith, length, replicate, u32_mod, ==_iff, lt→ltb,
}
use fin_amor_s_ideal_udp_fiu.Error.{ok}
use fin_amor_s_ideal_udp_fiu.Os.{Os, Target, Event}
use fin_amor_s_ideal_udp_fiu.FilePath.{FilePath}
use fin_amor_s_ideal_udp_fiu.Types.SessionId.{SessionId}
use fin_amor_s_ideal_udp_fiu.Types.RendezvousSecs.{RendezvousSecs}
use fin_amor_s_ideal_udp_fiu.Protocol.Padding.Laws.{padding}
use fin_amor_s_ideal_udp_fiu.Config.Types.{Config, IsValid}
use fin_amor_s_ideal_udp_fiu.Crypto.{ChaCha20Poly1305, Opener}
use fin_amor_s_ideal_udp_fiu.Crypto.Cipher.{IsChaCha}
use fin_amor_s_ideal_udp_fiu.Fec.{FecEngine, ReedSolomon, reed_solomon_engine}
use fin_amor_s_ideal_udp_fiu.Fec.Engine.{IsReedSolomon}
use fin_amor_s_ideal_udp_fiu.Receiver.{receive}
use fin_amor_s_ideal_udp_fiu.Receiver.Reassembly.{Decoder, IsDecoder}
use fin_amor_s_ideal_udp_fiu.Receiver.Replay.{
  session_of, is_fresh, is_of, keep, group, mem-keep, mem_of_keep, receive_frame,
}
use fin_amor_s_ideal_udp_fiu.Session
use fin_amor_s_ideal_udp_fiu.Session.History.{Covers, IsAbove, next-IsAbove}
use fin_amor_s_ideal_udp_fiu.Sender.{session_builder}
use fin_amor_s_ideal_udp_fiu.Sender.Shards.Split.{IsFrame, data_count}
use fin_amor_s_ideal_udp_fiu.Sender.Chaos.{IsRandom}
use fin_amor_s_ideal_udp_fiu.Sender.Transmit.{schedule}
use fin_amor_s_ideal_udp_fiu.Sender.Transport.{Rng, os_runtime}
use fin_amor_s_ideal_udp_fiu.Sender.Burst.{IsDelivered}
use fin_amor_s_ideal_udp_fiu.Sender.Heads.{head_of, heads, sent-IsOneSession}
use fin_amor_s_ideal_udp_fiu.Run.{read_input, run}
use fin_amor_s_ideal_udp_fiu.Run.Delivery.{target_of, least_sent, run-HasDelivered}
use fin_amor_s_ideal_udp_fiu.Run.Nonces.{Runs, Runs-Accounts, lt_of_mem}
use fin_amor_s_ideal_udp_fiu.Run.Recovery.{schedule-injective, run_recovers}

-- What a burst that succeeded has sent is of its session.
IsDelivered-session :
    (engine : FecEngine) (opener : Opener) (secs : RendezvousSecs) (id : SessionId) (frame : Bytes)
    (least : ℕ) (target : Target) (delay : ℕ) (before after : List Event)
    (h : IsDelivered engine opener secs id frame least target delay before after) (x : Bytes)
    → Mem x h.sent
    → session_of x ≡ id.value
IsDelivered-session engine opener secs id frame least target delay before after h x m =
    (sent-IsOneSession engine opener (session_builder id secs h.data_shards h.parity_shards) frame
        h.packets h.kept h.sent h.burst h.lost h.reordered).1
      (head_of x) (mem-map.1 ∣ (x, m, refl) ∣₁)

-- The receiver's highest session was on the wire.
abbrev pub WasSeen : Option ℕ → List Event → Type 0
WasSeen highest events =
    (h : ℕ) → highest ≡ some h → (i : ℕ) × Mem {A = ℕ × ℕ} (h, i) (heads events)

-- A packet of a session above all on the wire passes both tests.
is_fresh-above :
    (highest : Option ℕ) (events : List Event) (id : ℕ) (x : Bytes)
    → WasSeen highest events
    → ((h : ℕ × ℕ) → Mem h (heads events) → h.0 < id)
    → session_of x ≡ id
    → is_fresh highest x ≡ true
is_fresh-above none events id x seen above same = refl
is_fresh-above (some highest) events id x seen above same =
    let (i, m) = seen highest refl in
    lt→ltb highest (session_of x) (omega (arith, above (highest, i) m))

-- Packets of one session above all on the wire, among replayed ones and noise.
module _ (opener : Opener) (highest : Option ℕ) (events : List Event) (id : ℕ)
    (sent arrivals : List Bytes) (above : (h : ℕ × ℕ) → Mem h (heads events) → h.0 < id) where
  -- No replayed one is left.
  group-genuine :
      ((x : Bytes)
        → Mem x arrivals
        → Mem x sent ⊎ (Mem (head_of x) (heads events) ⊎ (receive opener x ≡ none)))
      → (x : Bytes) → Mem x (group highest id arrivals)
      → Mem x sent ⊎ (receive opener x ≡ none)
  group-genuine genuine x m =
      let (fresh, own) = mem_of_keep (is_of id) (keep (is_fresh highest) arrivals) x m in
      elim (genuine x (mem_of_keep (is_fresh highest) arrivals x fresh).0) [
        | inl from_wire ↦ inl from_wire
        | inr (inl replayed) ↦
            absurd (omega (arith, above (head_of x) replayed, (==_iff (session_of x) id).0 own))
        | inr (inr noise) ↦ inr noise
      ]

  -- And none of the session is lost.
  group-kept :
      (heard : List Bytes)
      → WasSeen highest events
      → ((x : Bytes) → Mem x sent → session_of x ≡ id)
      → ((x : Bytes) → Mem x heard → Mem x arrivals × Mem x sent)
      → (x : Bytes) → Mem x heard
      → Mem x (group highest id arrivals) × Mem x sent
  group-kept heard seen of_run arrived x m =
      let (there, from_wire) = arrived x m in
      let own = of_run x from_wire in
      let fresh = is_fresh-above highest events id x seen above own in
      (
        mem-keep (is_of id) (keep (is_fresh highest) arrivals) x
            (mem-keep (is_fresh highest) arrivals x there fresh) ((==_iff (session_of x) id).1 own),
        from_wire,
      )

module _ {G Codec : Type 0} (cipher : ChaCha20Poly1305) (opener : Bytes → Opener)
    (chacha : IsChaCha cipher opener) (rs : ReedSolomon Codec) (reed_solomon : IsReedSolomon rs)
    (rng : Rng G) (random : IsRandom (os_runtime rng)) (key_path : FilePath) where
  -- The identifier of the next run is above all that the wire shows.
  next_above_wire :
      {start os : Os G} (own : FilePath) (id : SessionId) (h : ℕ × ℕ)
      → Runs cipher opener chacha rs reed_solomon rng random key_path start os
      → heads start.events ≡ []
      → own ≡ key_path
      → (Session.next (Session.new own) os).0 ≡ ok id
      → Mem h (heads os.events)
      → h.0 < id.value
  next_above_wire {os = os} own id h runs quiet same given m =
      let a = Runs-Accounts cipher opener chacha rs reed_solomon rng random key_path runs quiet in
      let covered =
        subst (λ p. Covers (os.files (Session.new p).path) a.ids) (sym same) a.covered in
      let above : IsAbove (ok id) a.ids =
        subst (λ r. IsAbove r a.ids) given (next-IsAbove (Session.new own) a.ids os covered).0 in
      lt_of_mem id.value a.ids h.0 above.1 (a.accounted.known h m)

  module _ (decode : Decoder) (law : IsDecoder (reed_solomon_engine rs) decode) (config : Config)
      (valid : IsValid config) (secs_u32 : config.rendezvous_secs < u32_mod)
      (burst_u32 : config.chaos_burst < u32_mod) where
    -- Take a run after any number of runs that share its key file, each with a valid configuration
    -- in the range of its types and an input that fits in memory, between which anything but the
    -- session file and the wire may change, on a wire that had no datagram of four bytes or more at
    -- the start; and let it succeed, with such a configuration, on a frame that is not empty and
    -- fits in memory, over a cipher, an erasure code and a generator that keep what their crates
    -- document and a decoder that completes any code word from as many of its slices as it has data
    -- slices. Then a receiver with the key of the key file that discards the sessions not above the
    -- highest one it has processed, if any, which was on the wire before the run, and groups the
    -- rest by session, puts together the frame and its padding zeros under the identifier that the
    -- session file gave the run, from any datagrams that arrived in any order, with repeats, if
    -- each of them is one that the run sent, or shows a session and a shard index that were on the
    -- wire before the run, or does not open under that key, and at least as many different ones of
    -- the run's arrived as the frame has data slices.
    pub run_recovers_replayed :
        {start os : Os G} (frame key : Bytes) (sent arrivals heard : List Bytes)
        (highest : Option ℕ)
        → Runs cipher opener chacha rs reed_solomon rng random key_path start os
        → heads start.events ≡ []
        → config.key_path ≡ key_path
        → (read_input config.input (Session.next (Session.new config.key_path) os).1).0 ≡ ok frame
        → IsFrame frame
        → (run cipher rs rng config os).0 ≡ ok tt
        → os.files config.key_path ≡ some key
        → (run cipher rs rng config os).1.events
          ≡ os.events ++ schedule (target_of config) config.delay sent
        → WasSeen highest os.events
        → ((x : Bytes)
            → Mem x arrivals
            → Mem x sent ⊎ (Mem (head_of x) (heads os.events) ⊎ (receive (opener key) x ≡ none)))
        → Nodup heard
        → ((x : Bytes) → Mem x heard → Mem x arrivals × Mem x sent)
        → data_count frame ≤ length heard
        → (id : SessionId) × ((Session.next (Session.new config.key_path) os).0 ≡ ok id)
          × (receive_frame highest id.value (opener key) decode arrivals
              ≡ some (frame ++ replicate (padding frame) 0))
    unfolding receive_frame
    run_recovers_replayed {os = os} frame key sent arrivals heard highest runs quiet same_key read f
          success key_file wire seen genuine distinct arrived enough =
        let h =
          run-HasDelivered cipher opener chacha rs reed_solomon rng random config valid secs_u32
            burst_u32 os frame read f success in
        let same_sent : sent ≡ h.delivered.sent =
          schedule-injective (target_of config) config.delay sent h.delivered.sent
            (append_cancel_left os.events _ _ (sym wire ∙ h.delivered.wire)) in
        let above : (q : ℕ × ℕ) → Mem q (heads os.events) → q.0 < h.id.value =
          λ q m. next_above_wire config.key_path h.id q runs quiet same_key h.session_call m in
        let of_run : (x : Bytes) → Mem x sent → session_of x ≡ h.id.value = λ x m.
          IsDelivered-session (reed_solomon_engine rs) (opener h.key) _ h.id frame
            (least_sent config frame) (target_of config) config.delay os.events _ h.delivered x
            (subst (λ l. Mem x l) same_sent m) in
        let genuine' =
          group-genuine (opener key) highest os.events h.id.value sent arrivals above genuine in
        let arrived' =
          group-kept (opener key) highest os.events h.id.value sent arrivals above heard seen of_run
            arrived in
        (
          h.id,
          h.session_call,
          run_recovers cipher opener chacha rs reed_solomon decode law rng random config valid
              secs_u32 burst_u32 os frame key sent (group highest h.id.value arrivals) heard read f
              success key_file wire genuine' distinct arrived' enough,
        )
