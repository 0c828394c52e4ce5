-- ===== src/Run/Nonces.antt =====
-- src/lib.rs over many runs: the heads on the wire of all runs that share a session file. A head, a
-- session identifier and a shard index, fixes the nonce of its packet.
use mathlib.Core.List.{
  Nodup, Nodup-append, Nodup-nil, mem-append, mem-cons, mem-cons_of_mem, not-mem-nil,
}
use mathlib.Core.List.{Mem-prop}
use mathlib.Core.Logic.Or
use native.Mathlib.Bridge.{le_prop}
use fin_amor_s_ideal_udp_fiu.Base.{
  ℕ, ◌<◌, ◌≡◌, sym, subst, ap, ◌∙◌, inl, inr, Bytes, List, [], ◌∷◌, ◌++◌, Mem, All, arith, u32_mod,
}
use fin_amor_s_ideal_udp_fiu.Error.{Result, ok, err, panic}
use fin_amor_s_ideal_udp_fiu.Os.{Os, Event}
use fin_amor_s_ideal_udp_fiu.FilePath.{FilePath}
use fin_amor_s_ideal_udp_fiu.Types.SessionId.{SessionId}
use fin_amor_s_ideal_udp_fiu.Config.Types.{Config, IsValid}
use fin_amor_s_ideal_udp_fiu.Crypto.{ChaCha20Poly1305, Opener}
use fin_amor_s_ideal_udp_fiu.Crypto.Cipher.{IsChaCha}
use fin_amor_s_ideal_udp_fiu.Fec.{ReedSolomon}
use fin_amor_s_ideal_udp_fiu.Fec.Engine.{IsReedSolomon}
use fin_amor_s_ideal_udp_fiu.Session
use fin_amor_s_ideal_udp_fiu.Session.History.{
  Covers, Covers-nil, Increasing, Increasing-issue, IsAbove, issue, next-IsAbove,
}
use fin_amor_s_ideal_udp_fiu.Sender.Chaos.{IsRandom}
use fin_amor_s_ideal_udp_fiu.Sender.Transport.{Rng, os_runtime}
use fin_amor_s_ideal_udp_fiu.Sender.Heads.{heads, heads-append}
use fin_amor_s_ideal_udp_fiu.Run.{run}
use fin_amor_s_ideal_udp_fiu.Run.Heads.{Adds, Fits, run_steps}

pub lt_of_mem : (n : ℕ) (ids : List ℕ) (j : ℕ) → All (λ i. i < n) ids → Mem j ids → j < n
lt_of_mem n [] j below m = absurd (not-mem-nil m)
lt_of_mem n (i ∷ ids) j below m =
    Or.elim le_prop (mem-cons.0 m) (λ e. rw e below.0) (lt_of_mem n ids j below.1)

-- The heads on the wire are those of the sessions given out, once each.
pub record IsAccounted (ids : List ℕ) (events : List Event) : Type 0 where
  pub known : (h : ℕ × ℕ) → Mem h (heads events) → Mem h.0 ids
  pub distinct : Nodup (heads events)

-- A run adds heads of a new session, or none.
IsAccounted-Adds :
    (r : Result SessionId) (ids : List ℕ) (before after : List Event)
    → IsAbove r ids
    → Adds r before after
    → IsAccounted ids before
    → IsAccounted (issue r ids) after
IsAccounted-Adds (err e) ids before after above same a = rw same a
IsAccounted-Adds panic ids before after above same a = rw same a
IsAccounted-Adds (ok id) ids before after above (tail, wire, (fresh, one), parts) a =
    let all : heads after ≡ heads before ++ heads tail = ap heads wire ∙ heads-append before tail in
    record {
      known = λ h m.
          Or.elim Mem-prop (mem-append.0 (subst (λ hs. Mem h hs) all m))
            (λ old. mem-cons_of_mem id.value (a.known h old))
            (λ new. mem-cons.1 (Or.inl (one h new)));
      distinct = subst Nodup (sym all) (
          Nodup-append.1 (
            a.distinct,
            fresh,
            λ h old new.
                omega (arith, lt_of_mem id.value ids h.0 above.1 (a.known h old), one h new),
          ));
    }

module _ {G Codec : Type 0} (cipher : ChaCha20Poly1305) (opener : Bytes → Opener)
    (chacha : IsChaCha cipher opener) (rs : ReedSolomon Codec) (reed_solomon : IsReedSolomon rs)
    (rng : Rng G) (random : IsRandom (os_runtime rng)) (key_path : FilePath) where
  abbrev store : Session.SessionIdStore
  store = Session.new key_path

  -- Any number of runs, each with a configuration of its own but for the key file. Between two runs
  -- anything but the session file and the wire may change.
  pub data Runs (start : Os G) : Os G → Type 0 where
    begin : Runs start start
    environment :
        {os : Os G} (os' : Os G)
        → Runs start os
        → os'.files store.path ≡ os.files store.path
        → os'.events ≡ os.events
        → Runs start os'
    one_run :
        {os : Os G} (config : Config) (valid : IsValid config)
        (secs_u32 : config.rendezvous_secs < u32_mod) (burst_u32 : config.chaos_burst < u32_mod)
        → config.key_path ≡ key_path
        → Fits cipher opener chacha rs reed_solomon rng random config valid secs_u32 burst_u32
            (Session.next (Session.new config.key_path) os).1
        → Runs start os
        → Runs start (run cipher rs rng config os).1

  -- The identifiers given out, that account for the wire.
  pub record Accounts (os : Os G) : Type 0 where
    pub ids : List ℕ
    pub increasing : Increasing ids
    pub covered : Covers (os.files store.path) ids
    pub accounted : IsAccounted ids os.events

  run-Accounts :
      (os : Os G) (config : Config) (valid : IsValid config)
      (secs_u32 : config.rendezvous_secs < u32_mod) (burst_u32 : config.chaos_burst < u32_mod)
      → config.key_path ≡ key_path
      → Fits cipher opener chacha rs reed_solomon rng random config valid secs_u32 burst_u32
          (Session.next (Session.new config.key_path) os).1
      → Accounts os
      → Accounts (run cipher rs rng config os).1
  run-Accounts os config valid secs_u32 burst_u32 same_key fits a =
      elim (run_steps cipher opener chacha rs reed_solomon rng random config valid secs_u32
        burst_u32 os fits) [
          | inl same ↦ subst Accounts (sym same) a
          | inr (files, adds) ↦
              let own = Session.new config.key_path in
              let same_store : own ≡ store = ap Session.new same_key in
              let r = (Session.next own os).0 in
              let (above, covers) =
                next-IsAbove own a.ids os
                  (subst (λ s. Covers (os.files s.path) a.ids) (sym same_store) a.covered) in
              let os' = (run cipher rs rng config os).1 in
              let covers' : Covers (os'.files own.path) (issue r a.ids) =
                subst (λ f. Covers (f own.path) (issue r a.ids)) (sym files) covers in
              record {
                ids = issue r a.ids;
                increasing = Increasing-issue r a.ids above a.increasing;
                covered = subst (λ s. Covers (os'.files s.path) (issue r a.ids)) same_store covers';
                accounted = IsAccounted-Adds r a.ids os.events os'.events above adds a.accounted;
              }
        ]

  pub Runs-Accounts : {start os : Os G} → Runs start os → heads start.events ≡ [] → Accounts os
  Runs-Accounts {start = start} begin quiet = record {
    ids = [];
    increasing = tt;
    covered = Covers-nil (start.files store.path);
    accounted = record {
      known = λ h m. absurd (not-mem-nil (subst (λ hs. Mem h hs) quiet m));
      distinct = subst Nodup (sym quiet) Nodup-nil;
    };
  }
  Runs-Accounts (environment os' runs same_file same_wire) quiet =
      let a = Runs-Accounts runs quiet in
      record {
        ids = a.ids;
        increasing = a.increasing;
        covered = subst (λ file. Covers file a.ids) (sym same_file) a.covered;
        accounted = subst (IsAccounted a.ids) (sym same_wire) a.accounted;
      }
  Runs-Accounts (one_run {os = os} config valid secs_u32 burst_u32 same_key fits runs) quiet =
      run-Accounts os config valid secs_u32 burst_u32 same_key fits (Runs-Accounts runs quiet)

  -- Over any number of runs that share a key file, each with a valid configuration in the range of
  -- its types, an input that fits in memory, a cipher, an erasure code and a generator that keep
  -- what their crates document, and with any result of every read, write and send, while between
  -- the runs anything but the session file and the wire may change, and if the wire had no datagram
  -- of four bytes or more at the start: no pair of a session identifier and a shard index, which
  -- fixes the nonce, is twice on the wire.
  pub Runs-Nodup :
      {start os : Os G} → Runs start os → heads start.events ≡ [] → Nodup (heads os.events)
  Runs-Nodup runs quiet = (Runs-Accounts runs quiet).accounted.distinct
