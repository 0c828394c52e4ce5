-- ===== src/Session/Nonces.antt =====
-- src/session.rs with `derive_nonce` of src/crypto.rs: the nonces of the bursts under one session file.
use fin_amor_s_ideal_udp_fiu.Base.{ℕ, ◌<◌, ◌≡◌, ◌≢◌, List, [], ◌∷◌, All, arith, ap, ⊤, u16_mod}
use fin_amor_s_ideal_udp_fiu.Os.{Os}
use fin_amor_s_ideal_udp_fiu.Types.SessionId
use fin_amor_s_ideal_udp_fiu.Types.ShardIndex
use fin_amor_s_ideal_udp_fiu.Types.ShardIndex.{ShardIndex}
use fin_amor_s_ideal_udp_fiu.Crypto.Nonce.{derive_nonce, derive_nonce-injective}
use fin_amor_s_ideal_udp_fiu.Session.{SessionIdStore}
use fin_amor_s_ideal_udp_fiu.Session.History.{History, Increasing, History-Increasing}

-- The nonces of two sessions, at whatever shards.
abbrev pub NoSharedNonce : ℕ → ℕ → Type 0
NoSharedNonce id earlier =
    (i j : ShardIndex)
    → ShardIndex.IsU16 i
    → ShardIndex.IsU16 j
    → derive_nonce (SessionId.new id) i ≢ derive_nonce (SessionId.new earlier) j

-- Every pair of identifiers, at whatever shards.
abbrev pub FreshNonces : List ℕ → Type 0
FreshNonces [] = ⊤
FreshNonces (id ∷ earlier) = All (NoSharedNonce id) earlier × FreshNonces earlier

NoSharedNonce-below : (id earlier : ℕ) → id < u16_mod → earlier < id → NoSharedNonce id earlier
NoSharedNonce-below id earlier u below i j hi hj same =
    let (ids, _) =
      derive_nonce-injective (SessionId.new id) (SessionId.new earlier) i j u (omega arith) hi hj
        same in
    let equal : id ≡ earlier = ap SessionId.as_u16 ids in absurd (omega arith)

NoSharedNonce-all :
    (id : ℕ) (ids : List ℕ) → id < u16_mod → All (λ j. j < id) ids → All (NoSharedNonce id) ids
NoSharedNonce-all id [] u below = tt
NoSharedNonce-all id (earlier ∷ ids) u (first, rest) =
    (NoSharedNonce-below id earlier u first, NoSharedNonce-all id ids u rest)

FreshNonces-Increasing : (ids : List ℕ) → Increasing ids → FreshNonces ids
FreshNonces-Increasing [] h = tt
FreshNonces-Increasing (id ∷ ids) h =
    (NoSharedNonce-all id ids h.0 h.1, FreshNonces-Increasing ids h.2)

-- Over any life of a session file that nothing but `next` changes, no two calls of `next` gave out
-- identifiers whose nonces agree at any two shard indices within `u16`.
pub History-FreshNonces :
    {G : Type 0} (s : SessionIdStore) {start os : Os G} {ids : List ℕ}
    → History s start ids os
    → FreshNonces ids
History-FreshNonces s {ids = ids} h = FreshNonces-Increasing ids (History-Increasing s h)
