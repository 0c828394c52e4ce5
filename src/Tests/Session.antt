-- ===== src/Tests/Session.antt =====
-- The session counter, on a file that holds 41.
use fin_amor_s_ideal_udp_fiu.Base.{
  ℕ, ◌+◌, ◌<◌, ◌≡◌, ◌⊎◌, refl, [], ◌∷◌, arith, some, ⊤, u16_mod, u16_to_be_bytes,
}
use fin_amor_s_ideal_udp_fiu.Error.{ok, err, session_id_overflow}
use fin_amor_s_ideal_udp_fiu.FilePath.{same_path}
use fin_amor_s_ideal_udp_fiu.Os.{Os}
use fin_amor_s_ideal_udp_fiu.Types.SessionId
use fin_amor_s_ideal_udp_fiu.Session.{SessionIdStore, next}
use fin_amor_s_ideal_udp_fiu.Session.History.{History, begin, call, Increasing, History-Increasing}
use fin_amor_s_ideal_udp_fiu.Session.Nonces.{FreshNonces, History-FreshNonces}
use fin_amor_s_ideal_udp_fiu.Session.Next.{IsHealthy, next_successor}
use fin_amor_s_ideal_udp_fiu.Tests.Fixtures.{os, session_path}

abbrev store : SessionIdStore
store = record { path = session_path }

os-IsHealthy : IsHealthy store os
os-IsHealthy = record { readable = refl; writable = refl }

abbrev counter : ℕ
counter = 41

session_file : os.files session_path ≡ some (u16_to_be_bytes counter)
unfolding same_path
session_file = refl

next_successor_example :
    ((counter + 1 < u16_mod)
      × ((next store os).0 ≡ ok (SessionId.new (counter + 1)))
      × ((next store os).1.files session_path ≡ some (u16_to_be_bytes (counter + 1))))
    ⊎ ((counter ≡ 65535) × (next store os ≡ (err session_id_overflow, os)))
next_successor_example = next_successor store os counter (omega arith) os-IsHealthy session_file

-- Two calls in a row.
abbrev after_one : Os ⊤
after_one = (next store os).1

two_calls : History store os (43 ∷ 42 ∷ []) (next store after_one).1
unfolding next same_path
two_calls = call (call begin)

History-Increasing_example : Increasing (43 ∷ 42 ∷ [])
History-Increasing_example = History-Increasing store two_calls

History-FreshNonces_example : FreshNonces (43 ∷ 42 ∷ [])
History-FreshNonces_example = History-FreshNonces store two_calls
