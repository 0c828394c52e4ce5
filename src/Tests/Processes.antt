-- ===== src/Tests/Processes.antt =====
-- Processes that share the session file of the fixtures, which holds 41.
use fin_amor_s_ideal_udp_fiu.Base.{
  ◌+◌, ◌≡◌, refl, [], ◌∷◌, All, arith, ⊤, true, false, some, Bytes, take, drop, replicate,
}
use fin_amor_s_ideal_udp_fiu.Error.{ok}
use fin_amor_s_ideal_udp_fiu.FilePath.{same_path}
use fin_amor_s_ideal_udp_fiu.Os.{Os}
use fin_amor_s_ideal_udp_fiu.Types.SessionId
use fin_amor_s_ideal_udp_fiu.Session.{SessionIdStore, next, propose, persist, answered}
use fin_amor_s_ideal_udp_fiu.Session.History.{Increasing}
use fin_amor_s_ideal_udp_fiu.Session.Next.{IsHealthy, Holds}
use fin_amor_s_ideal_udp_fiu.Session.Interleaved.{Interleaving-Increasing}
use fin_amor_s_ideal_udp_fiu.Session.Interleaved.Steps.{
  waiting, emptied, half, stored, overwrite, truncate, store as store_bytes, first_byte, holding,
  Interleaving, begin, read, move, give, stop,
}
use fin_amor_s_ideal_udp_fiu.Session.Interleaved.Calls.{persist-Interleaving}
use fin_amor_s_ideal_udp_fiu.Session.Interleaved.Bounds.{
  IsWithin, counter_of, Interleaving-IsWithin,
}
use fin_amor_s_ideal_udp_fiu.Session.Rollback.{next_rollback}
use fin_amor_s_ideal_udp_fiu.Tests.Fixtures.{os, session_path}

abbrev store : SessionIdStore
store = record { path = session_path }

abbrev one_written : Os ⊤
one_written = (persist store 42 os).1

first_read : (propose store os).0 ≡ ok 42
unfolding propose same_path
first_read = refl

second_read : (propose store one_written).0 ≡ ok 43
unfolding propose persist same_path
second_read = refl

-- One process at a time: the first dies after its read, the next two do their calls.
one_at_a_time : Interleaving store 1 false os 3 [] (43 ∷ 42 ∷ []) (persist store 43 one_written).1
unfolding persist
one_at_a_time =
    let died : Interleaving store 1 false os 1 [] [] os =
      stop [] (42, waiting) [] (read 42 begin (omega arith) first_read) in
    let once : Interleaving store 1 false os 2 [] (42 ∷ []) one_written =
      persist-Interleaving store 1 os 2 [] 42 [] [] os (read 42 died (omega arith) first_read) in
    persist-Interleaving store 1 os 3 [] 43 [] (42 ∷ []) one_written
      (read 43 once (omega arith) second_read)

Interleaving-Increasing_example : Increasing (43 ∷ 42 ∷ [])
Interleaving-Increasing_example = Interleaving-Increasing store one_at_a_time

abbrev empty_file : Os ⊤
empty_file = holding store (some []) os

abbrev both_emptied : Os ⊤
both_emptied = holding store (some []) empty_file

abbrev bytes_of_42 : Bytes
bytes_of_42 = 0 ∷ 42 ∷ []

-- Two processes read before either writes, and both have emptied the file before either stores.
two_at_once :
    Interleaving store 2 true os 2 []
      (42 ∷ 42 ∷ [])
      (holding store (some bytes_of_42) (holding store (some bytes_of_42) both_emptied))
unfolding answered same_path overwrite take drop replicate
two_at_once =
    let both = read 42 (read 42 begin (omega arith) first_read) (omega arith) first_read in
    let opened =
      move ((42, emptied) ∷ []) 42 []
        (move [] 42 ((42, waiting) ∷ []) both (truncate (some (0 ∷ 41 ∷ []))))
        (truncate (some [])) in
    let put =
      move ((42, stored) ∷ []) 42 [] (move [] 42 ((42, emptied) ∷ []) opened (store_bytes []))
        (store_bytes bytes_of_42) in
    give [] 42 [] (give [] 42 ((42, stored) ∷ []) put)

Interleaving-IsWithin_example :
    All
      (IsWithin (counter_of (os.files session_path)) (counter_of (os.files session_path) + 2))
      (42 ∷ 42 ∷ [])
Interleaving-IsWithin_example = Interleaving-IsWithin store 2 two_at_once

-- Where bytes may go in one by one, a counter can jump: at 254, two processes read, one of them does
-- its call, and a third reads 255 and empties the file. The other of the first two stores 255 then,
-- and the third overwrites the first byte of it with its own.
abbrev at_254 : Os ⊤
at_254 = (persist store 254 os).1

abbrev after_call : Os ⊤
after_call = holding store (some (0 ∷ 255 ∷ [])) (holding store (some []) at_254)

abbrev mixed : Os ⊤
mixed = holding store (some (1 ∷ 255 ∷ [])) (
    holding store (some (0 ∷ 255 ∷ []))
      (holding store (some []) (holding store (some []) after_call)))

mixed_bytes :
    Interleaving store 2 false at_254 3 ((256, half) ∷ (255, stored) ∷ []) (255 ∷ []) mixed
    × ((propose store mixed).0 ≡ ok 512)
unfolding answered persist propose same_path overwrite take drop replicate
mixed_bytes =
    let both : Interleaving store 2 false at_254 2 ((255, waiting) ∷ (255, waiting) ∷ []) []
        at_254 =
      read 255 (read 255 begin (omega arith) refl) (omega arith) refl in
    let called : Interleaving store 2 false at_254 2 ((255, waiting) ∷ []) (255 ∷ []) after_call =
      give [] 255 ((255, waiting) ∷ []) (
        move [] 255 ((255, waiting) ∷ [])
          (move [] 255 ((255, waiting) ∷ []) both (truncate (some (0 ∷ 254 ∷ []))))
          (store_bytes [])) in
    let emptied_both : Interleaving store 2 false at_254 3 ((256, emptied) ∷ (255, emptied) ∷ [])
        (255 ∷ []) (holding store (some []) (holding store (some []) after_call)) =
      move ((256, emptied) ∷ []) 255 []
        (move [] 256 ((255, waiting) ∷ []) (read 256 called (omega arith) refl)
          (truncate (some (0 ∷ 255 ∷ []))))
        (truncate (some [])) in
    (
      move [] 256 ((255, stored) ∷ [])
          (move ((256, emptied) ∷ []) 255 [] emptied_both (store_bytes []))
          (first_byte (0 ∷ 255 ∷ []) refl),
      refl,
    )

os-IsHealthy : IsHealthy store os
os-IsHealthy = record { readable = refl; writable = refl }

os-Holds : Holds store os 41
unfolding same_path
os-Holds = refl

next_rollback_example :
    let (stale, _) = propose store os in
    let (first, os₁) = next store os in
    let (second, os₂) = next store os₁ in
    let (late, os₃) = persist store 42 os₂ in
    (stale ≡ ok 42)
    × (first ≡ ok (SessionId.new 42))
    × (second ≡ ok (SessionId.new 43))
    × (late ≡ ok (SessionId.new 42))
    × ((next store os₃).0 ≡ ok (SessionId.new 43))
next_rollback_example = next_rollback store os 41 (omega arith) os-IsHealthy os-Holds
