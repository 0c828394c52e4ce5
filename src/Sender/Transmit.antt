-- ===== src/Sender/Transmit.antt =====
-- src/sender.rs: what the sending loop puts on the wire, over the UDP sender.
use fin_amor_s_ideal_udp_fiu.Base.{
  ℕ, String, ◌≢◌, ◌≡◌, ◌⊎◌, refl, ap, ◌∙◌, sym, inl, inr, Bool-cases, Bytes, List, [], ◌∷◌, ◌++◌,
  append-nil, append_assoc, arith, length, take, take-of_length, ⊤, ◌==◌, ==_iff,
}
use fin_amor_s_ideal_udp_fiu.Error.{
  Result, ok, err, map_err, io, FiudpError, ◌>>=◌ as ◌>>=?◌, IoResult, done, failed,
}
use fin_amor_s_ideal_udp_fiu.Io.{Io, resume}
use fin_amor_s_ideal_udp_fiu.Os.{Os, Event, datagram, pause, Target}
use fin_amor_s_ideal_udp_fiu.Sender.{transmit}
use fin_amor_s_ideal_udp_fiu.Sender.Transport.{
  Rng, os_runtime, udp_send, udp_packet_sender, check_sent, emitted,
}

-- The packets with the delay between them.
abbrev pub schedule : Target → ℕ → List Bytes → List Event
schedule target delay [] = []
schedule target delay (packet ∷ []) = datagram target packet ∷ []
schedule target delay (packet ∷ next ∷ packets) =
    datagram target packet ∷ pause delay ∷ schedule target delay (next ∷ packets)

-- What a failed send leaves of its packet on the wire: nothing, or a part.
abbrev pub IsCut : Target → Bytes → List Event → Type 0
IsCut target packet tail =
    (tail ≡ []) ⊎ ((n : ℕ) × (n ≢ length packet) × (tail ≡ datagram target (take n packet) ∷ []))

-- The send of one packet, on each way to end: whole, or with an error.
data Sent (target : Target) (packet : Bytes) (before after : List Event) : Result ⊤ → Type 0 where
  whole : after ≡ before ++ (datagram target packet ∷ []) → Sent target packet before after (ok tt)
  cut :
      {e : FiudpError} (tail : List Event)
      → IsCut target packet tail
      → after ≡ before ++ tail
      → Sent target packet before after (err e)

-- The loop, on each way to end: the whole schedule, or the schedule up to a packet whose send
-- failed. There is no third way.
pub data Transmitted (target : Target) (delay : ℕ) (packets : List Bytes)
    (before after : List Event) : Result ⊤ → Type 0 where
  complete :
      after ≡ before ++ schedule target delay packets
      → Transmitted target delay packets before after (ok tt)
  stopped :
      {e : FiudpError} (sent rest tail : List Event) (packet : Bytes)
      → schedule target delay packets ≡ sent ++ (datagram target packet ∷ rest)
      → IsCut target packet tail
      → after ≡ before ++ (sent ++ tail)
      → Transmitted target delay packets before after (err e)

regroup :
    (before : List Event) {middle : List Event} (a b : Event)
    → middle ≡ before ++ (a ∷ [])
    → (more : List Event) → (middle ++ (b ∷ [])) ++ more ≡ before ++ (a ∷ b ∷ more)
regroup before a b m more = rw m (simp append_assoc)

module _ (target : Target) where
  Sent-done :
      (packet : Bytes) (n : ℕ) (before : List Event)
      → Sent target packet before
          (before ++ (datagram target (take n packet) ∷ []))
          (check_sent n (length packet))
  Sent-done packet n before = elim (Bool-cases (n == length packet)) [
    | inl all ↦
        let same : n ≡ length packet = (==_iff n (length packet)).0 all in
        rw (all, take-of_length n packet (omega arith)) (whole refl)
    | inr short ↦
        rw short (cut (datagram target (take n packet) ∷ []) (inr (n, ground arith, refl)) refl)
  ]

  Sent-answer :
      (context : String) (packet : Bytes) (answer : IoResult ℕ) (before : List Event)
      → Sent target packet before
          (emitted target packet answer before)
          (map_err (λ e. io context e) answer >>=? λ sent. check_sent sent (length packet))
  Sent-answer context packet (done n) before = Sent-done packet n before
  Sent-answer context packet (failed e) before = cut [] (inl refl) (sym (append-nil before))

  -- One packet is the whole burst.
  Transmitted-one :
      (delay : ℕ) (packet : Bytes) {before after : List Event} {r : Result ⊤}
      → Sent target packet before after r
      → Transmitted target delay (packet ∷ []) before after r
  Transmitted-one delay packet (whole e) = complete e
  Transmitted-one delay packet (cut tail c e) = stopped [] [] tail packet refl c e

  -- The packets that follow the first, and its pause.
  Transmitted-cons :
      (delay : ℕ) (first next : Bytes) (packets : List Bytes) {before middle after : List Event}
      {r : Result ⊤}
      → middle ≡ before ++ (datagram target first ∷ [])
      → Transmitted target delay (next ∷ packets) (middle ++ (pause delay ∷ [])) after r
      → Transmitted target delay (first ∷ next ∷ packets) before after r
  Transmitted-cons delay first next packets {before} m (complete e) = complete (
      e
      ∙ regroup before (datagram target first) (pause delay) m
          (schedule target delay (next ∷ packets)))
  Transmitted-cons delay first next packets {before} m (stopped sent rest tail packet s c e) =
      stopped (datagram target first ∷ pause delay ∷ sent) rest tail packet
        (ap (λ events. datagram target first ∷ pause delay ∷ events) s) c
        (e ∙ regroup before (datagram target first) (pause delay) m (sent ++ tail))

module _ {G : Type 0} (target : Target) (rng : Rng G) (delay : ℕ) where
  udp_send-Sent :
      (packet : Bytes) (os : Os G)
      → Sent target packet os.events
          (udp_send target packet os).1.events
          (udp_send target packet os).0
  unfolding udp_send
  udp_send-Sent packet os = Sent-answer target _ packet (os.send_answer os.sends) os.events

  abbrev loop : List Bytes → Io (Os G) ⊤
  loop packets = transmit (os_runtime rng) (udp_packet_sender target) delay packets

  abbrev Runs : List Bytes → Type 0
  Runs packets =
      (os : Os G)
      → Transmitted target delay packets os.events (loop packets os).1.events (loop packets os).0

  transmit_more :
      (first next : Bytes) (packets : List Bytes) (before : List Event) (os : Os G) {r : Result ⊤}
      → Runs (next ∷ packets)
      → Sent target first before os.events r
      → let (r', os') =
          resume r
            (λ _ w. loop (next ∷ packets) (record w { events = w.events ++ (pause delay ∷ []) }))
            os in
        Transmitted target delay (first ∷ next ∷ packets) before os'.events r'
  transmit_more first next packets before os run (whole e) =
      Transmitted-cons target delay first next packets e (run _)
  transmit_more first next packets before os run (cut tail c e) = stopped [] _ tail first refl c e

  -- Whatever the network answers, the sending loop ends: with success after the whole schedule of
  -- packets and pauses, or with an error after the schedule up to the packet whose send failed and
  -- at most a part of that packet.
  pub transmit-Transmitted :
      (packets : List Bytes) (os : Os G)
      → let (r, os') = transmit (os_runtime rng) (udp_packet_sender target) delay packets os in
        Transmitted target delay packets os.events os'.events r
  unfolding transmit
  transmit-Transmitted [] os = complete (sym (append-nil os.events))
  transmit-Transmitted (packet ∷ []) os =
      Transmitted-one target delay packet (udp_send-Sent packet os)
  transmit-Transmitted (packet ∷ next ∷ packets) os =
      transmit_more packet next packets os.events (udp_send target packet os).1
        (λ os'. transmit-Transmitted (next ∷ packets) os') (udp_send-Sent packet os)

pub Transmitted-ok :
    {target : Target} {delay : ℕ} {packets : List Bytes} {before after : List Event} {r : Result ⊤}
    → Transmitted target delay packets before after r
    → r ≡ ok tt
    → after ≡ before ++ schedule target delay packets
Transmitted-ok (complete e) h = e
Transmitted-ok (stopped sent rest tail packet s c e) h = absurd (ground arith)
