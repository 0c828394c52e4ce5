-- ===== src/Sender/Transport.antt =====
-- src/sender.rs: the traits of the pipeline's ends, what it takes from `rand` and `thread`, and the
-- production transport over a UDP socket.
use fin_amor_s_ideal_udp_fiu.Base.{
  ℕ, ◌+◌, ◌<>◌, String, Option, none, some, List, [], ◌∷◌, ◌++◌, Bytes, ⊤, decimal, ◌==◌,
  if◌then◌else◌, length, take,
}
use fin_amor_s_ideal_udp_fiu.Error.{
  Result, ok, err, ◌>>=◌ as ◌>>=?◌, IoResult, done, failed, map_err, io, short_send,
}
use fin_amor_s_ideal_udp_fiu.Io.{Io}
use fin_amor_s_ideal_udp_fiu.Os.{Os, Fault, fault_error, Target, Event, datagram, pause}

-- `config::InputReader`
pub record InputReader (W : Type 0) : Type 0 where
  pub read_all : Io W Bytes

pub record PacketSender (W : Type 0) : Type 0 where
  pub send : Bytes → Io W ⊤

-- `thread::sleep`, and of the crate `rand`: `gen_range(lo..=hi)`, `gen_range(lo..hi)` and `shuffle`.
pub record Runtime (W : Type 0) : Type 0 where
  pub sleep : ℕ → W → W
  pub gen_range_inclusive : ℕ → ℕ → W → ℕ × W
  pub gen_range : ℕ → ℕ → W → ℕ × W
  pub shuffle : List Bytes → W → List Bytes × W

-- `SocketAddrV4` in text.
unfoldable pub display_target : Target → String
unfolding decimal
display_target t =
    let (a, b, c, d) = t.ip in
    decimal a <> "." <> decimal b <> "." <> decimal c <> "." <> decimal d <> ":" <> decimal t.port

abbrev pub bind_answer : Option Fault → Result ⊤
bind_answer none = ok tt
bind_answer (some f) = err (io "failed to bind UDP socket" (fault_error f))

abbrev pub connect_answer : Target → Option Fault → Result ⊤
connect_answer target none = ok tt
connect_answer target (some f) =
    err (io ("failed to connect UDP socket to " <> display_target target) (fault_error f))

-- What the kernel puts on the wire: as many bytes as it reports, if the call did not fail.
abbrev pub emitted : Target → Bytes → IoResult ℕ → List Event → List Event
emitted target packet (done n) events = events ++ (datagram target (take n packet) ∷ [])
emitted target packet (failed e) events = events

abbrev pub check_sent : ℕ → ℕ → Result ⊤
check_sent sent expected = if sent == expected then ok tt else err (short_send sent expected)

-- The generator of `rand`, on its own state.
pub record Rng (G : Type 0) : Type 0 where
  pub gen_range_inclusive : ℕ → ℕ → G → ℕ × G
  pub gen_range : ℕ → ℕ → G → ℕ × G
  pub shuffle : List Bytes → G → List Bytes × G

module _ {G : Type 0} where
  -- `UdpPacketSender::new`: the sender is known by its target.
  unfoldable pub new_udp_sender : Target → Io (Os G) Target
  unfolding display_target
  new_udp_sender target os = (
    bind_answer os.bind_fault >>=? λ _. connect_answer target os.connect_fault >>=? λ _. ok target,
    os,
  )

  -- `UdpPacketSender::send`
  unfoldable pub udp_send : Target → Bytes → Io (Os G) ⊤
  unfolding display_target
  udp_send target packet os =
      let answer = os.send_answer os.sends in
      (
        map_err (λ e. io ("failed to send UDP packet to " <> display_target target) e) answer
            >>=? λ sent. check_sent sent (length packet),
        record os { sends = os.sends + 1; events = emitted target packet answer os.events },
      )

  abbrev pub udp_packet_sender : Target → PacketSender (Os G)
  udp_packet_sender target = record { send = udp_send target }

  -- Sleeping is seen as a pause; the generator's state is part of the system's.
  abbrev pub os_runtime : Rng G → Runtime (Os G)
  os_runtime rng = record {
    sleep = λ us os. record os { events = os.events ++ (pause us ∷ []) };
    gen_range_inclusive =
        λ lo hi os. let (n, g) = rng.gen_range_inclusive lo hi os.rng in (n, record os { rng = g });
    gen_range = λ lo hi os. let (n, g) = rng.gen_range lo hi os.rng in (n, record os { rng = g });
    shuffle =
        λ packets os. let (out, g) = rng.shuffle packets os.rng in (out, record os { rng = g });
  }
