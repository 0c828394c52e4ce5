-- ===== src/Tests/Fixtures.antt =====
-- The concrete world of the tests: a key, a frame, files, a generator, and simple stand-ins for the
-- cipher and the erasure code that keep what the crates document.
use mathlib.Core.List.Perm
use fin_amor_s_ideal_udp_fiu.Base
use fin_amor_s_ideal_udp_fiu.Slice.{copy_from_slice}
use fin_amor_s_ideal_udp_fiu.Base.{
  ℕ, ◌+◌, ◌≤◌, ◌<◌, ◌≡◌, refl, Bytes, List, [], ◌∷◌, arith, replicate, Option, none, some, ltb,
  lt→ltb, false, if◌then◌else◌, ⊤, length, length-replicate,
}
use fin_amor_s_ideal_udp_fiu.Error.{ok, done}
use fin_amor_s_ideal_udp_fiu.FilePath.{FilePath, same_path}
use fin_amor_s_ideal_udp_fiu.Os.{Os, Target, written}
use fin_amor_s_ideal_udp_fiu.Types.SessionId
use fin_amor_s_ideal_udp_fiu.Types.SessionId.{SessionId}
use fin_amor_s_ideal_udp_fiu.Types.RendezvousSecs
use fin_amor_s_ideal_udp_fiu.Types.RendezvousSecs.{RendezvousSecs}
use fin_amor_s_ideal_udp_fiu.Config.ParityRatio.{ParityRatio}
use fin_amor_s_ideal_udp_fiu.Config.Types.{Config, IsValid, file}
use fin_amor_s_ideal_udp_fiu.Protocol.Layout.{packet_size}
use fin_amor_s_ideal_udp_fiu.Crypto.{
  ChaCha20Poly1305, Opener, sealed, Encryptor, IsAead, cha_cha_encryptor,
}
use fin_amor_s_ideal_udp_fiu.Crypto.Cipher.{IsChaCha, cha_cha_encryptor-IsAead}
use fin_amor_s_ideal_udp_fiu.Fec.{
  FecEngine, IsSystematic, reed_solomon_engine, ReedSolomon, good, bad,
}
use fin_amor_s_ideal_udp_fiu.Fec.Engine.{IsReedSolomon, reed_solomon_engine-IsSystematic}
use fin_amor_s_ideal_udp_fiu.Sender.Transport.{Rng, os_runtime, InputReader}
use fin_amor_s_ideal_udp_fiu.Session
use fin_amor_s_ideal_udp_fiu.Run.{read_input}
use fin_amor_s_ideal_udp_fiu.Sender.Outcome.{SealsAll}
use fin_amor_s_ideal_udp_fiu.Sender.Chaos.{IsRandom}
use fin_amor_s_ideal_udp_fiu.Sender.Shards.Split.{IsFrame}

abbrev pub key_path : FilePath
key_path = record { parent = "/etc/fiudp/"; file_name = "cell.key" }

abbrev pub session_path : FilePath
session_path = record { parent = "/etc/fiudp/"; file_name = "cell.session_id" }

abbrev pub image_path : FilePath
image_path = record { parent = "/tmp/"; file_name = "frame.bin" }

abbrev pub key : Bytes
key = replicate 32 7

abbrev pub frame : Bytes
frame = 1 ∷ 2 ∷ 3 ∷ []

pub frame-IsFrame : IsFrame frame
frame-IsFrame = record { fits = omega arith; nonempty = omega arith }

-- The counter of the session file stands at 41.
abbrev pub files : FilePath → Option Bytes
files p =
    if same_path p key_path
    then some key
    else if same_path p session_path
    then some (0 ∷ 41 ∷ [])
    else if same_path p image_path
    then some frame
    else none

abbrev pub os : Os ⊤
os = record {
  files = files;
  read_fault = λ p. none;
  write_outcome = λ p. written;
  stdin = done [];
  bind_fault = none;
  connect_fault = none;
  send_answer = λ n. done packet_size;
  sends = 0;
  events = [];
  rng = tt;
}

abbrev pub rng : Rng ⊤
rng = record {
  gen_range_inclusive = λ lo hi g. (lo, g);
  gen_range = λ lo hi g. (lo, g);
  shuffle = λ packets g. (packets, g);
}

pub rng-IsRandom : IsRandom (os_runtime rng)
rng-IsRandom = record {
  in_range_inclusive = λ lo hi w h. (omega arith, h);
  in_range = λ lo hi w h. (omega arith, h);
  permutes = λ packets w. Perm.refl packets;
}

abbrev pub cipher : ChaCha20Poly1305
cipher k nonce aad buffer = sealed buffer (replicate 16 9)

abbrev pub opener : Bytes → Opener
opener k nonce aad tag buffer = some buffer

pub cipher-IsChaCha : IsChaCha cipher opener
cipher-IsChaCha = record {
  keeps_length = λ k nonce aad buffer out tag h. ground arith;
  length_tag = λ k nonce aad buffer out tag h. ground (arith, length-replicate {A = ℕ} 16 9);
  opens = λ k nonce aad buffer out tag h. ground arith;
}

abbrev pub codec : ReedSolomon ⊤
codec = record {
  new = λ d p. if ltb 256 (d + p) then bad "TooManyShards" else good tt;
  encode = λ c shards. good shards;
}

pub codec-IsReedSolomon : IsReedSolomon codec
codec-IsReedSolomon = record {
  keeps_data = λ d p c shards {out} e h n. ground arith;
  keeps_count = λ c shards {out} h. ground arith;
  keeps_size = λ size c shards {out} h a. ground arith;
  at_most_256 = λ d p h. ("TooManyShards", rw (lt→ltb 256 (d + p) h));
}

abbrev pub target : Target
target = record { ip = (192, 168, 1, 7); port = 5050 }

abbrev pub session_id : SessionId
session_id = SessionId.new 42

abbrev pub secs : RendezvousSecs
secs = RendezvousSecs.new 3600

abbrev pub ratio : ParityRatio
ratio = record { value = 15 }

abbrev pub config : Config
config = record {
  target_ip = (192, 168, 1, 7);
  rendezvous_secs = 3600;
  key_path = key_path;
  input = file image_path;
  parity_ratio = ratio;
  target_port = 5050;
  delay = 500;
  chaos_drop = 0;
  chaos_burst = 0;
  chaos_shuffle = false;
}

abbrev pub engine : FecEngine
engine = reed_solomon_engine codec

pub engine-IsSystematic : IsSystematic engine
engine-IsSystematic = reed_solomon_engine-IsSystematic codec codec-IsReedSolomon

abbrev pub encryptor : Encryptor
encryptor = cha_cha_encryptor cipher key

pub encryptor-IsAead : IsAead encryptor (opener key)
encryptor-IsAead = cha_cha_encryptor-IsAead cipher opener cipher-IsChaCha key

pub encryptor-SealsAll : SealsAll encryptor
unfolding cha_cha_encryptor copy_from_slice replicate Base.take Base.drop
encryptor-SealsAll nonce aad shard h = ((shard, replicate 16 9), refl)

abbrev pub reader : InputReader (Os ⊤)
reader = record { read_all = λ w. (ok frame, w) }

pub config-IsValid : IsValid config
config-IsValid = record { ratio = omega arith; loss = omega arith }

-- What a run reads, after its session call.
pub frame_read :
    (read_input config.input (Session.next (Session.new config.key_path) os).1).0 ≡ ok frame
unfolding read_input Session.next Session.new same_path
frame_read = refl
