-- ===== src/Os.antt =====
-- The operating system as the program meets it: the files, standard input, one UDP socket, sleeping
-- and the state of the random generator. What the system will answer is part of the state, so a
-- theorem over every state is one over every failure.
use fin_amor_s_ideal_udp_fiu.Base.{
  ℕ, String, ◌≡◌, Option, none, some, List, Bytes, ⊤, take, if◌then◌else◌,
}
use fin_amor_s_ideal_udp_fiu.Error.{not_found, other, IoError, IoResult, done, failed}
use fin_amor_s_ideal_udp_fiu.FilePath.{FilePath, same_path, same_path_refl}

-- Any failure but a missing file: a code and a message.
pub record Fault : Type 0 where
  pub code : ℕ
  pub message : String

abbrev pub fault_error : Fault → IoError
fault_error f = record { kind = other f.code; message = f.message }

abbrev pub not_found_error : IoError
not_found_error = record { kind = not_found; message = "No such file or directory (os error 2)" }

-- How a write of a file that has no other writer ends: it may be refused with the file untouched, or
-- stop after some bytes with the file cut to them.
pub data WriteOutcome : Type 0 where
  written : WriteOutcome
  refused : Fault → WriteOutcome
  torn : ℕ → Fault → WriteOutcome

-- An IPv4 address and a port.
pub record Target : Type 0 where
  pub ip : ℕ × ℕ × ℕ × ℕ
  pub port : ℕ

-- What an observer sees: datagrams and pauses in microseconds, oldest first.
pub data Event : Type 0 where
  datagram : Target → Bytes → Event
  pause : ℕ → Event

pub record Os (G : Type 0) : Type 0 where
  pub files : FilePath → Option Bytes
  pub read_fault : FilePath → Option Fault
  pub write_outcome : FilePath → WriteOutcome
  pub stdin : IoResult Bytes
  pub bind_fault : Option Fault
  pub connect_fault : Option Fault
  -- the answer to the send with this number: how many bytes went out, or a failure
  pub send_answer : ℕ → IoResult ℕ
  pub sends : ℕ
  pub events : List Event
  pub rng : G

abbrev pub update : (FilePath → Option Bytes) → FilePath → Option Bytes → FilePath → Option Bytes
update files p content q = if same_path p q then content else files q

pub update_self :
    (files : FilePath → Option Bytes) (p : FilePath) (content : Option Bytes)
    → update files p content p ≡ content
update_self files p content = rw (same_path_refl p)

-- What a read returns: the fault, or the content, or that there is no such file.
abbrev pub answer_read : Option Fault → Option Bytes → IoResult Bytes
answer_read (some f) content = failed (fault_error f)
answer_read none (some content) = done content
answer_read none none = failed not_found_error

-- What a write returns, and what the file then holds.
abbrev pub answer_write : WriteOutcome → IoResult ⊤
answer_write written = done tt
answer_write (refused f) = failed (fault_error f)
answer_write (torn n f) = failed (fault_error f)

abbrev pub after_write : WriteOutcome → Bytes → Option Bytes → Option Bytes
after_write written content old = some content
after_write (refused f) content old = old
after_write (torn n f) content old = some (take n content)

module _ {G : Type 0} where
  -- `fs::read`
  unfoldable pub read_file : FilePath → Os G → IoResult Bytes
  read_file p os = answer_read (os.read_fault p) (os.files p)

  -- `fs::write`
  unfoldable pub write_file : FilePath → Bytes → Os G → IoResult ⊤ × Os G
  write_file p content os = (
    answer_write (os.write_outcome p),
    record os { files = update os.files p (after_write (os.write_outcome p) content (os.files p)) },
  )
