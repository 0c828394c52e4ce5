-- ===== src/Crypto.antt =====
-- src/crypto.rs: the encryptor, and loading the key. The cipher is the crate `chacha20poly1305`.
pub mod Nonce
pub mod Cipher
pub mod Key
use fin_amor_s_ideal_udp_fiu.Base.{
  ℕ, ◌<>◌, String, ◌≡◌, ◌≤◌, Option, none, some, Bytes, ◌==◌, if◌then◌else◌, length, replicate,
}
use fin_amor_s_ideal_udp_fiu.Error.{
  Result, ok, err, panic, ◌>>=◌, IoResult, map_err, encryption, invalid_key_length, io,
}
use fin_amor_s_ideal_udp_fiu.Io.{Io}
use fin_amor_s_ideal_udp_fiu.Os.{Os, read_file}
use fin_amor_s_ideal_udp_fiu.FilePath.{FilePath, display}
use fin_amor_s_ideal_udp_fiu.Slice.{copy_from_slice}
use fin_amor_s_ideal_udp_fiu.Protocol.Layout.{tag_size, nonce_size}

-- The trait. `encrypt_in_place nonce aad buffer` returns what the buffer holds after the call, and
-- the tag.
pub record Encryptor : Type 0 where
  pub encrypt_in_place : Bytes → Bytes → Bytes → Result (Bytes × Bytes)

-- The receiver's side of an AEAD under the same key: nonce, additional data, tag, ciphertext.
abbrev pub Opener : Type 0
Opener = Bytes → Bytes → Bytes → Bytes → Option Bytes

-- What the documentation of an AEAD promises: it works in place, makes a tag of 16 bytes, and what
-- it seals can be opened. It may refuse, and it does not panic.
pub record IsAead (e : Encryptor) (opener : Opener) : Type 0 where
  pub keeps_length :
      (nonce aad buffer : Bytes) {out tag : Bytes}
      → e.encrypt_in_place nonce aad buffer ≡ ok (out, tag)
      → length out ≡ length buffer
  pub length_tag :
      (nonce aad buffer : Bytes) {out tag : Bytes}
      → e.encrypt_in_place nonce aad buffer ≡ ok (out, tag)
      → length tag ≡ tag_size
  pub opens :
      (nonce aad buffer : Bytes) {out tag : Bytes}
      → e.encrypt_in_place nonce aad buffer ≡ ok (out, tag)
      → opener nonce aad tag out ≡ some buffer

-- What `encrypt_in_place_detached` of the crate returns: the buffer and the tag, or the text of an
-- error.
pub data Sealed : Type 0 where
  sealed : Bytes → Bytes → Sealed
  rejected : String → Sealed

-- The crate: key, nonce, additional data, buffer.
abbrev pub ChaCha20Poly1305 : Type 0
ChaCha20Poly1305 = Bytes → Bytes → Bytes → Bytes → Sealed

-- The body of `encrypt_in_place` after the call of the crate.
unfoldable pub copy_tag : Sealed → Result (Bytes × Bytes)
copy_tag (sealed buffer tag) = do
  tag_bytes ← copy_from_slice 0 tag_size (replicate tag_size 0) tag
  ok (buffer, tag_bytes)
copy_tag (rejected text) = err (encryption text)

-- `ChaChaEncryptor::new` and its `encrypt_in_place`.
unfoldable pub cha_cha_encryptor : ChaCha20Poly1305 → Bytes → Encryptor
unfolding copy_tag
cha_cha_encryptor cipher key = record {
  encrypt_in_place = λ nonce aad buffer. copy_tag (cipher key nonce aad buffer);
}

pub record FileKeySource : Type 0 where
  pub path : FilePath

-- `read_key`, from what `fs::read` returned.
unfoldable pub key_of : FilePath → IoResult Bytes → Result Bytes
unfolding display
key_of path answer = do
  bytes ← map_err (λ e. io ("failed to read key file " <> display path) e) answer
  if length bytes == 32
      then copy_from_slice 0 32 (replicate 32 0) bytes
      else err (invalid_key_length (length bytes))

module _ {G : Type 0} where
  unfoldable pub read_key : FilePath → Io (Os G) Bytes
  unfolding key_of read_file
  read_key path os = (key_of path (read_file path os), os)

  unfoldable pub load_key : FileKeySource → Io (Os G) Bytes
  unfolding read_key
  load_key source = read_key source.path
