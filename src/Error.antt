-- ===== src/Error.antt =====
-- src/error.rs: the error enum of the crate, its messages, and the outcome of a fallible call.
-- A text that a foreign crate prints (`{err:?}`, `{e}`) is a field of the error that carries it.
use fin_amor_s_ideal_udp_fiu.Base.{ℕ, String, ◌<>◌, ◌≡◌, ◌≢◌, ◌⊎◌, inl, inr, refl, ⊤, decimal}

-- `io::ErrorKind`, as far as the program tells kinds apart.
pub data IoErrorKind : Type 0 where
  not_found : IoErrorKind
  other : ℕ → IoErrorKind

-- `io::Error`
pub record IoError : Type 0 where
  pub kind : IoErrorKind
  pub message : String

-- `std::result::Result<T, io::Error>`: what a call of the operating system returns.
pub data IoResult {ℓ} (A : Type ℓ) : Type ℓ where
  done : A → IoResult A
  failed : IoError → IoResult A

pub data FiudpError : Type 0 where
  invalid_parity_ratio : ℕ → FiudpError
  invalid_key_length : ℕ → FiudpError
  invalid_session_file : FiudpError
  session_id_overflow : FiudpError
  empty_input : FiudpError
  too_many_shards : ℕ → FiudpError
  invalid_shard_size : ℕ → ℕ → FiudpError
  short_send : ℕ → ℕ → FiudpError
  encryption : String → FiudpError
  fec : String → FiudpError
  io : String → IoError → FiudpError

-- The `Display` that `thiserror` derives from the `#[error(…)]` attributes.
unfoldable pub to_string : FiudpError → String
unfolding decimal
to_string (invalid_parity_ratio n) = "invalid parity ratio " <> decimal n <> ": must be 0–100"
to_string (invalid_key_length n) = "key file must contain exactly 32 bytes, got " <> decimal n
to_string invalid_session_file = "session_id file must contain exactly 2 bytes"
to_string session_id_overflow =
    "session_id overflow (u16::MAX reached); rotate PSK and reset receiver state"
to_string empty_input = "input is empty"
to_string (too_many_shards n) = "total shards " <> decimal n <> " exceeds u16 limit"
to_string (invalid_shard_size actual expected) =
    "invalid shard size " <> decimal actual <> ", expected " <> decimal expected
to_string (short_send sent expected) =
    "short UDP send: " <> decimal sent <> " of " <> decimal expected <> " bytes"
to_string (encryption text) = "encryption failed: " <> text
to_string (fec text) = "FEC encoding failed: " <> text
to_string (io context source) = context

-- `Result<T>`, with a third outcome for a Rust panic, which no caller catches.
pub data Result {ℓ} (A : Type ℓ) : Type ℓ where
  ok : A → Result A
  err : FiudpError → Result A
  panic : Result A

module _ {ℓ κ} {A : Type ℓ} {B : Type κ} where
  infixl 5 ◌>>=◌
  -- `?` on a result: a failure of either kind ends the chain.
  abbrev pub ◌>>=◌ : Result A → (A → Result B) → Result B
  panic >>= rest = panic
  err failure >>= rest = err failure
  ok value >>= rest = rest value

module _ {κ} {B : Type κ} where
  infixl 5 ◌>>◌
  abbrev pub ◌>>◌ : Result ⊤ → Result B → Result B
  first >> rest = first >>= (λ done_first. rest)

-- `map_err`
abbrev pub map_err {ℓ} : {A : Type ℓ} → (IoError → FiudpError) → IoResult A → Result A
map_err f (done a) = ok a
map_err f (failed e) = err (f e)

module _ {ℓ κ} {A : Type ℓ} {B : Type κ} where
  -- A successful chain has a successful first step.
  pub steps_of_ok :
      (first : Result A) (rest : A → Result B) {last : B}
      → (first >>= rest) ≡ ok last
      → (value : A) × (first ≡ ok value) × (rest value ≡ ok last)
  steps_of_ok panic rest chain = cc
  steps_of_ok (err failure) rest chain = cc
  steps_of_ok (ok value) rest chain = (value, refl, chain)

-- A result is a value, or it is a failure that every continuation passes on.
pub Result-cases {ℓ} :
    {A : Type ℓ} (r : Result A)
    → ((a : A) × (r ≡ ok a)) ⊎ (((e : FiudpError) × (r ≡ err e)) ⊎ (r ≡ panic))
Result-cases (ok a) = inl (a, refl)
Result-cases (err e) = inr (inl (e, refl))
Result-cases panic = inr (inr refl)

-- The call returned.
abbrev pub DoesNotPanic {ℓ} : {A : Type ℓ} → Result A → Type ℓ
DoesNotPanic r = r ≢ panic

module _ {ℓ κ} {A : Type ℓ} {B : Type κ} where
  pub bind-DoesNotPanic :
      (first : Result A) (rest : A → Result B)
      → DoesNotPanic first
      → ((value : A) → first ≡ ok value → DoesNotPanic (rest value))
      → DoesNotPanic (first >>= rest)
  bind-DoesNotPanic panic rest h k = absurd (h refl)
  bind-DoesNotPanic (err failure) rest h k = λ e. cc
  bind-DoesNotPanic (ok value) rest h k = k value refl

pub map_err-DoesNotPanic {ℓ} :
    {A : Type ℓ} (f : IoError → FiudpError) (r : IoResult A) → DoesNotPanic (map_err f r)
map_err-DoesNotPanic f (done a) = λ e. cc
map_err-DoesNotPanic f (failed e) = λ e. cc
