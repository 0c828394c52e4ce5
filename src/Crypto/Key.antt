-- ===== src/Crypto/Key.antt =====
-- src/crypto.rs: loading the key, by what the system answers.
use fin_amor_s_ideal_udp_fiu.Base.{
  ◌≡◌, ap, ◌≢◌, ◌⊎◌, inl, inr, none, some, Bytes, arith, ◌<>◌, Option-cases, Bool-cases, ◌==◌,
  ==_iff, length, replicate, length-replicate,
}
use fin_amor_s_ideal_udp_fiu.Error.{Result, ok, err, invalid_key_length, FiudpError, io}
use fin_amor_s_ideal_udp_fiu.Os.{Os, Fault, fault_error, not_found_error}
use fin_amor_s_ideal_udp_fiu.FilePath.{display}
use fin_amor_s_ideal_udp_fiu.Slice.{copy_all}
use fin_amor_s_ideal_udp_fiu.Crypto.{FileKeySource, load_key}

module _ {G : Type 0} (source : FileKeySource) (os : Os G)
    (readable : os.read_fault source.path ≡ none) where
  -- Where the key file can be read, the call leaves the state alone and gives its content if that
  -- has 32 bytes; content of another length is refused with its length, and a missing file as a
  -- failed read.
  pub load_key_cases :
      ((key : Bytes) × (os.files source.path ≡ some key)
        × (length key ≡ 32)
        × (load_key source os ≡ (ok key, os)))
      ⊎ (((content : Bytes) × (os.files source.path ≡ some content)
            × (length content ≢ 32)
            × (load_key source os ≡ (err (invalid_key_length (length content)), os)))
          ⊎ ((os.files source.path ≡ none)
              × (load_key source os ≡ (
                err (io ("failed to read key file " <> display source.path) not_found_error),
                os,
              ))))
  unfolding load_key
  load_key_cases = elim (Option-cases (os.files source.path)) [
    | inl missing ↦ inr (inr (missing, rw (readable, missing)))
    | inr (content, e) ↦ elim (Bool-cases (length content == 32)) [
      | inl exact ↦
          let size : length content ≡ 32 = (==_iff (length content) 32).0 exact in
          inl (
            content,
            e,
            size,
            rw (
              readable,
              e,
              exact,
              copy_all 32 (replicate 32 0) content size (length-replicate 32 0),
            ),
          )
      | inr wrong ↦ inr (inl (content, e, ground arith, rw (readable, e, wrong)))
    ]
  ]

module _ {G : Type 0} (source : FileKeySource) (os : Os G) where
  load_key_fault :
      (f : Fault)
      → os.read_fault source.path ≡ some f
      → (e : FiudpError) × ((load_key source os).0 ≡ err e)
  unfolding load_key
  load_key_fault f h =
      (io ("failed to read key file " <> display source.path) (fault_error f), rw h)

  -- A key that was loaded is the content of a readable file of 32 bytes.
  pub load_key-ok :
      (key : Bytes)
      → (load_key source os).0 ≡ ok key
      → (os.read_fault source.path ≡ none) × (os.files source.path ≡ some key) × (length key ≡ 32)
  load_key-ok key h = elim (Option-cases (os.read_fault source.path)) [
    | inr (f, fault) ↦ let (e, failed) = load_key_fault f fault in absurd (ground (arith, failed))
    | inl readable ↦ elim (load_key_cases source os readable) [
      | inl (key', e, size, loaded) ↦
          let same : key' ≡ key = ground (arith, ap (λ (r : Result Bytes × Os G). r.0) loaded) in
          (readable, ground (arith, e), ground (arith, size))
      | inr (inl (content, e, size, loaded)) ↦
          absurd (ground (arith, ap (λ (r : Result Bytes × Os G). r.0) loaded))
      | inr (inr (e, loaded)) ↦
          absurd (ground (arith, ap (λ (r : Result Bytes × Os G). r.0) loaded))
    ]
  ]
