-- ===== src/Crypto/Cipher.antt =====
-- src/crypto.rs, `ChaChaEncryptor`, by what the crate `chacha20poly1305` documents.
use fin_amor_s_ideal_udp_fiu.Base.{
  String, ◌≡◌, ◌⊎◌, refl, ap, inl, inr, some, Bytes, arith, length, replicate, length-replicate,
}
use fin_amor_s_ideal_udp_fiu.Error.{ok}
use fin_amor_s_ideal_udp_fiu.Slice.{copy_all}
use fin_amor_s_ideal_udp_fiu.Protocol.Layout.{tag_size}
use fin_amor_s_ideal_udp_fiu.Crypto.{
  Opener, IsAead, Sealed, sealed, rejected, ChaCha20Poly1305, copy_tag, cha_cha_encryptor,
}

-- Under every key: the ciphertext is as long as the plaintext, the tag has 16 bytes, and the
-- receiver's call with the same key, nonce and additional data opens it.
pub record IsChaCha (cipher : ChaCha20Poly1305) (opener : Bytes → Opener) : Type 0 where
  pub keeps_length :
      (key nonce aad buffer out tag : Bytes)
      → cipher key nonce aad buffer ≡ sealed out tag
      → length out ≡ length buffer
  pub length_tag :
      (key nonce aad buffer out tag : Bytes)
      → cipher key nonce aad buffer ≡ sealed out tag
      → length tag ≡ tag_size
  pub opens :
      (key nonce aad buffer out tag : Bytes)
      → cipher key nonce aad buffer ≡ sealed out tag
      → opener key nonce aad tag out ≡ some buffer

pub Sealed-cases :
    (s : Sealed)
    → ((out : Bytes) × (tag : Bytes) × (s ≡ sealed out tag))
      ⊎ ((text : String) × (s ≡ rejected text))
Sealed-cases (sealed out tag) = inl (out, tag, refl)
Sealed-cases (rejected text) = inr (text, refl)

module _ (cipher : ChaCha20Poly1305) (opener : Bytes → Opener) (law : IsChaCha cipher opener)
    (key : Bytes) where
  pub copy_tag-sealed :
      (out tag : Bytes) → length tag ≡ tag_size → copy_tag (sealed out tag) ≡ ok (out, tag)
  unfolding copy_tag
  copy_tag-sealed out tag h =
      rw (copy_all tag_size (replicate tag_size 0) tag h (length-replicate tag_size 0))

  -- A successful call is a successful call of the crate, with the same buffer and tag.
  pub encrypt_sealed :
      (nonce aad buffer out tag : Bytes)
      → (cha_cha_encryptor cipher key).encrypt_in_place nonce aad buffer ≡ ok (out, tag)
      → cipher key nonce aad buffer ≡ sealed out tag
  unfolding cha_cha_encryptor
  encrypt_sealed nonce aad buffer out tag h = elim (Sealed-cases (cipher key nonce aad buffer)) [
    | inr (text, e) ↦ absurd (ground (arith, ap copy_tag e))
    | inl (out', tag', e) ↦ ground (
      arith,
      ap copy_tag e,
      copy_tag-sealed out' tag' (law.length_tag key nonce aad buffer out' tag' e),
    )
  ]

  -- Over a cipher that keeps lengths, makes tags of 16 bytes and can be opened, the production
  -- encryptor keeps the contract of the trait under every key.
  pub cha_cha_encryptor-IsAead : IsAead (cha_cha_encryptor cipher key) (opener key)
  cha_cha_encryptor-IsAead = record {
    keeps_length = λ nonce aad buffer {out} {tag} h.
        law.keeps_length key nonce aad buffer out tag (encrypt_sealed nonce aad buffer out tag h);
    length_tag = λ nonce aad buffer {out} {tag} h.
        law.length_tag key nonce aad buffer out tag (encrypt_sealed nonce aad buffer out tag h);
    opens = λ nonce aad buffer {out} {tag} h.
        law.opens key nonce aad buffer out tag (encrypt_sealed nonce aad buffer out tag h);
  }
