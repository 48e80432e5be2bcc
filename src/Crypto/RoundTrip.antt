-- ===== src/Crypto/RoundTrip.antt =====
-- What HybridEncrypt produces, HybridDecrypt opens.
use native.Mathlib.Numerals.{towards_suc}
use sealed_secrets.Base.{
  ◌+◌, ◌*◌, ◌^◌, ◌<◌, ◌≡◌, ◌∷◌, ◌++◌, arith, Bytes, ok, length, drop, le→ltb, suc, List,
  take-append, drop-append, length-append, ℕ,
}
use sealed_secrets.Crypto.{Primitives, put_uint16, uint16}
use sealed_secrets.Crypto.Encrypt.{hybrid_encrypt}
use sealed_secrets.Crypto.Frame.{IsFrame, hybrid_encrypt-IsFrame}
use sealed_secrets.Crypto.Decrypt.{open_parts, single_decrypt}
use sealed_secrets.Crypto.Laws.{IsCorrect}

drop-two {ℓ} : {A : Type ℓ} (n : ℕ) (a b : A) (xs : List A) → drop (n + 2) (a ∷ b ∷ xs) ≡ drop n xs
drop-two n a b xs = simp towards_suc

module _ (p : Primitives) (sk : p.PrivateKey) where
  single_decrypt-split :
      (hi lo : ℕ) (rsa aes label : Bytes)
      → hi * 256 + lo ≡ length rsa
      → single_decrypt p sk (hi ∷ lo ∷ (rsa ++ aes)) label ≡ open_parts p sk rsa aes label
  unfolding single_decrypt uint16
  single_decrypt-split hi lo rsa aes label e = rw (
    e,
    le→ltb (suc (suc (length (rsa ++ aes)))) 2 (omega arith),
    le→ltb (suc (suc (length (rsa ++ aes)))) (length rsa + 2)
        (omega (arith, length-append rsa aes)),
    drop-two (length rsa) hi lo (rsa ++ aes),
    take-append rsa aes,
    drop-append rsa aes,
  )

  -- A framed ciphertext is taken apart at the place where it was put together.
  pub single_decrypt-frame :
      (rsa aes label : Bytes)
      → length rsa < 2 ^ 16
      → single_decrypt p sk (put_uint16 (length rsa) ++ (rsa ++ aes)) label
        ≡ open_parts p sk rsa aes label
  unfolding put_uint16
  single_decrypt-frame rsa aes label h = single_decrypt-split _ _ rsa aes label (omega arith)

  module _ (correct : IsCorrect p) where
    single_decrypt-parts :
        {plaintext label ciphertext : Bytes}
        → IsFrame p (p.public sk) plaintext label ciphertext
        → single_decrypt p sk ciphertext label ≡ ok plaintext
    unfolding open_parts
    single_decrypt-parts {plaintext} {label} f =
        rw
          (
            f.framed,
            single_decrypt-frame f.rsa _ label (
                correct.encrypt_length (p.public sk) f.key label f.before f.after f.rsa
                  f.encrypted),
            correct.decrypt-encrypt sk f.key label f.before f.after f.rsa f.encrypted,
            f.ciphered,
            f.wrapped,
          )
          (correct.aead_open-aead_seal f.aed _ plaintext)

    -- With an RSA-OAEP and an AES-GCM that decrypt what they encrypted, and RSA ciphertexts shorter
    -- than 65536 bytes, what HybridEncrypt makes for a public key singleDecrypt opens with the private
    -- key and the same label, and gives the plaintext back.
    pub single_decrypt-hybrid_encrypt :
        (plaintext label ciphertext : Bytes) (rnd rnd' : p.Rand)
        → hybrid_encrypt p (p.public sk) plaintext label rnd ≡ (ok ciphertext, rnd')
        → single_decrypt p sk ciphertext label ≡ ok plaintext
    single_decrypt-hybrid_encrypt plaintext label ciphertext rnd rnd' h =
        single_decrypt-parts (hybrid_encrypt-IsFrame p (p.public sk) plaintext label rnd h)
