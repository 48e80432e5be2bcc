-- ===== src/Crypto/Binding.antt =====
-- Which keys and labels open a ciphertext that HybridEncrypt made.
use sealed_secrets.Base.{
  ◌≡◌, sym, ◌⊎◌, inl, inr, [], ◌∷◌, Bytes, Error, Outcome, ok, err, Outcome-cases, ok-injective,
  replicate,
}
use sealed_secrets.Base.GoMap.{Entries}
use sealed_secrets.Crypto.{Primitives}
use sealed_secrets.Crypto.Encrypt.{hybrid_encrypt}
use sealed_secrets.Crypto.Decrypt.{open_parts, single_decrypt, hybrid_decrypt}
use sealed_secrets.Crypto.Frame.{hybrid_encrypt-IsFrame}
use sealed_secrets.Crypto.Laws.{IsCorrect, IsTotal, IsBinding, HasKey}
use sealed_secrets.Crypto.RoundTrip.{single_decrypt-frame, single_decrypt-hybrid_encrypt}

module _ (p : Primitives) (correct : IsCorrect p) (total : IsTotal p) (binding : IsBinding p) where
  open_parts-err :
      (sk : p.PrivateKey) (rsa aes label : Bytes) {e : Error}
      → p.decrypt_oaep sk rsa label ≡ err e
      → open_parts p sk rsa aes label ≡ err e
  unfolding open_parts
  open_parts-err sk rsa aes label h = rw h

  module _ (pk : p.PublicKey) (plaintext label ciphertext : Bytes) (rnd rnd' : p.Rand)
      (made : hybrid_encrypt p pk plaintext label rnd ≡ (ok ciphertext, rnd')) where
    -- A key opens the ciphertext as it was made, or reports an error.
    abbrev Opens : p.PrivateKey → Bytes → Outcome Bytes → Type 0
    Opens sk label' r =
        ((r ≡ ok plaintext) × (p.public sk ≡ pk) × (label' ≡ label)) ⊎ ((e : Error) × (r ≡ err e))

    single_decrypt-Opens :
        (sk : p.PrivateKey) (label' : Bytes)
        → Opens sk label' (single_decrypt p sk ciphertext label')
    single_decrypt-Opens sk label' =
        let f = hybrid_encrypt-IsFrame p pk plaintext label rnd made in
        let aes = p.aead_seal f.aed (replicate (p.nonce_size f.aed) 0) plaintext in
        elim (Outcome-cases (p.decrypt_oaep sk f.rsa label')) [
          | inl (m, opened) ↦
              let (same_key, same_label) =
                binding.only_key sk pk f.key label label' f.before f.after f.rsa m f.encrypted
                  opened in
              inl (
                rw same_label (
                    single_decrypt-hybrid_encrypt p sk correct plaintext label ciphertext rnd rnd'
                      (rw same_key made)),
                same_key,
                same_label,
              )
          | inr (inl (e, failed)) ↦ inr (
            e,
            rw
                (
                  f.framed,
                  single_decrypt-frame p sk f.rsa aes label'
                      (correct.encrypt_length pk f.key label f.before f.after f.rsa f.encrypted),
                )
                (open_parts-err sk f.rsa aes label' failed),
          )
          | inr (inr broken) ↦ absurd (total.decrypt_returns sk f.rsa label' broken)
        ]

    -- With an RSA-OAEP whose decryption undoes the encryption under the same key and label, returns no
    -- panic and fails for every other key and label, ciphertexts shorter than 65536 bytes, and an AES-
    -- GCM that opens what it sealed: HybridDecrypt of what HybridEncrypt made, with the label of the
    -- encryption and a key for its public key among the private keys, in whatever order they are tried,
    -- gives the plaintext back.
    pub hybrid_decrypt-hybrid_encrypt :
        (keys : Entries p.PrivateKey)
        → HasKey p pk keys
        → hybrid_decrypt p keys ciphertext label ≡ ok plaintext
    unfolding hybrid_decrypt
    hybrid_decrypt-hybrid_encrypt [] h = elim h [ ]
    hybrid_decrypt-hybrid_encrypt ((fingerprint, sk) ∷ keys) (inl same) = rw (
      single_decrypt-hybrid_encrypt p sk correct plaintext label ciphertext rnd rnd' (rw same made),
      hybrid_decrypt,
    )
    hybrid_decrypt-hybrid_encrypt ((fingerprint, sk) ∷ keys) (inr later) =
        let rest = hybrid_decrypt-hybrid_encrypt keys later in
        elim (single_decrypt-Opens sk label) [
          | inl (opened, _, _) ↦ rw (opened, hybrid_decrypt)
          | inr (e, failed) ↦ rw (failed, hybrid_decrypt) rest
        ]

    -- With an RSA-OAEP whose decryption undoes the encryption under the same key and label, returns no
    -- panic and fails for every other key and label, ciphertexts shorter than 65536 bytes, and an AES-
    -- GCM that opens what it sealed: if HybridDecrypt of what HybridEncrypt made succeeds, then its
    -- result is the plaintext, its label is the label of the encryption, and the private keys hold one
    -- for the public key of the encryption.
    pub hybrid_decrypt_only :
        (keys : Entries p.PrivateKey) (label' m : Bytes)
        → hybrid_decrypt p keys ciphertext label' ≡ ok m
        → (m ≡ plaintext) × (label' ≡ label) × HasKey p pk keys
    unfolding hybrid_decrypt
    hybrid_decrypt_only [] label' m h = cc
    hybrid_decrypt_only ((fingerprint, sk) ∷ keys) label' m h =
        let rest = hybrid_decrypt_only keys label' m in
        elim (single_decrypt-Opens sk label') [
          | inl (opened, same_key, same_label) ↦
              (sym (ok-injective (rw (opened, hybrid_decrypt) at h)), same_label, inl same_key)
          | inr (e, failed) ↦
              let (a, b, c) = rest (rw (failed, hybrid_decrypt) at h) in (a, b, inr c)
        ]
