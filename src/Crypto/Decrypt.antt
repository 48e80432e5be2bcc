-- ===== src/Crypto/Decrypt.antt =====
-- HybridDecrypt and singleDecrypt of pkg/crypto/crypto.go. The random source that OAEP decryption is
-- given is ignored by it.
use sealed_secrets.Base.{
  ◌+◌, [], ◌∷◌, Bytes, Outcome, ok, err, panic, length, take, drop, replicate, ltb, if◌then◌else◌,
  ◌>>=◌,
}
use sealed_secrets.Base.GoMap.{Entries}
use sealed_secrets.Crypto.{Primitives, too_short, no_key, uint16}

module _ (p : Primitives) where
  open p use {PrivateKey, decrypt_oaep, new_cipher, new_gcm, nonce_size, aead_open}

  -- The part of singleDecrypt below the checks of the length.
  unfoldable pub open_parts : PrivateKey → Bytes → Bytes → Bytes → Outcome Bytes
  open_parts priv_key rsa_ciphertext aes_ciphertext label = do
    session_key ← decrypt_oaep priv_key rsa_ciphertext label
    block ← new_cipher session_key
    aed ← new_gcm block
    let zero_nonce = replicate (nonce_size aed) 0
    aead_open aed zero_nonce aes_ciphertext

  -- singleDecrypt
  unfoldable pub single_decrypt : PrivateKey → Bytes → Bytes → Outcome Bytes
  single_decrypt priv_key ciphertext label =
      if ltb (length ciphertext) 2
      then err too_short
      else (let rsa_len = uint16 ciphertext in
          if ltb (length ciphertext) (rsa_len + 2)
          then err too_short
          else open_parts priv_key (take rsa_len (drop 2 ciphertext))
              (drop (rsa_len + 2) ciphertext) label)

  -- HybridDecrypt: the keys in the order in which the loop over the map meets them. The error of a key
  -- that does not fit is dropped.
  unfoldable pub hybrid_decrypt : Entries PrivateKey → Bytes → Bytes → Outcome Bytes
  hybrid_decrypt [] ciphertext label = err no_key
  hybrid_decrypt ((fingerprint, priv_key) ∷ priv_keys) ciphertext label =
      let rest = hybrid_decrypt priv_keys ciphertext label in
      elim (single_decrypt priv_key ciphertext label) [
        | ok secret ↦ ok secret
        | err e ↦ rest
        | panic ↦ panic
      ]
