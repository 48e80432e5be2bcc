-- ===== src/Crypto/Encrypt.antt =====
-- HybridEncrypt of pkg/crypto/crypto.go. The source of random bytes is the state of the action.
use sealed_secrets.Base.{◌++◌, Bytes, length, replicate}
use sealed_secrets.Base.Action.{Action, lift, return, ◌>>=◌}
use sealed_secrets.Crypto.{Primitives, session_key_bytes, put_uint16}

module _ (p : Primitives) where
  open p use {Rand, PublicKey, read_full, encrypt_oaep, new_cipher, new_gcm, nonce_size, aead_seal}

  -- HybridEncrypt
  unfoldable pub hybrid_encrypt : PublicKey → Bytes → Bytes → Action Rand Bytes
  hybrid_encrypt pub_key plaintext label = do
    session_key ← read_full session_key_bytes
    block ← lift (new_cipher session_key)
    aed ← lift (new_gcm block)
    rsa_ciphertext ← encrypt_oaep pub_key session_key label
    let zero_nonce = replicate (nonce_size aed) 0
    return (
        put_uint16 (length rsa_ciphertext)
        ++ (rsa_ciphertext ++ aead_seal aed zero_nonce plaintext))
