-- ===== src/Crypto/Laws.antt =====
-- What the program relies on of the cryptographic packages.
use sealed_secrets.Base.{[], ◌∷◌, ◌⊎◌, ◌≡◌, ◌<◌, ◌^◌, ok, panic, ◌≢◌, Bytes, length}
use sealed_secrets.Base.GoMap.{Entries}
use sealed_secrets.Crypto.{Primitives}

-- A decryption undoes the encryption with the same key and label, and an RSA ciphertext is as long as
-- the modulus, far below 65536 bytes.
pub record IsCorrect (p : Primitives) : Type 0 where
  pub decrypt-encrypt :
      (sk : p.PrivateKey) (msg label : Bytes) (rnd rnd' : p.Rand) (c : Bytes)
      → p.encrypt_oaep (p.public sk) msg label rnd ≡ (ok c, rnd')
      → p.decrypt_oaep sk c label ≡ ok msg
  pub encrypt_length :
      (pk : p.PublicKey) (msg label : Bytes) (rnd rnd' : p.Rand) (c : Bytes)
      → p.encrypt_oaep pk msg label rnd ≡ (ok c, rnd')
      → length c < 2 ^ 16
  pub aead_open-aead_seal :
      (aed : p.Aead) (nonce msg : Bytes)
      → p.aead_open aed nonce (p.aead_seal aed nonce msg) ≡ ok msg

-- Decryption returns an error, and never panics.
pub record IsTotal (p : Primitives) : Type 0 where
  pub decrypt_returns : (sk : p.PrivateKey) (c label : Bytes) → p.decrypt_oaep sk c label ≢ panic

-- The security of OAEP in its strongest form: a ciphertext decrypts under no other key and no other label.
pub record IsBinding (p : Primitives) : Type 0 where
  pub only_key :
      (sk : p.PrivateKey) (pk : p.PublicKey) (msg label label' : Bytes) (rnd rnd' : p.Rand)
      (c m : Bytes)
      → p.encrypt_oaep pk msg label rnd ≡ (ok c, rnd')
      → p.decrypt_oaep sk c label' ≡ ok m
      → (p.public sk ≡ pk) × (label' ≡ label)

-- A key for the public key is among the private keys.
abbrev pub HasKey : (p : Primitives) → p.PublicKey → Entries p.PrivateKey → Type 0
HasKey p pk [] = ⊥
HasKey p pk ((fingerprint, sk) ∷ keys) = (p.public sk ≡ pk) ⊎ HasKey p pk keys
