-- ===== src/Crypto.antt =====
-- Hybrid encryption: pkg/crypto/crypto.go. RSA-OAEP, AES-GCM, the source of random bytes and the
-- fingerprint of a key are parameters; the framing of the ciphertext and the search for a key are the
-- program's own. Bytes are numbers below 256.
pub mod Encrypt
pub mod Decrypt
pub mod Frame
pub mod Laws
pub mod RoundTrip
pub mod Binding
use native.Mathlib.Omega.{arith}
use sealed_secrets.Base.{
  ℕ, ◌+◌, ◌*◌, ◌/◌, ◌%◌, ◌^◌, map_ok, String, List, [], ◌∷◌, ◌++◌, Outcome, ok, err, panic, own,
  Error, Bytes, length, take, drop, replicate, ltb, if◌then◌else◌,
}
use sealed_secrets.Base.Action.{Action, lift, return, ◌>>=◌}
use sealed_secrets.Base.GoMap.{Entries}

-- The packages crypto/rsa, crypto/aes, crypto/cipher, io and golang.org/x/crypto/ssh, as far as they are
-- called. The label of OAEP is the last argument, and the additional data of GCM is always nil.
pub record Primitives : Type 1 where
  pub Rand : Type 0
  pub PublicKey : Type 0
  pub PrivateKey : Type 0
  pub Block : Type 0
  pub Aead : Type 0
  pub SshKey : Type 0
  pub public : PrivateKey → PublicKey
  pub read_full : ℕ → Action Rand Bytes
  pub encrypt_oaep : PublicKey → Bytes → Bytes → Action Rand Bytes
  pub decrypt_oaep : PrivateKey → Bytes → Bytes → Outcome Bytes
  pub new_cipher : Bytes → Outcome Block
  pub new_gcm : Block → Outcome Aead
  pub nonce_size : Aead → ℕ
  pub aead_seal : Aead → Bytes → Bytes → Bytes
  pub aead_open : Aead → Bytes → Bytes → Outcome Bytes
  pub new_public_key : PublicKey → Outcome SshKey
  pub fingerprint_sha256 : SshKey → String

abbrev pub session_key_bytes : ℕ
session_key_bytes = 32

abbrev pub too_short : Error
too_short = own "SealedSecret data is too short"

abbrev pub no_key : Error
no_key = own "no key could decrypt secret"

-- binary.BigEndian.PutUint16, of a number cut to 16 bits
unfoldable pub put_uint16 : ℕ → Bytes
put_uint16 n = (n % 2 ^ 16 / 256) ∷ (n % 256) ∷ []

-- binary.BigEndian.Uint16; the callers have checked that two bytes are there.
unfoldable pub uint16 : Bytes → ℕ
uint16 (hi ∷ lo ∷ rest) = hi * 256 + lo
uint16 _ = 0

-- PublicKeyFingerprint
unfoldable pub public_key_fingerprint : (p : Primitives) → p.PublicKey → Outcome String
public_key_fingerprint p rp = map_ok p.fingerprint_sha256 (p.new_public_key rp)
