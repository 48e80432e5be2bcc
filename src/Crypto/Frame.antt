-- ===== src/Crypto/Frame.antt =====
-- What a successful HybridEncrypt has done: the inversion of its chain of calls.
use sealed_secrets.Base.{◌≡◌, sym, ap, ◌++◌, Bytes, ok, ok-injective, length, replicate}
use sealed_secrets.Base.Action.{bind-eq-ok, lift}
use sealed_secrets.Crypto.{Primitives, session_key_bytes, put_uint16}
use sealed_secrets.Crypto.Encrypt.{hybrid_encrypt}

pub record IsFrame (p : Primitives) (pk : p.PublicKey) (plaintext label ciphertext : Bytes)
    : Type 0 where
  pub key : Bytes
  pub block : p.Block
  pub aed : p.Aead
  pub rsa : Bytes
  pub before : p.Rand
  pub after : p.Rand
  pub ciphered : p.new_cipher key ≡ ok block
  pub wrapped : p.new_gcm block ≡ ok aed
  pub encrypted : p.encrypt_oaep pk key label before ≡ (ok rsa, after)
  pub framed :
      ciphertext
      ≡ put_uint16 (length rsa)
        ++ (rsa ++ p.aead_seal aed (replicate (p.nonce_size aed) 0) plaintext)

module _ (p : Primitives) (pk : p.PublicKey) (plaintext label : Bytes) (rnd : p.Rand) where
  pub hybrid_encrypt-IsFrame :
      {ciphertext : Bytes} {rnd' : p.Rand}
      → hybrid_encrypt p pk plaintext label rnd ≡ (ok ciphertext, rnd')
      → IsFrame p pk plaintext label ciphertext
  unfolding hybrid_encrypt
  hybrid_encrypt-IsFrame h =
      let (session_key, s1, read, h1) = bind-eq-ok (p.read_full session_key_bytes) _ rnd h in
      let (block, s2, made, h2) = bind-eq-ok (lift (p.new_cipher session_key)) _ s1 h1 in
      let (aed, s3, wrapped, h3) = bind-eq-ok (lift (p.new_gcm block)) _ s2 h2 in
      let (rsa, s4, sealed, h4) = bind-eq-ok (p.encrypt_oaep pk session_key label) _ s3 h3 in
      record {
        key = session_key;
        block = block;
        aed = aed;
        rsa = rsa;
        before = s3;
        after = s4;
        ciphered = ap (λ t. t.0) made;
        wrapped = ap (λ t. t.0) wrapped;
        encrypted = sealed;
        framed = sym (ok-injective (ap (λ t. t.0) h4));
      }
