-- ===== src/Sealed/Legacy.antt =====
-- The deprecated form of a sealed secret, with one ciphertext for all of the secret.
use sealed_secrets.Base.{[], ◌∷◌, some, ◌≡◌, sym, ap, true, ok, ok-injective, Bytes, guard, own}
use sealed_secrets.Base.Action.{bind-eq-ok, lift}
use sealed_secrets.Base.GoMap.{Entries, get}
use sealed_secrets.Crypto.{Primitives}
use sealed_secrets.Crypto.Encrypt.{hybrid_encrypt}
use sealed_secrets.Crypto.Laws.{IsCorrect, IsTotal, IsBinding, HasKey}
use sealed_secrets.Crypto.Binding.{hybrid_decrypt-hybrid_encrypt}
use sealed_secrets.Sealed.{Secret, SealedSecret, Codecs}
use sealed_secrets.Sealed.Seal.{
  label_for, has_place, namespace_error, sealed_object_v1, new_sealed_secret_v1,
}
use sealed_secrets.Sealed.Unseal.{place, unseal, unseal_data, unseal_legacy}
use sealed_secrets.Sealed.RoundTrip.{label_for-sealed_object}

module _ (p : Primitives) (c : Codecs) (correct : IsCorrect p) (total : IsTotal p)
    (binding : IsBinding p) (pk : p.PublicKey) (keys : Entries p.PrivateKey)
    (held : HasKey p pk keys) where
  -- With an RSA-OAEP whose decryption undoes the encryption under the same key and label, returns no
  -- panic and fails for every other key and label, ciphertexts shorter than 65536 bytes, and an AES-GCM
  -- that opens what it sealed: a sealed secret of the deprecated form that NewSealedSecretV1 made for a
  -- key that is among the private keys, of a secret whose encoding is decoded, unseals to the decoded
  -- secret with the name and the namespace of the original secret and, as its only owner, a controller
  -- of that name whose kind and UID are empty, if the deprecated form is accepted.
  pub unseal-new_sealed_secret_v1 :
      (secret decoded : Secret) (made : SealedSecret) (rnd rnd' : p.Rand)
      → ((plaintext : Bytes)
          → c.encode_secret secret ≡ ok plaintext
          → c.decode_secret plaintext ≡ ok decoded)
      → new_sealed_secret_v1 p c pk secret rnd ≡ (ok made, rnd')
      → unseal p c true made keys
        ≡ ok (record decoded {
          meta = record decoded.meta {
            name = secret.meta.name;
            namespace = secret.meta.namespace;
            owner_references =
                record {
                  api_version = c.group_version "";
                  kind = "";
                  name = secret.meta.name;
                  uid = "";
                  controller = some true;
                }
                ∷ [];
          };
        })
  unfolding new_sealed_secret_v1 unseal unseal_data unseal_legacy place get
  unseal-new_sealed_secret_v1 secret decoded made rnd rnd' codec e =
      let (_, s1, _, e1) =
        bind-eq-ok (lift (guard c.supports_json (own "binary can't serialize JSON"))) _ rnd e in
      let (_, s2, _, e2) =
        bind-eq-ok (lift (guard (has_place secret.meta) namespace_error)) _ s1 e1 in
      let (plaintext, s3, encoded, e3) = bind-eq-ok (lift (c.encode_secret secret)) _ s2 e2 in
      let (ciphertext, s4, encrypted, e4) =
        bind-eq-ok (hybrid_encrypt p pk plaintext (label_for secret.meta)) _ s3 e3 in
      let made_so : made ≡ sealed_object_v1 secret ciphertext =
        sym (ok-injective (ap (λ t. t.0) e4)) in
      rw (
        made_so,
        label_for-sealed_object secret [],
        hybrid_decrypt-hybrid_encrypt p correct total binding pk plaintext (label_for secret.meta)
            ciphertext s3 s4 encrypted keys held,
        codec plaintext (ap (λ t. t.0) encoded),
      )
