-- ===== src/Kubeseal/Recovered.antt =====
-- Recovery: every key of the files is among those that are tried, and a sealed secret is opened with them.
use sealed_secrets.Base.{
  ℕ, ◌≡◌, refl, sym, ap, ◌∙◌, subst, String, Bool, List, [], ◌∷◌, some, ok, Bytes, ◌==◌, eq_iff,
  Bool-cases, inl, inr, >>=-eq-ok, ok-injective, Each, AnyOf, Each-AnyOf,
}
use sealed_secrets.Base.Run.{run-injective, run-eq-ok}
use sealed_secrets.Base.GoMap.{Entries, entries, insert, IsTable}
use sealed_secrets.Crypto.{Primitives, public_key_fingerprint}
use sealed_secrets.Crypto.Laws.{IsCorrect, IsTotal, IsBinding, HasKey}
use sealed_secrets.Registry.Held.{IsCollisionFree}
use sealed_secrets.Sealed.{Secret, SealedSecret, Codecs}
use sealed_secrets.Sealed.Seal.{new_sealed_secret}
use sealed_secrets.Sealed.Unseal.{unseal}
use sealed_secrets.Sealed.Items.{IsBase64}
use sealed_secrets.Sealed.RoundTrip.{IsReopened, applied, unseal-new_sealed_secret}
use sealed_secrets.Kubeseal.{Serializers, Session, secret_resource}
use sealed_secrets.Kubeseal.Documents.{DocumentDecoder}
use sealed_secrets.Kubeseal.Output.{decode_sealed_secret, resource_output}
use sealed_secrets.Kubeseal.PrivateKeys.{
  KeyFiles, read_priv_keys_from_file, add_priv_keys, read_priv_keys,
}
use sealed_secrets.Kubeseal.Recovery.{unseal_with, unseal_sealed_secret}

module _ {p : Primitives} (free : IsCollisionFree p) where
  -- Each key stands under the fingerprint of its public key.
  abbrev AllNamed : Entries p.PrivateKey → Type 0
  AllNamed [] = Unit
  AllNamed ((fp, sk) ∷ keys) = (public_key_fingerprint p (p.public sk) ≡ ok fp) × AllNamed keys

  insert-AllNamed :
      (keys : Entries p.PrivateKey) (fp : String) (sk : p.PrivateKey)
      → public_key_fingerprint p (p.public sk) ≡ ok fp
      → AllNamed keys
      → AllNamed (insert fp sk keys)
  unfolding insert
  insert-AllNamed [] fp sk n a = (n, tt)
  insert-AllNamed ((fp', sk') ∷ keys) fp sk n (n', a) = elim (Bool-cases (fp' == fp)) [
    | inl same ↦ rw same (n, a)
    | inr other ↦ rw other (n', insert-AllNamed keys fp sk n a)
  ]

  insert-HasKey_self :
      (keys : Entries p.PrivateKey) (fp : String) (sk : p.PrivateKey)
      → HasKey p (p.public sk) (insert fp sk keys)
  unfolding insert
  insert-HasKey_self [] fp sk = inl refl
  insert-HasKey_self ((fp', sk') ∷ keys) fp sk = elim (Bool-cases (fp' == fp)) [
    | inl same ↦ rw same (inl refl)
    | inr other ↦ rw other (inr (insert-HasKey_self keys fp sk))
  ]

  insert-HasKey :
      (keys : Entries p.PrivateKey) (fp : String) (sk : p.PrivateKey) (pk : p.PublicKey)
      → public_key_fingerprint p (p.public sk) ≡ ok fp
      → AllNamed keys
      → HasKey p pk keys
      → HasKey p pk (insert fp sk keys)
  unfolding insert
  insert-HasKey [] fp sk pk n a h = elim h [ ]
  insert-HasKey ((fp', sk') ∷ keys) fp sk pk n (n', a) (inl same_key) =
      elim (Bool-cases (fp' == fp)) [
        | inl same ↦
            rw same (
              inl
                (free.same_key _ _ fp n (n' ∙ ap (λ f. ok f) ((eq_iff fp' fp).0 same)) ∙ same_key))
        | inr other ↦ rw other (inl same_key)
      ]
  insert-HasKey ((fp', sk') ∷ keys) fp sk pk n (n', a) (inr later) = elim (Bool-cases (fp' == fp)) [
    | inl same ↦ rw same (inr later)
    | inr other ↦ rw other (inr (insert-HasKey keys fp sk pk n a later))
  ]

  -- A map of keys has grown: nothing is lost.
  record Grows (keys keys' : Entries p.PrivateKey) : Type 0 where
    named : AllNamed keys'
    kept : (pk : p.PublicKey) → HasKey p pk keys → HasKey p pk keys'

  module _ (f : KeyFiles p) (y : DocumentDecoder Secret) (fuel : ℕ) where
    add_priv_keys-Grows :
        (pks : List p.PrivateKey) (keys keys' : Entries p.PrivateKey)
        → AllNamed keys
        → add_priv_keys f y fuel pks keys ≡ ok keys'
        → Grows keys keys' × Each (λ sk. HasKey p (p.public sk) keys') pks
    unfolding add_priv_keys
    add_priv_keys-Grows [] keys keys' a e =
        (subst (Grows keys) (ok-injective e) (record { named = a; kept = λ pk h. h }), tt)
    add_priv_keys-Grows (sk ∷ pks) keys keys' a e =
        let (fp, n, e') = >>=-eq-ok (public_key_fingerprint p (p.public sk)) _ e in
        let (grows, each) =
          add_priv_keys-Grows pks (insert fp sk keys) keys' (insert-AllNamed keys fp sk n a) e' in
        (
          record {
            named = grows.named;
            kept = λ pk h. grows.kept pk (insert-HasKey keys fp sk pk n a h);
          },
          (grows.kept _ (insert-HasKey_self keys fp sk), each),
        )

    -- A file whose keys are all in the map.
    abbrev pub IsRead : Entries p.PrivateKey → String → Type 0
    IsRead keys filename =
        (pks : List p.PrivateKey) × (read_priv_keys_from_file f y fuel filename ≡ some (ok pks))
        × Each (λ sk. HasKey p (p.public sk) keys) pks

    Each-HasKey :
        (pks : List p.PrivateKey) (keys keys' : Entries p.PrivateKey)
        → ((pk : p.PublicKey) → HasKey p pk keys → HasKey p pk keys')
        → Each (λ sk. HasKey p (p.public sk) keys) pks
        → Each (λ sk. HasKey p (p.public sk) keys') pks
    Each-HasKey [] keys keys' g each = tt
    Each-HasKey (sk ∷ pks) keys keys' g (h, each) = (g _ h, Each-HasKey pks keys keys' g each)

    read_priv_keys-Grows :
        (filenames : List String) (keys keys' : Entries p.PrivateKey)
        → AllNamed keys
        → read_priv_keys f y fuel filenames keys ≡ some (ok keys')
        → Grows keys keys' × Each (IsRead keys') filenames
    unfolding read_priv_keys
    read_priv_keys-Grows [] keys keys' a e = (
      subst (Grows keys) (ok-injective (run-injective e)) (record { named = a; kept = λ pk h. h }),
      tt,
    )
    read_priv_keys-Grows (filename ∷ filenames) keys keys' a e =
        let (pks, is_read, e1) = run-eq-ok (read_priv_keys_from_file f y fuel filename) _ e in
        let (mid, added, e2) = run-eq-ok (some (add_priv_keys f y fuel pks keys)) _ e1 in
        let (grows, each) = add_priv_keys-Grows pks keys mid a (run-injective added) in
        let (grows', each') = read_priv_keys-Grows filenames mid keys' grows.named e2 in
        (
          record { named = grows'.named; kept = λ pk h. grows'.kept pk (grows.kept pk h) },
          ((pks, is_read, Each-HasKey pks mid keys' grows'.kept each), each'),
        )

    -- Every key of every file that readPrivKeys has read is in its result.
    read_priv_keys-IsRead :
        (filenames : List String) (keys : Entries p.PrivateKey)
        → read_priv_keys f y fuel filenames [] ≡ some (ok keys)
        → Each (IsRead keys) filenames
    read_priv_keys-IsRead filenames keys e = (read_priv_keys-Grows filenames [] keys tt e).1

    -- The file holds a key.
    abbrev pub Holds : p.PublicKey → String → Type 0
    Holds pk filename =
        (pks : List p.PrivateKey) × (read_priv_keys_from_file f y fuel filename ≡ some (ok pks))
        × AnyOf (λ sk. p.public sk ≡ pk) pks

    read-HasKey :
        (filenames : List String) (keys : Entries p.PrivateKey) (pk : p.PublicKey)
        → AnyOf (Holds pk) filenames
        → Each (IsRead keys) filenames
        → HasKey p pk keys
    read-HasKey filenames keys pk = Each-AnyOf filenames (λ filename held read.
        let (pks, e, is_in) = held in
        let (pks', e', each) = read in
        let same : pks' ≡ pks = ok-injective (run-injective (sym e' ∙ e)) in
        Each-AnyOf pks (λ sk is_key has. subst (λ x. HasKey p x keys) is_key has) is_in
          (subst (λ l. Each (λ sk. HasKey p (p.public sk) keys) l) same each))

    module _ (c : Codecs) (k : Serializers) (flag : Bool) (output_format : String)
        (correct : IsCorrect p) (total : IsTotal p) (binding : IsBinding p)
        (base64 : IsBase64 c) where
      unseal_sealed_secret-ok :
          (b : Bytes) (filenames : List String) (keys : Entries p.PrivateKey) (ss : SealedSecret)
          (sec : Secret) (s : Session p)
          → read_priv_keys f y fuel filenames [] ≡ some (ok keys)
          → k.decode_into_sealed b ≡ ok ss
          → unseal p c flag ss keys ≡ ok sec
          → unseal_sealed_secret c k flag output_format f y fuel (ok b) filenames s
            ≡ some (resource_output k output_format "v1" (secret_resource sec) s)
      unfolding unseal_sealed_secret unseal_with decode_sealed_secret
      unseal_sealed_secret-ok b filenames keys ss sec s got decoded opened =
          rw (got, decoded, opened, unseal_sealed_secret) refl

      -- With an RSA-OAEP whose decryption undoes the encryption under the same key and label, returns
      -- no panic and fails for every other key and label, ciphertexts shorter than 65536 bytes, and an
      -- AES-GCM and a base64 that decode what they encoded, and if public keys with one fingerprint are
      -- the same: when readPrivKeys reads files of which one holds a key for the public key that a
      -- secret, with no key twice in its Data and StringData, was sealed with, and the input is decoded
      -- to that sealed secret as a cluster holds it, then UnsealSealedSecret does what resourceOutput
      -- does with a secret that keeps the items and the rest of the sealed one.
      pub unseal_sealed_secret-IsReopened :
          (pub_key : p.PublicKey) (secret : Secret) (made cluster : SealedSecret)
          (rnd rnd' : p.Rand) (b : Bytes) (filenames : List String) (keys : Entries p.PrivateKey)
          (s : Session p)
          → new_sealed_secret p c pub_key secret rnd ≡ (ok made, rnd')
          → IsTable (entries secret.secret_data)
          → IsTable (entries secret.string_data)
          → k.decode_into_sealed b ≡ ok (applied made cluster)
          → read_priv_keys f y fuel filenames [] ≡ some (ok keys)
          → AnyOf (Holds pub_key) filenames
          → (opened : Secret) × (unseal_sealed_secret c k flag output_format f y fuel
                (ok b)
                filenames
                s
              ≡ some (resource_output k output_format "v1" (secret_resource opened) s))
            × IsReopened secret opened
      unseal_sealed_secret-IsReopened pub_key secret made cluster rnd rnd' b filenames keys s e
            tables tables' decoded got held =
          let has =
            read-HasKey filenames keys pub_key held (read_priv_keys-IsRead filenames keys got) in
          let (opened, is_opened, reopened) =
            unseal-new_sealed_secret p c pub_key secret made rnd rnd' e correct total binding base64
              keys has flag cluster tables tables' in
          (
            opened,
            unseal_sealed_secret-ok b filenames keys _ opened s got decoded is_opened,
            reopened,
          )
