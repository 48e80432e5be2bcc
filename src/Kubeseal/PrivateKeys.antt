-- ===== src/Kubeseal/PrivateKeys.antt =====
-- Reading private keys for the recovery: parsePrivKey, readPrivKeysFromFile, readPrivKey and readPrivKeys of
-- pkg/kubeseal/kubeseal.go.
use sealed_secrets.Base.{
  ℕ, String, List, [], ◌∷◌, ◌++◌, Option, none, some, own, Outcome, ok, err, panic, Bytes,
}
use sealed_secrets.Base.Results
use sealed_secrets.Base.Run.{Run, pure, ◌>>=◌}
use sealed_secrets.Base.GoMap.{Entries, insert, get}
use sealed_secrets.Crypto.{Primitives, public_key_fingerprint}
use sealed_secrets.Sealed.{Secret}
use sealed_secrets.World.{ParsedKey, rsa_key, other_key}
use sealed_secrets.Kubeseal.Documents.{DocumentDecoder, read_secrets}

-- os.ReadFile, keyutil, and the decoding of a v1.List into the raw texts of its items.
pub record KeyFiles (p : Primitives) : Type 0 where
  pub read_file : String → Outcome Bytes
  pub parse_private_key_pem : Bytes → Outcome (ParsedKey p.PrivateKey)
  pub decode_list : Bytes → Outcome (List Bytes)

module _ {p : Primitives} (f : KeyFiles p) where
  -- parsePrivKey
  unfoldable pub parse_priv_key : Bytes → Outcome p.PrivateKey
  parse_priv_key b =
      Results.◌>>=◌ (f.parse_private_key_pem b)
        (λ key. elim key [ rsa_key k ↦ ok k | other_key ↦ err (own "unexpected private key type") ])

  abbrev pub key_of : Option Bytes → Outcome p.PrivateKey
  key_of none = err (own "secret must contain a 'tls.data' key")
  key_of (some tls_key) = parse_priv_key tls_key

  -- The loop over the secrets at the end of readPrivKeysFromFile.
  unfoldable pub keys_of_secrets : List Secret → List p.PrivateKey → Outcome (List p.PrivateKey)
  unfolding parse_priv_key
  keys_of_secrets [] keys = ok keys
  keys_of_secrets (s ∷ secrets) keys =
      Results.◌>>=◌ (key_of (get s.secret_data "tls.key"))
        (λ pk. keys_of_secrets secrets (keys ++ (pk ∷ [])))

  module _ (y : DocumentDecoder Secret) (fuel : ℕ) where
    -- The loop over the items of a v1.List.
    unfoldable pub read_items : List Bytes → List Secret → Run (List Secret)
    read_items [] secrets = pure (ok secrets)
    read_items (raw ∷ items) secrets =
        read_secrets y fuel (ok raw) >>= λ s. read_items items (secrets ++ s)

    -- The secrets of a file that is no PEM key: a list of them, or one or more documents.
    unfoldable pub secrets_of_file : Bytes → Run (List Secret)
    unfolding read_items
    secrets_of_file b = elim (f.decode_list b) [
      | ok items ↦ read_items items []
      | err e ↦ read_secrets y fuel (ok b)
      | panic ↦ pure panic
    ]

    -- readPrivKeysFromFile
    unfoldable pub read_priv_keys_from_file : String → Run (List p.PrivateKey)
    unfolding keys_of_secrets secrets_of_file
    read_priv_keys_from_file filename = pure (f.read_file filename) >>= λ b.
        elim (parse_priv_key b) [
          | ok res ↦ pure (ok (res ∷ []))
          | err e ↦ secrets_of_file b >>= λ secrets. pure (keys_of_secrets secrets [])
          | panic ↦ pure panic
        ]

    -- readPrivKey: the first key, which a file with an empty list does not have
    unfoldable pub read_priv_key : String → Run p.PrivateKey
    unfolding read_priv_keys_from_file
    read_priv_key filename = read_priv_keys_from_file filename >>= λ pks. elim pks [
      | [] ↦ pure panic
      | pk ∷ more ↦ pure (ok pk)
    ]

    -- The inner loop of readPrivKeys.
    unfoldable pub add_priv_keys :
        List p.PrivateKey → Entries p.PrivateKey → Outcome (Entries p.PrivateKey)
    add_priv_keys [] res = ok res
    add_priv_keys (pk ∷ pks) res =
        Results.◌>>=◌ (public_key_fingerprint p (p.public pk))
          (λ fingerprint. add_priv_keys pks (insert fingerprint pk res))

    -- readPrivKeys
    unfoldable pub read_priv_keys : List String → Entries p.PrivateKey → Run (Entries p.PrivateKey)
    unfolding read_priv_keys_from_file add_priv_keys
    read_priv_keys [] res = pure (ok res)
    read_priv_keys (filename ∷ filenames) res = read_priv_keys_from_file filename >>= λ pks.
        pure (add_priv_keys pks res) >>= λ res'. read_priv_keys filenames res'
