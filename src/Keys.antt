-- ===== src/Keys.antt =====
-- Making, reading and storing key pairs: pkg/crypto/keys.go and pkg/controller/keys.go.
pub mod Labels
use sealed_secrets.Base.{
  ℕ, ◌+◌, ◌^◌, String, Bool, true, false, List, [], ◌∷◌, ◌++◌, Option, none, some, own, Error,
  Outcome, ok, err, panic, Bytes, ◌==◌, if◌then◌else◌,
}
use sealed_secrets.Base.Action.{Action, lift, return, ◌>>=◌}
use sealed_secrets.Base.Results
use sealed_secrets.Base.GoMap.{GoMap, table, Entries, insert, get}
use sealed_secrets.Base.Split.{split}
use sealed_secrets.Funcs.{remove_duplicates}
use sealed_secrets.Crypto.{Primitives}
use sealed_secrets.Sealed.{Secret, ObjectMeta, empty_meta, empty_secret}
use sealed_secrets.World.{
  World, ParsedKey, rsa_key, other_key, CertificateTemplate, with_rand, clock,
}

abbrev pub tls_private_key_key : String
tls_private_key_key = "tls.key"

abbrev pub tls_cert_key : String
tls_cert_key = "tls.crt"

abbrev pub not_rsa : Error
not_rsa = own "private key is not an RSA key"

-- m[k] of a `map[string][]byte`.
abbrev pub bytes_at : GoMap Bytes → String → Bytes
bytes_at m k = elim (get m k) [ none ↦ [] | some b ↦ b ]

-- strings.Split(label, "=")[0] and [1]; the second is out of range if there is no `=`.
unfoldable pub key_value : String → Outcome (String × String)
key_value label = elim (split b'=' label) [
  | [] ↦ panic
  | key ∷ rest ↦ elim rest [ [] ↦ panic | value ∷ more ↦ ok (key, value) ]
]

-- The loop over the additional labels of writeKey.
unfoldable pub add_labels : String → List String → Entries String → Outcome (Entries String)
add_labels kr_label [] labels = ok labels
add_labels kr_label (label ∷ rest) labels =
    Results.◌>>=◌ (key_value label) (λ kv.
      add_labels kr_label rest (if kv.0 == kr_label then labels else insert kv.0 kv.1 labels))

-- The loop over the additional annotations of writeKey.
unfoldable pub add_annotations : List String → Entries String → Outcome (Entries String)
add_annotations [] annotations = ok annotations
add_annotations (label ∷ rest) annotations =
    Results.◌>>=◌ (key_value label) (λ kv. add_annotations rest (insert kv.0 kv.1 annotations))

-- if additionalLabels != "" { … }
unfoldable pub key_labels : String → String → Outcome (Entries String)
unfolding add_labels key_value
key_labels kr_label additional_labels =
    let labels : Entries String = (kr_label, "active") ∷ [] in
    if additional_labels == ""
    then ok labels
    else add_labels kr_label (remove_duplicates (split b',' additional_labels)) labels

-- if additionalAnnotations != "" { … }
unfoldable pub key_annotations : String → Outcome (Entries String)
unfolding add_annotations key_value
key_annotations additional_annotations =
    if additional_annotations == ""
    then ok []
    else add_annotations (remove_duplicates (split b',' additional_annotations)) []

module _ {p : Primitives} (w : World p) where
  -- SignKeyWithNotBefore
  unfoldable pub sign_key_with_not_before : p.PrivateKey → ℕ → ℕ → String → Action p.Rand w.Cert
  sign_key_with_not_before key not_before valid_for cn = do
    serial_no ← w.rand_int (2 ^ 128)
    let cert : CertificateTemplate = record {
      serial_number = serial_no;
      key_usage = "EncipherOnly";
      not_before = not_before;
      not_after = not_before + valid_for;
      issuer = cn;
      subject = cn;
      basic_constraints_valid = true;
      is_ca = true;
    }
    encoded ← w.create_certificate cert (p.public key) key
    lift (w.parse_certificate encoded)

  -- SignKey: valid from now
  unfoldable pub sign_key : p.PrivateKey → ℕ → String → Action w.State w.Cert
  unfolding sign_key_with_not_before
  sign_key key valid_for cn = do
    not_before ← clock w
    with_rand w (sign_key_with_not_before key not_before valid_for cn)

  -- GeneratePrivateKeyAndCert
  unfoldable pub generate_private_key_and_cert :
      ℕ → ℕ → String → Action w.State (p.PrivateKey × w.Cert)
  unfolding sign_key
  generate_private_key_and_cert key_size valid_for cn = do
    priv_key ← with_rand w (w.rsa_generate_key key_size)
    cert ← sign_key priv_key valid_for cn
    return (priv_key, cert)

  -- readKey
  unfoldable pub read_key : Secret → Outcome (p.PrivateKey × List w.Cert)
  read_key secret =
      Results.◌>>=◌ (w.parse_private_key_pem (bytes_at secret.secret_data tls_private_key_key))
        (λ key. elim key [
          | rsa_key rsa ↦
              Results.map_ok (λ certs. (rsa, certs))
                (w.parse_certs_pem (bytes_at secret.secret_data tls_cert_key))
          | other_key ↦ err not_rsa
        ])

  -- The loop over the certificates of writeKey.
  unfoldable pub encode_certs : List w.Cert → Bytes
  encode_certs [] = []
  encode_certs (cert ∷ certs) = w.pem_encode "CERTIFICATE" (w.raw cert) ++ encode_certs certs

  -- The Secret that writeKey asks the API to create.
  unfoldable pub key_secret :
      p.PrivateKey → List w.Cert → String → String → String → String → String → ℕ → Outcome Secret
  unfolding encode_certs key_labels key_annotations
  key_secret key certs namespace kr_label prefix annotations labels creation_time =
      Results.◌>>=◌ (key_labels kr_label labels) (λ ls.
        Results.map_ok
          (λ annos. record empty_secret {
            meta = record empty_meta {
              namespace = namespace;
              generate_name = prefix;
              labels = table ls;
              annotations = table annos;
              creation_timestamp = creation_time;
            };
            type = "kubernetes.io/tls";
            secret_data = table (
                (tls_private_key_key, w.pem_encode "RSA PRIVATE KEY" (w.marshal_pkcs1 key))
                ∷ (tls_cert_key, encode_certs certs)
                ∷ []);
          })
          (key_annotations annotations))

  -- writeKey, with the creation time that an option may set
  unfoldable pub write_key :
      p.PrivateKey
      → List w.Cert
      → String
      → String
      → String
      → String
      → String
      → ℕ
      → Action w.State String
  unfolding key_secret
  write_key key certs namespace kr_label prefix annotations labels creation_time = do
    secret ← lift (key_secret key certs namespace kr_label prefix annotations labels creation_time)
    created ← w.create_secret namespace secret
    return created.meta.name
