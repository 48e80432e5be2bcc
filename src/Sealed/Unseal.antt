-- ===== src/Sealed/Unseal.antt =====
-- SealedSecret.Unseal of pkg/apis/sealedsecrets/v1alpha1/sealedsecret_expansion.go. The private keys stand
-- in the order in which the loop over the map meets them.
use sealed_secrets.Base.{
  String, Bool, true, not, List, [], ◌∷◌, ◌++◌, Option, none, some, Error, own, Outcome, ok, err,
  panic, guard, Bytes, ◌==◌, ◌>>=◌, ◌>>◌, ltb, length, if◌then◌else◌,
}
use sealed_secrets.Base.GoMap.{table, Entries, entries, insert, index}
use sealed_secrets.Scope.{skip_set_owner_references_annotation}
use sealed_secrets.Crypto.{Primitives}
use sealed_secrets.Crypto.Decrypt.{hybrid_decrypt}
use sealed_secrets.Sealed.{OwnerReference, Secret, empty_secret, SealedSecret, Codecs}
use sealed_secrets.Sealed.Seal.{label_for}

-- What one round of a loop adds: what is stored under the key, if anything, and the errors.
abbrev pub Round : Type 0
Round = Option Bytes × List Error

abbrev pub store : String → Option Bytes → Entries Bytes → Entries Bytes
store key none items = items
store key (some value) items = insert key value items

-- The owner that an unsealed secret refers back to.
abbrev pub owner_of : Codecs → SealedSecret → OwnerReference
owner_of c s = record {
  api_version = c.group_version s.api_version;
  kind = s.kind;
  name = s.meta.name;
  uid = s.meta.uid;
  controller = some true;
}

module _ (p : Primitives) (c : Codecs) where
  -- One encrypted item. A value that is no base64 is skipped, one that no key opens is stored as nil;
  -- both are errors.
  unfoldable pub decrypt_item : Entries p.PrivateKey → Bytes → String → String → Outcome Round
  decrypt_item priv_keys label key value = elim (c.base64_decode value) [
    | ok bytes ↦ elim (hybrid_decrypt p priv_keys bytes label) [
      | ok plaintext ↦ ok (some plaintext, [])
      | err e ↦ ok (some [], c.tag_error key e ∷ [])
      | panic ↦ panic
    ]
    | err e ↦ ok (none, c.tag_error key e ∷ [])
    | panic ↦ panic
  ]

  -- The loop over EncryptedData.
  unfoldable pub decrypt_items :
      Entries p.PrivateKey
      → Bytes
      → Entries String
      → Entries Bytes
      → List Error
      → Outcome (Entries Bytes × List Error)
  unfolding decrypt_item
  decrypt_items priv_keys label [] items errs = ok (items, errs)
  decrypt_items priv_keys label ((key, value) ∷ rest) items errs =
      decrypt_item priv_keys label key value >>= λ r.
      decrypt_items priv_keys label rest (store key r.0 items) (errs ++ r.1)

  -- One template over the decrypted items. One that does not parse is skipped; one that fails in
  -- between is stored as far as it went.
  unfoldable pub render_item : Entries Bytes → String → String → Outcome Round
  render_item values key text = elim (c.parse_template key text) [
    | ok template ↦
        (let (written, r) = c.execute_template template values in
          elim r [
            | ok done ↦ ok (some written, [])
            | err e ↦ ok (some written, c.tag_error key e ∷ [])
            | panic ↦ panic
          ])
    | err e ↦ ok (none, c.tag_error key e ∷ [])
    | panic ↦ panic
  ]

  -- The loop over Template.Data.
  unfoldable pub render_items :
      Entries Bytes
      → Entries String
      → Entries Bytes
      → List Error
      → Outcome (Entries Bytes × List Error)
  unfolding render_item
  render_items values [] items errs = ok (items, errs)
  render_items values ((key, text) ∷ rest) items errs = render_item values key text >>= λ r.
      render_items values rest (store key r.0 items) (errs ++ r.1)

  -- if errs != nil { return nil, … }
  unfoldable pub without_errors : Entries Bytes × List Error → Outcome (Entries Bytes)
  without_errors (items, []) = ok items
  without_errors (items, e ∷ errs) = err (c.join_errors (e ∷ errs))

  -- The branch for a sealed secret with EncryptedData.
  unfoldable pub unseal_items : SealedSecret → Entries p.PrivateKey → Bytes → Outcome Secret
  unfolding decrypt_items render_items without_errors
  unseal_items s priv_keys label = do
    decrypted ← decrypt_items priv_keys label (entries s.spec.encrypted_data) [] []
    rendered ←
        render_items decrypted.0 (entries s.spec.template.template_data) decrypted.0 decrypted.1
    items ← without_errors rendered
    ok (record empty_secret {
      meta = s.spec.template.meta;
      type = s.spec.template.type;
      immutable = s.spec.template.immutable;
      secret_data = table items;
    })

  -- The branch for the deprecated single ciphertext.
  unfoldable pub unseal_legacy :
      Bool → SealedSecret → Entries p.PrivateKey → Bytes → Bytes → Outcome Secret
  unseal_legacy accept_deprecated_v1_data s priv_keys label legacy = do
    guard accept_deprecated_v1_data
        (own "using deprecated 'data' field, use 'encryptedData' or flip the feature flag")
    guard (not (ltb 0 (length (entries s.spec.encrypted_data)))) (
        own "cannot use the field 'encryptedData' and the deprecated field 'data' at the same time")
    plaintext ← hybrid_decrypt p priv_keys legacy label
    c.decode_secret plaintext

  -- What Unseal sets last: the namespace, the name and, unless the template says not to, the owner.
  unfoldable pub place : SealedSecret → Secret → Secret
  place s secret =
      let placed = record secret.meta { namespace = s.meta.namespace; name = s.meta.name } in
      if index s.spec.template.meta.annotations skip_set_owner_references_annotation == "true"
      then record secret { meta = placed }
      else record secret { meta = record placed { owner_references = owner_of c s ∷ [] } }

  -- The branches of Unseal, on the deprecated data.
  unfoldable pub unseal_data :
      Bool → SealedSecret → Entries p.PrivateKey → Bytes → Option Bytes → Outcome Secret
  unseal_data accept_deprecated_v1_data s priv_keys label none = unseal_items s priv_keys label
  unseal_data accept_deprecated_v1_data s priv_keys label (some legacy) =
      unseal_legacy accept_deprecated_v1_data s priv_keys label legacy

  -- SealedSecret.Unseal
  unfoldable pub unseal : Bool → SealedSecret → Entries p.PrivateKey → Outcome Secret
  unfolding unseal_data unseal_items unseal_legacy place
  unseal accept_deprecated_v1_data s priv_keys = do
    secret ← unseal_data accept_deprecated_v1_data s priv_keys (label_for s.meta) s.spec.legacy_data
    ok (place s secret)
