-- ===== src/Sealed/Seal.antt =====
-- NewSealedSecret and NewSealedSecretV1 of pkg/apis/sealedsecrets/v1alpha1/sealedsecret_expansion.go. The source of random
-- bytes is the state of the action.
use sealed_secrets.Base.{
  String, Bool, true, false, not, ◌&&◌, [], ◌∷◌, none, some, Error, own, guard, Bytes, bytes_of,
  ◌==◌,
}
use sealed_secrets.Base.Action.{Action, lift, return, ◌>>=◌, ◌>>◌}
use sealed_secrets.Base.GoMap.{nil_map, table, Entries, entries, insert, map_values}
use sealed_secrets.Scope.{
  SealingScope, cluster_wide_scope, encryption_label, secret_scope, update_scope_annotations,
  strip_last_applied_annotations,
}
use sealed_secrets.Crypto.{Primitives}
use sealed_secrets.Crypto.Encrypt.{hybrid_encrypt}
use sealed_secrets.Sealed.{ObjectMeta, empty_meta, Secret, SealedSecret, Codecs}

abbrev pub is_cluster_wide : SealingScope → Bool
is_cluster_wide cluster_wide_scope = true
is_cluster_wide _ = false

-- labelFor
abbrev pub label_for : ObjectMeta → Bytes
label_for o = encryption_label o.namespace o.name (secret_scope o.annotations)

-- What `[]byte(value)` makes of the StringData.
abbrev pub string_bytes : Entries String → Entries Bytes
string_bytes = map_values bytes_of

-- A secret without a namespace can be sealed only cluster-wide.
abbrev pub namespace_error : Error
namespace_error = own "secret must declare a namespace"

abbrev pub has_place : ObjectMeta → Bool
has_place o = not (not (is_cluster_wide (secret_scope o.annotations)) && (o.namespace == ""))

-- The metadata that goes into the template: without the copies of applied objects and without owners.
abbrev pub template_meta : ObjectMeta → ObjectMeta
template_meta o = record o {
  annotations = strip_last_applied_annotations o.annotations;
  owner_references = [];
}

-- The sealed secret around the encrypted items.
abbrev pub sealed_object : Secret → Entries String → SealedSecret
sealed_object secret items = record {
  api_version = "";
  kind = "";
  meta = record empty_meta {
    name = secret.meta.name;
    namespace = secret.meta.namespace;
    annotations = update_scope_annotations nil_map (secret_scope secret.meta.annotations);
  };
  spec = record {
    template = record {
      meta = template_meta secret.meta;
      type = secret.type;
      immutable = secret.immutable;
      template_data = nil_map;
    };
    legacy_data = none;
    encrypted_data = table items;
  };
  status = none;
}

-- The sealed secret around the single ciphertext of the deprecated form.
abbrev pub sealed_object_v1 : Secret → Bytes → SealedSecret
sealed_object_v1 secret ciphertext = record {
  api_version = "";
  kind = "";
  meta = record empty_meta {
    name = secret.meta.name;
    namespace = secret.meta.namespace;
    annotations = update_scope_annotations nil_map (secret_scope secret.meta.annotations);
  };
  spec = record {
    template = record { meta = empty_meta; type = ""; immutable = none; template_data = nil_map };
    legacy_data = some ciphertext;
    encrypted_data = nil_map;
  };
  status = none;
}

module _ (p : Primitives) (c : Codecs) where
  -- One of the two loops: each value is encrypted under the label and put under its key.
  unfoldable pub encrypt_items :
      p.PublicKey → Bytes → Entries Bytes → Entries String → Action p.Rand (Entries String)
  encrypt_items pub_key label [] items = return items
  encrypt_items pub_key label ((key, value) ∷ rest) items = do
    ciphertext ← hybrid_encrypt p pub_key value label
    encrypt_items pub_key label rest (insert key (c.base64_encode ciphertext) items)

  -- NewSealedSecret
  unfoldable pub new_sealed_secret : p.PublicKey → Secret → Action p.Rand SealedSecret
  unfolding encrypt_items
  new_sealed_secret pub_key secret = do
    lift (guard (has_place secret.meta) namespace_error)
    let label = label_for secret.meta
    items ← encrypt_items pub_key label (entries secret.secret_data) []
    items' ← encrypt_items pub_key label (string_bytes (entries secret.string_data)) items
    return (sealed_object secret items')

  -- NewSealedSecretV1
  unfoldable pub new_sealed_secret_v1 : p.PublicKey → Secret → Action p.Rand SealedSecret
  new_sealed_secret_v1 pub_key secret = do
    lift (guard c.supports_json (own "binary can't serialize JSON"))
    lift (guard (has_place secret.meta) namespace_error)
    plaintext ← lift (c.encode_secret secret)
    ciphertext ← hybrid_encrypt p pub_key plaintext (label_for secret.meta)
    return (sealed_object_v1 secret ciphertext)
