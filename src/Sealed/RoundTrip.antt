-- ===== src/Sealed/RoundTrip.antt =====
-- What NewSealedSecret seals, Unseal opens.
use sealed_secrets.Base.{
  if_both, guard, String, ◌≡◌, refl, sym, ap, ◌∙◌, [], ◌∷◌, Option, ok, ok-injective, Bytes,
  bytes_of, Bool, List, arith, List,
}
use mathlib.Core.Path.{ap₂}
use sealed_secrets.Base.Action.{lift, bind-eq-ok}
use sealed_secrets.Base.GoMap.{
  IsTable, lookup-insert_all, insert_all-IsTable, map_values-IsTable, lookup-map_values,
  lookup-copy, get-table, GoMap, table, nil_map, or_else, map_option, lookup, get, Entries, entries,
  insert_all,
}
use sealed_secrets.Scope.{secret_scope, encryption_label, strip_last_applied_annotations}
use sealed_secrets.Scope.Annotations.{annotated, secret_scope-update}
use sealed_secrets.Crypto.{Primitives}
use sealed_secrets.Crypto.Laws.{IsCorrect, IsTotal, IsBinding, HasKey}
use sealed_secrets.Sealed.{OwnerReference, empty_secret, Secret, SealedSecret, Codecs}
use sealed_secrets.Sealed.Seal.{
  label_for, has_place, template_meta, namespace_error, sealed_object, string_bytes, encrypt_items,
  new_sealed_secret,
}
use sealed_secrets.Sealed.Unseal.{owner_of, unseal, place}
use sealed_secrets.Sealed.Items.{IsBase64, SealedAs, encrypt_items-SealedAs, decrypt_items-SealedAs}

-- The scope that annotations express is one that annotations can express.
annotated-secret_scope : (anno : GoMap String) → annotated (secret_scope anno) ≡ secret_scope anno
unfolding secret_scope
annotated-secret_scope anno = ground arith

-- The sealed secret is sealed for the place of the secret.
pub label_for-sealed_object :
    (secret : Secret) (items : Entries String)
    → label_for (sealed_object secret items).meta ≡ label_for secret.meta
label_for-sealed_object secret items =
    ap (encryption_label secret.meta.namespace secret.meta.name) (
      secret_scope-update nil_map (secret_scope secret.meta.annotations)
      ∙ annotated-secret_scope secret.meta.annotations)

-- A sealed secret as it stands in the cluster: with the specification, the name, the namespace and the
-- annotations that it was made with, and all else as the cluster has it.
abbrev pub applied : SealedSecret → SealedSecret → SealedSecret
applied made cluster = record cluster {
  meta = record cluster.meta {
    name = made.meta.name;
    namespace = made.meta.namespace;
    annotations = made.meta.annotations;
  };
  spec = made.spec;
}

-- The items of a secret: its Data, where the StringData does not replace it.
abbrev pub item : Secret → String → Option Bytes
item secret k =
    or_else (map_option bytes_of (lookup k (entries secret.string_data)))
      (lookup k (entries secret.secret_data))

-- What is kept of a secret that is sealed and unsealed.
pub record IsReopened (secret out : Secret) : Type 0 where
  pub same_items : (k : String) → get out.secret_data k ≡ item secret k
  pub same_name : out.meta.name ≡ secret.meta.name
  pub same_namespace : out.meta.namespace ≡ secret.meta.namespace
  pub same_labels : out.meta.labels ≡ secret.meta.labels
  pub stripped_annotations :
      out.meta.annotations ≡ strip_last_applied_annotations secret.meta.annotations
  pub same_type : out.type ≡ secret.type
  pub same_immutable : out.immutable ≡ secret.immutable

-- The items in the order in which the loops write them.
abbrev pub all_items : Secret → Entries Bytes
all_items secret =
    insert_all (string_bytes (entries secret.string_data))
      (insert_all (entries secret.secret_data) [])

pub all_items-IsTable : (secret : Secret) → IsTable (all_items secret)
all_items-IsTable secret =
    insert_all-IsTable (string_bytes (entries secret.string_data)) _
      (insert_all-IsTable (entries secret.secret_data) [] tt)

pub lookup-all_items :
    (secret : Secret) (k : String)
    → IsTable (entries secret.secret_data)
    → IsTable (entries secret.string_data)
    → lookup k (insert_all (all_items secret) []) ≡ item secret k
lookup-all_items secret k t t' =
    lookup-copy (all_items secret) k (all_items-IsTable secret)
    ∙ lookup-insert_all (string_bytes (entries secret.string_data))
        (insert_all (entries secret.secret_data) []) k
        (map_values-IsTable bytes_of (entries secret.string_data) t')
    ∙ ap₂ or_else (lookup-map_values bytes_of k (entries secret.string_data))
        (lookup-copy (entries secret.secret_data) k t)

-- Setting the place that a secret has already, and the owner, keeps what is kept.
place-IsReopened :
    (p : Primitives) (c : Codecs) (secret : Secret) (s : SealedSecret) (out : Secret)
    → s.meta.name ≡ secret.meta.name
    → s.meta.namespace ≡ secret.meta.namespace
    → IsReopened secret out
    → IsReopened secret (place p c s out)
unfolding place
place-IsReopened p c secret s out e e' r =
    if_both (IsReopened secret) _ _ _ (placed out.meta.owner_references)
      (placed (owner_of c s ∷ []))
  where
    placed :
        (owners : List OwnerReference)
        → IsReopened secret (record out {
          meta = record out.meta {
            name = s.meta.name;
            namespace = s.meta.namespace;
            owner_references = owners;
          };
        })
    placed owners = record {
      same_items = r.same_items;
      same_name = e;
      same_namespace = e';
      same_labels = r.same_labels;
      stripped_annotations = r.stripped_annotations;
      same_type = r.same_type;
      same_immutable = r.same_immutable;
    }

-- What a successful NewSealedSecret has done.
pub record IsMade (p : Primitives) (c : Codecs) (pk : p.PublicKey) (secret : Secret)
    (made : SealedSecret) : Type 0 where
  pub items : Entries String
  pub is_sealed : SealedAs p c pk (label_for secret.meta) (all_items secret) items
  pub is_object : made ≡ sealed_object secret items

module _ (p : Primitives) (c : Codecs) (pk : p.PublicKey) (secret : Secret) (made : SealedSecret)
    (rnd rnd' : p.Rand) (sealed : new_sealed_secret p c pk secret rnd ≡ (ok made, rnd')) where
  pub new_sealed_secret-IsMade : IsMade p c pk secret made
  unfolding new_sealed_secret
  new_sealed_secret-IsMade =
      let label = label_for secret.meta in
      let first = entries secret.secret_data in
      let second = string_bytes (entries secret.string_data) in
      let (_, s1, _, e1) =
        bind-eq-ok (lift (guard (has_place secret.meta) namespace_error)) _ rnd sealed in
      let (items, s2, some_sealed, e2) = bind-eq-ok (encrypt_items p c pk label first []) _ s1 e1 in
      let (items', s3, all_sealed, e3) =
        bind-eq-ok (encrypt_items p c pk label second items) _ s2 e2 in
      record {
        items = items';
        is_sealed =
            encrypt_items-SealedAs p c pk label second (insert_all first []) items items' s2 s3
              (encrypt_items-SealedAs p c pk label first [] [] items s1 s2 tt some_sealed)
              all_sealed;
        is_object = sym (ok-injective (ap (λ t. t.0) e3));
      }

  module _ (correct : IsCorrect p) (total : IsTotal p) (binding : IsBinding p) (base64 : IsBase64 c)
      (keys : Entries p.PrivateKey) (held : HasKey p pk keys) where
    -- The secret that unsealing builds from the opened items.
    abbrev opened : Entries Bytes → Secret
    opened m = record empty_secret {
      meta = template_meta secret.meta;
      type = secret.type;
      immutable = secret.immutable;
      secret_data = table (insert_all m []);
    }

    unseal-applied :
        (flag : Bool) (cluster : SealedSecret) (m : Entries Bytes) (items : Entries String)
        → SealedAs p c pk (label_for secret.meta) m items
        → unseal p c flag (applied (sealed_object secret items) cluster) keys
          ≡ ok (place p c (applied (sealed_object secret items) cluster) (opened m))
    unfolding unseal
    unseal-applied flag cluster m items h = rw (
      label_for-sealed_object secret items,
      decrypt_items-SealedAs p c pk (label_for secret.meta) correct total binding base64 keys held m
          items [] h,
    )

    -- With an RSA-OAEP whose decryption undoes the encryption under the same key and label, returns no
    -- panic and fails for every other key and label, ciphertexts shorter than 65536 bytes, and an AES-
    -- GCM and a base64 that decode what they encoded: a secret that NewSealedSecret sealed for a key
    -- that is among the private keys, applied to a cluster and unsealed, comes back with every item (a
    -- StringData entry over a Data entry), the same name, namespace, type, labels and immutability, and
    -- its annotations but for the copies of applied objects, if its Data and StringData have no key
    -- twice.
    pub unseal-new_sealed_secret :
        (flag : Bool) (cluster : SealedSecret)
        → IsTable (entries secret.secret_data)
        → IsTable (entries secret.string_data)
        → (out : Secret) × (unseal p c flag (applied made cluster) keys ≡ ok out)
          × IsReopened secret out
    unseal-new_sealed_secret flag cluster t t' =
        let m = new_sealed_secret-IsMade in
        let s = applied (sealed_object secret m.items) cluster in
        (
          place p c s (opened (all_items secret)),
          rw m.is_object (unseal-applied flag cluster (all_items secret) m.items m.is_sealed),
          place-IsReopened p c secret s (opened (all_items secret)) refl refl (record {
            same_items = λ k. get-table _ k ∙ lookup-all_items secret k t t';
            same_name = refl;
            same_namespace = refl;
            same_labels = refl;
            stripped_annotations = refl;
            same_type = refl;
            same_immutable = refl;
          }),
        )
