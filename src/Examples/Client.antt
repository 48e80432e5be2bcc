-- ===== src/Examples/Client.antt =====
-- Runs of kubeseal with the toy packages and a toy decoder of documents.
use sealed_secrets.Base.{
  ◌≡◌, refl, inl, inr, String, Bool, true, false, [], ◌∷◌, ◌++◌, none, some, err, own, ok, Bytes,
  bytes_of, utf8, arith, ◌==◌, if◌then◌else◌, eqb, replicate,
}
use sealed_secrets.Base.GoMap.{GoMap, table, get, insert, lookup, without}
use sealed_secrets.Scope.{
  strict_scope, encryption_label, secret_scope, update_scope_annotations, delete_all,
  strip_last_applied_annotations,
}
use sealed_secrets.Crypto.{put_uint16, public_key_fingerprint}
use sealed_secrets.Crypto.Encrypt.{hybrid_encrypt}
use sealed_secrets.Sealed.{Secret, SealedSecret, empty_secret, empty_meta}
use sealed_secrets.Sealed.Seal.{new_sealed_secret, label_for}
use sealed_secrets.Sealed.Unseal.{decrypt_item}
use sealed_secrets.Sealed.RoundTrip.{IsReopened, applied}
use sealed_secrets.World.{rsa_key}
use sealed_secrets.Kubeseal.{Serializers, Session, secret_resource}
use sealed_secrets.Kubeseal.Documents.{
  DocumentDecoder, decoded, end_of_file, read_documents, read_secrets,
}
use sealed_secrets.Kubeseal.Reading.{ends, gives, collected, read_secrets-Gives}
use sealed_secrets.Kubeseal.Output.{
  equals_lowered, pretty_encoder, decode_sealed_secret, resource_output, sealed_secret_output,
}
use sealed_secrets.Kubeseal.Prepare.{SealOptions, ClientNamespace, with_namespace, prepare}
use sealed_secrets.Kubeseal.Prepared.{IsPrepared, prepare-IsPrepared}
use sealed_secrets.Kubeseal.Seal.{seal_secret, seal_secrets, seal}
use sealed_secrets.Kubeseal.Sealing.{IsDelivered, seal_secret-IsDelivered}
use sealed_secrets.Kubeseal.PrivateKeys.{
  KeyFiles, parse_priv_key, read_priv_keys_from_file, add_priv_keys, read_priv_keys,
}
use sealed_secrets.Kubeseal.Recovery.{unseal_sealed_secret}
use sealed_secrets.Kubeseal.Recovered.{unseal_sealed_secret-IsReopened}
use sealed_secrets.Kubeseal.Merge.{
  FileCalls, merged, read_original, rewrite, render_merged, merge_update, seal_merging_into,
}
use sealed_secrets.Kubeseal.Merging.{IsMerged, IsKept, merged-IsMerged, seal_merging_into-IsKept}
use sealed_secrets.Kubeseal.Raw.{encrypt_secret_item}
use sealed_secrets.Kubeseal.RawItems.{encrypt_secret_item-decrypt_item}
use sealed_secrets.Examples.Toy.{
  key_a, key_b, toy, toy_codecs, toy-IsCorrect, toy-IsTotal, toy-IsBinding, toy-IsCollisionFree,
  toy_codecs-IsBase64,
}
use sealed_secrets.Examples.Sealing.{a_secret, a_sealed_secret, two_keys, new_sealed_secret_example}

-- One document, and the end of the file.
abbrev pub toy_docs : DocumentDecoder Secret
toy_docs = record {
  Decoder = Bool;
  new_decoder = λ r. true;
  next = λ dec. if dec then (a_secret, decoded, false) else (empty_secret, end_of_file, false);
  is_empty = λ s. s.meta.name == "";
}

read_secrets-Gives_example :
    read_secrets toy_docs 2 (ok []) ≡ some (collected toy_docs ((a_secret, decoded) ∷ []))
read_secrets-Gives_example =
    read_secrets-Gives toy_docs (ok []) ((a_secret, decoded) ∷ []) 2
      (gives true false a_secret decoded [] refl refl
        (ends false false empty_secret end_of_file refl refl refl))
      (omega arith)

abbrev pub no_overrides : SealOptions
no_overrides = record {
  output_format = "json";
  scope = strict_scope;
  allow_empty_data = false;
  override_name = "";
  override_namespace = "";
}

abbrev pub toy_namespace : ClientNamespace
toy_namespace = record { ns = "n"; namespace_set = true }

prepare_example : prepare no_overrides toy_namespace a_secret ≡ ok a_secret
unfolding prepare with_namespace secret_scope get lookup
prepare_example = refl

prepare-IsPrepared_example : IsPrepared no_overrides toy_namespace a_secret a_secret
prepare-IsPrepared_example =
    prepare-IsPrepared no_overrides toy_namespace a_secret a_secret prepare_example

-- Every object is written as one byte, and every text read as the same sealed secret.
abbrev pub toy_serializers : Serializers
toy_serializers = record {
  Serializer = Unit;
  info = λ media_type. some (none, tt);
  encode = λ s gv obj. ok (7 ∷ []);
  decode_into_sealed = λ b. ok a_sealed_secret;
  marshal = λ s. ok [];
  unmarshal = λ b. ok a_sealed_secret;
}

abbrev pub toy_session : Session toy
toy_session = record { random = tt; out = [] }

abbrev pub written_session : Session toy
written_session = record { random = tt; out = 7 ∷ 10 ∷ [] }

pub seal_secret_example :
    seal_secret toy_codecs toy_serializers key_a no_overrides toy_namespace a_secret toy_session
    ≡ (ok tt, written_session)
unfolding seal_secret prepare with_namespace new_sealed_secret hybrid_encrypt put_uint16 bytes_of
    utf8 insert secret_scope get lookup encryption_label update_scope_annotations delete_all
    strip_last_applied_annotations without sealed_secret_output resource_output pretty_encoder
    equals_lowered
seal_secret_example = refl

seal_secret-IsDelivered_example :
    IsDelivered toy_codecs toy_serializers key_a no_overrides toy_namespace two_keys false
      a_sealed_secret a_secret toy_session written_session
unfolding lookup
seal_secret-IsDelivered_example =
    seal_secret-IsDelivered toy_codecs toy_serializers key_a no_overrides toy_namespace
      toy-IsCorrect toy-IsTotal toy-IsBinding toy_codecs-IsBase64 two_keys (inr (inl refl)) false
      a_sealed_secret a_secret toy_session written_session (refl, tt) (refl, tt) seal_secret_example

-- Two files, each a PEM block with one key.
abbrev pub toy_files : KeyFiles toy
toy_files = record {
  read_file = λ filename. ok (bytes_of filename);
  parse_private_key_pem = λ b. elim b [
    | [] ↦ err (own "no key")
    | first ∷ rest ↦ ok (rsa_key (if eqb first b'a' then key_a else key_b))
  ];
  decode_list = λ b. err (own "no list");
}

read_priv_keys_example :
    read_priv_keys toy_files toy_docs 2 ("b" ∷ "a" ∷ []) [] ≡ some (ok two_keys)
unfolding read_priv_keys read_priv_keys_from_file parse_priv_key add_priv_keys
    public_key_fingerprint insert bytes_of utf8
read_priv_keys_example = refl

read_file_a : read_priv_keys_from_file toy_files toy_docs 2 "a" ≡ some (ok (key_a ∷ []))
unfolding read_priv_keys_from_file parse_priv_key bytes_of utf8
read_file_a = refl

-- The same sealed secret as the cluster holds it.
abbrev cluster_serializers : Serializers
cluster_serializers = record toy_serializers {
  decode_into_sealed = λ b. ok (applied a_sealed_secret a_sealed_secret);
}

unseal_sealed_secret-IsReopened_example :
    (opened : Secret) × (unseal_sealed_secret toy_codecs cluster_serializers false "yaml" toy_files
        toy_docs 2
        (ok [])
        ("b" ∷ "a" ∷ [])
        toy_session
      ≡ some (resource_output cluster_serializers "yaml" "v1" (secret_resource opened) toy_session))
    × IsReopened a_secret opened
unfolding lookup
unseal_sealed_secret-IsReopened_example =
    unseal_sealed_secret-IsReopened toy-IsCollisionFree toy_files toy_docs 2 toy_codecs
      cluster_serializers false "yaml" toy-IsCorrect toy-IsTotal toy-IsBinding toy_codecs-IsBase64
      key_a a_secret a_sealed_secret a_sealed_secret tt tt [] ("b" ∷ "a" ∷ []) two_keys toy_session
      new_sealed_secret_example (refl, tt) (refl, tt) refl read_priv_keys_example
      (inr (inl (key_a ∷ [], read_file_a, inl refl)))

abbrev labelled : GoMap String → SealedSecret
labelled labels = record a_sealed_secret {
  spec = record a_sealed_secret.spec {
    encrypted_data = table [];
    template = record a_sealed_secret.spec.template {
      meta = record empty_meta { labels = labels; annotations = table [] };
      template_data = table [];
    };
  };
}

merged-IsMerged_example :
    (out : SealedSecret) × (merged
        (labelled (table (("a", "1") ∷ [])))
        (labelled (table (("b", "2") ∷ [])))
      ≡ ok out)
    × IsMerged (labelled (table (("a", "1") ∷ []))) (labelled (table (("b", "2") ∷ []))) out
unfolding lookup
merged-IsMerged_example =
    merged-IsMerged (labelled (table (("a", "1") ∷ []))) (labelled (table (("b", "2") ∷ []))) refl
      refl refl refl tt tt (refl, tt) tt

-- A file is its content and the place for the next write.
abbrev pub toy_file : FileCalls
toy_file = record {
  File = Bytes;
  open_file = λ name s. (ok tt, s);
  read_all = λ s. (ok s, s);
  truncate = λ s. (ok tt, []);
  seek = λ s. (ok tt, s);
  copy = λ b s. (ok tt, s ++ b);
  close = λ s. (ok tt, s);
}

-- A document without a secret: nothing is written.
abbrev no_docs : DocumentDecoder Secret
no_docs = record toy_docs { new_decoder = λ r. false }

seal_merging_into_example :
    seal_merging_into toy_codecs toy_serializers key_a no_overrides toy_namespace toy_file no_docs 1
      (ok [])
      "f"
      (toy_session, 5 ∷ [])
    ≡ some (
      err (own "no secrets found. Ensure the input is valid and UTF-8 encoded"),
      (toy_session, 5 ∷ []),
    )
unfolding seal_merging_into read_original rewrite render_merged merge_update seal seal_secrets
    read_secrets read_documents decode_sealed_secret
seal_merging_into_example = refl

seal_merging_into-IsKept_example :
    IsKept toy_codecs toy_serializers key_a no_overrides toy_namespace toy_file no_docs 1
      (ok [])
      "f"
      toy_session
      (5 ∷ [])
      (5 ∷ [])
seal_merging_into-IsKept_example =
    seal_merging_into-IsKept toy_codecs toy_serializers key_a no_overrides toy_namespace toy_file
      no_docs 1 (ok []) "f" toy_session toy_session (5 ∷ []) (5 ∷ [])
      (err (own "no secrets found. Ensure the input is valid and UTF-8 encoded"))
      seal_merging_into_example

abbrev item : String
item = toy_codecs.base64_encode (0 ∷ 37 ∷ 1 ∷ 3 ∷ 110 ∷ 47 ∷ 115 ∷ (replicate 32 7 ++ (1 ∷ 2 ∷ [])))

encrypt_secret_item_example :
    encrypt_secret_item toy_codecs "s" "n" (1 ∷ 2 ∷ []) strict_scope key_a toy_session
    ≡ (ok tt, record toy_session { out = bytes_of item })
unfolding encrypt_secret_item hybrid_encrypt put_uint16 bytes_of utf8 encryption_label
encrypt_secret_item_example = refl

encrypt_secret_item-decrypt_item_example :
    (text : String) × (bytes_of item ≡ [] ++ bytes_of text)
    × (decrypt_item toy toy_codecs two_keys (label_for a_secret.meta) "k" text
        ≡ ok (some (1 ∷ 2 ∷ []), []))
unfolding secret_scope get lookup
encrypt_secret_item-decrypt_item_example =
    encrypt_secret_item-decrypt_item toy_codecs toy-IsCorrect toy-IsTotal toy-IsBinding
      toy_codecs-IsBase64 key_a two_keys (inr (inl refl)) "s" "n" "k" (1 ∷ 2 ∷ []) strict_scope
      a_secret.meta toy_session (record toy_session { out = bytes_of item }) refl refl refl
      encrypt_secret_item_example
