-- ===== src/Examples/Sealing.antt =====
-- Sealing and unsealing of one small secret with the toy packages.
use sealed_secrets.Base.{
  some, true, String, ◌≡◌, ◌≢◌, ◌↔◌, refl, inl, inr, false, [], ◌∷◌, ◌++◌, ok, Bytes, bytes_of,
  utf8, replicate,
}
use sealed_secrets.Base.GoMap.{table, Entries, get, GoMap, insert_all, insert, lookup, without}
use sealed_secrets.Scope.{
  strict_scope, namespace_wide_scope, secret_scope, update_scope_annotations, encryption_label,
  strip_last_applied_annotations, delete_all,
}
use sealed_secrets.Scope.Label.{encryption_label-injective, pin, IsNamespace}
use sealed_secrets.Crypto.{put_uint16, uint16}
use sealed_secrets.Crypto.Encrypt.{hybrid_encrypt}
use sealed_secrets.Crypto.Decrypt.{open_parts, single_decrypt, hybrid_decrypt}
use sealed_secrets.Crypto.Laws.{HasKey}
use sealed_secrets.Crypto.Binding.{hybrid_decrypt-hybrid_encrypt, hybrid_decrypt_only}
use sealed_secrets.Sealed.{Codecs, Secret, SealedSecret, empty_secret, empty_meta}
use sealed_secrets.Sealed.Seal.{
  new_sealed_secret_v1, sealed_object_v1, label_for, sealed_object, new_sealed_secret,
}
use sealed_secrets.Sealed.Unseal.{
  unseal, decrypt_items, render_items, without_errors, decrypt_item, place, owner_of,
}
use sealed_secrets.Sealed.RoundTrip.{unseal-new_sealed_secret, IsReopened, applied, all_items}
use sealed_secrets.Sealed.Legacy.{unseal-new_sealed_secret_v1}
use sealed_secrets.Sealed.WrongPlace.{unseal_only}
use sealed_secrets.Examples.Toy.{
  ToyKey, key_a, key_b, toy, toy_codecs, toy_encode, toy-IsCorrect, toy-IsTotal, toy-IsBinding,
  toy_codecs-IsBase64,
}

-- Two keys, of which the second one is the right one.
abbrev pub two_keys : Entries ToyKey
two_keys = ("b", key_b) ∷ ("a", key_a) ∷ []

abbrev plaintext : Bytes
plaintext = 1 ∷ 2 ∷ []

abbrev label : Bytes
label = bytes_of "n/s"

abbrev pub ciphertext : Bytes
ciphertext = 0 ∷ 37 ∷ 1 ∷ 3 ∷ 110 ∷ 47 ∷ 115 ∷ (replicate 32 7 ++ plaintext)

hybrid_encrypt_example : hybrid_encrypt toy key_a plaintext label tt ≡ (ok ciphertext, tt)
unfolding hybrid_encrypt put_uint16 bytes_of utf8
hybrid_encrypt_example = refl

hybrid_decrypt-hybrid_encrypt_example : hybrid_decrypt toy two_keys ciphertext label ≡ ok plaintext
hybrid_decrypt-hybrid_encrypt_example =
    hybrid_decrypt-hybrid_encrypt toy toy-IsCorrect toy-IsTotal toy-IsBinding key_a plaintext label
      ciphertext tt tt hybrid_encrypt_example two_keys (inr (inl refl))

hybrid_decrypt_example : hybrid_decrypt toy two_keys ciphertext label ≡ ok plaintext
unfolding hybrid_decrypt bytes_of utf8
hybrid_decrypt_example = hybrid_decrypt-hybrid_encrypt_example

hybrid_decrypt_only_example : (plaintext ≡ plaintext) × (label ≡ label) × HasKey toy key_a two_keys
hybrid_decrypt_only_example =
    hybrid_decrypt_only toy toy-IsCorrect toy-IsTotal toy-IsBinding key_a plaintext label ciphertext
      tt tt hybrid_encrypt_example two_keys label plaintext hybrid_decrypt_example

-- A secret with an item of each kind.
abbrev pub a_secret : Secret
a_secret = record empty_secret {
  meta = record empty_meta { name = "s"; namespace = "n" };
  type = "Opaque";
  secret_data = table (("k", plaintext) ∷ []);
  string_data = table (("t", "v") ∷ []);
}

abbrev pub header : Bytes
header = 0 ∷ 37 ∷ 1 ∷ 3 ∷ 110 ∷ 47 ∷ 115 ∷ replicate 32 7

abbrev pub a_sealed_secret : SealedSecret
a_sealed_secret =
    sealed_object a_secret
      (("k", toy_encode ciphertext) ∷ ("t", toy_encode (header ++ bytes_of "v")) ∷ [])

pub new_sealed_secret_example :
    new_sealed_secret toy toy_codecs key_a a_secret tt ≡ (ok a_sealed_secret, tt)
unfolding new_sealed_secret hybrid_encrypt put_uint16 bytes_of utf8 insert secret_scope get lookup
    encryption_label update_scope_annotations delete_all strip_last_applied_annotations without
new_sealed_secret_example = refl

unseal-new_sealed_secret_example :
    (out : Secret) × (unseal toy toy_codecs false (applied a_sealed_secret a_sealed_secret) two_keys
      ≡ ok out)
    × IsReopened a_secret out
unfolding lookup
unseal-new_sealed_secret_example =
    unseal-new_sealed_secret toy toy_codecs key_a a_secret a_sealed_secret tt tt
      new_sealed_secret_example toy-IsCorrect toy-IsTotal toy-IsBinding toy_codecs-IsBase64 two_keys
      (inr (inl refl)) false a_sealed_secret (refl, tt) (refl, tt)

abbrev pub opened_secret : Secret
opened_secret = record empty_secret {
  meta = record empty_meta {
    name = "s";
    namespace = "n";
    owner_references = owner_of toy_codecs a_sealed_secret ∷ [];
  };
  type = "Opaque";
  secret_data = table (("k", plaintext) ∷ ("t", bytes_of "v") ∷ []);
}

pub unseal_example : unseal toy toy_codecs false a_sealed_secret two_keys ≡ ok opened_secret
unfolding unseal decrypt_items render_items without_errors decrypt_item hybrid_decrypt
    single_decrypt uint16 open_parts place get lookup insert bytes_of utf8 encryption_label
    secret_scope update_scope_annotations delete_all without strip_last_applied_annotations
unseal_example = refl

has_items : all_items a_secret ≢ []
unfolding insert_all insert
has_items e = cc

unseal_only_example :
    (label_for a_sealed_secret.meta ≡ label_for a_secret.meta) × HasKey toy key_a two_keys
unseal_only_example =
    unseal_only toy toy_codecs toy-IsCorrect toy-IsTotal toy-IsBinding toy_codecs-IsBase64 key_a
      a_secret a_sealed_secret tt tt new_sealed_secret_example false a_sealed_secret two_keys
      opened_secret refl has_items unseal_example

-- An encoder that knows one secret.
abbrev one_codec : Codecs
one_codec = record toy_codecs {
  encode_secret = λ secret. ok plaintext;
  decode_secret = λ bytes. ok a_secret;
}

new_sealed_secret_v1_example :
    new_sealed_secret_v1 toy one_codec key_a a_secret tt
    ≡ (ok (sealed_object_v1 a_secret ciphertext), tt)
unfolding new_sealed_secret_v1 hybrid_encrypt put_uint16 bytes_of utf8 secret_scope get
    encryption_label
new_sealed_secret_v1_example = refl

unseal-new_sealed_secret_v1_example :
    unseal toy one_codec true (sealed_object_v1 a_secret ciphertext) two_keys
    ≡ ok (record a_secret {
      meta = record a_secret.meta {
        name = a_secret.meta.name;
        namespace = a_secret.meta.namespace;
        owner_references =
            record {
              api_version = one_codec.group_version "";
              kind = "";
              name = a_secret.meta.name;
              uid = "";
              controller = some true;
            }
            ∷ [];
      };
    })
unseal-new_sealed_secret_v1_example =
    unseal-new_sealed_secret_v1 toy one_codec toy-IsCorrect toy-IsTotal toy-IsBinding key_a two_keys
      (inr (inl refl)) a_secret a_secret (sealed_object_v1 a_secret ciphertext) tt tt (λ b h. refl)
      new_sealed_secret_v1_example

-- The same annotations, read back after a write.
abbrev marked : GoMap String
marked = table (("sealedsecrets.bitnami.com/cluster-wide", "true") ∷ [])

n-IsNamespace : IsNamespace "n"
unfolding bytes_of utf8
n-IsNamespace = (λ e. cc, (λ e. cc, tt))

encryption_label-injective_example :
    (encryption_label "n" "s" strict_scope ≡ encryption_label "n" "t" namespace_wide_scope)
    ↔ (pin "n" "s" strict_scope ≡ pin "n" "t" namespace_wide_scope)
encryption_label-injective_example =
    encryption_label-injective strict_scope namespace_wide_scope "n" "s" "n" "t" n-IsNamespace
      n-IsNamespace
