-- ===== src/Kubeseal/RawItems.antt =====
-- Items that are encrypted one by one, and the flag that names their file.
use Prim.Native.Char.{Char, char, code}
use Prim.Native.String
use text.Mathlib.TextLemmas.{nil-append, cons-append}
use sealed_secrets.Base.{
  ◌≡◌, refl, sym, ap, ◌∙◌, String, false, [], ◌++◌, none, some, ok, Bytes, bytes_of, eqb,
}
use sealed_secrets.Base.Action.{bind-eq-ok}
use sealed_secrets.Base.GoMap.{Entries}
use sealed_secrets.Scope.{SealingScope, encryption_label, secret_scope}
use sealed_secrets.Crypto.{Primitives}
use sealed_secrets.Crypto.Encrypt.{hybrid_encrypt}
use sealed_secrets.Crypto.Laws.{IsCorrect, IsTotal, IsBinding, HasKey}
use sealed_secrets.Sealed.{Codecs, ObjectMeta}
use sealed_secrets.Sealed.Seal.{label_for}
use sealed_secrets.Sealed.Items.{IsBase64, IsSealed, decrypt_item-IsSealed}
use sealed_secrets.Sealed.Unseal.{decrypt_item}
use sealed_secrets.Kubeseal.{Session, drawing}
use sealed_secrets.Kubeseal.Raw.{prepended, split_first, parse_from_file, encrypt_secret_item}

-- The name of an item holds no equals sign.
abbrev pub HasNoEquals : String → Type 0
HasNoEquals String.[] = Unit
HasNoEquals (String.◌∷◌ ch s) = (eqb (code ch) b'=' ≡ false) × HasNoEquals s

abbrev equals_sign : Char
equals_sign = char 61 tt

equals_sign-append : (file : String) → String.◌++◌ "=" file ≡ String.◌∷◌ equals_sign file
equals_sign-append file =
    cons-append equals_sign String.[] file ∙ ap (String.◌∷◌ equals_sign) (nil-append file)

split_first-append :
    (key file : String)
    → HasNoEquals key
    → split_first (String.◌++◌ key (String.◌++◌ "=" file)) ≡ some (key, file)
unfolding split_first
split_first-append String.[] file h =
    ap split_first (nil-append (String.◌++◌ "=" file) ∙ equals_sign-append file)
split_first-append (String.◌∷◌ ch key) file h =
    ap split_first (cons-append ch key (String.◌++◌ "=" file))
    ∙ rw h.0 (ap (prepended ch) (split_first-append key file h.1))

split_first-none : (file : String) → HasNoEquals file → split_first file ≡ none
unfolding split_first
split_first-none String.[] h = refl
split_first-none (String.◌∷◌ ch file) h = rw h.0 (ap (prepended ch) (split_first-none file h.1))

-- For a key without an equals sign, ParseFromFile splits the key, an equals sign and a file name,
-- whatever that holds, into the key and the file name, and takes the key alone as a file name without a
-- key.
parse_from_file_lem :
    (key file : String)
    → HasNoEquals key
    → (parse_from_file (String.◌++◌ key (String.◌++◌ "=" file)) ≡ (key, file))
      × (parse_from_file key ≡ ("", key))
unfolding parse_from_file
parse_from_file_lem key file h = (
  rw (split_first-append key file h, parse_from_file),
  rw (split_first-none key h, parse_from_file),
)

module _ {p : Primitives} (c : Codecs) (correct : IsCorrect p) (total : IsTotal p)
    (binding : IsBinding p) (base64 : IsBase64 c) (pub_key : p.PublicKey)
    (keys : Entries p.PrivateKey) (held : HasKey p pub_key keys) where
  -- With an RSA-OAEP whose decryption undoes the encryption under the same key and label, returns no
  -- panic and fails for every other key and label, ciphertexts shorter than 65536 bytes, and an AES-GCM
  -- and a base64 that decode what they encoded: when EncryptSecretItem succeeds for a name, a namespace
  -- and a scope, it has written one text, and as the item of a sealed secret with that name, namespace
  -- and scope this text is decrypted to the plaintext by private keys that hold one for the public key.
  pub encrypt_secret_item-decrypt_item :
      (secret_name ns key : String) (plaintext : Bytes) (scope : SealingScope) (m : ObjectMeta)
      (s t : Session p)
      → m.namespace ≡ ns
      → m.name ≡ secret_name
      → secret_scope m.annotations ≡ scope
      → encrypt_secret_item c secret_name ns plaintext scope pub_key s ≡ (ok tt, t)
      → (text : String) × (t.out ≡ s.out ++ bytes_of text)
        × (decrypt_item p c keys (label_for m) key text ≡ ok (some plaintext, []))
  unfolding encrypt_secret_item
  encrypt_secret_item-decrypt_item secret_name ns key plaintext scope m s t e1 e2 e3 e =
      let (out, s1, first, e') =
        bind-eq-ok
          (drawing (hybrid_encrypt p pub_key plaintext (encryption_label ns secret_name scope))) _ s
          e in
      let made =
        hybrid_encrypt p pub_key plaintext (encryption_label ns secret_name scope) s.random in
      let is_sealed : IsSealed p c pub_key (encryption_label ns secret_name scope) plaintext
          (c.base64_encode out) =
        record {
          ciphertext = out;
          before = s.random;
          after = made.1;
          encoded = refl;
          encrypted = ap (λ x. (x.0, made.1)) first;
        } in
      (
        c.base64_encode out,
        sym (ap (λ x. x.1.out) e')
            ∙ ap (λ (u : Session p). u.out ++ bytes_of (c.base64_encode out))
                (sym (ap (λ x. x.1) first)),
        rw (e1, e2, e3)
            (decrypt_item-IsSealed p c pub_key (encryption_label ns secret_name scope) correct total
              binding base64 keys held key plaintext (c.base64_encode out) is_sealed),
      )
