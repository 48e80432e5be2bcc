-- ===== src/Sealed/Items.antt =====
-- The items of a sealed secret: the loops of NewSealedSecret encrypt them, and the loop of Unseal opens
-- what they encrypted.
use sealed_secrets.Base.{
  String, ◌≡◌, refl, ap, [], ◌∷◌, some, ok, ok-injective, Bytes, ◌==◌, inl, inr, Bool-cases,
}
use sealed_secrets.Base.Action.{bind-eq-ok}
use sealed_secrets.Base.GoMap.{Entries, insert, insert_all}
use sealed_secrets.Crypto.{Primitives}
use sealed_secrets.Crypto.Encrypt.{hybrid_encrypt}
use sealed_secrets.Crypto.Laws.{IsCorrect, IsTotal, IsBinding, HasKey}
use sealed_secrets.Crypto.Binding.{hybrid_decrypt-hybrid_encrypt}
use sealed_secrets.Sealed.{Codecs}
use sealed_secrets.Sealed.Seal.{encrypt_items}
use sealed_secrets.Sealed.Unseal.{decrypt_item, decrypt_items}

-- base64 decodes what it encoded.
pub record IsBase64 (c : Codecs) : Type 0 where
  pub decode-encode : (b : Bytes) → c.base64_decode (c.base64_encode b) ≡ ok b

-- Two tables with the same keys in the same order, and values that are in a relation.
module _ (R : Bytes → String → Type 0) where
  abbrev pub Aligned : Entries Bytes → Entries String → Type 0
  Aligned [] [] = Unit
  Aligned ((k, plaintext) ∷ m) ((j, text) ∷ items) = (k ≡ j) × R plaintext text × Aligned m items
  Aligned _ _ = ⊥

  pub Aligned-insert :
      (k : String) (plaintext : Bytes) (text : String) (m : Entries Bytes) (items : Entries String)
      → R plaintext text
      → Aligned m items
      → Aligned (insert k plaintext m) (insert k text items)
  unfolding insert
  Aligned-insert k plaintext text [] [] s h = (refl, s, tt)
  Aligned-insert k plaintext text [] (_ ∷ _) s h = elim h [ ]
  Aligned-insert k plaintext text (_ ∷ _) [] s h = elim h [ ]
  Aligned-insert k plaintext text ((i, b) ∷ m) ((j, t) ∷ items) s (e, s', h) =
      elim (Bool-cases (i == k)) [
        | inl same ↦ rw (← e, same) (refl, s, h)
        | inr other ↦ rw (← e, other) (refl, s', Aligned-insert k plaintext text m items s h)
      ]

module _ (p : Primitives) (c : Codecs) (pk : p.PublicKey) (label : Bytes) where
  -- The text under a key is the encryption of the plaintext.
  pub record IsSealed (plaintext : Bytes) (text : String) : Type 0 where
    pub ciphertext : Bytes
    pub before : p.Rand
    pub after : p.Rand
    pub encoded : text ≡ c.base64_encode ciphertext
    pub encrypted : hybrid_encrypt p pk plaintext label before ≡ (ok ciphertext, after)

  abbrev pub SealedAs : Entries Bytes → Entries String → Type 0
  SealedAs = Aligned IsSealed

  pub encrypt_items-SealedAs :
      (src m : Entries Bytes) (items items' : Entries String) (rnd rnd' : p.Rand)
      → SealedAs m items
      → encrypt_items p c pk label src items rnd ≡ (ok items', rnd')
      → SealedAs (insert_all src m) items'
  unfolding encrypt_items insert_all
  encrypt_items-SealedAs [] m items items' rnd rnd' h e = rw (← ok-injective (ap (λ t. t.0) e)) h
  encrypt_items-SealedAs ((k, plaintext) ∷ src) m items items' rnd rnd' h e =
      let (ciphertext, s1, encrypted, e1) =
        bind-eq-ok (hybrid_encrypt p pk plaintext label) _ rnd e in
      let s : IsSealed plaintext (c.base64_encode ciphertext) = record {
        ciphertext = ciphertext;
        before = rnd;
        after = s1;
        encoded = refl;
        encrypted = encrypted;
      } in
      encrypt_items-SealedAs src (insert k plaintext m)
        (insert k (c.base64_encode ciphertext) items) items' s1 rnd'
        (Aligned-insert IsSealed k plaintext (c.base64_encode ciphertext) m items s h) e1

  module _ (correct : IsCorrect p) (total : IsTotal p) (binding : IsBinding p) (base64 : IsBase64 c)
      (keys : Entries p.PrivateKey) (held : HasKey p pk keys) where
    pub decrypt_item-IsSealed :
        (key : String) (plaintext : Bytes) (text : String)
        → IsSealed plaintext text
        → decrypt_item p c keys label key text ≡ ok (some plaintext, [])
    unfolding decrypt_item
    decrypt_item-IsSealed key plaintext text s = rw (
      s.encoded,
      base64.decode-encode s.ciphertext,
      decrypt_item,
      hybrid_decrypt-hybrid_encrypt p correct total binding pk plaintext label s.ciphertext s.before
          s.after s.encrypted keys held,
    )

    pub decrypt_items-SealedAs :
        (m : Entries Bytes) (items : Entries String) (done : Entries Bytes)
        → SealedAs m items
        → decrypt_items p c keys label items done [] ≡ ok (insert_all m done, [])
    unfolding decrypt_items insert_all
    decrypt_items-SealedAs [] [] done h = refl
    decrypt_items-SealedAs [] (_ ∷ _) done h = elim h [ ]
    decrypt_items-SealedAs (_ ∷ _) [] done h = elim h [ ]
    decrypt_items-SealedAs ((k, plaintext) ∷ m) ((j, text) ∷ items) done (e, s, h) =
        rw (decrypt_item-IsSealed j plaintext text s, ← e)
          (decrypt_items-SealedAs m items (insert k plaintext done) h)
