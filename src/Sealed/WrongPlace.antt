-- ===== src/Sealed/WrongPlace.antt =====
-- A sealed secret that was sealed for one place does not unseal at another, nor without the key.
use sealed_secrets.Base.{
  String, Bool, ◌≡◌, ◌≢◌, refl, sym, ap, ◌∙◌, [], ◌∷◌, ◌++◌, List, Option, Error, ok, Outcome-cases,
  >>=-eq-ok, ok-injective, Bytes, inl, inr,
}
use sealed_secrets.Base.GoMap.{Entries, entries}
use sealed_secrets.Crypto.{Primitives}
use sealed_secrets.Crypto.Decrypt.{hybrid_decrypt}
use sealed_secrets.Crypto.Laws.{IsCorrect, IsTotal, IsBinding, HasKey}
use sealed_secrets.Crypto.Binding.{hybrid_decrypt_only}
use sealed_secrets.Sealed.{Secret, SealedSecret, Codecs}
use sealed_secrets.Sealed.Seal.{label_for, new_sealed_secret}
use sealed_secrets.Sealed.Unseal.{
  decrypt_item, decrypt_items, render_item, render_items, without_errors, unseal_items, unseal_data,
  unseal, store,
}
use sealed_secrets.Sealed.Items.{IsBase64, IsSealed, SealedAs}
use sealed_secrets.Sealed.RoundTrip.{new_sealed_secret-IsMade, all_items}

append-eq-nil {ℓ} : {A : Type ℓ} (xs ys : List A) → xs ++ ys ≡ [] → (xs ≡ []) × (ys ≡ [])
append-eq-nil [] ys h = (refl, h)
append-eq-nil (x ∷ xs) ys h = cc

module _ (p : Primitives) (c : Codecs) where
  -- Errors that a loop has collected stay.
  decrypt_items_errs :
      (keys : Entries p.PrivateKey) (label : Bytes) (items : Entries String)
      (done d : Entries Bytes) (errs : List Error)
      → decrypt_items p c keys label items done errs ≡ ok (d, [])
      → errs ≡ []
  unfolding decrypt_items
  decrypt_items_errs keys label [] done d errs h = ap (λ t. t.1) (ok-injective h)
  decrypt_items_errs keys label ((k, v) ∷ items) done d errs h =
      let (r, _, rest) = >>=-eq-ok (decrypt_item p c keys label k v) _ h in
      (append-eq-nil errs r.1
        (decrypt_items_errs keys label items (store k r.0 done) d (errs ++ r.1) rest)).0

  render_items_errs :
      (values : Entries Bytes) (items : Entries String) (done d : Entries Bytes) (errs : List Error)
      → render_items p c values items done errs ≡ ok (d, [])
      → errs ≡ []
  unfolding render_items
  render_items_errs values [] done d errs h = ap (λ t. t.1) (ok-injective h)
  render_items_errs values ((k, v) ∷ items) done d errs h =
      let (r, _, rest) = >>=-eq-ok (render_item p c values k v) _ h in
      (append-eq-nil errs r.1
        (render_items_errs values items (store k r.0 done) d (errs ++ r.1) rest)).0

  without_errors-ok :
      (r : Entries Bytes × List Error) (items : Entries Bytes)
      → without_errors p c r ≡ ok items
      → r.1 ≡ []
  unfolding without_errors
  without_errors-ok (m, []) items h = refl
  without_errors-ok (m, e ∷ errs) items h = cc

  -- A loop that ends without an error has opened its first item.
  decrypt_items_first :
      (keys : Entries p.PrivateKey) (label : Bytes) (k : String) (v : String)
      (items : Entries String) (d : Entries Bytes)
      → decrypt_items p c keys label ((k, v) ∷ items) [] [] ≡ ok (d, [])
      → (found : Option Bytes) × (decrypt_item p c keys label k v ≡ ok (found, []))
  unfolding decrypt_items
  decrypt_items_first keys label k v items d h =
      let (r, first, rest) = >>=-eq-ok (decrypt_item p c keys label k v) _ h in
      (
        r.0,
        first
            ∙ ap (λ es. ok (r.0, es))
                (decrypt_items_errs keys label items (store k r.0 []) d r.1 rest),
      )

  -- An item that is opened without an error went through HybridDecrypt.
  decrypt_item-ok :
      (keys : Entries p.PrivateKey) (label ciphertext : Bytes) (k v : String) (found : Option Bytes)
      → c.base64_decode v ≡ ok ciphertext
      → decrypt_item p c keys label k v ≡ ok (found, [])
      → (m : Bytes) × (hybrid_decrypt p keys ciphertext label ≡ ok m)
  unfolding decrypt_item
  decrypt_item-ok keys label ciphertext k v found decoded h =
      elim (Outcome-cases (hybrid_decrypt p keys ciphertext label)) [
        | inl opened ↦ opened
        | inr (inl (e, failed)) ↦
            cc (ap (λ t. t.1) (ok-injective (rw (decoded, decrypt_item, failed) at h)))
        | inr (inr broken) ↦ cc (rw (decoded, decrypt_item, broken) at h)
      ]

  -- A sealed secret that unseals has opened its first item.
  unseal_items_first :
      (s : SealedSecret) (keys : Entries p.PrivateKey) (label : Bytes) (out : Secret) (k v : String)
      (items : Entries String)
      → unseal_items p c s keys label ≡ ok out
      → entries s.spec.encrypted_data ≡ (k, v) ∷ items
      → (found : Option Bytes) × (decrypt_item p c keys label k v ≡ ok (found, []))
  unfolding unseal_items
  unseal_items_first s keys label out k v items h e =
      let (r, decrypted, h1) =
        >>=-eq-ok (decrypt_items p c keys label (entries s.spec.encrypted_data) [] []) _ h in
      let (r', rendered, h2) =
        >>=-eq-ok (render_items p c r.0 (entries s.spec.template.template_data) r.0 r.1) _ h1 in
      let (m, clean, _) = >>=-eq-ok (without_errors p c r') _ h2 in
      let none_left = without_errors-ok r' m clean in
      let none_before =
        render_items_errs r.0 (entries s.spec.template.template_data) r.0 r'.0 r.1
          (rendered ∙ ap (λ es. ok (r'.0, es)) none_left) in
      decrypt_items_first keys label k v items r.0 (
        ap (λ l. decrypt_items p c keys label l [] []) (sym e)
        ∙ decrypted
        ∙ ap (λ es. ok (r.0, es)) none_before)

  module _ (correct : IsCorrect p) (total : IsTotal p) (binding : IsBinding p) (base64 : IsBase64 c)
      (pk : p.PublicKey) (secret : Secret) (made : SealedSecret) (rnd rnd' : p.Rand)
      (sealed : new_sealed_secret p c pk secret rnd ≡ (ok made, rnd')) where
    opened_item :
        (keys : Entries p.PrivateKey) (label label' : Bytes) (k v : String) (plaintext : Bytes)
        (found : Option Bytes)
        → IsSealed p c pk label plaintext v
        → decrypt_item p c keys label' k v ≡ ok (found, [])
        → (label' ≡ label) × HasKey p pk keys
    opened_item keys label label' k v plaintext found s h =
        let (m, opened) =
          decrypt_item-ok keys label' s.ciphertext k v found
            (ap c.base64_decode s.encoded ∙ base64.decode-encode s.ciphertext) h in
        let (_, same_label, held) =
          hybrid_decrypt_only p correct total binding pk plaintext label s.ciphertext s.before
            s.after s.encrypted keys label' m opened in
        (same_label, held)

    opened_first :
        (s : SealedSecret) (keys : Entries p.PrivateKey) (out : Secret) (m : Entries Bytes)
        (items : Entries String)
        → SealedAs p c pk (label_for secret.meta) m items
        → m ≢ []
        → entries s.spec.encrypted_data ≡ items
        → unseal_items p c s keys (label_for s.meta) ≡ ok out
        → (label_for s.meta ≡ label_for secret.meta) × HasKey p pk keys
    opened_first s keys out [] items h some_item e u = absurd (some_item refl)
    opened_first s keys out (_ ∷ _) [] h some_item e u = elim h [ ]
    opened_first s keys out ((j, plaintext) ∷ m) ((k, v) ∷ items) (_, is_sealed, _) some_item e u =
        let (found, first) = unseal_items_first s keys (label_for s.meta) out k v items u e in
        opened_item keys (label_for secret.meta) (label_for s.meta) k v plaintext found is_sealed
          first

    -- With an RSA-OAEP whose decryption undoes the encryption under the same key and label, returns no
    -- panic and fails for every other key and label, ciphertexts shorter than 65536 bytes, and an AES-
    -- GCM and a base64 that decode what they encoded: an object with the specification of a sealed
    -- secret that NewSealedSecret made of at least one item unseals only if the label of its own name,
    -- namespace and scope is the label that the secret was sealed for and the private keys hold one for
    -- the public key it was sealed with.
    pub unseal_only :
        (flag : Bool) (s : SealedSecret) (keys : Entries p.PrivateKey) (out : Secret)
        → s.spec ≡ made.spec
        → all_items secret ≢ []
        → unseal p c flag s keys ≡ ok out
        → (label_for s.meta ≡ label_for secret.meta) × HasKey p pk keys
    unfolding unseal
    unseal_only flag s keys out e some_item u =
        let m = new_sealed_secret-IsMade p c pk secret made rnd rnd' sealed in
        let spec = e ∙ ap (λ o. o.spec) m.is_object in
        let (opened, u', _) =
          >>=-eq-ok (unseal_data p c flag s keys (label_for s.meta) s.spec.legacy_data) _ u in
        opened_first s keys opened (all_items secret) m.items m.is_sealed some_item
          (ap (λ t. entries t.encrypted_data) spec)
          (ap (unseal_data p c flag s keys (label_for s.meta)) (sym (ap (λ t. t.legacy_data) spec))
            ∙ u')
