-- ===== src/Sealed/Tables.antt =====
-- The maps of an unsealed secret hold no key twice, and it stands where its sealed secret stands.
use sealed_secrets.Base.{
  ◌≡◌, refl, sym, ◌∙◌, subst, String, Bool, List, [], ◌∷◌, Option, none, some, Error, ok, Bytes,
  >>=-eq-ok, ok-injective, if_both, ◌==◌,
}
use sealed_secrets.Base.GoMap.{
  GoMap, nil_map, table, Entries, entries, insert-IsTable, without, lookup-without, IsTable,
}
use sealed_secrets.Scope.{last_applied_keys, delete_all, strip_last_applied_annotations}
use sealed_secrets.Crypto.{Primitives}
use sealed_secrets.Sealed.{Secret, SealedSecret, Codecs}
use sealed_secrets.Sealed.Seal.{label_for}
use sealed_secrets.Sealed.Unseal.{
  store, decrypt_item, decrypt_items, render_item, render_items, without_errors, unseal_items,
  unseal_data, place, unseal,
}

without-IsTable {ℓ} : {V : Type ℓ} (k : String) (m : Entries V) → IsTable m → IsTable (without k m)
unfolding without
without-IsTable k [] t = tt
without-IsTable {V = V} k ((j, v) ∷ m) (fresh, t) =
    if_both (IsTable {V = V}) (j == k) _ _ (without-IsTable k m t) (
      lookup-without k j m ∙ rw fresh (if_both (λ o. o ≡ none) (k == j) none none refl refl),
      without-IsTable k m t,
    )

delete_all-IsTable {ℓ} :
    {V : Type ℓ} (ks : List String) (m : Entries V)
    → IsTable m
    → IsTable (entries (delete_all ks (table m)))
unfolding delete_all
delete_all-IsTable [] m t = t
delete_all-IsTable (k ∷ ks) m t = delete_all-IsTable ks (without k m) (without-IsTable k m t)

pub strip_last_applied_annotations-IsTable :
    (m : GoMap String) → IsTable (entries m) → IsTable (entries (strip_last_applied_annotations m))
unfolding strip_last_applied_annotations
strip_last_applied_annotations-IsTable nil_map t = tt
strip_last_applied_annotations-IsTable (table m) t = delete_all-IsTable last_applied_keys m t

store-IsTable :
    (key : String) (o : Option Bytes) (items : Entries Bytes)
    → IsTable items
    → IsTable (store key o items)
store-IsTable key none items t = t
store-IsTable key (some value) items t = insert-IsTable key value items t

module _ (p : Primitives) (c : Codecs) where
  decrypt_items-IsTable :
      (keys : Entries p.PrivateKey) (label : Bytes) (source : Entries String)
      (items : Entries Bytes) (errs : List Error) (r : Entries Bytes × List Error)
      → decrypt_items p c keys label source items errs ≡ ok r
      → IsTable items
      → IsTable r.0
  unfolding decrypt_items
  decrypt_items-IsTable keys label [] items errs r e t =
      subst (λ (v : Entries Bytes × List Error). IsTable v.0) (ok-injective e) t
  decrypt_items-IsTable keys label ((key, value) ∷ rest) items errs r e t =
      let (round, first, second) = >>=-eq-ok (decrypt_item p c keys label key value) _ e in
      decrypt_items-IsTable keys label rest _ _ r second (store-IsTable key round.0 items t)

  render_items-IsTable :
      (values : Entries Bytes) (source : Entries String) (items : Entries Bytes) (errs : List Error)
      (r : Entries Bytes × List Error)
      → render_items p c values source items errs ≡ ok r
      → IsTable items
      → IsTable r.0
  unfolding render_items
  render_items-IsTable values [] items errs r e t =
      subst (λ (v : Entries Bytes × List Error). IsTable v.0) (ok-injective e) t
  render_items-IsTable values ((key, text) ∷ rest) items errs r e t =
      let (round, first, second) = >>=-eq-ok (render_item p c values key text) _ e in
      render_items-IsTable values rest _ _ r second (store-IsTable key round.0 items t)

  without_errors-IsTable :
      (r : Entries Bytes × List Error) (items : Entries Bytes)
      → without_errors p c r ≡ ok items
      → IsTable r.0
      → IsTable items
  unfolding without_errors
  without_errors-IsTable (rendered, []) items e t =
      subst (λ (v : Entries Bytes). IsTable v) (ok-injective e) t
  without_errors-IsTable (rendered, _ ∷ _) items e t = absurd (cc e)

  unseal_items-IsTable :
      (s : SealedSecret) (keys : Entries p.PrivateKey) (label : Bytes) (out : Secret)
      → unseal_items p c s keys label ≡ ok out
      → IsTable (entries out.secret_data)
  unfolding unseal_items
  unseal_items-IsTable s keys label out e =
      let (decrypted, first, e1) =
        >>=-eq-ok (decrypt_items p c keys label (entries s.spec.encrypted_data) [] []) _ e in
      let (rendered, second, e2) =
        >>=-eq-ok
          (render_items p c decrypted.0 (entries s.spec.template.template_data) decrypted.0
            decrypted.1)
          _ e1 in
      let (items, third, e3) = >>=-eq-ok (without_errors p c rendered) _ e2 in
      subst (λ (v : Secret). IsTable (entries v.secret_data)) (ok-injective e3)
        (without_errors-IsTable rendered items third (
          render_items-IsTable decrypted.0 _ decrypted.0 decrypted.1 rendered second
            (decrypt_items-IsTable keys label _ [] [] decrypted first tt)))

  pub place-contents :
      (s : SealedSecret) (secret : Secret)
      → ((place p c s secret).secret_data ≡ secret.secret_data)
        × ((place p c s secret).meta.namespace ≡ s.meta.namespace)
        × ((place p c s secret).meta.name ≡ s.meta.name)
  unfolding place
  place-contents s secret =
      if_both
        (λ (v : Secret).
          (v.secret_data ≡ secret.secret_data)
          × (v.meta.namespace ≡ s.meta.namespace)
          × (v.meta.name ≡ s.meta.name))
        _ _ _ (refl, refl, refl) (refl, refl, refl)

  -- An unsealed secret that is not of the deprecated form.
  pub record IsPlaced (s : SealedSecret) (out : Secret) : Type 0 where
    pub is_table : IsTable (entries out.secret_data)
    pub same_namespace : out.meta.namespace ≡ s.meta.namespace
    pub same_name : out.meta.name ≡ s.meta.name

  pub unseal-IsPlaced :
      (flag : Bool) (s : SealedSecret) (keys : Entries p.PrivateKey) (out : Secret)
      → s.spec.legacy_data ≡ none
      → unseal p c flag s keys ≡ ok out
      → IsPlaced s out
  unfolding unseal unseal_data
  unseal-IsPlaced flag s keys out current e =
      let (secret, first, second) =
        >>=-eq-ok (unseal_data p c flag s keys (label_for s.meta) s.spec.legacy_data) _ e in
      let (same, in_namespace, named) = place-contents s secret in
      let is_out = ok-injective second in
      let first' : unseal_items p c s keys (label_for s.meta) ≡ ok secret =
        rw (current, unseal_data) at first in
      subst (IsPlaced s) is_out (record {
        is_table =
            subst (λ (m : GoMap Bytes). IsTable (entries m)) (sym same)
              (unseal_items-IsTable s keys _ secret first');
        same_namespace = in_namespace;
        same_name = named;
      })
