-- ===== src/Kubeseal/MergedItems.antt =====
-- What --merge-into makes of two sealed secrets opens to the items of both.
use sealed_secrets.Base.{
  String, ◌≡◌, refl, sym, ap, ◌∙◌, subst, [], ◌∷◌, some, ok, ok-injective, Bytes, Bool, >>=-eq-ok,
}
use sealed_secrets.Base.GoMap.{
  GoMap, nil_map, table, Entries, entries, get, get-table, lookup, lookup-copy, insert, insert_all,
  lookup-insert_all, insert_all-IsTable, put_all, put_all-table, or_else, IsTable,
}
use mathlib.Core.Path.{ap₂}
use sealed_secrets.Crypto.{Primitives}
use sealed_secrets.Crypto.Laws.{IsCorrect, IsTotal, IsBinding, HasKey}
use sealed_secrets.Sealed.{Secret, SealedSecret, Codecs, empty_secret}
use sealed_secrets.Sealed.Seal.{label_for, template_meta, sealed_object, new_sealed_secret}
use sealed_secrets.Sealed.Items.{IsBase64, SealedAs, Aligned, Aligned-insert, decrypt_item-IsSealed}
use sealed_secrets.Sealed.RoundTrip.{
  applied, item, all_items, all_items-IsTable, lookup-all_items, label_for-sealed_object,
  new_sealed_secret-IsMade,
}
use sealed_secrets.Sealed.Tables.{place-contents}
use sealed_secrets.Sealed.Unseal.{decrypt_item, decrypt_items, unseal, place}
use sealed_secrets.Kubeseal.Merge.{merged, merged_as, merged_map}

module _ (p : Primitives) (c : Codecs) (keys : Entries p.PrivateKey) (label : Bytes) where
  -- The text opens to the plaintext, under whatever key of the table it stands.
  abbrev Opens : Bytes → String → Type 0
  Opens plaintext text =
      (key : String) → decrypt_item p c keys label key text ≡ ok (some plaintext, [])

  decrypt_items-Opens :
      (m : Entries Bytes) (items : Entries String) (done : Entries Bytes)
      → Aligned Opens m items
      → decrypt_items p c keys label items done [] ≡ ok (insert_all m done, [])
  unfolding decrypt_items insert_all
  decrypt_items-Opens [] [] done h = refl
  decrypt_items-Opens [] (_ ∷ _) done h = elim h [ ]
  decrypt_items-Opens (_ ∷ _) [] done h = elim h [ ]
  decrypt_items-Opens ((k, plaintext) ∷ m) ((j, text) ∷ items) done (e, opens, h) =
      rw (opens j, ← e) (decrypt_items-Opens m items (insert k plaintext done) h)

  -- Tables that open are written over each other entry by entry.
  insert_all-Opens :
      (m m' : Entries Bytes) (items items' : Entries String)
      → Aligned Opens m items
      → Aligned Opens m' items'
      → Aligned Opens (insert_all m m') (insert_all items items')
  unfolding insert_all
  insert_all-Opens [] m' [] items' h h' = h'
  insert_all-Opens [] m' (_ ∷ _) items' h h' = elim h [ ]
  insert_all-Opens (_ ∷ _) m' [] items' h h' = elim h [ ]
  insert_all-Opens ((k, plaintext) ∷ m) m' ((j, text) ∷ items) items' (e, opens, h) h' =
      insert_all-Opens m (insert k plaintext m') items (insert j text items') h (
        subst (λ i. Aligned Opens (insert k plaintext m') (insert i text items')) e
          (Aligned-insert Opens k plaintext text m' items' opens h'))

  module _ (correct : IsCorrect p) (total : IsTotal p) (binding : IsBinding p)
      (base64 : IsBase64 c) where
    SealedAs-Opens :
        (pk : p.PublicKey) (held : HasKey p pk keys) (m : Entries Bytes) (items : Entries String)
        → SealedAs p c pk label m items
        → Aligned Opens m items
    SealedAs-Opens pk held [] [] h = tt
    SealedAs-Opens pk held [] (_ ∷ _) h = elim h [ ]
    SealedAs-Opens pk held (_ ∷ _) [] h = elim h [ ]
    SealedAs-Opens pk held ((k, plaintext) ∷ m) ((j, text) ∷ items) (e, s, h) = (
      e,
      (λ key.
          decrypt_item-IsSealed p c pk label correct total binding base64 keys held key plaintext
            text s),
      SealedAs-Opens pk held m items h,
    )

-- A merge of two sealed secrets without templates has the entries of the new one written over those of the old one.
merged-objects :
    (a b : Secret) (items items' : Entries String) (out : SealedSecret)
    → merged (sealed_object a items) (sealed_object b items') ≡ ok out
    → (annotations : GoMap String) × (labels : GoMap String) × (out ≡ (
        merged_as
          (sealed_object a items)
          (table (insert_all items' items))
          annotations
          labels
          nil_map))
unfolding merged put_all
merged-objects a b items items' out e =
    let (d, e1, r1) = >>=-eq-ok (merged_map (table items') (table items)) _ e in
    let (an, e2, r2) =
      >>=-eq-ok (merged_map (template_meta b.meta).annotations (template_meta a.meta).annotations) _
        r1 in
    let (l, e3, r3) =
      >>=-eq-ok (merged_map (template_meta b.meta).labels (template_meta a.meta).labels) _ r2 in
    let is_table : table (insert_all items' items) ≡ d =
      ok-injective (sym (put_all-table items' items) ∙ e1) in
    (
      an,
      l,
      sym (ok-injective r3)
          ∙ ap (λ m. merged_as (sealed_object a items) m an l nil_map) (sym is_table),
    )

module _ (p : Primitives) (c : Codecs) (correct : IsCorrect p) (total : IsTotal p)
    (binding : IsBinding p) (base64 : IsBase64 c) (keys : Entries p.PrivateKey) where
  lookup-merged :
      (a b : Secret) (k : String)
      → IsTable (entries a.secret_data)
      → IsTable (entries a.string_data)
      → IsTable (entries b.secret_data)
      → IsTable (entries b.string_data)
      → lookup k (insert_all (insert_all (all_items b) (all_items a)) [])
        ≡ or_else (item b k) (item a k)
  lookup-merged a b k t0 t1 t2 t3 =
      let old = all_items-IsTable a in
      let new = all_items-IsTable b in
      lookup-copy (insert_all (all_items b) (all_items a)) k
        (insert_all-IsTable (all_items b) (all_items a) old)
      ∙ lookup-insert_all (all_items b) (all_items a) k new
      ∙ ap₂ or_else (sym (lookup-copy (all_items b) k new) ∙ lookup-all_items b k t2 t3)
          (sym (lookup-copy (all_items a) k old) ∙ lookup-all_items a k t0 t1)

  -- What is unsealed of a merge.
  unseal-merged_as :
      (flag : Bool) (a : Secret) (cluster : SealedSecret) (m : Entries Bytes)
      (items : Entries String) (items0 : Entries String) (annotations labels : GoMap String)
      → Aligned (Opens p c keys (label_for a.meta)) m items
      → (opened : Secret) × (unseal p c flag
            (applied
              (merged_as (sealed_object a items0) (table items) annotations labels nil_map)
              cluster)
            keys
          ≡ ok opened)
        × (opened.secret_data ≡ table (insert_all m []))
  unfolding unseal
  unseal-merged_as flag a cluster m items items0 annotations labels h =
      let contents = record empty_secret {
        meta = record (template_meta a.meta) { annotations = annotations; labels = labels };
        type = a.type;
        immutable = a.immutable;
        secret_data = table (insert_all m []);
      } in
      let s =
        applied (merged_as (sealed_object a items0) (table items) annotations labels nil_map)
          cluster in
      (
        place p c s contents,
        rw (
          label_for-sealed_object a items0,
          decrypt_items-Opens p c keys (label_for a.meta) m items [] h,
        ),
        (place-contents p c s contents).0,
      )

  -- With an RSA-OAEP whose decryption undoes the encryption under the same key and label, returns no
  -- panic and fails for every other key and label, ciphertexts shorter than 65536 bytes, and an AES-GCM
  -- and a base64 that decode what they encoded: when NewSealedSecret has made an original and an update
  -- of two secrets with one label for encryption, each for a key that is among the private keys and
  -- each of a secret whose Data and StringData have no key twice, and the merge of SealMergingInto
  -- writes the update into the original, then the result, applied to a cluster, unseals, and under each
  -- key it has the item of the update's secret, or else that of the original's.
  pub unseal-merged :
      (pk pk' : p.PublicKey) (a b : Secret) (orig update out cluster : SealedSecret) (flag : Bool)
      (rnd rnd1 rnd2 rnd3 : p.Rand)
      → HasKey p pk keys
      → HasKey p pk' keys
      → IsTable (entries a.secret_data)
      → IsTable (entries a.string_data)
      → IsTable (entries b.secret_data)
      → IsTable (entries b.string_data)
      → label_for b.meta ≡ label_for a.meta
      → new_sealed_secret p c pk a rnd ≡ (ok orig, rnd1)
      → new_sealed_secret p c pk' b rnd2 ≡ (ok update, rnd3)
      → merged orig update ≡ ok out
      → (opened : Secret) × (unseal p c flag (applied out cluster) keys ≡ ok opened)
        × ((k : String) → get opened.secret_data k ≡ or_else (item b k) (item a k))
  unseal-merged pk pk' a b orig update out cluster flag rnd rnd1 rnd2 rnd3 held held' t0 t1 t2 t3
        same made made' e =
      let old = new_sealed_secret-IsMade p c pk a orig rnd rnd1 made in
      let new = new_sealed_secret-IsMade p c pk' b update rnd2 rnd3 made' in
      let label = label_for a.meta in
      let is_new : SealedAs p c pk' label (all_items b) new.items =
        subst (λ l. SealedAs p c pk' l (all_items b) new.items) same new.is_sealed in
      let opens =
        insert_all-Opens p c keys label (all_items b) (all_items a) new.items old.items
          (SealedAs-Opens p c keys label correct total binding base64 pk' held' (all_items b)
            new.items is_new)
          (SealedAs-Opens p c keys label correct total binding base64 pk held (all_items a)
            old.items old.is_sealed) in
      let (annotations, labels, is_out) =
        merged-objects a b old.items new.items out (rw (old.is_object, new.is_object) at e) in
      let (opened, is_opened, data_of) =
        unseal-merged_as flag a cluster (insert_all (all_items b) (all_items a))
          (insert_all new.items old.items) old.items annotations labels opens in
      (
        opened,
        ap (λ v. unseal p c flag (applied v cluster) keys) is_out ∙ is_opened,
        (λ k. ap (λ m. get m k) data_of ∙ get-table _ k ∙ lookup-merged a b k t0 t1 t2 t3),
      )
