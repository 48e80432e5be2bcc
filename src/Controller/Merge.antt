-- ===== src/Controller/Merge.antt =====
-- What the controller makes of a secret that is annotated to be patched, and of one that is not.
use sealed_secrets.Base.{
  String, ◌≡◌, refl, sym, ap, ◌∙◌, true, ok, Bytes, ◌==◌, inl, inr, Bool-cases, if◌then◌else◌,
}
use sealed_secrets.Base.GoMap.{
  GoMap, nil_map, table, entries, made, index, put_all, IsTable, get-nil_map,
}
use sealed_secrets.Base.Merged.{Merged, put_all-made}
use sealed_secrets.Scope.{patch_annotation}
use sealed_secrets.Sealed.{Secret}
use sealed_secrets.Controller.{is_annotated_to_be_managed, is_annotated_to_be_patched}
use sealed_secrets.Controller.Desired.{take_owners, desired_secret}

-- A map that has the annotation is not nil.
pub made-annotated : (m : GoMap String) → (index m patch_annotation == "true") ≡ true → made m ≡ m
made-annotated nil_map h = cc (rw (get-nil_map {V = String} patch_annotation) at h)
made-annotated (table m) h = refl

-- How a patched secret relates to the old and the new one. It is handed over to the sealed secret only
-- if the annotation for that is there after the merge.
pub record IsPatched (secret new_secret out : Secret) : Type 0 where
  pub merged_data : Merged out.secret_data new_secret.secret_data secret.secret_data
  pub merged_labels : Merged out.meta.labels new_secret.meta.labels secret.meta.labels
  pub merged_annotations :
      Merged out.meta.annotations new_secret.meta.annotations secret.meta.annotations
  pub owners : out.meta.owner_references ≡ (
      if is_annotated_to_be_managed out
      then new_secret.meta.owner_references
      else secret.meta.owner_references)
  pub new_type : out.type ≡ new_secret.type
  pub same_name : out.meta.name ≡ secret.meta.name
  pub same_namespace : out.meta.namespace ≡ secret.meta.namespace
  pub same_immutable : out.immutable ≡ secret.immutable

abbrev pub merged : Secret → GoMap Bytes → GoMap String → GoMap String → Secret
merged secret d l a = record secret {
  meta = record secret.meta { labels = l; annotations = a };
  secret_data = d;
}

take_owners-IsPatched :
    (secret new_secret : Secret) (d : GoMap Bytes) (l a : GoMap String)
    → Merged d new_secret.secret_data secret.secret_data
    → Merged l new_secret.meta.labels secret.meta.labels
    → Merged a new_secret.meta.annotations secret.meta.annotations
    → IsPatched secret new_secret
        (record (take_owners new_secret (merged secret d l a)) { type = new_secret.type })
take_owners-IsPatched secret new_secret d l a md ml ma =
    elim (Bool-cases (is_annotated_to_be_managed (merged secret d l a))) [
      | inl managed ↦ rw managed (record {
        merged_data = md;
        merged_labels = ml;
        merged_annotations = ma;
        owners = rw managed;
        new_type = refl;
        same_name = refl;
        same_namespace = refl;
        same_immutable = refl;
      })
      | inr unmanaged ↦ rw unmanaged (record {
        merged_data = md;
        merged_labels = ml;
        merged_annotations = ma;
        owners = rw unmanaged;
        new_type = refl;
        same_name = refl;
        same_namespace = refl;
        same_immutable = refl;
      })
    ]

-- A secret that is annotated to be patched is patched without a panic, if the new Data, labels and
-- annotations have no key twice: each of the three holds the new entries over the old ones, the type is
-- the new one, the owners are the new ones exactly if the merged annotations say that the secret is
-- managed, and the name, the namespace and the immutability stay.
pub desired_secret-IsPatched :
    (secret new_secret : Secret)
    → is_annotated_to_be_patched secret ≡ true
    → IsTable (entries new_secret.secret_data)
    → IsTable (entries new_secret.meta.labels)
    → IsTable (entries new_secret.meta.annotations)
    → (out : Secret) × (desired_secret secret new_secret ≡ ok out) × IsPatched secret new_secret out
unfolding desired_secret
desired_secret-IsPatched secret new_secret annotated t t' t'' =
    let (d, ed, md) = put_all-made new_secret.secret_data secret.secret_data t in
    let (l, el, ml) = put_all-made new_secret.meta.labels secret.meta.labels t' in
    let (a, ea, ma) = put_all-made new_secret.meta.annotations secret.meta.annotations t'' in
    let ea' : put_all (entries new_secret.meta.annotations) secret.meta.annotations ≡ ok a =
      ap (put_all (entries new_secret.meta.annotations))
        (sym (made-annotated secret.meta.annotations annotated))
      ∙ ea in
    (
      record (take_owners new_secret (merged secret d l a)) { type = new_secret.type },
      rw (annotated, ed, el, ea'),
      take_owners-IsPatched secret new_secret d l a md ml ma,
    )
