-- ===== src/Kubeseal/Merging.antt =====
-- What SealMergingInto makes of the original, and when it writes the file.
use sealed_secrets.Base.{
  ℕ, String, ◌≡◌, refl, sym, ap, ◌∙◌, ◌∷◌, inl, inr, Option-cases, some, some-injective, Outcome,
  ok, err, panic, Bytes, subst,
}
use sealed_secrets.Base.GoMap.{GoMap, Entries, nil_map, entries, made, put_all, IsTable}
use sealed_secrets.Base.Merged.{Merged, put_all-made, put_all_total, put_all-nil_map}
use sealed_secrets.Crypto.{Primitives}
use sealed_secrets.Sealed.{Secret, SealedSecret, Codecs}
use sealed_secrets.Kubeseal.{Reader, Serializers, Session}
use sealed_secrets.Kubeseal.Documents.{DocumentDecoder}
use sealed_secrets.Kubeseal.Prepare.{SealOptions, ClientNamespace}
use sealed_secrets.Kubeseal.Merge.{
  FileCalls, merged, merged_as, merged_map, read_original, rewrite, render_merged, rewritten,
  after_reading, seal_merging_into,
}

-- A map that is not nil.
abbrev pub IsAllocated {ℓ} : {V : Type ℓ} → GoMap V → Type ℓ
IsAllocated m = made m ≡ m

-- The four maps hold the new entries over the old ones, and nothing else has changed.
pub record IsMerged (orig update out : SealedSecret) : Type 0 where
  pub merged_data :
      Merged out.spec.encrypted_data update.spec.encrypted_data orig.spec.encrypted_data
  pub merged_annotations :
      Merged out.spec.template.meta.annotations update.spec.template.meta.annotations
        orig.spec.template.meta.annotations
  pub merged_labels :
      Merged out.spec.template.meta.labels update.spec.template.meta.labels
        orig.spec.template.meta.labels
  pub merged_templates :
      Merged out.spec.template.template_data update.spec.template.template_data
        orig.spec.template.template_data
  pub same_meta : out.meta ≡ orig.meta
  pub same_type : out.spec.template.type ≡ orig.spec.template.type
  pub same_legacy_data : out.spec.legacy_data ≡ orig.spec.legacy_data

merged_map-allocated {ℓ} :
    {V : Type ℓ} (src dst : GoMap V)
    → IsAllocated dst
    → IsTable (entries src)
    → (out : GoMap V) × (merged_map src dst ≡ ok out) × Merged out src dst
merged_map-allocated src dst allocated t =
    let (out, e, m) = put_all-made src dst t in
    (out, ap (put_all (entries src)) (sym allocated) ∙ e, m)

-- When the four maps of the original are allocated and those of the update have no key twice, the merge
-- of SealMergingInto makes no panic: each of the items, annotations, labels and template entries of the
-- result holds the new entries over the old ones, and the metadata, the type and the deprecated data of
-- the original stay.
pub merged-IsMerged :
    (orig update : SealedSecret)
    → IsAllocated orig.spec.encrypted_data
    → IsAllocated orig.spec.template.meta.annotations
    → IsAllocated orig.spec.template.meta.labels
    → IsAllocated orig.spec.template.template_data
    → IsTable (entries update.spec.encrypted_data)
    → IsTable (entries update.spec.template.meta.annotations)
    → IsTable (entries update.spec.template.meta.labels)
    → IsTable (entries update.spec.template.template_data)
    → (out : SealedSecret) × (merged orig update ≡ ok out) × IsMerged orig update out
unfolding merged
merged-IsMerged orig update a1 a2 a3 a4 t1 t2 t3 t4 =
    let (d, e1, m1) =
      merged_map-allocated update.spec.encrypted_data orig.spec.encrypted_data a1 t1 in
    let (a, e2, m2) =
      merged_map-allocated update.spec.template.meta.annotations orig.spec.template.meta.annotations
        a2 t2 in
    let (l, e3, m3) =
      merged_map-allocated update.spec.template.meta.labels orig.spec.template.meta.labels a3 t3 in
    let (td, e4, m4) =
      merged_map-allocated update.spec.template.template_data orig.spec.template.template_data a4
        t4 in
    (
      merged_as orig d a l td,
      rw (e1, e2, e3, e4),
      record {
        merged_data = m1;
        merged_annotations = m2;
        merged_labels = m3;
        merged_templates = m4;
        same_meta = refl;
        same_type = refl;
        same_legacy_data = refl;
      },
    )

-- A write to a nil map of labels panics.
merged-nil_labels :
    (orig update : SealedSecret) (k v : String) (more : Entries String)
    → orig.spec.template.meta.labels ≡ nil_map
    → entries update.spec.template.meta.labels ≡ (k, v) ∷ more
    → merged orig update ≡ panic
unfolding merged
merged-nil_labels orig update k v more no_labels some_label =
    elim (put_all_total (entries update.spec.encrypted_data) orig.spec.encrypted_data) [
      | inl (d, e1) ↦
          elim (put_all_total (entries update.spec.template.meta.annotations)
            orig.spec.template.meta.annotations) [
              | inl (a, e2) ↦ rw (e1, e2, some_label, no_labels, put_all-nil_map k v more)
              | inr e2 ↦ rw (e1, e2)
            ]
      | inr e1 ↦ rw e1
    ]

module _ {p : Primitives} (c : Codecs) (k : Serializers) (pub_key : p.PublicKey) (o : SealOptions)
    (client : ClientNamespace) (f : FileCalls) (y : DocumentDecoder Secret) (fuel : ℕ)
    (r : Reader) where
  -- The file is as the reading left it, or all was rendered and is written into it.
  pub data IsKept (filename : String) (s : Session p) (file out : f.File) : Type 0 where
    kept : out ≡ (read_original f filename file).1 → IsKept filename s file out
    written :
        (b bytes : Bytes) (s' : Session p)
        → (read_original f filename file).0 ≡ ok b
        → render_merged c k pub_key o client y fuel r b s ≡ some (ok bytes, s')
        → out ≡ (rewrite f bytes (read_original f filename file).1).1
        → IsKept filename s file out

  rewritten-IsKept :
      (filename : String) (b : Bytes) (s : Session p) (file file1 : f.File)
      (x : Outcome Bytes × Session p)
      → read_original f filename file ≡ (ok b, file1)
      → render_merged c k pub_key o client y fuel r b s ≡ some x
      → IsKept filename s file (rewritten c k pub_key o client f x file1).1.1
  rewritten-IsKept filename b s file file1 (ok bytes, s') e e' =
      written b bytes s' (ap (λ t. t.0) e) e' (ap (λ t. (rewrite f bytes t.1).1) (sym e))
  rewritten-IsKept filename b s file file1 (err x, s') e e' = kept (ap (λ t. t.1) (sym e))
  rewritten-IsKept filename b s file file1 (panic, s') e e' = kept (ap (λ t. t.1) (sym e))

  after_reading-IsKept :
      (filename : String) (s s' : Session p) (file out : f.File) (x : Outcome Bytes × f.File)
      (res : Outcome (Unit {0}))
      → read_original f filename file ≡ x
      → after_reading c k pub_key o client f y fuel r x s ≡ some (res, (s', out))
      → IsKept filename s file out
  after_reading-IsKept filename s s' file out (ok b, file1) res e h =
      elim (Option-cases (render_merged c k pub_key o client y fuel r b s)) [
        | inl spent ↦ cc (rw (spent, after_reading) at h)
        | inr (rendered, e') ↦
            let h' : rewritten c k pub_key o client f rendered file1 ≡ (res, (s', out)) =
              some-injective (rw (e', after_reading) at h) in
            subst (IsKept filename s file) (ap (λ t. t.1.1) h')
              (rewritten-IsKept filename b s file file1 rendered e e')
      ]
  after_reading-IsKept filename s s' file out (err x, file1) res e h =
      kept (sym (ap (λ t. t.1.1) (some-injective h)) ∙ ap (λ t. t.1) (sym e))
  after_reading-IsKept filename s s' file out (panic, file1) res e h =
      kept (sym (ap (λ t. t.1.1) (some-injective h)) ∙ ap (λ t. t.1) (sym e))

  -- However SealMergingInto ends, the file is as its opening and reading left it, or everything was
  -- rendered before and the file went through the rewriting with exactly those bytes.
  pub seal_merging_into-IsKept :
      (filename : String) (s s' : Session p) (file out : f.File) (res : Outcome (Unit {0}))
      → seal_merging_into c k pub_key o client f y fuel r filename (s, file) ≡ some (res, (s', out))
      → IsKept filename s file out
  unfolding seal_merging_into
  seal_merging_into-IsKept filename s s' file out res e =
      after_reading-IsKept filename s s' file out (read_original f filename file) res refl e
