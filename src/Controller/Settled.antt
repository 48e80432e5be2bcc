-- ===== src/Controller/Settled.antt =====
-- A secret that holds what the controller desires of it already.
use sealed_secrets.Base.{
  String, ◌≡◌, refl, sym, ap, ◌∙◌, subst, true, false, Option, none, some, ok, Bytes, ◌==◌, inl,
  inr, Bool-cases, ok-injective,
}
use sealed_secrets.Base.GoMap.{GoMap, entries, get, or_else, or_empty, put_all, IsTable}
use sealed_secrets.Base.Merged.{Merged, put_all-made}
use sealed_secrets.Scope.{managed_annotation}
use sealed_secrets.Sealed.{Secret}
use sealed_secrets.Controller.{is_annotated_to_be_managed, is_annotated_to_be_patched}
use sealed_secrets.Controller.Desired.{take_owners, replaced, desired_secret}
use sealed_secrets.Controller.Merge.{IsPatched, merged, made-annotated, desired_secret-IsPatched}

-- Two Go maps that answer alike.
abbrev pub SameMap {ℓ} : {V : Type ℓ} → GoMap V → GoMap V → Type ℓ
SameMap m n = (k : String) → get m k ≡ get n k

-- Secrets that differ in the representation of their maps at most.
pub record IsSame (a b : Secret) : Type 0 where
  pub same_data : SameMap a.secret_data b.secret_data
  pub same_labels : SameMap a.meta.labels b.meta.labels
  pub same_annotations : SameMap a.meta.annotations b.meta.annotations
  pub same_rest : b ≡ record a {
    meta = record a.meta { labels = b.meta.labels; annotations = b.meta.annotations };
    secret_data = b.secret_data;
  }

-- Writing the new entries over those that are there changes nothing.
abbrev Covers {ℓ} : {V : Type ℓ} → GoMap V → GoMap V → Type ℓ
Covers m new = Merged m new m

-- Every part is as the controller would make it.
pub record IsSettled (secret new_secret : Secret) : Type 0 where
  pub covers_data : Covers secret.secret_data new_secret.secret_data
  pub covers_labels : Covers secret.meta.labels new_secret.meta.labels
  pub covers_annotations : Covers secret.meta.annotations new_secret.meta.annotations
  pub owners :
      is_annotated_to_be_managed secret ≡ true
      → secret.meta.owner_references ≡ new_secret.meta.owner_references
  pub same_type : secret.type ≡ new_secret.type
  pub replaces :
      is_annotated_to_be_patched secret ≡ false
      → secret ≡ record (replaced secret new_secret) { type = new_secret.type }

or_else_self {ℓ} : {A : Type ℓ} (o : Option A) → or_else o o ≡ o
or_else_self none = refl
or_else_self (some a) = refl

or_else_twice {ℓ} : {A : Type ℓ} (n o : Option A) → or_else n (or_else n o) ≡ or_else n o
or_else_twice none o = refl
or_else_twice (some a) o = refl

Covers-Merged {ℓ} : {V : Type ℓ} (out new old : GoMap V) → Merged out new old → Covers out new
Covers-Merged out new old h k =
    h k ∙ sym (ap (or_else (get new k)) (h k) ∙ or_else_twice (get new k) (get old k))

self-Covers {ℓ} : {V : Type ℓ} (m : GoMap V) → Covers m m
self-Covers m k = sym (or_else_self (get m k))

-- A patched secret, if it is still to be patched.
IsPatched-IsSettled :
    (secret new_secret out : Secret)
    → IsPatched secret new_secret out
    → is_annotated_to_be_patched out ≡ true
    → IsSettled out new_secret
IsPatched-IsSettled secret new_secret out h annotated = record {
  covers_data = Covers-Merged _ _ _ h.merged_data;
  covers_labels = Covers-Merged _ _ _ h.merged_labels;
  covers_annotations = Covers-Merged _ _ _ h.merged_annotations;
  owners = λ managed. rw managed at h.owners;
  same_type = h.new_type;
  replaces = λ e. absurd (cc (annotated, e));
}

pub replaced-IsSettled :
    (secret new_secret : Secret)
    → IsSettled (record (replaced secret new_secret) { type = new_secret.type }) new_secret
unfolding replaced
replaced-IsSettled secret new_secret = record {
  covers_data = self-Covers new_secret.secret_data;
  covers_labels = self-Covers new_secret.meta.labels;
  covers_annotations = self-Covers new_secret.meta.annotations;
  owners = λ managed. refl;
  same_type = refl;
  replaces = λ e. refl;
}

-- What the controller desires of a secret is settled, if the annotation to be patched has not been written over.
pub desired_secret-IsSettled :
    (secret new_secret out : Secret)
    → (is_annotated_to_be_patched secret ≡ true → is_annotated_to_be_patched out ≡ true)
    → IsTable (entries new_secret.secret_data)
    → IsTable (entries new_secret.meta.labels)
    → IsTable (entries new_secret.meta.annotations)
    → desired_secret secret new_secret ≡ ok out
    → IsSettled out new_secret
unfolding desired_secret
desired_secret-IsSettled secret new_secret out still t t' t'' e =
    elim (Bool-cases (is_annotated_to_be_patched secret)) [
      | inl annotated ↦
          let (out', e', h) = desired_secret-IsPatched secret new_secret annotated t t' t'' in
          IsPatched-IsSettled secret new_secret out
            (subst (IsPatched secret new_secret) (ok-injective (sym e' ∙ e)) h) (still annotated)
      | inr plain ↦
          subst (λ s. IsSettled s new_secret) (ok-injective (rw (plain, desired_secret) at e))
            (replaced-IsSettled secret new_secret)
    ]

-- The owners that a settled secret would take are those that it has.
take_owners-settled :
    (secret new_secret : Secret) (d : GoMap Bytes) (l a : GoMap String)
    → IsSettled secret new_secret
    → SameMap secret.meta.annotations a
    → record (take_owners new_secret (merged secret d l a)) { type = new_secret.type }
      ≡ merged secret d l a
take_owners-settled secret new_secret d l a h same =
    elim (Bool-cases (is_annotated_to_be_managed secret)) [
      | inl managed ↦
          let managed' : is_annotated_to_be_managed (merged secret d l a) ≡ true =
            sym (ap (λ o. or_empty o == "true") (same managed_annotation)) ∙ managed in
          rw (managed', sym (h.owners managed), sym h.same_type) refl
      | inr unmanaged ↦
          let unmanaged' : is_annotated_to_be_managed (merged secret d l a) ≡ false =
            sym (ap (λ o. or_empty o == "true") (same managed_annotation)) ∙ unmanaged in
          rw (unmanaged', sym h.same_type) refl
    ]

-- A settled secret is desired as it is.
pub IsSettled-IsSame :
    (secret new_secret : Secret)
    → IsSettled secret new_secret
    → IsTable (entries new_secret.secret_data)
    → IsTable (entries new_secret.meta.labels)
    → IsTable (entries new_secret.meta.annotations)
    → (out : Secret) × (desired_secret secret new_secret ≡ ok out) × IsSame secret out
unfolding desired_secret
IsSettled-IsSame secret new_secret h t t' t'' =
    elim (Bool-cases (is_annotated_to_be_patched secret)) [
      | inl annotated ↦
          let (d, ed, md) = put_all-made new_secret.secret_data secret.secret_data t in
          let (l, el, ml) = put_all-made new_secret.meta.labels secret.meta.labels t' in
          let (a, ea, ma) = put_all-made new_secret.meta.annotations secret.meta.annotations t'' in
          let ea' : put_all (entries new_secret.meta.annotations) secret.meta.annotations ≡ ok a =
            ap (put_all (entries new_secret.meta.annotations))
              (sym (made-annotated secret.meta.annotations annotated))
            ∙ ea in
          let same_annotations : SameMap secret.meta.annotations a =
            λ k. h.covers_annotations k ∙ sym (ma k) in
          (
            merged secret d l a,
            rw (annotated, ed, el, ea')
                (ap (λ s. ok s) (take_owners-settled secret new_secret d l a h same_annotations)),
            record {
              same_data = λ k. h.covers_data k ∙ sym (md k);
              same_labels = λ k. h.covers_labels k ∙ sym (ml k);
              same_annotations = same_annotations;
              same_rest = refl;
            },
          )
      | inr plain ↦ (
        secret,
        rw plain (ap (λ s. ok s) (sym (h.replaces plain))),
        record {
          same_data = λ k. refl;
          same_labels = λ k. refl;
          same_annotations = λ k. refl;
          same_rest = refl;
        },
      )
    ]
