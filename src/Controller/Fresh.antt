-- ===== src/Controller/Fresh.antt =====
-- A sealed secret whose secret is not there yet: the controller creates it, and then asks whether it is its own.
use Prim.Native.String
use sealed_secrets.Base.{
  ◌≡◌, refl, sym, ap, ◌∙◌, subst, String, Bool, true, false, not, ◌||◌, [], ◌∷◌, Error, own,
  is_not_found, ok, err, inl, inr, Bool-cases, if◌then◌else◌, ◌==◌, >>=-eq-ok, ok-injective,
}
use sealed_secrets.Base.GoMap.{Entries, entries, index, IsTable}
use sealed_secrets.Crypto.{Primitives}
use sealed_secrets.Scope.{skip_set_owner_references_annotation}
use sealed_secrets.Sealed.{Secret, SealedSecret, Codecs}
use sealed_secrets.Sealed.Seal.{label_for}
use sealed_secrets.Sealed.Unseal.{owner_of, place, unseal, unseal_data}
use sealed_secrets.World.{World}
use sealed_secrets.Registry.{private_keys}
use sealed_secrets.Controller.{
  Controller, warning, report, count_error, is_annotated_to_be_managed, is_annotated_to_be_patched,
}
use sealed_secrets.Controller.Desired.{replaced}
use sealed_secrets.Controller.Reconcile.{
  err_update_failed, unmanaged_message, is_ours, attempt_unseal, get_or_create, check_ours,
  update_target, apply_secret, reconcile,
}
use sealed_secrets.Controller.Settled.{IsSettled, replaced-IsSettled}
use sealed_secrets.Controller.Convergence.{IsSemantic, rested, update_target-IsSettled}

-- What is asked for, with the metadata that the server sets.
abbrev pub stored : Secret → Secret → Secret
stored asked out = record asked {
  meta = record asked.meta {
    self_link = out.meta.self_link;
    uid = out.meta.uid;
    resource_version = out.meta.resource_version;
    generation = out.meta.generation;
    creation_timestamp = out.meta.creation_timestamp;
  };
}

-- What the API returns of a secret that it is asked to create.
abbrev pub IsStored : Secret → Secret → Type 0
IsStored asked out = out ≡ stored asked out

-- A sealed secret does without an owner reference in its secret.
abbrev pub skips_owner : SealedSecret → Bool
skips_owner s =
    index s.spec.template.meta.annotations skip_set_owner_references_annotation == "true"

-- The secret that is unsealed will be the controller's own once it is stored.
abbrev pub is_kept : SealedSecret → Secret → Bool
is_kept ssecret new_secret =
    not (skips_owner ssecret)
    || is_annotated_to_be_managed new_secret
    || is_annotated_to_be_patched new_secret

IsStored-IsSettled : (asked out : Secret) → IsStored asked out → IsSettled out asked
unfolding replaced
IsStored-IsSettled asked out h =
    subst (λ v. IsSettled v asked) (sym h) (replaced-IsSettled (stored asked out) asked)

module _ {p : Primitives} (c : Codecs) (w : World p) where
  -- metav1.IsControlledBy: the owner that is the controller has the UID.
  pub record IsOwnership : Type 0 where
    pub controlled :
        (secret : Secret) (ssecret : SealedSecret)
        → secret.meta.owner_references ≡ owner_of c ssecret ∷ []
        → w.is_controlled_by secret ssecret ≡ true
    pub uncontrolled :
        (secret : Secret) (ssecret : SealedSecret)
        → secret.meta.owner_references ≡ []
        → w.is_controlled_by secret ssecret ≡ false

  place-owner :
      (s : SealedSecret) (secret : Secret)
      → skips_owner s ≡ false
      → (place p c s secret).meta.owner_references ≡ owner_of c s ∷ []
  unfolding place
  place-owner s secret h = rw h refl

  unseal-owner :
      (flag : Bool) (s : SealedSecret) (keys : Entries p.PrivateKey) (new_secret : Secret)
      → unseal p c flag s keys ≡ ok new_secret
      → skips_owner s ≡ false
      → new_secret.meta.owner_references ≡ owner_of c s ∷ []
  unfolding unseal
  unseal-owner flag s keys new_secret e h =
      let (secret, first, second) =
        >>=-eq-ok (unseal_data p c flag s keys (label_for s.meta) s.spec.legacy_data) _ e in
      ap (λ (v : Secret). v.meta.owner_references) (sym (ok-injective second))
      ∙ place-owner s secret h

  -- The controller may write what it has created exactly if it keeps it.
  is_ours-IsStored :
      (ssecret : SealedSecret) (new_secret created : Secret)
      → IsOwnership
      → IsStored new_secret created
      → (skips_owner ssecret ≡ false → new_secret.meta.owner_references ≡ owner_of c ssecret ∷ [])
      → (skips_owner ssecret ≡ true → new_secret.meta.owner_references ≡ [])
      → is_ours c w created ssecret ≡ is_kept ssecret new_secret
  is_ours-IsStored ssecret new_secret created law h owned bare =
      let owners = ap (λ (v : Secret). v.meta.owner_references) h in
      let annotations = ap (λ (v : Secret). v.meta.annotations) h in
      elim (Bool-cases (skips_owner ssecret)) [
        | inl skips ↦
            rw (law.uncontrolled created ssecret (owners ∙ bare skips), skips, annotations) refl
        | inr sets ↦ rw (law.controlled created ssecret (owners ∙ owned sets), sets) refl
      ]

  -- What is left of a run whose secret is there and not its own.
  abbrev pub unmanaged : SealedSecret → Secret → Controller w → Controller w
  unmanaged ssecret secret s =
      count_error w "unmanaged" ssecret.meta.namespace
        (report w (warning err_update_failed (unmanaged_message secret.meta.name)) s)

  abbrev pub unmanaged_error : Secret → Error
  unmanaged_error secret = own (String.◌++◌ "failed update: " (unmanaged_message secret.meta.name))

  update_target-unmanaged :
      (key : String) (ssecret : SealedSecret) (new_secret secret : Secret) (s : Controller w)
      → is_ours c w secret ssecret ≡ false
      → update_target c w key ssecret new_secret secret s
        ≡ (err (unmanaged_error secret), unmanaged ssecret secret s)
  unfolding update_target check_ours
  update_target-unmanaged key ssecret new_secret secret s other = rw other refl

  update_target-IsStored :
      (key : String) (ssecret : SealedSecret) (new_secret created : Secret) (s : Controller w)
      → IsSemantic c w
      → is_ours c w created ssecret ≡ is_kept ssecret new_secret
      → IsStored new_secret created
      → IsTable (entries new_secret.secret_data)
      → IsTable (entries new_secret.meta.labels)
      → IsTable (entries new_secret.meta.annotations)
      → update_target c w key ssecret new_secret created s ≡ (
          if is_kept ssecret new_secret
          then (ok tt, rested c w s s.world)
          else (err (unmanaged_error created), unmanaged ssecret created s))
  update_target-IsStored key ssecret new_secret created s semantic ours h t t' t'' =
      elim (Bool-cases (is_kept ssecret new_secret)) [
        | inl kept ↦ rw kept (
            update_target-IsSettled c w key ssecret new_secret created s semantic (ours ∙ kept)
              (IsStored-IsSettled new_secret created h) t t' t'')
        | inr other ↦
            rw other (update_target-unmanaged key ssecret new_secret created s (ours ∙ other))
      ]

  -- With a comparison that takes secrets with the same entries for equal and an ownership that looks at
  -- the owner references: when a sealed secret unseals to a secret whose maps have no key twice, which
  -- has no owner reference if the template skips the owner, and which is not in the cluster and is
  -- stored there as asked for, then reconciling ends in a success that reports it and writes nothing
  -- more, if the template does not skip the owner or the secret is annotated to be managed or to be
  -- patched; and otherwise it ends in the error that the secret is there already and not managed, which
  -- it counts and reports, though it has created the secret itself.
  pub reconcile-absent :
      (key : String) (ssecret : SealedSecret) (s : Controller w) (new_secret created : Secret)
      (e : Error) (world world' : w.State)
      → IsSemantic c w
      → IsOwnership
      → unseal p c s.accept_deprecated_v1_data ssecret (private_keys w s.registry) ≡ ok new_secret
      → IsTable (entries new_secret.secret_data)
      → IsTable (entries new_secret.meta.labels)
      → IsTable (entries new_secret.meta.annotations)
      → (skips_owner ssecret ≡ true → new_secret.meta.owner_references ≡ [])
      → w.get_secret ssecret.meta.namespace new_secret.meta.name s.world ≡ (err e, world)
      → is_not_found e ≡ true
      → w.create_secret ssecret.meta.namespace new_secret world ≡ (ok created, world')
      → IsStored new_secret created
      → reconcile c w key ssecret s ≡ (
          if is_kept ssecret new_secret then (ok tt, rested c w s world') else (
            err (unmanaged_error created),
            unmanaged ssecret created (record s { world = world' }),
          ))
  unfolding reconcile attempt_unseal apply_secret get_or_create
  reconcile-absent key ssecret s new_secret created e world world' semantic law opened t t' t'' bare
        missing not_found made h =
      let owned =
        unseal-owner s.accept_deprecated_v1_data ssecret (private_keys w s.registry) new_secret
          opened in
      rw (opened, missing, not_found, made)
        (update_target-IsStored key ssecret new_secret created (record s { world = world' })
          semantic (is_ours-IsStored ssecret new_secret created law h owned bare) h t t' t'')
