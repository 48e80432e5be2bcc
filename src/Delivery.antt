-- ===== src/Delivery.antt =====
-- From kubeseal to the cluster: what Seal of pkg/kubeseal/kubeseal.go writes is applied to a cluster, and the
-- controller of pkg/controller/controller.go creates the secret.
use sealed_secrets.Base.{
  ◌≡◌, refl, sym, ap, ◌∙◌, subst, String, true, false, none, Error, is_not_found, ok, err, ◌==◌,
  ok-injective,
}
use sealed_secrets.Base.GoMap.{GoMap, nil_map, table, entries, index, get, lookup-without, IsTable}
use sealed_secrets.Scope.{
  skip_set_owner_references_annotation, delete_all, strip_last_applied_annotations,
}
use sealed_secrets.Crypto.{Primitives}
use sealed_secrets.Crypto.Laws.{IsCorrect, IsTotal, IsBinding, HasKey}
use sealed_secrets.Sealed.{Secret, SealedSecret, Codecs}
use sealed_secrets.Sealed.Items.{IsBase64}
use sealed_secrets.Sealed.RoundTrip.{IsReopened, IsMade, applied}
use sealed_secrets.Sealed.Tables.{unseal-IsPlaced, strip_last_applied_annotations-IsTable}
use sealed_secrets.Sealed.Unseal.{unseal}
use sealed_secrets.World.{World}
use sealed_secrets.Registry.{private_keys}
use sealed_secrets.Controller.{Controller}
use sealed_secrets.Controller.Reconcile.{reconcile}
use sealed_secrets.Controller.Convergence.{IsSemantic, rested}
use sealed_secrets.Controller.Fresh.{IsStored, IsOwnership, skips_owner, reconcile-absent}
use sealed_secrets.Kubeseal.{Serializers, Session}
use sealed_secrets.Kubeseal.Output.{sealed_secret_output}
use sealed_secrets.Kubeseal.Prepare.{SealOptions, ClientNamespace, prepare}
use sealed_secrets.Kubeseal.Sealing.{IsDelivered, seal_secret-IsDelivered}
use sealed_secrets.Kubeseal.Seal.{seal_secret}

-- StripLastAppliedAnnotations leaves the annotation about the owner.
index-strip_last_applied_annotations :
    (m : GoMap String)
    → index (strip_last_applied_annotations m) skip_set_owner_references_annotation
      ≡ index m skip_set_owner_references_annotation
unfolding strip_last_applied_annotations delete_all get
index-strip_last_applied_annotations nil_map = refl
index-strip_last_applied_annotations (table m) = rw (lookup-without, lookup-without) refl

IsStored-IsReopened :
    (secret opened created : Secret)
    → IsReopened secret opened
    → IsStored opened created
    → IsReopened secret created
IsStored-IsReopened secret opened created h is_stored =
    subst (IsReopened secret) (sym is_stored) (record {
      same_items = h.same_items;
      same_name = h.same_name;
      same_namespace = h.same_namespace;
      same_labels = h.same_labels;
      stripped_annotations = h.stripped_annotations;
      same_type = h.same_type;
      same_immutable = h.same_immutable;
    })

module _ {p : Primitives} (c : Codecs) (w : World p) where
  -- The cluster has no secret of the name, and would store one.
  pub record IsVacant (namespace name : String) (s : w.State) : Type 0 where
    pub failure : Error
    pub world : w.State
    pub is_missing : is_not_found failure ≡ true
    pub is_read : w.get_secret namespace name s ≡ (err failure, world)
    pub creates :
        (asked : Secret)
        → (created : Secret) × (world' : w.State) × (w.create_secret namespace asked world
            ≡ (ok created, world'))
          × IsStored asked created

  module _ (k : Serializers) (pub_key : p.PublicKey) (o : SealOptions)
      (client : ClientNamespace) where
    -- The secret was prepared, sealed and written; the controller unsealed what was written, created a secret that
    -- holds what was prepared, and reported a success.
    pub record IsArrived (key : String) (cluster : SealedSecret) (prepared : Secret)
        (t t' : Session p) (s : Controller w) : Type 0 where
      pub made : SealedSecret
      pub random : p.Rand
      pub opened : Secret
      pub created : Secret
      pub world : w.State
      pub world' : w.State
      pub is_written :
          sealed_secret_output k o.output_format made (record t { random = random }) ≡ (ok tt, t')
      pub is_opened :
          unseal p c s.accept_deprecated_v1_data (applied made cluster) (private_keys w s.registry)
          ≡ ok opened
      pub is_created : w.create_secret prepared.meta.namespace opened world ≡ (ok created, world')
      pub is_reconciled : reconcile c w key (applied made cluster) s ≡ (ok tt, rested c w s world')
      pub is_reopened : IsReopened prepared created

    -- The sealed secret of a secret without the annotation about the owner lets it have one.
    sealed_as_owner :
        (prepared : Secret) (made cluster : SealedSecret)
        → IsMade p c pub_key prepared made
        → (index prepared.meta.annotations skip_set_owner_references_annotation == "true") ≡ false
        → skips_owner (applied made cluster) ≡ false
    sealed_as_owner prepared made cluster h owned =
        ap (λ (v : SealedSecret). skips_owner v) h.is_object
        ∙ ap (λ a. a == "true") (index-strip_last_applied_annotations prepared.meta.annotations)
        ∙ owned

    delivered-IsArrived :
        (key : String) (cluster : SealedSecret) (secret prepared : Secret) (t t' : Session p)
        (s : Controller w)
        → IsSemantic c w
        → IsOwnership c w
        → IsDelivered c k pub_key o client
            (private_keys w s.registry)
            s.accept_deprecated_v1_data
            cluster
            secret
            t
            t'
        → prepare o client secret ≡ ok prepared
        → IsTable (entries prepared.meta.labels)
        → IsTable (entries prepared.meta.annotations)
        → (index prepared.meta.annotations skip_set_owner_references_annotation == "true") ≡ false
        → IsVacant prepared.meta.namespace prepared.meta.name s.world
        → IsArrived key cluster prepared t t' s
    delivered-IsArrived key cluster secret prepared t t' s semantic law d is_prepared labels
          annotations owned vacant =
        let same : d.prepared ≡ prepared = ok-injective (sym d.is_prepared ∙ is_prepared) in
        let h : IsReopened prepared d.opened =
          subst (λ v. IsReopened v d.opened) same d.is_reopened in
        let m : IsMade p c pub_key prepared d.made =
          subst (λ v. IsMade p c pub_key v d.made) same d.is_made in
        let ssecret = applied d.made cluster in
        let current : d.made.spec.legacy_data ≡ none =
          ap (λ (v : SealedSecret). v.spec.legacy_data) m.is_object in
        let keys = private_keys w s.registry in
        let placed =
          unseal-IsPlaced p c s.accept_deprecated_v1_data ssecret keys d.opened current
            d.is_opened in
        let in_namespace : ssecret.meta.namespace ≡ prepared.meta.namespace =
          sym placed.same_namespace ∙ h.same_namespace in
        let (created, world', makes, is_stored) = vacant.creates d.opened in
        let skips = sealed_as_owner prepared d.made cluster m owned in
        let run =
          reconcile-absent c w key ssecret s d.opened created vacant.failure vacant.world world'
            semantic law d.is_opened placed.is_table
            (subst (λ v. IsTable (entries v)) (sym h.same_labels) labels)
            (subst (λ v. IsTable (entries v)) (sym h.stripped_annotations)
              (strip_last_applied_annotations-IsTable prepared.meta.annotations annotations))
            (λ e. absurd (cc (e, skips)))
            (ap (λ ns. w.get_secret ns d.opened.meta.name s.world) in_namespace
              ∙ ap (λ name. w.get_secret prepared.meta.namespace name s.world) h.same_name
              ∙ vacant.is_read)
            vacant.is_missing
            (ap (λ ns. w.create_secret ns d.opened vacant.world) in_namespace ∙ makes) is_stored in
        record {
          made = d.made;
          random = d.random;
          opened = d.opened;
          created = created;
          world = vacant.world;
          world' = world';
          is_written = d.is_written;
          is_opened = d.is_opened;
          is_created = makes;
          is_reconciled = rw skips at run;
          is_reopened = IsStored-IsReopened prepared d.opened created h is_stored;
        }

    module _ (correct : IsCorrect p) (total : IsTotal p) (binding : IsBinding p)
        (base64 : IsBase64 c) where
      -- With an RSA-OAEP whose decryption undoes the encryption under the same key and label, returns
      -- no panic and fails for every other key and label, ciphertexts shorter than 65536 bytes, and an
      -- AES-GCM and a base64 that decode what they encoded, a comparison that takes secrets with the
      -- same entries for equal, and an ownership that looks at the owner references: when the body of
      -- Seal's loop succeeds on a secret whose maps have no key twice and whose prepared form has no
      -- annotation to skip the owner, for a public key that the controller holds the private key of,
      -- and no secret of that name is in the cluster, which would store one, then the sealed secret
      -- that was written, applied to the cluster, is unsealed, and reconciling it creates a secret and
      -- ends in a success, and that secret has the items, the name, the namespace, the labels, the type
      -- and the immutability of the prepared secret, and its annotations but for the copies of applied
      -- objects.
      pub seal_secret-IsArrived :
          (key : String) (cluster : SealedSecret) (secret prepared : Secret) (t t' : Session p)
          (s : Controller w)
          → IsSemantic c w
          → IsOwnership c w
          → HasKey p pub_key (private_keys w s.registry)
          → IsTable (entries secret.secret_data)
          → IsTable (entries secret.string_data)
          → prepare o client secret ≡ ok prepared
          → IsTable (entries prepared.meta.labels)
          → IsTable (entries prepared.meta.annotations)
          → (index prepared.meta.annotations skip_set_owner_references_annotation == "true") ≡ false
          → IsVacant prepared.meta.namespace prepared.meta.name s.world
          → seal_secret c k pub_key o client secret t ≡ (ok tt, t')
          → IsArrived key cluster prepared t t' s
      seal_secret-IsArrived key cluster secret prepared t t' s semantic law held t0 t1 is_prepared
            labels annotations owned vacant e =
          delivered-IsArrived key cluster secret prepared t t' s semantic law
            (seal_secret-IsDelivered c k pub_key o client correct total binding base64
              (private_keys w s.registry) held s.accept_deprecated_v1_data cluster secret t t' t0 t1
              e)
            is_prepared labels annotations owned vacant
