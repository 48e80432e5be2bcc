-- ===== src/Controller/Convergence.antt =====
-- Reconciling again changes nothing: the controller comes to rest.
use sealed_secrets.Base.{◌≡◌, refl, String, true, ok}
use sealed_secrets.Base.GoMap.{entries, IsTable}
use sealed_secrets.Crypto.{Primitives}
use sealed_secrets.Sealed.{Secret, SealedSecret, Codecs}
use sealed_secrets.Sealed.Unseal.{unseal}
use sealed_secrets.World.{World}
use sealed_secrets.Registry.{private_keys}
use sealed_secrets.Controller.{Controller, normal, report, is_annotated_to_be_patched}
use sealed_secrets.Controller.Desired.{desired_secret}
use sealed_secrets.Controller.Reconcile.{
  success_unsealed, is_ours, attempt_unseal, get_or_create, check_ours, write_back, update_target,
  apply_secret, reconcile,
}
use sealed_secrets.Controller.Settled.{
  IsSame, IsSettled, desired_secret-IsSettled, IsSettled-IsSame,
}

module _ {p : Primitives} (c : Codecs) (w : World p) where
  -- equality.Semantic.DeepEqual compares maps by their entries.
  pub record IsSemantic : Type 0 where
    pub same_equal : (a b : Secret) → IsSame a b → w.semantic_equal a b ≡ true

  -- A run that ends in success and has only read the cluster.
  abbrev pub rested : Controller w → w.State → Controller w
  rested s world =
      report w (normal success_unsealed "SealedSecret unsealed successfully")
        (record s { world = world })

  pub update_target-IsSettled :
      (key : String) (ssecret : SealedSecret) (new_secret secret : Secret) (s : Controller w)
      → IsSemantic
      → is_ours c w secret ssecret ≡ true
      → IsSettled secret new_secret
      → IsTable (entries new_secret.secret_data)
      → IsTable (entries new_secret.meta.labels)
      → IsTable (entries new_secret.meta.annotations)
      → update_target c w key ssecret new_secret secret s ≡ (ok tt, rested s s.world)
  unfolding update_target check_ours write_back
  update_target-IsSettled key ssecret new_secret secret s semantic ours settled t t' t'' =
      let (out, desired, same) = IsSettled-IsSame secret new_secret settled t t' t'' in
      rw (ours, desired, semantic.same_equal secret out same) refl

  -- With a comparison that takes secrets with the same entries for equal: when the secret in the
  -- cluster is what the controller had desired of some secret with what it unseals now, an annotation
  -- to be patched was not written over, the maps of the unsealed secret have no key twice and the
  -- controller may write the secret, then reconciling succeeds, and the cluster was read and not
  -- written to; only the event of the success is new.
  pub reconcile_twice :
      (key : String) (ssecret : SealedSecret) (s : Controller w) (old secret new_secret : Secret)
      (world : w.State)
      → IsSemantic
      → unseal p c s.accept_deprecated_v1_data ssecret (private_keys w s.registry) ≡ ok new_secret
      → IsTable (entries new_secret.secret_data)
      → IsTable (entries new_secret.meta.labels)
      → IsTable (entries new_secret.meta.annotations)
      → desired_secret old new_secret ≡ ok secret
      → (is_annotated_to_be_patched old ≡ true → is_annotated_to_be_patched secret ≡ true)
      → w.get_secret ssecret.meta.namespace new_secret.meta.name s.world ≡ (ok secret, world)
      → is_ours c w secret ssecret ≡ true
      → reconcile c w key ssecret s ≡ (ok tt, rested s world)
  unfolding reconcile attempt_unseal apply_secret get_or_create
  reconcile_twice key ssecret s old secret new_secret world semantic opened t t' t'' desired still
        found ours =
      rw (opened, found)
        (update_target-IsSettled key ssecret new_secret secret (record s { world = world }) semantic
          ours (desired_secret-IsSettled old new_secret secret still t t' t'' desired) t t' t'')
