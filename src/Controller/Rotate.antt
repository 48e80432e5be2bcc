-- ===== src/Controller/Rotate.antt =====
-- Controller.AttemptUnseal and Controller.Rotate of pkg/controller/controller.go, which the HTTP server calls.
-- The decoder of objects, json.Marshal and reflect.DeepEqual of two ObjectMeta are parameters.
use Prim.Native.String
use sealed_secrets.Base.{
  String, Bool, true, false, own, Error, message, Outcome, ok, err, panic, Bytes, if◌then◌else◌,
}
use sealed_secrets.Base.Results
use sealed_secrets.Base.Action.{Action, lift, ◌>>=◌}
use sealed_secrets.Crypto.{Primitives}
use sealed_secrets.Sealed.{ObjectMeta, Secret, SealedSecret, Codecs}
use sealed_secrets.Sealed.Seal.{new_sealed_secret}
use sealed_secrets.World.{World, Object, sealed, other_object, with_rand}
use sealed_secrets.Multidoc.{YamlPackage, ensure_not_multi_doc}
use sealed_secrets.Registry.{latest_private_key}
use sealed_secrets.Controller.{Controller, call}
use sealed_secrets.Controller.Reconcile.{attempt_unseal}

pub record Documents : Type 0 where
  pub decode : Bytes → Outcome Object
  pub marshal : SealedSecret → Outcome Bytes
  pub deep_equal : ObjectMeta → ObjectMeta → Bool

-- fmt.Errorf("… %v", err)
abbrev pub wrapped {ℓ} : {A : Type ℓ} → String → Outcome A → Outcome A
wrapped text (ok a) = ok a
wrapped text (err e) = err (own (String.◌++◌ text (message e)))
wrapped text panic = panic

-- The error for an object of another kind.
abbrev pub unexpected : Error
unexpected = own "unexpected resource type"

-- The metadata of the template is set to that of the sealed secret, unless they are the same.
unfoldable pub aligned : Documents → SealedSecret → SealedSecret
aligned d s =
    if d.deep_equal s.meta s.spec.template.meta
    then s
    else record s { spec = record s.spec { template = record s.spec.template { meta = s.meta } } }

module _ {p : Primitives} (c : Codecs) (w : World p) (d : Documents) where
  abbrev pub wrapping {ℓ} :
      {A : Type ℓ} → String → Action (Controller w) A → Action (Controller w) A
  wrapping text m t = let (r, t') = m t in (wrapped text r, t')

  abbrev pub latest : Action (Controller w) p.PrivateKey
  latest t = (latest_private_key w t.registry, t)

  -- The part of Rotate from the alignment to the new sealed secret.
  unfoldable pub reseal : SealedSecret → Action (Controller w) SealedSecret
  reseal s = do
    secret ← wrapping "error decrypting secret. " (attempt_unseal c w (aligned d s))
    latest_priv_key ← latest
    wrapping "error creating new sealed secret. "
        (call w (with_rand w (new_sealed_secret p c (p.public latest_priv_key) secret)))

  abbrev pub rotate_object : Object → Action (Controller w) Bytes
  rotate_object other_object = lift (err unexpected)
  rotate_object (sealed s) = do
    resealed_secret ← reseal s
    lift (wrapped "error marshalling new secret to json. " (d.marshal resealed_secret))

  -- Rotate
  unfoldable pub rotate : Bytes → Action (Controller w) Bytes
  unfolding reseal
  rotate content = do object ← lift (d.decode content); rotate_object object

  abbrev pub unseals : Outcome Secret → Outcome Bool
  unseals (ok secret) = ok true
  unseals (err e) = ok false
  unseals panic = panic

  abbrev pub attempt_object : Object → Controller w → Outcome Bool
  attempt_object other_object t = err unexpected
  attempt_object (sealed s) t = unseals (attempt_unseal c w s t).0

  -- AttemptUnseal, which changes nothing
  unfoldable pub attempt_unseal_content : YamlPackage → Bytes → Controller w → Outcome Bool
  attempt_unseal_content y content t =
      Results.◌>>=◌ (ensure_not_multi_doc y content)
        (λ checked. Results.◌>>=◌ (d.decode content) (λ object. attempt_object object t))
