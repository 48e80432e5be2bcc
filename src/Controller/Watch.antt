-- ===== src/Controller/Watch.antt =====
-- The event handlers of watchKeySecrets, watchSealedSecrets and watchSecrets in pkg/controller/controller.go.
use sealed_secrets.Base.{String, Bool, true, not, ◌||◌, Outcome, ok, err, panic, if◌then◌else◌}
use sealed_secrets.Crypto.{Primitives}
use sealed_secrets.Sealed.{Secret, SealedSecret, SealedSecretSpec}
use sealed_secrets.World.{World, Object, sealed, other_object}
use sealed_secrets.Registry.{KeyRegistry}
use sealed_secrets.Startup.{registry_new_key_with_secret}
use sealed_secrets.Controller.{Controller, convert_sealed_secret, is_annotated_to_be_managed}
use sealed_secrets.Controller.Conditions.{unregister_condition}
use sealed_secrets.Controller.Queue.{WorkQueue}

-- What the handlers call of tools/cache and reflect.
pub record Informers : Type 0 where
  pub key_of : Object → Outcome String
  pub deletion_key_of : Object → Outcome String
  pub secret_key_of : Secret → Outcome String
  pub same_spec : SealedSecretSpec → SealedSecretSpec → Bool

-- The object of a delete event: the Secret, or the key of one whose last state is not known.
pub data DeletedSecret : Type 0 where
  known : Secret → DeletedSecret
  final_state_unknown : String → DeletedSecret

-- sealedSecretChanged: what cannot be converted may have changed.
unfoldable pub sealed_secret_changed : Informers → Object → Object → Bool
sealed_secret_changed i old_obj new_obj = elim (convert_sealed_secret old_obj) [
  | ok old_sealed_secret ↦ elim (convert_sealed_secret new_obj) [
    | ok new_sealed_secret ↦ not (i.same_spec old_sealed_secret.spec new_sealed_secret.spec)
    | err e ↦ true
    | panic ↦ true
  ]
  | err e ↦ true
  | panic ↦ true
]

-- DeletionHandlingMetaNamespaceKeyFunc
abbrev pub deleted_key : Informers → DeletedSecret → Outcome String
deleted_key i (known secret) = i.secret_key_of secret
deleted_key i (final_state_unknown key) = ok key

module _ (q : WorkQueue) (i : Informers) where
  -- if err == nil { queue.Add(key) }
  abbrev pub enqueue : Outcome String → q.Items → q.Items
  enqueue (ok key) items = q.add key items
  enqueue _ items = items

  -- AddFunc and UpdateFunc of watchSealedSecrets
  unfoldable pub sealed_secret_added : Object → q.Items → q.Items
  sealed_secret_added obj items = enqueue (i.key_of obj) items

  unfoldable pub sealed_secret_updated : Object → Object → q.Items → q.Items
  unfolding sealed_secret_changed
  sealed_secret_updated old_obj new_obj items =
      if sealed_secret_changed i old_obj new_obj then enqueue (i.key_of new_obj) items else items

  module _ {p : Primitives} (w : World p) where
    abbrev pub Watched : Type 0
    Watched = q.Items × Controller w

    abbrev pub unregistered : Object → Controller w → Controller w
    unregistered (sealed s) t = record t {
      condition_info = unregister_condition s t.condition_info;
    }
    unregistered other_object t = t

    -- DeleteFunc of watchSealedSecrets
    unfoldable pub sealed_secret_deleted : Object → Watched → Watched
    sealed_secret_deleted obj (items, t) =
        (enqueue (i.deletion_key_of obj) items, unregistered obj t)

    -- obj.(*corev1.Secret), which panics for anything else
    abbrev pub as_secret : DeletedSecret → Outcome Secret
    as_secret (known secret) = ok secret
    as_secret (final_state_unknown key) = panic

    -- The secret's sealed secret is put into the queue, if it is the owner or the secret is managed.
    unfoldable pub requeue_owner : Secret → SealedSecret → q.Items → q.Items
    requeue_owner secret ssecret items =
        if w.is_controlled_by secret ssecret || is_annotated_to_be_managed secret
        then enqueue (i.key_of (sealed ssecret)) items
        else items

    -- What DeleteFunc does with the sealed secret of the same name, if that is there.
    unfoldable pub owner_found :
        DeletedSecret → Outcome SealedSecret × w.State → q.Items → Outcome q.Items × w.State
    unfolding requeue_owner
    owner_found obj (ok ssecret, s) items = elim (as_secret obj) [
      | ok secret ↦ (ok (requeue_owner secret ssecret items), s)
      | err e ↦ (ok items, s)
      | panic ↦ (panic, s)
    ]
    owner_found obj (err e, s) items = (ok items, s)
    owner_found obj (panic, s) items = (panic, s)

    -- DeleteFunc of watchSecrets: every error is logged only.
    unfoldable pub secret_deleted : DeletedSecret → q.Items → w.State → Outcome q.Items × w.State
    unfolding owner_found
    secret_deleted obj items s = elim (deleted_key i obj) [
      | ok skey ↦ elim (w.split_key skey) [
        | ok place ↦ owner_found obj (w.get_sealed_secret place.0 place.1 s) items
        | err e ↦ (ok items, s)
        | panic ↦ (panic, s)
      ]
      | err e ↦ (ok items, s)
      | panic ↦ (panic, s)
    ]

-- AddFunc of watchKeySecrets: a key that cannot be registered is logged only.
module _ {p : Primitives} (w : World p) where
  unfoldable pub key_secret_added : Secret → String → KeyRegistry w → Outcome (KeyRegistry w)
  key_secret_added secret key_order_priority registry =
      elim (registry_new_key_with_secret w secret key_order_priority registry) [
        | ok registry' ↦ ok registry'
        | err e ↦ ok registry
        | panic ↦ panic
      ]
