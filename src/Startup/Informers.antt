-- ===== src/Startup/Informers.antt =====
-- NewController with watchKeySecrets, watchSealedSecrets and watchSecrets of pkg/controller/controller.go, and
-- prepareController with initSecretInformerFactory of pkg/controller/main.go: which informers a controller has, and
-- which handlers they call. The factories of client-go are parameters.
use Prim.Native.String
use sealed_secrets.Base.{
  ℕ, String, Bool, false, not, ◌==◌, Option, none, some, Outcome, ok, err, panic, own, message,
  if◌then◌else◌,
}
use sealed_secrets.Base.Action.{Action, return, ◌>>=◌}
use sealed_secrets.Crypto.{Primitives}
use sealed_secrets.Sealed.{Secret}
use sealed_secrets.World.{World, Object}
use sealed_secrets.Registry.{KeyRegistry}
use sealed_secrets.Controller.Queue.{WorkQueue}
use sealed_secrets.Controller.Watch.{
  Informers, DeletedSecret, sealed_secret_added, sealed_secret_updated, sealed_secret_deleted,
  secret_deleted, Watched, key_secret_added,
}
use sealed_secrets.Controller.Worker.{Wiring}
use sealed_secrets.Startup.{key_selector}
use sealed_secrets.Startup.Options.{Flags}

-- The factories of informers, each for a namespace and with the label selector of its options, if that is tweaked; the
-- informers of a factory; and AddEventHandler.
pub record Factories (S H : Type 0) : Type 1 where
  pub Factory : Type 0
  pub Informer : Type 0
  pub secret_factory : String → Option String → Factory
  pub sealed_factory : String → Option String → Factory
  pub secrets : Factory → Informer
  pub sealed_secrets : Factory → Informer
  pub add_event_handler : Informer → H → Action S (Unit {0})

-- A Controller as Main runs it: its informers, the limit of its retries, which is a variable of the package that
-- NewController sets, and its two switches.
pub record Configured (Informer : Type 0) : Type 0 where
  pub wiring : Wiring Informer
  pub max_retries : ℕ
  pub old_gc_behavior : Bool
  pub update_status : Bool

module _ {p : Primitives} (w : World p) (q : WorkQueue) (i : Informers) where
  -- cache.ResourceEventHandlerFuncs, as the three functions that watch set them.
  pub data Handlers : Type 0 where
    for_sealed_secrets :
        (Object → q.Items → q.Items)
        → (Object → Object → q.Items → q.Items)
        → (Object → Watched q i w → Watched q i w)
        → Handlers
    for_secrets : (DeletedSecret → q.Items → w.State → Outcome q.Items × w.State) → Handlers
    for_key_secrets : (Secret → KeyRegistry w → Outcome (KeyRegistry w)) → Handlers

  -- AddFunc, UpdateFunc and DeleteFunc
  abbrev pub sealed_secrets_handlers : Handlers
  sealed_secrets_handlers =
      for_sealed_secrets (sealed_secret_added q i) (sealed_secret_updated q i)
        (sealed_secret_deleted q i w)

  abbrev pub secrets_handlers : Handlers
  secrets_handlers = for_secrets (secret_deleted q i w)

  abbrev pub key_secrets_handlers : String → Handlers
  key_secrets_handlers key_order_priority =
      for_key_secrets (λ secret. key_secret_added w secret key_order_priority)

  module _ (n : Factories w.State Handlers) where
    -- fmt.Errorf(text+"%w", err), and the informer if there is no error.
    abbrev pub handled_by :
        String → n.Informer → Outcome (Unit {0}) × w.State → Outcome n.Informer × w.State
    handled_by text informer (ok done, s) = (ok informer, s)
    handled_by text informer (err e, s) = (err (own (String.◌++◌ text (message e))), s)
    handled_by text informer (panic, s) = (panic, s)

    abbrev pub watched : String → Handlers → n.Informer → Action w.State n.Informer
    watched text handlers informer s =
        handled_by text informer (n.add_event_handler informer handlers s)

    -- watchSealedSecrets
    unfoldable pub watch_sealed_secrets : n.Factory → Action w.State n.Informer
    watch_sealed_secrets ssinformer =
        watched "could not add event handler to sealed secrets informer: " sealed_secrets_handlers
          (n.sealed_secrets ssinformer)

    -- watchSecrets
    unfoldable pub watch_secrets : n.Factory → Action w.State n.Informer
    watch_secrets sinformer =
        watched "could not add event handler to secrets informer: " secrets_handlers
          (n.secrets sinformer)

    -- watchKeySecrets
    unfoldable pub watch_key_secrets : String → n.Factory → Action w.State n.Informer
    watch_key_secrets key_order_priority kinformer =
        watched "could not add event handler to secrets informer: "
          (key_secrets_handlers key_order_priority) (n.secrets kinformer)

    -- if factory != nil { … }
    abbrev pub if_any :
        (n.Factory → Action w.State n.Informer)
        → Option n.Factory
        → Action w.State (Option n.Informer)
    if_any watch none = return none
    if_any watch (some factory) = watch factory >>= λ informer. return (some informer)

    -- NewController, with the switches off.
    unfoldable pub new_controller :
        n.Factory
        → Option n.Factory
        → Option n.Factory
        → ℕ
        → String
        → Action w.State (Configured n.Informer)
    unfolding watch_sealed_secrets watch_secrets watch_key_secrets
    new_controller ssinformer sinformer kinformer max_retries key_order_priority = do
      ss_informer ← watch_sealed_secrets ssinformer
      s_informer ← if_any watch_secrets sinformer
      k_informer ← if_any (watch_key_secrets key_order_priority) kinformer
      return (record {
        wiring = record {
          ss_informer = ss_informer;
          s_informer = s_informer;
          k_informer = k_informer;
        };
        max_retries = max_retries;
        old_gc_behavior = false;
        update_status = false;
      })

    -- initSecretInformerFactory
    unfoldable pub init_secret_informer_factory : String → Option String → Bool → Option n.Factory
    init_secret_informer_factory ns tweakopts enabled =
        if not enabled then none else some (n.secret_factory ns tweakopts)

    -- The options that Main has set: the label selector, if there is one.
    unfoldable pub tweak_options : Flags → Option String
    tweak_options f = if not (f.label_selector == "") then some f.label_selector else none

    -- prepareController
    unfoldable pub prepare_controller :
        String → String → Option String → Flags → Action w.State (Configured n.Informer)
    unfolding init_secret_informer_factory new_controller
    prepare_controller namespace key_namespace tweakopts f =
        new_controller (n.sealed_factory namespace tweakopts)
          (init_secret_informer_factory namespace tweakopts (not f.skip_recreate))
          (init_secret_informer_factory key_namespace (some key_selector) f.watch_for_secrets)
          f.max_retries f.key_order_priority

    -- A controller of Main: prepared, and with its switches set.
    unfoldable pub main_controller :
        String → Flags → String → Action w.State (Configured n.Informer)
    unfolding prepare_controller tweak_options
    main_controller key_namespace f namespace =
        prepare_controller namespace key_namespace (tweak_options f) f >>= λ controller.
        return (record controller {
          old_gc_behavior = f.old_gc_behavior;
          update_status = f.update_status;
        })
