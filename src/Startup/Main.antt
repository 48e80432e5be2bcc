-- ===== src/Startup/Main.antt =====
-- Main of pkg/controller/main.go up to the HTTP server, with initKeyPrefix and myNamespace: the registry, its renewal, and
-- the namespaces that a controller watches.
use sealed_secrets.Base.{
  ℕ, String, not, ◌||◌, List, [], ◌∷◌, ◌++◌, Outcome, ok, err, panic, map_ok, is_not_found, ◌==◌,
  if◌then◌else◌,
}
use sealed_secrets.Base.Action.{Action, attempt, lift, return, ◌>>=◌}
use sealed_secrets.Base.Split.{split}
use sealed_secrets.Funcs.{validate_key_prefix, remove_duplicates}
use sealed_secrets.Crypto.{Primitives}
use sealed_secrets.Sealed.{Secret}
use sealed_secrets.World.{World}
use sealed_secrets.Registry.{KeyRegistry}
use sealed_secrets.Controller.Queue.{WorkQueue}
use sealed_secrets.Controller.Watch.{Informers}
use sealed_secrets.Startup.Options.{Flags}
use sealed_secrets.Startup.Informers.{Factories, Handlers, Configured, main_controller}
use sealed_secrets.Startup.{
  Machine, Renewal, sealed_secrets_key_label, init_key_registry, init_key_renewal,
}

-- initKeyPrefix
unfoldable pub init_key_prefix : String → Outcome String
init_key_prefix key_prefix = validate_key_prefix key_prefix

-- What the start is given of the pod and of other packages: os.Getenv("POD_NAMESPACE"), the trimmed text of the
-- service account's file, time.Parse, sort.Sort and the namespaces of the cluster.
pub record Pod (S : Type 0) : Type 0 where
  pub pod_namespace : String
  pub token_namespace : Outcome String
  pub parse_time : String → Outcome ℕ
  pub sort : List Secret → List Secret
  pub get_namespace : String → Action S (Unit {0})

module _ {S : Type 0} (pod : Pod S) where
  abbrev pub from_token : Outcome String → String
  from_token (ok ns) = if not (ns == "") then ns else "default"
  from_token _ = "default"

  -- myNamespace
  unfoldable pub my_namespace : String
  my_namespace =
      if not (pod.pod_namespace == "") then pod.pod_namespace else from_token pod.token_namespace

  -- The namespace of the first controller; all of them is the empty text.
  unfoldable pub main_namespace : Flags → String
  unfolding my_namespace
  main_namespace f =
      if not f.namespace_all || not (f.additional_namespaces == "") then my_namespace else ""

  -- No cutoff is the time zero.
  unfoldable pub cutoff_time : Flags → Outcome ℕ
  cutoff_time f = if not (f.key_cutoff_time == "") then pod.parse_time f.key_cutoff_time else ok 0

module _ {S : Type 0} {A : Type 0} (pod : Pod S) (prepare : String → Action S A) where
  -- The controllers, by their namespaces
  abbrev pub Running : Type 0
  Running = List (String × A)

  abbrev pub if_there : Outcome (Unit {0}) → Action S Running → Action S Running → Action S Running
  if_there (ok there) found missing = found
  if_there (err e) found missing = if is_not_found e then missing else lift (err e)
  if_there panic found missing = lift panic

  -- The loop over the additional namespaces, with the controllers so far.
  unfoldable pub watch_additional : String → List String → Running → Action S Running
  watch_additional namespace [] running = return running
  watch_additional namespace (ns ∷ more) running =
      let next = watch_additional namespace more running in
      attempt (pod.get_namespace ns) >>= λ r.
      if_there r
        (if ns == namespace
          then next
          else (prepare ns >>= λ ctlr.
              watch_additional namespace more (running ++ ((ns, ctlr) ∷ []))))
        next

  -- The controllers that Main starts.
  unfoldable pub start_controllers : Flags → Action S Running
  unfolding main_namespace watch_additional
  start_controllers f =
      let namespace = main_namespace pod f in
      prepare namespace >>= λ controller.
      if not (f.additional_namespaces == "")
      then watch_additional namespace (remove_duplicates (split b',' f.additional_namespaces))
          ((namespace, controller) ∷ [])
      else return ((namespace, controller) ∷ [])

module _ {p : Primitives} (w : World p) where
  abbrev pub with_registry {ℓ} :
      {A : Type ℓ} → KeyRegistry w → Action (Machine w) A → Action w.State (A × KeyRegistry w)
  with_registry kr m s = let (r, machine) = m (kr, s) in (map_ok (λ a. (a, machine.0)) r, machine.1)

module _ {p : Primitives} (w : World p) (q : WorkQueue) (i : Informers)
    (n : Factories w.State (Handlers w q i)) where
  -- What Main has when the servers start.
  pub record Started : Type 0 where
    pub key_registry : KeyRegistry w
    pub renewal : Renewal
    pub running : List (String × Configured n.Informer)

  -- Main from the prefix to the controllers
  unfoldable pub start : Pod w.State → Flags → Action w.State Started
  unfolding init_key_prefix start_controllers cutoff_time main_controller
  start pod f = do
    prefix ← lift (init_key_prefix f.key_prefix)
    kr ←
        init_key_registry w pod.sort (my_namespace pod) prefix sealed_secrets_key_label f.key_size
          f.key_order_priority
    ct ← lift (cutoff_time pod f)
    renewed ← with_registry w kr (
        init_key_renewal w f.key_renew_period f.valid_for ct f.my_cn f.private_key_annotations
          f.private_key_labels)
    running ← start_controllers pod (main_controller w q i n (my_namespace pod) f) f
    return (record { key_registry = renewed.1; renewal = renewed.0; running = running })
