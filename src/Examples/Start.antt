-- ===== src/Examples/Start.antt =====
-- A start of the controller in the toy world, and the certificate that it serves.
use sealed_secrets.Base.{
  ℕ, ◌≡◌, refl, String, Bool, true, false, Each, Option, [], ◌∷◌, some, external, ok, err, bytes_of,
  utf8,
}
use sealed_secrets.Base.Action.{attempt}
use sealed_secrets.Base.GoMap.{get, insert, lookup}
use sealed_secrets.Base.Split.{split}
use sealed_secrets.Crypto.{public_key_fingerprint}
use sealed_secrets.Crypto.Laws.{HasKey}
use sealed_secrets.Funcs.{
  validate_key_prefix, check_runes, is_kube_char, remove_duplicates, collect,
}
use sealed_secrets.Keys.{read_key}
use sealed_secrets.Registry.{
  Key, KeyRegistry, private_keys, register_new_key, add_key, more_recent, new_key_registry,
}
use sealed_secrets.Startup.{
  on_demand, init_key_registry, load_keys, with_legacy_key, registry_new_key_with_secret,
  get_key_order_priority, needs_first_key, first_key, schedule, most_recent_time, renewal_after,
  init_key_renewal,
}
use sealed_secrets.Startup.Options.{Flags}
use sealed_secrets.Startup.Informers.{
  Factories, Handlers, Configured, main_controller, prepare_controller, new_controller,
  init_secret_informer_factory, watch_sealed_secrets, watch_secrets, watch_key_secrets,
  tweak_options,
}
use sealed_secrets.Startup.Running.{WasWired, start-WasWired}
use sealed_secrets.Startup.Main.{
  Pod, Started, start, init_key_prefix, my_namespace, main_namespace, cutoff_time, watch_additional,
  start_controllers,
}
use sealed_secrets.Server.Service.{pem_block, serve}
use sealed_secrets.Server.Started.{cert_request, cert_reply, serve-start}
use sealed_secrets.Examples.Toy.{toy, toy_codecs, toy-IsCollisionFree}
use sealed_secrets.Examples.ToyWorld.{toy_world}
use sealed_secrets.Examples.Keys.{one_key}
use sealed_secrets.Examples.Cluster.{toy_controller, toy_queue, toy_informers}
use sealed_secrets.Examples.Requests.{sealed_documents, one_document, no_limit}

abbrev toy_pod : Pod ℕ
toy_pod = record {
  pod_namespace = "ns";
  token_namespace = err (external "no such file");
  parse_time = λ text. err (external "cannot parse");
  sort = λ l. l;
  get_namespace = λ ns s. (ok tt, s);
}

-- An informer is its kind, its namespace and its label selector.
abbrev toy_factories : Factories ℕ (Handlers toy_world toy_queue toy_informers)
toy_factories = record {
  Factory = String × Option String;
  Informer = Bool × (String × Option String);
  secret_factory = λ ns selector. (ns, selector);
  sealed_factory = λ ns selector. (ns, selector);
  secrets = λ factory. (false, factory);
  sealed_secrets = λ factory. (true, factory);
  add_event_handler = λ informer handlers s. (ok tt, s);
}

abbrev toy_start_flags : Flags
toy_start_flags = record {
  accept_v1_data = false;
  label_selector = "team=x";
  rate_limit_per_second = 2;
  rate_limit_burst = 2;
  old_gc_behavior = false;
  update_status = true;
  skip_recreate = false;
  log_info_to_stdout = true;
  log_level = "INFO";
  log_format = "text";
  max_retries = 5;
  watch_for_secrets = true;
  kube_client_burst = 10;
  key_prefix = "key";
  key_size = 4096;
  valid_for = 100;
  my_cn = "cn";
  key_renew_period = 0;
  key_order_priority = "CertNotBefore";
  key_cutoff_time = "";
  namespace_all = true;
  additional_namespaces = "a,ns,a";
  private_key_annotations = "";
  private_key_labels = "";
}

abbrev started_registry : KeyRegistry toy_world
started_registry = record one_key {
  key_prefix = "key";
  key_label = "sealedsecrets.bitnami.com/sealed-secrets-key";
}

abbrev toy_wired : String → Configured (Bool × (String × Option String))
toy_wired ns = record {
  wiring = record {
    ss_informer = (true, (ns, some "team=x"));
    s_informer = some (false, (ns, some "team=x"));
    k_informer = some (false, ("ns", some "sealedsecrets.bitnami.com/sealed-secrets-key=active"));
  };
  max_retries = 5;
  old_gc_behavior = false;
  update_status = true;
}

abbrev toy_started : Started toy_world toy_queue toy_informers toy_factories
toy_started = record {
  key_registry = started_registry;
  renewal = on_demand;
  running = ("ns", toy_wired "ns") ∷ ("a", toy_wired "a") ∷ [];
}

start_example :
    start toy_world toy_queue toy_informers toy_factories toy_pod toy_start_flags 9
    ≡ (ok toy_started, 9)
unfolding start init_key_prefix validate_key_prefix check_runes is_kube_char my_namespace
    main_namespace cutoff_time watch_additional start_controllers split remove_duplicates collect
    attempt init_key_registry load_keys with_legacy_key registry_new_key_with_secret read_key
    get_key_order_priority register_new_key add_key more_recent new_key_registry insert
    public_key_fingerprint get lookup init_key_renewal needs_first_key first_key schedule
    most_recent_time renewal_after bytes_of utf8 main_controller prepare_controller new_controller
    init_secret_informer_factory watch_sealed_secrets watch_secrets watch_key_secrets tweak_options
start_example = refl

serve-start_example :
    (k : Key toy_world) × (started_registry.most_recent_key ≡ some k)
    × (serve toy_world toy_codecs sealed_documents one_document no_limit cert_request
          (record toy_controller { registry = started_registry }, tt)
        ≡ (
          ok (cert_reply (pem_block toy_world k.cert)),
          (record toy_controller { registry = started_registry }, tt),
        ))
    × HasKey toy k.private (private_keys toy_world started_registry)
serve-start_example =
    serve-start toy_world toy_queue toy_informers toy_factories toy_codecs sealed_documents
      one_document no_limit toy_pod toy_start_flags 9 9 toy_started
      (record toy_controller { registry = started_registry }) tt toy-IsCollisionFree start_example
      refl

start-WasWired_example :
    Each
      (WasWired toy_world toy_queue toy_informers toy_factories toy_start_flags "ns")
      toy_started.running
unfolding my_namespace
start-WasWired_example =
    start-WasWired toy_world toy_queue toy_informers toy_factories toy_pod toy_start_flags 9 9
      toy_started start_example
