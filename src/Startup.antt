-- ===== src/Startup.antt =====
-- The start of the controller: generateKey of pkg/controller/keyregistry.go and, of pkg/controller/main.go,
-- the loading of the stored keys, the choice of their ordering time and the first key.
pub mod Load
pub mod Stored
pub mod FirstKey
pub mod Options
pub mod Informers
pub mod Wired
pub mod Main
pub mod Running
pub mod Process
use sealed_secrets.Base.{
  ℕ, ◌+◌, ◌-◌, ◌/◌, ◌^◌, String, Bool, true, false, not, ◌||◌, List, [], ◌∷◌, ◌++◌, Option, none,
  some, own, Error, Outcome, ok, err, panic, is_not_found, ◌==◌, ltb, eqb, length, if◌then◌else◌,
}
use sealed_secrets.Base.Action.{Action, attempt, lift, return, ◌>>=◌}
use sealed_secrets.Crypto.{Primitives}
use sealed_secrets.Sealed.{Secret}
use sealed_secrets.World.{World, clock}
use sealed_secrets.Registry.{KeyRegistry, Key, new_key_registry, register_new_key}
use sealed_secrets.Keys.{generate_private_key_and_cert, write_key, read_key}

abbrev pub sealed_secrets_key_label : String
sealed_secrets_key_label = "sealedsecrets.bitnami.com/sealed-secrets-key"

-- keySelector
abbrev pub key_selector : String
key_selector = "sealedsecrets.bitnami.com/sealed-secrets-key=active"

-- time.Time.Unix
abbrev pub unix : ℕ → ℕ
unix t = t / 10 ^ 9

-- ByCreationTimestamp.Less
unfoldable pub less : Secret → Secret → Bool
less s t = ltb (unix s.meta.creation_timestamp) (unix t.meta.creation_timestamp)

-- The timer that initKeyRenewal leaves behind.
pub data Renewal : Type 0 where
  on_demand : Renewal
  scheduled : ℕ → ℕ → Renewal

module _ {p : Primitives} (w : World p) where
  -- What a goroutine of the controller sees: the registry and the world.
  abbrev pub Machine : Type 0
  Machine = KeyRegistry w × w.State

  abbrev pub on_world {ℓ} : {A : Type ℓ} → Action w.State A → Action Machine A
  on_world m (kr, s) = let (r, s') = m s in (r, (kr, s'))

  abbrev pub registered :
      KeyRegistry w → w.State → Outcome (KeyRegistry w) → Outcome (Unit {0}) × Machine
  registered kr s (ok kr') = (ok tt, (kr', s))
  registered kr s (err e) = (err e, (kr, s))
  registered kr s panic = (panic, (kr, s))

  -- kr.registerNewKey
  abbrev pub register : p.PrivateKey → w.Cert → ℕ → Action Machine (Unit {0})
  register priv_key cert ordering_time (kr, s) =
      registered kr s (register_new_key w kr priv_key cert ordering_time)

  -- KeyRegistry.generateKey
  unfoldable pub generate_key : ℕ → String → String → String → Action Machine String
  generate_key valid_for cn private_key_annotations private_key_labels (kr, s) =
      (do
        pair ← on_world (generate_private_key_and_cert w kr.keysize valid_for cn)
        generated_name ← on_world (
            write_key w pair.0 (pair.1 ∷ []) kr.namespace kr.key_label kr.key_prefix
              private_key_annotations private_key_labels 0)
        now ← on_world (clock w)
        register pair.0 pair.1 now >>= λ _. return generated_name)
        (kr, s)

  -- getKeyOrderPriority
  unfoldable pub get_key_order_priority : String → w.Cert → Secret → ℕ
  get_key_order_priority key_order_priority cert secret =
      if key_order_priority == "CertNotBefore"
      then w.not_before cert
      else if key_order_priority == "SecretCreationTimestamp"
      then secret.meta.creation_timestamp
      else w.not_before cert

  -- registryNewKeyWithSecret. The error of readKey is logged only: the next line then takes the first
  -- certificate of a nil slice.
  unfoldable pub registry_new_key_with_secret :
      Secret → String → KeyRegistry w → Outcome (KeyRegistry w)
  registry_new_key_with_secret secret key_order_priority kr = elim (read_key w secret) [
    | ok (key, certs) ↦ elim certs [
      | [] ↦ panic
      | cert ∷ more ↦
          register_new_key w kr key cert (get_key_order_priority key_order_priority cert secret)
    ]
    | err e ↦ panic
    | panic ↦ panic
  ]

  -- The loop of initKeyRegistry over the sorted secrets.
  unfoldable pub load_keys : List Secret → String → KeyRegistry w → Outcome (KeyRegistry w)
  load_keys [] key_order_priority kr = ok kr
  load_keys (secret ∷ secrets) key_order_priority kr =
      elim (registry_new_key_with_secret secret key_order_priority kr) [
        | ok kr' ↦ load_keys secrets key_order_priority kr'
        | err e ↦ err e
        | panic ↦ panic
      ]

  -- The legacy key, a secret whose name is the prefix: any error but its absence ends the start.
  unfoldable pub with_legacy_key : List Secret → Outcome Secret → Outcome (List Secret)
  with_legacy_key items (ok s) = ok (items ++ (s ∷ []))
  with_legacy_key items (err e) = if is_not_found e then ok items else err e
  with_legacy_key items panic = panic

  -- initKeyRegistry. `sort` is what sort.Sort makes of the list by `less`.
  unfoldable pub init_key_registry :
      (List Secret → List Secret)
      → String
      → String
      → String
      → ℕ
      → String
      → Action w.State (KeyRegistry w)
  unfolding load_keys with_legacy_key
  init_key_registry sort namespace prefix label keysize key_order_priority = do
    listed ← w.list_secrets namespace key_selector
    legacy ← attempt (w.get_secret namespace prefix)
    items ← lift (with_legacy_key listed legacy)
    lift (
        load_keys (sort items) key_order_priority
          (new_key_registry w namespace prefix label keysize))

  -- len(registry.keys) == 0 || registry.mostRecentKey.orderingTime.Before(cutoffTime)
  unfoldable pub needs_first_key : KeyRegistry w → ℕ → Outcome Bool
  needs_first_key kr cutoff_time = elim kr.keys [
    | [] ↦ ok true
    | k ∷ ks ↦ elim kr.most_recent_key [
      | none ↦ panic
      | some m ↦ ok (ltb m.ordering_time cutoff_time)
    ]
  ]

  -- registry.mostRecentKey.orderingTime
  unfoldable pub most_recent_time : KeyRegistry w → Outcome ℕ
  most_recent_time kr = elim kr.most_recent_key [ none ↦ panic | some m ↦ ok m.ordering_time ]

  abbrev pub read_registry {ℓ} : {A : Type ℓ} → (KeyRegistry w → Outcome A) → Action Machine A
  read_registry f (kr, s) = (f kr, (kr, s))

  -- if stale { generateKey }
  unfoldable pub first_key : Bool → ℕ → String → String → String → Action Machine (Unit {0})
  unfolding generate_key
  first_key true valid_for cn annotations labels =
      generate_key valid_for cn annotations labels >>= λ _. return tt
  first_key false valid_for cn annotations labels = return tt

  -- keyGenFunc: an error is logged only.
  unfoldable pub key_gen_func : ℕ → String → String → String → Action Machine (Unit {0})
  unfolding generate_key
  key_gen_func valid_for cn annotations labels m =
      let (r, m') = generate_key valid_for cn annotations labels m in
      (elim r [ ok name ↦ ok tt | err e ↦ ok tt | panic ↦ panic ], m')

  -- The timer that starts the automatic renewal, with its first delay and its period. A first delay below zero is zero, as the difference of natural numbers is.
  unfoldable pub renewal_after : ℕ → ℕ → ℕ → Renewal
  renewal_after period now ordering_time = scheduled (period + ordering_time - now) period

  -- The end of initKeyRenewal: a period of 0 leaves the renewal to the trigger.
  unfoldable pub schedule : ℕ → Action Machine Renewal
  unfolding most_recent_time renewal_after
  schedule period = if eqb period 0 then return on_demand else (do
    now ← on_world (clock w)
    ordering_time ← read_registry most_recent_time
    return (renewal_after period now ordering_time))

  -- initKeyRenewal
  unfoldable pub init_key_renewal : ℕ → ℕ → ℕ → String → String → String → Action Machine Renewal
  unfolding needs_first_key first_key schedule
  init_key_renewal period valid_for cutoff_time cn annotations labels = do
    stale ← read_registry (λ kr. needs_first_key kr cutoff_time)
    done ← first_key stale valid_for cn annotations labels
    schedule period
