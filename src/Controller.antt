-- ===== src/Controller.antt =====
-- The controller: pkg/controller/controller.go. The state of a run is the registry of keys, the world, and
-- what the run reports: the events and the counters and gauges of pkg/controller/metrics.go.
pub mod Desired
pub mod Conditions
pub mod Reconcile
pub mod Merge
pub mod Settled
pub mod Convergence
pub mod Fresh
pub mod Worker
pub mod Closing
pub mod Stopping
pub mod Transitions
pub mod Gauges
pub mod Ownership
pub mod Queue
pub mod Retries
pub mod Rotate
pub mod Rotation
pub mod Watch
pub mod Requeue
use Prim.Native.Char.{code}
use Prim.Native.String
use sealed_secrets.Base.{
  ℕ, ◌+◌, String, Bool, true, false, not, ◌&&◌, List, [], ◌∷◌, ◌++◌, Option, none, some, own, Error,
  message, Outcome, ok, err, Bytes, bytes_of, ◌==◌, eqb, if◌then◌else◌,
}
use sealed_secrets.Base.Action.{Action}
use sealed_secrets.Base.GoMap.{GoMap, index}
use sealed_secrets.Scope.{managed_annotation, patch_annotation}
use sealed_secrets.Crypto.{Primitives}
use sealed_secrets.Sealed.{Secret, SealedSecret, ConditionStatus}
use sealed_secrets.World.{World, Object, sealed, other_object}
use sealed_secrets.Registry.{KeyRegistry}

-- isAnnotatedToBeManaged
abbrev pub is_annotated_to_be_managed : Secret → Bool
is_annotated_to_be_managed secret = index secret.meta.annotations managed_annotation == "true"

-- isAnnotatedToBePatched
abbrev pub is_annotated_to_be_patched : Secret → Bool
is_annotated_to_be_patched secret = index secret.meta.annotations patch_annotation == "true"

-- The bytes end with those of a suffix: strings.HasSuffix.
same_bytes : Bytes → Bytes → Bool
same_bytes [] [] = true
same_bytes (a ∷ as') (b ∷ bs) = eqb a b && same_bytes as' bs
same_bytes _ _ = false

unfoldable pub has_suffix : Bytes → Bytes → Bool
unfolding same_bytes
has_suffix [] suffix = same_bytes [] suffix
has_suffix (a ∷ as') suffix =
    let rest = has_suffix as' suffix in if same_bytes (a ∷ as') suffix then true else rest

-- isImmutableError
unfoldable pub is_immutable_error : Error → Bool
unfolding has_suffix bytes_of
is_immutable_error e =
    has_suffix (bytes_of (message e)) (bytes_of "field is immutable when `immutable` is set")

-- formatImmutableError
abbrev pub format_immutable_error : String → String
format_immutable_error key = String.◌++◌ "Error updating " (
    String.◌++◌ key
      ": the target Secret is immutable. Once a Secret is marked as immutable, it is not possible to revert this change nor to mutate the contents of the data field. You can only delete and recreate the Secret.")

-- convertSealedSecret
unfoldable pub convert_sealed_secret : Object → Outcome SealedSecret
convert_sealed_secret other_object = err (own "cast error: failed to cast into SealedSecret")
convert_sealed_secret (sealed s) =
    if (s.api_version == "")
    then ok (with_kind s)
    else if s.kind == ""
    then ok (with_kind s)
    else ok s
  where
    with_kind : SealedSecret → SealedSecret
    with_kind s = record s { api_version = "bitnami.com/v1alpha1"; kind = "SealedSecret" }

pub data Event : Type 0 where
  normal warning : String → String → Event

-- The labels of the gauge condition_info.
pub record GaugeKey : Type 0 where
  pub gauge_namespace : String
  pub gauge_name : String
  pub gauge_condition : String
  pub gauge_instance : String

unfoldable pub same_gauge : GaugeKey → GaugeKey → Bool
same_gauge a b =
    a.gauge_namespace == b.gauge_namespace
    && a.gauge_name == b.gauge_name
    && a.gauge_condition == b.gauge_condition
    && a.gauge_instance == b.gauge_instance

module _ {p : Primitives} (w : World p) where
  -- Controller, with its feature flags and the package variable AcceptDeprecatedV1Data
  pub record Controller : Type 0 where
    pub registry : KeyRegistry w
    pub world : w.State
    pub old_gc_behavior : Bool
    pub update_status : Bool
    pub accept_deprecated_v1_data : Bool
    pub events : List Event
    pub unseal_requests_total : ℕ
    pub unseal_errors_total : List (String × String)
    pub condition_info : List (GaugeKey × ConditionStatus)

  -- A call of the world.
  abbrev pub call {ℓ} : {A : Type ℓ} → Action w.State A → Action Controller A
  call m c = let (r, s) = m c.world in (r, record c { world = s })

  -- recorder.Event and the counter of errors by reason
  abbrev pub report : Event → Controller → Controller
  report e c = record c { events = c.events ++ (e ∷ []) }

  abbrev pub count_error : String → String → Controller → Controller
  count_error reason namespace c = record c {
    unseal_errors_total = c.unseal_errors_total ++ ((reason, namespace) ∷ []);
  }
