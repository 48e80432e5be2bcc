-- ===== src/Kubeseal.antt =====
-- The library behind the command line: pkg/kubeseal/kubeseal.go. A run writes to an output and draws from the
-- random source; both stay as they are when a later step fails.
pub mod Documents
pub mod Reading
pub mod Output
pub mod Prepare
pub mod Prepared
pub mod Placing
pub mod Seal
pub mod Sealing
pub mod PrivateKeys
pub mod Recovery
pub mod Recovered
pub mod Merge
pub mod Cluster
pub mod Remote
pub mod Raw
pub mod RawItems
pub mod Merging
pub mod MergedItems
use sealed_secrets.Base.{String, List, [], ◌++◌, Option, Error, Outcome, ok, Bytes}
use sealed_secrets.Base.Action.{Action}
use sealed_secrets.Crypto.{Primitives}
use sealed_secrets.Sealed.{Secret, SealedSecret}

-- What io.ReadAll makes of an io.Reader.
abbrev pub Reader : Type 0
Reader = Outcome Bytes

-- The objects that are written.
pub data Resource : Type 0 where
  secret_resource : Secret → Resource
  sealed_resource : SealedSecret → Resource

-- The serializers of Kubernetes and encoding/json. `info` is what SerializerInfoForMediaType finds: the pretty
-- serializer, if there is one, and the plain one.
pub record Serializers : Type 1 where
  pub Serializer : Type 0
  pub info : String → Option (Option Serializer × Serializer)
  pub encode : Serializer → String → Resource → Outcome Bytes
  pub decode_into_sealed : Bytes → Outcome SealedSecret
  pub marshal : SealedSecret → Outcome Bytes
  pub unmarshal : Bytes → Outcome SealedSecret

module _ (p : Primitives) where
  pub record Session : Type 0 where
    pub random : p.Rand
    pub out : Bytes

module _ {p : Primitives} where
  -- Writes to the output; the code drops their errors.
  abbrev pub write : Bytes → Action (Session p) (Unit {0})
  write bytes s = (ok tt, record s { out = s.out ++ bytes })

  -- A step that draws from rand.Reader.
  abbrev pub drawing {ℓ} : {A : Type ℓ} → Action p.Rand A → Action (Session p) A
  drawing m s = let (r, random) = m s.random in (r, record s { random = random })
