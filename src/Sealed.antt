-- ===== src/Sealed.antt =====
-- The objects that are sealed: Secret and ObjectMeta of the Kubernetes API, with the fields that the
-- program reads or writes, and SealedSecret with its parts, pkg/apis/sealedsecrets/v1alpha1/types.go.
pub mod Seal
pub mod Unseal
pub mod Items
pub mod RoundTrip
pub mod WrongPlace
pub mod Legacy
pub mod Tables
use sealed_secrets.Base.{
  ℕ, String, ◌≡◌, Bool, true, false, List, [], ◌∷◌, ◌++◌, Option, none, some, Error, Outcome, ok,
  err, panic, Bytes,
}
use sealed_secrets.Base.GoMap.{GoMap, nil_map, table, Entries}
use sealed_secrets.Crypto.{Primitives}

pub record OwnerReference : Type 0 where
  pub api_version : String
  pub kind : String
  pub name : String
  pub uid : String
  pub controller : Option Bool

-- Times are nanoseconds; the time zero stands for a time that is not set.
pub record ObjectMeta : Type 0 where
  pub name : String
  pub generate_name : String
  pub namespace : String
  pub self_link : String
  pub uid : String
  pub resource_version : String
  pub generation : ℕ
  pub creation_timestamp : ℕ
  pub deletion_timestamp : Option ℕ
  pub deletion_grace_period_seconds : Option ℕ
  pub labels : GoMap String
  pub annotations : GoMap String
  pub owner_references : List OwnerReference

abbrev pub empty_meta : ObjectMeta
empty_meta = record {
  name = "";
  generate_name = "";
  namespace = "";
  self_link = "";
  uid = "";
  resource_version = "";
  generation = 0;
  creation_timestamp = 0;
  deletion_timestamp = none;
  deletion_grace_period_seconds = none;
  labels = nil_map;
  annotations = nil_map;
  owner_references = [];
}

pub record Secret : Type 0 where
  pub meta : ObjectMeta
  pub open meta use *
  pub type : String
  pub immutable : Option Bool
  pub secret_data : GoMap Bytes
  pub string_data : GoMap String

abbrev pub empty_secret : Secret
empty_secret = record {
  meta = empty_meta;
  type = "";
  immutable = none;
  secret_data = nil_map;
  string_data = nil_map;
}

-- SecretTemplateSpec
pub record SecretTemplateSpec : Type 0 where
  pub meta : ObjectMeta
  pub type : String
  pub immutable : Option Bool
  pub template_data : GoMap String

-- SealedSecretSpec; `data` is nil or the deprecated single ciphertext.
pub record SealedSecretSpec : Type 0 where
  pub template : SecretTemplateSpec
  pub legacy_data : Option Bytes
  pub encrypted_data : GoMap String

pub data ConditionStatus : Type 0 where
  condition_true condition_false condition_unknown condition_unset : ConditionStatus

-- SealedSecretCondition
pub record SealedSecretCondition : Type 0 where
  pub type : String
  pub status : ConditionStatus
  pub last_update_time : ℕ
  pub last_transition_time : ℕ
  pub reason : String
  pub condition_message : String

-- SealedSecretStatus
pub record SealedSecretStatus : Type 0 where
  pub observed_generation : ℕ
  pub conditions : List SealedSecretCondition

-- SealedSecret
pub record SealedSecret : Type 0 where
  pub api_version : String
  pub kind : String
  pub meta : ObjectMeta
  pub spec : SealedSecretSpec
  pub status : Option SealedSecretStatus

-- The packages encoding/base64, text/template with its function table, multierror and the decoder of
-- Kubernetes objects, as far as sealing and unsealing call them.
pub record Codecs : Type 1 where
  pub Template : Type 0
  pub base64_encode : Bytes → String
  pub base64_decode : String → Outcome Bytes
  pub parse_template : String → String → Outcome Template
  pub execute_template : Template → Entries Bytes → Bytes × Outcome (Unit {0})
  pub tag_error : String → Error → Error
  pub join_errors : List Error → Error
  pub group_version : String → String
  pub supports_json : Bool
  pub encode_secret : Secret → Outcome Bytes
  pub decode_secret : Bytes → Outcome Secret

-- SealedSecretEncryptedData.UnmarshalJSON over json.Unmarshal, which is given the map to fill and returns what became
-- of it beside its error; the error is dropped.
unfoldable pub unmarshal_encrypted_data :
    (Bytes → GoMap String → GoMap String × Option Error) → Bytes → Outcome (GoMap String)
unmarshal_encrypted_data unmarshal data' = let (tmp, dropped) = unmarshal data' (table []) in ok tmp
