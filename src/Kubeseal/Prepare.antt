-- ===== src/Kubeseal/Prepare.antt =====
-- What Seal of pkg/kubeseal/kubeseal.go does to a Secret before it is sealed.
use Prim.Native.String
use sealed_secrets.Base.{
  String, Bool, not, ◌&&◌, none, own, Error, Outcome, ok, err, guard, eqb, length, ◌==◌,
  if◌then◌else◌, ◌>>=◌, ◌>>◌,
}
use sealed_secrets.Base.GoMap.{GoMap, entries}
use sealed_secrets.Scope.{SealingScope, scope_code, secret_scope, update_scope_annotations}
use sealed_secrets.Sealed.{ObjectMeta, Secret}
use sealed_secrets.Sealed.Seal.{is_cluster_wide}

-- The arguments of Seal that stay the same for all secrets.
pub record SealOptions : Type 0 where
  pub output_format : String
  pub scope : SealingScope
  pub allow_empty_data : Bool
  pub override_name : String
  pub override_namespace : String

-- clientConfig.Namespace(), without its error: the namespace, and if it was set explicitly.
pub record ClientNamespace : Type 0 where
  pub ns : String
  pub namespace_set : Bool

abbrev pub empty_data_error : Error
empty_data_error =
    own
      "secret.data is empty in input Secret, assuming this is an error and aborting. To work with empty data, --allow-empty-data can be used"

abbrev pub missing_name : Error
missing_name = own "missing metadata.name in input Secret"

abbrev pub namespace_mismatch : String → String → Error
namespace_mismatch theirs ns = own (
    String.◌++◌ "namespace mismatch: input secret is in namespace \""
      (String.◌++◌ theirs (String.◌++◌ "\" but \"" (String.◌++◌ ns "\" was specified"))))

-- len(m) == 0
abbrev pub is_empty_map {ℓ} : {V : Type ℓ} → GoMap V → Bool
is_empty_map m = eqb (length (entries m)) 0

abbrev pub is_default_scope : SealingScope → Bool
is_default_scope scope = eqb (scope_code scope) 0

abbrev pub or_override : String → String → String
or_override override own_value = if not (override == "") then override else own_value

-- The metadata after the overrides and the annotations of the scope.
abbrev pub overridden : SealOptions → ObjectMeta → ObjectMeta
overridden o m = record m {
  name = or_override o.override_name m.name;
  namespace = or_override o.override_namespace m.namespace;
  annotations =
      if not (is_default_scope o.scope)
      then update_scope_annotations m.annotations o.scope
      else m.annotations;
}

-- The namespace of the client, if the secret has none; an explicit one has to agree with the secret's.
unfoldable pub with_namespace : ClientNamespace → ObjectMeta → Outcome ObjectMeta
with_namespace client m =
    if is_cluster_wide (secret_scope m.annotations)
    then ok m
    else if client.namespace_set && not (m.namespace == "") && not (m.namespace == client.ns)
    then err (namespace_mismatch m.namespace client.ns)
    else ok (if m.namespace == "" then record m { namespace = client.ns } else m)

-- Without the fields that the server sets.
abbrev pub cleared : ObjectMeta → ObjectMeta
cleared m = record m {
  self_link = "";
  uid = "";
  resource_version = "";
  generation = 0;
  creation_timestamp = 0;
  deletion_timestamp = none;
  deletion_grace_period_seconds = none;
}

-- The body of the loop of Seal up to NewSealedSecret.
unfoldable pub prepare : SealOptions → ClientNamespace → Secret → Outcome Secret
unfolding with_namespace
prepare o client secret = do
  guard
      (not (
        is_empty_map secret.secret_data
        && is_empty_map secret.string_data
        && not o.allow_empty_data))
      empty_data_error
  guard (not (or_override o.override_name secret.meta.name == "")) missing_name
  m ← with_namespace client (overridden o secret.meta)
  ok (record secret { meta = cleared m })
