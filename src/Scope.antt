-- ===== src/Scope.antt =====
-- Sealing scopes: pkg/apis/sealedsecrets/v1alpha1/sealedsecret_expansion.go and the annotation names of
-- types.go. An annotation map is a `GoMap String`; a label for encryption is a list of bytes.
pub mod Label
pub mod Annotations
use sealed_secrets.Base.{
  ℕ, zero, suc, ◌+◌, ◌/◌, ◌%◌, String, ◌≡◌, Bool, true, false, List, [], ◌∷◌, ◌++◌, Option, none,
  some, Outcome, ok, err, own, Bytes, bytes_of, ◌==◌, ltb, eqb, if◌then◌else◌,
}
use Prim.Native.String
use sealed_secrets.Base.GoMap.{GoMap, nil_map, table, index, delete, insert, entries, made}

-- SealingScope is an int with three named values.
pub data SealingScope : Type 0 where
  strict_scope namespace_wide_scope cluster_wide_scope : SealingScope
  other_scope : ℕ → SealingScope

abbrev pub default_scope : SealingScope
default_scope = strict_scope

abbrev pub cluster_wide_annotation : String
cluster_wide_annotation = "sealedsecrets.bitnami.com/cluster-wide"

abbrev pub namespace_wide_annotation : String
namespace_wide_annotation = "sealedsecrets.bitnami.com/namespace-wide"

abbrev pub managed_annotation : String
managed_annotation = "sealedsecrets.bitnami.com/managed"

abbrev pub patch_annotation : String
patch_annotation = "sealedsecrets.bitnami.com/patch"

abbrev pub skip_set_owner_references_annotation : String
skip_set_owner_references_annotation = "sealedsecrets.bitnami.com/skip-set-owner-references"

-- The int behind a scope.
abbrev pub scope_code : SealingScope → ℕ
scope_code strict_scope = 0
scope_code namespace_wide_scope = 1
scope_code cluster_wide_scope = 2
scope_code (other_scope n) = 3 + n

-- The decimal digits of a number below 10 ^ fuel, for `%d`.
unfoldable decimal_digits : ℕ → ℕ → Bytes → Bytes
decimal_digits zero n acc = acc
decimal_digits (suc fuel) n acc =
    let acc' = (b'0' + n % 10) ∷ acc in
    let rest = decimal_digits fuel (n / 10) acc' in if ltb n 10 then acc' else rest

-- SealingScope.String, as bytes.
unfoldable pub scope_string : SealingScope → Bytes
unfolding decimal_digits bytes_of
scope_string strict_scope = bytes_of "strict"
scope_string namespace_wide_scope = bytes_of "namespace-wide"
scope_string cluster_wide_scope = bytes_of "cluster-wide"
scope_string (other_scope n) = bytes_of "undefined-" ++ decimal_digits (suc (3 + n)) (3 + n) []

-- SealingScope.Set; an error leaves the scope as it was.
unfoldable pub scope_set : String → Outcome SealingScope
scope_set v =
    if v == ""
    then ok default_scope
    else if v == "strict"
    then ok strict_scope
    else if v == "namespace-wide"
    then ok namespace_wide_scope
    else if v == "cluster-wide"
    then ok cluster_wide_scope
    else err (own "must be one of: strict, namespace-wide, cluster-wide")

-- EncryptionLabel
unfoldable pub encryption_label : String → String → SealingScope → Bytes
encryption_label ns name cluster_wide_scope = []
encryption_label ns name namespace_wide_scope = bytes_of ns
encryption_label ns name strict_scope = bytes_of ns ++ (b'/' ∷ bytes_of name)
encryption_label ns name (other_scope n) = bytes_of ns ++ (b'/' ∷ bytes_of name)

-- SecretScope, of the object's annotations
unfoldable pub secret_scope : GoMap String → SealingScope
secret_scope annotations =
    if index annotations cluster_wide_annotation == "true"
    then cluster_wide_scope
    else if index annotations namespace_wide_annotation == "true"
    then namespace_wide_scope
    else strict_scope

-- The two writes at the end of UpdateScopeAnnotations, into a map that is not nil.
set_scope_annotation : SealingScope → GoMap String → GoMap String
set_scope_annotation namespace_wide_scope anno =
    table (insert namespace_wide_annotation "true" (entries anno))
set_scope_annotation cluster_wide_scope anno =
    table (insert cluster_wide_annotation "true" (entries anno))
set_scope_annotation _ anno = anno

-- UpdateScopeAnnotations
unfoldable pub update_scope_annotations : GoMap String → SealingScope → GoMap String
unfolding set_scope_annotation
update_scope_annotations anno scope =
    set_scope_annotation scope
      (delete (delete (made anno) namespace_wide_annotation) cluster_wide_annotation)

abbrev pub last_applied_keys : List String
last_applied_keys =
    "kubectl.kubernetes.io/last-applied-configuration"
    ∷ "kubecfg.ksonnet.io/last-applied-configuration" ∷ []

-- for _, k := range keys { delete(m, k) }
unfoldable pub delete_all {ℓ} : {V : Type ℓ} → List String → GoMap V → GoMap V
delete_all [] m = m
delete_all (k ∷ ks) m = delete_all ks (delete m k)

-- StripLastAppliedAnnotations
unfoldable pub strip_last_applied_annotations : GoMap String → GoMap String
unfolding delete_all
strip_last_applied_annotations nil_map = nil_map
strip_last_applied_annotations (table m) = delete_all last_applied_keys (table m)
