-- ===== src/Scope/Annotations.antt =====
-- The scope annotations of an object: what UpdateScopeAnnotations writes, SecretScope reads, and nothing
-- else of the map changes.
use sealed_secrets.Base.{
  String, ◌≡◌, refl, Bool, true, false, ◌||◌, Option, none, some, arith, ◌==◌, if◌then◌else◌, [],
}
use sealed_secrets.Base.GoMap.{
  GoMap, nil_map, table, Entries, get, lookup, lookup-insert, lookup-without, get-nil_map,
  get-delete,
}
use sealed_secrets.Scope.{
  SealingScope, strict_scope, namespace_wide_scope, cluster_wide_scope, other_scope, secret_scope,
  update_scope_annotations, cluster_wide_annotation, namespace_wide_annotation,
  strip_last_applied_annotations,
}

-- What UpdateScopeAnnotations leaves at a key.
abbrev scope_annotation : SealingScope → String → Option String
scope_annotation namespace_wide_scope k =
    if namespace_wide_annotation == k then some "true" else none
scope_annotation cluster_wide_scope k = if cluster_wide_annotation == k then some "true" else none
scope_annotation _ k = none

abbrev is_scope_key : String → Bool
is_scope_key k = namespace_wide_annotation == k || cluster_wide_annotation == k

module _ (m : Entries String) (k : String) where
  get-update_table :
      (scope : SealingScope)
      → get (update_scope_annotations (table m) scope) k
        ≡ (if is_scope_key k then scope_annotation scope k else lookup k m)
  unfolding update_scope_annotations get
  get-update_table strict_scope = simp lookup-without (ground arith)
  get-update_table namespace_wide_scope = simp (lookup-insert, lookup-without) (ground arith)
  get-update_table cluster_wide_scope = simp (lookup-insert, lookup-without) (ground arith)
  get-update_table (other_scope n) = simp lookup-without (ground arith)

-- After UpdateScopeAnnotations, the two scope annotations say what the scope says, and every other
-- annotation is what it was.
get-update_scope_annotations :
    (anno : GoMap String) (scope : SealingScope) (k : String)
    → get (update_scope_annotations anno scope) k
      ≡ (if is_scope_key k then scope_annotation scope k else get anno k)
unfolding update_scope_annotations get
get-update_scope_annotations nil_map scope k = get-update_table [] k scope
get-update_scope_annotations (table m) scope k = get-update_table m k scope

-- The scope that the annotations can express: an undefined one is annotated as strict.
abbrev pub annotated : SealingScope → SealingScope
annotated (other_scope n) = strict_scope
annotated s = s

-- SecretScope reads back the scope that UpdateScopeAnnotations wrote, whatever the map held before; an
-- undefined scope is read back as the strict one.
pub secret_scope-update :
    (anno : GoMap String) (scope : SealingScope)
    → secret_scope (update_scope_annotations anno scope) ≡ annotated scope
unfolding secret_scope
secret_scope-update anno strict_scope = simp get-update_scope_annotations
secret_scope-update anno namespace_wide_scope = simp get-update_scope_annotations
secret_scope-update anno cluster_wide_scope = simp get-update_scope_annotations
secret_scope-update anno (other_scope n) = simp get-update_scope_annotations

if_same {ℓ} : {A : Type ℓ} (b : Bool) {x : A} → x ≡ (if b then x else x)
if_same true = refl
if_same false = refl

if_or {ℓ} :
    {A : Type ℓ} (b c : Bool) (x y : A)
    → (if c then x else if b then x else y) ≡ (if b || c then x else y)
if_or true true x y = refl
if_or true false x y = refl
if_or false true x y = refl
if_or false false x y = refl

-- After StripLastAppliedAnnotations, the two annotations with copies of the applied object are gone,
-- and every other annotation is as it was.
pub get-strip_last_applied_annotations :
    (anno : GoMap String) (k : String)
    → get (strip_last_applied_annotations anno) k ≡ (
        if "kubectl.kubernetes.io/last-applied-configuration" == k
          || "kubecfg.ksonnet.io/last-applied-configuration" == k
        then none
        else get anno k)
unfolding strip_last_applied_annotations
get-strip_last_applied_annotations nil_map k = simp get-nil_map (if_same _)
get-strip_last_applied_annotations (table m) k = simp get-delete (
    if_or ("kubectl.kubernetes.io/last-applied-configuration" == k)
      ("kubecfg.ksonnet.io/last-applied-configuration" == k) none (get (table m) k))

-- The scope is not touched by StripLastAppliedAnnotations.
pub secret_scope-strip :
    (anno : GoMap String) → secret_scope (strip_last_applied_annotations anno) ≡ secret_scope anno
unfolding secret_scope
secret_scope-strip anno = simp get-strip_last_applied_annotations
