-- ===== src/Kubeseal/Prepared.antt =====
-- What a Secret is that Seal has prepared.
use sealed_secrets.Base.{
  String, ◌≡◌, ◌≢◌, refl, ap, ◌∙◌, Bool, true, false, not, ◌&&◌, ◌||◌, [], none, ok, ◌==◌, eq_iff,
  eq_refl, if◌then◌else◌, ◌⊎◌, inl, inr, Bool-cases, arith,
}
use sealed_secrets.Base.GoMap.{GoMap, entries}
use sealed_secrets.Scope.{
  SealingScope, strict_scope, namespace_wide_scope, cluster_wide_scope, other_scope, secret_scope,
}
use sealed_secrets.Scope.Annotations.{annotated}
use sealed_secrets.Sealed.{Secret}
use sealed_secrets.Sealed.Seal.{is_cluster_wide}
use sealed_secrets.Kubeseal.Prepare.{
  SealOptions, ClientNamespace, is_empty_map, is_default_scope, or_override, prepare,
}
use sealed_secrets.Kubeseal.Placing.{prepare-IsComputed}

-- The scope that is asked for: that of the flag, of which an undefined one counts as strict, or, under the
-- default, the secret's own.
abbrev pub asked_scope : SealingScope → SealingScope → SealingScope
asked_scope strict_scope own_scope = own_scope
asked_scope namespace_wide_scope own_scope = namespace_wide_scope
asked_scope cluster_wide_scope own_scope = cluster_wide_scope
asked_scope (other_scope n) own_scope = strict_scope

-- The namespace that is taken: the one that is asked for, if there is one or the scope is cluster-wide, and
-- otherwise the client's.
abbrev pub taken_namespace : SealingScope → String → String → String
taken_namespace cluster_wide_scope asked theirs = asked
taken_namespace _ asked theirs = if asked == "" then theirs else asked

-- A Secret that Seal has prepared, by the options and the Secret that it was made of.
pub record IsPrepared (o : SealOptions) (client : ClientNamespace) (secret out : Secret)
    : Type 0 where
  pub has_data :
      (entries secret.secret_data ≢ [])
      ⊎ (entries secret.string_data ≢ [])
      ⊎ (o.allow_empty_data ≡ true)
  pub named : out.meta.name ≢ ""
  pub name_of :
      out.meta.name ≡ (if o.override_name == "" then secret.meta.name else o.override_name)
  pub scope_of :
      secret_scope out.meta.annotations ≡ asked_scope o.scope (secret_scope secret.meta.annotations)
  pub namespace_of :
      out.meta.namespace
      ≡ taken_namespace
          (secret_scope out.meta.annotations)
          (if o.override_namespace == "" then secret.meta.namespace else o.override_namespace)
          client.ns
  pub agrees :
      (secret_scope out.meta.annotations ≡ cluster_wide_scope)
      ⊎ (client.namespace_set ≡ false)
      ⊎ (out.meta.namespace ≡ client.ns)
  pub same_labels : out.meta.labels ≡ secret.meta.labels
  pub same_contents : out ≡ record secret { meta = out.meta }
  pub without_server_fields : out.meta ≡ record out.meta {
    self_link = "";
    uid = "";
    resource_version = "";
    generation = 0;
    creation_timestamp = 0;
    deletion_timestamp = none;
    deletion_grace_period_seconds = none;
  }

or_override_lem :
    (override own_value : String)
    → or_override override own_value ≡ (if override == "" then own_value else override)
or_override_lem override own_value = elim (Bool-cases (override == "")) [
  | inl empty ↦ rw empty
  | inr full ↦ rw full
]

asked_scope_lem :
    (flag own_scope : SealingScope)
    → (if is_default_scope flag then own_scope else annotated flag) ≡ asked_scope flag own_scope
asked_scope_lem strict_scope own_scope = refl
asked_scope_lem namespace_wide_scope own_scope = refl
asked_scope_lem cluster_wide_scope own_scope = refl
asked_scope_lem (other_scope n) own_scope = ground arith

taken_namespace_lem :
    (scope : SealingScope) (asked theirs : String)
    → (if is_cluster_wide scope || not (asked == "") then asked else theirs)
      ≡ taken_namespace scope asked theirs
taken_namespace_lem cluster_wide_scope asked theirs = refl
taken_namespace_lem strict_scope asked theirs = elim (Bool-cases (asked == "")) [
  | inl empty ↦ rw empty
  | inr full ↦ rw full
]
taken_namespace_lem namespace_wide_scope asked theirs = elim (Bool-cases (asked == "")) [
  | inl empty ↦ rw empty
  | inr full ↦ rw full
]
taken_namespace_lem (other_scope n) asked theirs = elim (Bool-cases (asked == "")) [
  | inl empty ↦ rw empty
  | inr full ↦ rw full
]

is_empty_map-false {ℓ} : {V : Type ℓ} (m : GoMap V) → is_empty_map m ≡ false → entries m ≢ []
is_empty_map-false m h empty = cc (rw empty at h)

has_data_lem :
    (secret : Secret) (allowed : Bool)
    → (is_empty_map secret.secret_data && is_empty_map secret.string_data && not allowed) ≡ false
    → (entries secret.secret_data ≢ []) ⊎ (entries secret.string_data ≢ []) ⊎ (allowed ≡ true)
has_data_lem secret true h = inr (inr refl)
has_data_lem secret false h = elim (Bool-cases (is_empty_map secret.secret_data)) [
  | inl no_data ↦ elim (Bool-cases (is_empty_map secret.string_data)) [
    | inl no_strings ↦ cc (rw (no_data, no_strings) at h)
    | inr some_strings ↦ inr (inl (is_empty_map-false secret.string_data some_strings))
  ]
  | inr some_data ↦ inl (is_empty_map-false secret.secret_data some_data)
]

explicit_or_same :
    (explicit : Bool) (a b : String)
    → (not explicit || a == b) ≡ true
    → (explicit ≡ false) ⊎ (a ≡ b)
explicit_or_same false a b h = inl refl
explicit_or_same true a b h = inr ((eq_iff a b).0 h)

agrees_lem :
    (scope : SealingScope) (explicit : Bool) (a b : String)
    → (is_cluster_wide scope || not explicit || a == b) ≡ true
    → (scope ≡ cluster_wide_scope) ⊎ (explicit ≡ false) ⊎ (a ≡ b)
agrees_lem cluster_wide_scope explicit a b h = inl refl
agrees_lem strict_scope explicit a b h = inr (explicit_or_same explicit a b h)
agrees_lem namespace_wide_scope explicit a b h = inr (explicit_or_same explicit a b h)
agrees_lem (other_scope n) explicit a b h = inr (explicit_or_same explicit a b h)

-- When Seal prepares a secret without an error, that secret has data or empty data is allowed; the
-- result has the overriding name if there is one and its own otherwise, and it is not empty; its scope
-- is that of the flag, where an undefined one counts as strict, unless that is the default, and then
-- its own; its namespace is the overriding one, its own, or, outside the cluster-wide scope, that of
-- the client; outside that scope it agrees with an explicit namespace of the client; its self link,
-- UID, resource version, generation, creation and deletion timestamps and deletion grace period are
-- empty, and the labels and all but the metadata are the secret's.
pub prepare-IsPrepared :
    (o : SealOptions) (client : ClientNamespace) (secret out : Secret)
    → prepare o client secret ≡ ok out
    → IsPrepared o client secret out
prepare-IsPrepared o client secret out e =
    let h = prepare-IsComputed o client secret out e in
    record {
      has_data = has_data_lem secret o.allow_empty_data h.has_data;
      named = λ empty. cc (h.named, eq_refl "", ap (λ x. x == "") empty);
      name_of = h.name_of ∙ or_override_lem o.override_name secret.meta.name;
      scope_of = h.scope_of ∙ asked_scope_lem o.scope (secret_scope secret.meta.annotations);
      namespace_of =
          h.namespace_of
          ∙ taken_namespace_lem (secret_scope out.meta.annotations) _ client.ns
          ∙ ap (λ x. taken_namespace (secret_scope out.meta.annotations) x client.ns)
              (or_override_lem o.override_namespace secret.meta.namespace);
      agrees =
          agrees_lem (secret_scope out.meta.annotations) client.namespace_set out.meta.namespace
            client.ns h.agrees;
      same_labels = h.same_labels;
      same_contents = h.same_contents;
      without_server_fields = h.without_server_fields;
    }
