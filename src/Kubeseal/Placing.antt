-- ===== src/Kubeseal/Placing.antt =====
-- What prepare computes, in the terms of the code.
use sealed_secrets.Base.{
  ◌≡◌, refl, ap, ◌∙◌, subst, Bool, true, false, not, ◌&&◌, ◌||◌, Error, ok, guard, ◌==◌, eq_refl,
  if◌then◌else◌, >>=-eq-ok, ok-injective, Bool-cases, inl, inr, arith,
}
use sealed_secrets.Scope.{secret_scope}
use sealed_secrets.Scope.Annotations.{secret_scope-update, annotated}
use sealed_secrets.Sealed.{ObjectMeta, Secret}
use sealed_secrets.Sealed.Seal.{is_cluster_wide, has_place}
use sealed_secrets.Kubeseal.Prepare.{
  SealOptions, ClientNamespace, empty_data_error, missing_name, is_empty_map, is_default_scope,
  or_override, overridden, with_namespace, cleared, prepare,
}

guard-ok : (b : Bool) (e : Error) {u : Unit {0}} → guard b e ≡ ok u → b ≡ true
guard-ok true e h = refl
guard-ok false e h = cc

not-true : (b : Bool) → not b ≡ true → b ≡ false
not-true true h = cc
not-true false h = refl

-- What with_namespace leaves: all but the namespace, which is the client's if there was none and it matters, and
-- then agrees with an explicit one.
record IsPlaced (client : ClientNamespace) (m out : ObjectMeta) : Type 0 where
  same_but_namespace : out ≡ record m { namespace = out.namespace }
  namespace_of : out.namespace ≡ (
      if is_cluster_wide (secret_scope m.annotations) || not (m.namespace == "")
      then m.namespace
      else client.ns)
  agrees :
      (is_cluster_wide (secret_scope m.annotations)
        || not client.namespace_set
        || out.namespace == client.ns)
      ≡ true

abbrev mismatched : ClientNamespace → ObjectMeta → Bool
mismatched client m =
    client.namespace_set && not (m.namespace == "") && not (m.namespace == client.ns)

with_namespace-IsPlaced :
    (client : ClientNamespace) (m out : ObjectMeta)
    → with_namespace client m ≡ ok out
    → IsPlaced client m out
unfolding with_namespace
with_namespace-IsPlaced client m out e =
    elim (Bool-cases (is_cluster_wide (secret_scope m.annotations))) [
      | inl wide ↦
          let same : m ≡ out = ok-injective (rw wide at e) in
          subst (IsPlaced client m) same
            (record { same_but_namespace = refl; namespace_of = rw wide; agrees = rw wide })
      | inr narrow ↦ elim (Bool-cases (mismatched client m)) [
        | inl bad ↦ cc (rw (narrow, bad) at e)
        | inr fine ↦ elim (Bool-cases (m.namespace == "")) [
          | inl empty ↦
              let same : record m { namespace = client.ns } ≡ out =
                ok-injective (rw (narrow, fine, empty) at e) in
              subst (IsPlaced client m) same (record {
                same_but_namespace = refl;
                namespace_of = rw (narrow, empty);
                agrees = rw (narrow, eq_refl client.ns) (ground arith);
              })
          | inr full ↦
              let same : m ≡ out = ok-injective (rw (narrow, fine, full) at e) in
              subst (IsPlaced client m) same (record {
                same_but_namespace = refl;
                namespace_of = rw (narrow, full);
                agrees = rw narrow (ground (arith, fine, full));
              })
        ]
      ]
    ]

-- A Secret that Seal has prepared, by what it was made of.
pub record IsComputed (o : SealOptions) (client : ClientNamespace) (secret out : Secret)
    : Type 0 where
  pub has_data :
      (is_empty_map secret.secret_data && is_empty_map secret.string_data && not o.allow_empty_data)
      ≡ false
  pub named : (out.meta.name == "") ≡ false
  pub name_of : out.meta.name ≡ or_override o.override_name secret.meta.name
  pub scope_of : secret_scope out.meta.annotations ≡ (
      if is_default_scope o.scope then secret_scope secret.meta.annotations else annotated o.scope)
  pub namespace_of : out.meta.namespace ≡ (
      if is_cluster_wide (secret_scope out.meta.annotations)
        || not (or_override o.override_namespace secret.meta.namespace == "")
      then or_override o.override_namespace secret.meta.namespace
      else client.ns)
  pub agrees :
      (is_cluster_wide (secret_scope out.meta.annotations)
        || not client.namespace_set
        || out.meta.namespace == client.ns)
      ≡ true
  pub same_labels : out.meta.labels ≡ secret.meta.labels
  pub same_contents : out ≡ record secret { meta = out.meta }
  pub without_server_fields : out.meta ≡ cleared out.meta

scope_of_overridden :
    (o : SealOptions) (m : ObjectMeta)
    → secret_scope (overridden o m).annotations
      ≡ (if is_default_scope o.scope then secret_scope m.annotations else annotated o.scope)
scope_of_overridden o m = elim (Bool-cases (is_default_scope o.scope)) [
  | inl default ↦ rw default
  | inr other ↦ rw other (secret_scope-update m.annotations o.scope)
]

made-IsComputed :
    (o : SealOptions) (client : ClientNamespace) (secret : Secret) (m : ObjectMeta)
    → (is_empty_map secret.secret_data && is_empty_map secret.string_data && not o.allow_empty_data)
      ≡ false
    → (or_override o.override_name secret.meta.name == "") ≡ false
    → IsPlaced client (overridden o secret.meta) m
    → IsComputed o client secret (record secret { meta = cleared m })
made-IsComputed o client secret m has_data named h =
    let same = h.same_but_namespace in
    let notes : m.annotations ≡ (overridden o secret.meta).annotations =
      ap (λ x. x.annotations) same in
    record {
      has_data = has_data;
      named = rw (ap (λ x. x.name) same) named;
      name_of = ap (λ x. x.name) same;
      scope_of = ap secret_scope notes ∙ scope_of_overridden o secret.meta;
      namespace_of = rw notes h.namespace_of;
      agrees = rw notes h.agrees;
      same_labels = ap (λ x. x.labels) same;
      same_contents = refl;
      without_server_fields = refl;
    }

-- What prepare returns without an error, in its own terms.
pub prepare-IsComputed :
    (o : SealOptions) (client : ClientNamespace) (secret out : Secret)
    → prepare o client secret ≡ ok out
    → IsComputed o client secret out
unfolding prepare
prepare-IsComputed o client secret out e =
    let (_, g1, e1) =
      >>=-eq-ok
        (guard
          (not (
            is_empty_map secret.secret_data
            && is_empty_map secret.string_data
            && not o.allow_empty_data))
          empty_data_error)
        _ e in
    let (_, g2, e2) =
      >>=-eq-ok (guard (not (or_override o.override_name secret.meta.name == "")) missing_name) _
        e1 in
    let (m, placed, e3) = >>=-eq-ok (with_namespace client (overridden o secret.meta)) _ e2 in
    subst (IsComputed o client secret) (ok-injective e3) (
      made-IsComputed o client secret m (not-true _ (guard-ok _ empty_data_error g1))
        (not-true _ (guard-ok _ missing_name g2))
        (with_namespace-IsPlaced client (overridden o secret.meta) m placed))

-- What Seal prepares has the name and the namespace that NewSealedSecret asks for.
pub prepare-has_place :
    (o : SealOptions) (client : ClientNamespace) (secret out : Secret)
    → (client.ns == "") ≡ false
    → prepare o client secret ≡ ok out
    → has_place out.meta ≡ true
prepare-has_place o client secret out some_ns e =
    let h = prepare-IsComputed o client secret out e in
    elim (Bool-cases (is_cluster_wide (secret_scope out.meta.annotations))) [
      | inl wide ↦ rw wide
      | inr narrow ↦
          elim (Bool-cases (or_override o.override_namespace secret.meta.namespace == "")) [
            | inl empty ↦
                let same : out.meta.namespace ≡ client.ns = rw (narrow, empty) at h.namespace_of in
                rw (narrow, same, some_ns)
            | inr full ↦
                let same : out.meta.namespace
                    ≡ or_override o.override_namespace secret.meta.namespace =
                  rw (narrow, full) at h.namespace_of in
                rw (narrow, same, full)
          ]
    ]
