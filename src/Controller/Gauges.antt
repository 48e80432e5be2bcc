-- ===== src/Controller/Gauges.antt =====
-- The gauges of the conditions of a sealed secret, pkg/controller/metrics.go.
use sealed_secrets.Base.{
  ◌≡◌, refl, sym, ap, ◌∙◌, Bool, true, false, ◌&&◌, ◌||◌, List, [], ◌∷◌, Option, none, some, ◌==◌,
  eq_iff, any, if_both, Bool-cases, inl, inr, if◌then◌else◌,
}
use sealed_secrets.Sealed.{SealedSecret, SealedSecretCondition, ConditionStatus}
use sealed_secrets.Controller.{GaugeKey, same_gauge}
use sealed_secrets.Controller.Conditions.{
  gauge_key, conditions_of, delete_gauge, set_gauge, observe_all, observe_condition, unregister_all,
  unregister_condition,
}

abbrev pub Gauges : Type 0
Gauges = List (GaugeKey × ConditionStatus)

-- What a gauge says, if it is there.
abbrev pub value_of : GaugeKey → Gauges → Option ConditionStatus
value_of key [] = none
value_of key ((k, v) ∷ gauges) = if same_gauge k key then some v else value_of key gauges

both_true : (a b : Bool) → (a && b) ≡ true → (a ≡ true) × (b ≡ true)
both_true true true h = (refl, refl)
both_true true false h = absurd (cc h)
both_true false b h = absurd (cc h)

same_gauge-eq : (k j : GaugeKey) → same_gauge k j ≡ true → k ≡ j
unfolding same_gauge
same_gauge-eq k j h =
    let (r1, h3) = both_true _ (k.gauge_instance == j.gauge_instance) h in
    let (r0, h2) = both_true _ (k.gauge_condition == j.gauge_condition) r1 in
    let (h0, h1) = both_true (k.gauge_namespace == j.gauge_namespace) _ r0 in
    let e0 = (eq_iff k.gauge_namespace j.gauge_namespace).0 h0 in
    let e1 = (eq_iff k.gauge_name j.gauge_name).0 h1 in
    let e2 = (eq_iff k.gauge_condition j.gauge_condition).0 h2 in
    let e3 = (eq_iff k.gauge_instance j.gauge_instance).0 h3 in
    λ i. record {
      gauge_namespace = e0 i;
      gauge_name = e1 i;
      gauge_condition = e2 i;
      gauge_instance = e3 i;
    }

value_of-delete_gauge :
    (key j : GaugeKey) (gauges : Gauges)
    → value_of j (delete_gauge key gauges) ≡ (if same_gauge key j then none else value_of j gauges)
unfolding delete_gauge
value_of-delete_gauge key j [] = if_both (λ o. none ≡ o) (same_gauge key j) none none refl refl
value_of-delete_gauge key j ((k, v) ∷ gauges) =
    let later = value_of-delete_gauge key j gauges in
    elim (Bool-cases (same_gauge k key)) [
      | inl here ↦ elim (Bool-cases (same_gauge key j)) [
        | inl same ↦ rw here (later ∙ rw same refl)
        | inr other ↦
            let not_j : same_gauge k j ≡ false =
              ap (λ i. same_gauge i j) (same_gauge-eq k key here) ∙ other in
            rw here (later ∙ rw (other, not_j) refl)
      ]
      | inr there ↦ elim (Bool-cases (same_gauge key j)) [
        | inl same ↦
            let not_j : same_gauge k j ≡ false =
              ap (same_gauge k) (sym (same_gauge-eq key j same)) ∙ there in
            rw (there, not_j) (later ∙ rw same refl)
        | inr other ↦
            rw (there, other)
              (ap (λ o. if same_gauge k j then some v else o) (later ∙ rw other refl))
      ]
    ]

value_of-set_gauge :
    (key j : GaugeKey) (v : ConditionStatus) (gauges : Gauges)
    → value_of j (set_gauge key v gauges) ≡ (if same_gauge key j then some v else value_of j gauges)
unfolding set_gauge
value_of-set_gauge key j v gauges = elim (Bool-cases (same_gauge key j)) [
  | inl same ↦ rw same refl
  | inr other ↦ rw other (value_of-delete_gauge key j gauges ∙ rw other refl)
]

-- One of the conditions has the gauge.
abbrev pub has_gauge : SealedSecret → GaugeKey → List SealedSecretCondition → Bool
has_gauge s j conds = any (λ cond. same_gauge (gauge_key s cond) j) conds

-- What the last of the conditions with the gauge says, or else what was said before.
abbrev pub last_status :
    SealedSecret
    → GaugeKey
    → List SealedSecretCondition
    → Option ConditionStatus
    → Option ConditionStatus
last_status s j [] before = before
last_status s j (cond ∷ conds) before =
    last_status s j conds (if same_gauge (gauge_key s cond) j then some cond.status else before)

value_of-observe_all :
    (s : SealedSecret) (j : GaugeKey) (conds : List SealedSecretCondition) (gauges : Gauges)
    → value_of j (observe_all s conds gauges) ≡ last_status s j conds (value_of j gauges)
unfolding observe_all
value_of-observe_all s j [] gauges = refl
value_of-observe_all s j (cond ∷ conds) gauges =
    value_of-observe_all s j conds _
    ∙ ap (last_status s j conds) (value_of-set_gauge (gauge_key s cond) j cond.status gauges)

value_of-unregister_all :
    (s : SealedSecret) (j : GaugeKey) (conds : List SealedSecretCondition) (gauges : Gauges)
    → value_of j (unregister_all s conds gauges)
      ≡ (if has_gauge s j conds then none else value_of j gauges)
unfolding unregister_all
value_of-unregister_all s j [] gauges = refl
value_of-unregister_all s j (cond ∷ conds) gauges =
    value_of-unregister_all s j conds _
    ∙ ap (λ o. if has_gauge s j conds then none else o)
        (value_of-delete_gauge (gauge_key s cond) j gauges)
    ∙ or_none (same_gauge (gauge_key s cond) j) (has_gauge s j conds) (value_of j gauges)
  where
    or_none :
        (a b : Bool) (o : Option ConditionStatus)
        → (if b then none else if a then none else o) ≡ (if a || b then none else o)
    or_none true true o = refl
    or_none true false o = refl
    or_none false b o = refl

last_status-other :
    (s : SealedSecret) (j : GaugeKey) (conds : List SealedSecretCondition)
    (before : Option ConditionStatus)
    → (if has_gauge s j conds then none else last_status s j conds before)
      ≡ (if has_gauge s j conds then none else before)
last_status-other s j [] before = refl
last_status-other s j (cond ∷ conds) before = elim (Bool-cases (same_gauge (gauge_key s cond) j)) [
  | inl same ↦ rw same refl
  | inr other ↦ rw other (last_status-other s j conds before)
]

-- After ObserveCondition a gauge says what the last condition of the sealed secret with that gauge
-- says, or what it said before if there is none, and UnregisterCondition of the same sealed secret
-- after that leaves no gauge of its conditions, and every other gauge as it was before both.
pub observe_condition_lem :
    (s : SealedSecret) (j : GaugeKey) (gauges : Gauges)
    → (value_of j (observe_condition s gauges)
        ≡ last_status s j (conditions_of s) (value_of j gauges))
      × (value_of j (unregister_condition s (observe_condition s gauges))
          ≡ (if has_gauge s j (conditions_of s) then none else value_of j gauges))
unfolding observe_condition unregister_condition
observe_condition_lem s j gauges =
    let observed = value_of-observe_all s j (conditions_of s) gauges in
    (
      observed,
      value_of-unregister_all s j (conditions_of s) _
          ∙ ap (λ o. if has_gauge s j (conditions_of s) then none else o) observed
          ∙ last_status-other s j (conditions_of s) (value_of j gauges),
    )
