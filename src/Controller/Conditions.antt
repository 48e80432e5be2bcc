-- ===== src/Controller/Conditions.antt =====
-- The status of a sealed secret: updateSealedSecretsStatusConditions of pkg/controller/controller.go, and
-- the gauges of pkg/controller/metrics.go that follow it.
use sealed_secrets.Base.{
  ℕ, String, Bool, true, false, not, List, [], ◌∷◌, Option, none, some, Error, message, ◌==◌,
  if◌then◌else◌,
}
use sealed_secrets.Base.GoMap.{index}
use sealed_secrets.Sealed.{
  SealedSecret, SealedSecretCondition, SealedSecretStatus, ConditionStatus, condition_true,
  condition_false, condition_unknown, condition_unset,
}
use sealed_secrets.Controller.{GaugeKey, same_gauge}

abbrev pub synced : String
synced = "Synced"

abbrev pub same_status : ConditionStatus → ConditionStatus → Bool
same_status condition_true condition_true = true
same_status condition_false condition_false = true
same_status condition_unknown condition_unknown = true
same_status condition_unset condition_unset = true
same_status _ _ = false

-- The status and the message that an unseal error, or none, asks for.
abbrev pub status_of : Option Error → ConditionStatus
status_of none = condition_true
status_of (some e) = condition_false

abbrev pub message_of : Option Error → String
message_of none = ""
message_of (some e) = message e

-- The condition that is appended when there is none of the type Synced.
abbrev pub new_condition : SealedSecretCondition
new_condition = record {
  type = synced;
  status = condition_unset;
  last_update_time = 0;
  last_transition_time = 0;
  reason = "";
  condition_message = "";
}

abbrev pub must_change : Option Error → SealedSecretCondition → Bool
must_change unseal_error cond = not (same_status cond.status (status_of unseal_error))

-- The writes through the pointer to the condition.
unfoldable pub write_condition : Option Error → ℕ → SealedSecretCondition → SealedSecretCondition
write_condition unseal_error now cond =
    let written = record cond {
      condition_message = message_of unseal_error;
      last_update_time = now;
    } in
    if must_change unseal_error cond
    then record written { last_transition_time = now; status = status_of unseal_error }
    else written

-- The search for the condition and the writes to it.
unfoldable pub update_conditions :
    Option Error → ℕ → List SealedSecretCondition → List SealedSecretCondition × Bool
unfolding write_condition
update_conditions unseal_error now [] =
    (write_condition unseal_error now new_condition ∷ [], must_change unseal_error new_condition)
update_conditions unseal_error now (cond ∷ conds) =
    let (rest, required) = update_conditions unseal_error now conds in
    if cond.type == synced
    then (write_condition unseal_error now cond ∷ conds, must_change unseal_error cond)
    else (cond ∷ rest, required)

-- updateSealedSecretsStatusConditions
unfoldable pub update_sealed_secrets_status_conditions :
    SealedSecretStatus → Option Error → ℕ → SealedSecretStatus × Bool
unfolding update_conditions
update_sealed_secrets_status_conditions st unseal_error now =
    let (conditions, required) = update_conditions unseal_error now st.conditions in
    (record st { conditions = conditions }, required)

-- conditionInfo.With(labels).Set(value), and its DeleteLabelValues
unfoldable pub delete_gauge :
    GaugeKey → List (GaugeKey × ConditionStatus) → List (GaugeKey × ConditionStatus)
delete_gauge key [] = []
delete_gauge key ((k, v) ∷ gauges) =
    let rest = delete_gauge key gauges in if same_gauge k key then rest else (k, v) ∷ rest

unfoldable pub set_gauge :
    GaugeKey
    → ConditionStatus
    → List (GaugeKey × ConditionStatus)
    → List (GaugeKey × ConditionStatus)
unfolding delete_gauge
set_gauge key v gauges = (key, v) ∷ delete_gauge key gauges

abbrev pub gauge_key : SealedSecret → SealedSecretCondition → GaugeKey
gauge_key s cond = record {
  gauge_namespace = s.meta.namespace;
  gauge_name = s.meta.name;
  gauge_condition = cond.type;
  gauge_instance = index s.meta.labels "app.kubernetes.io/instance";
}

abbrev pub conditions_of : SealedSecret → List SealedSecretCondition
conditions_of s = elim s.status [ none ↦ [] | some st ↦ st.conditions ]

unfoldable pub observe_all :
    SealedSecret
    → List SealedSecretCondition
    → List (GaugeKey × ConditionStatus)
    → List (GaugeKey × ConditionStatus)
unfolding set_gauge
observe_all s [] gauges = gauges
observe_all s (cond ∷ conds) gauges =
    observe_all s conds (set_gauge (gauge_key s cond) cond.status gauges)

-- ObserveCondition; the gauge's number is a function of the status.
unfoldable pub observe_condition :
    SealedSecret → List (GaugeKey × ConditionStatus) → List (GaugeKey × ConditionStatus)
unfolding observe_all
observe_condition s gauges = observe_all s (conditions_of s) gauges

unfoldable pub unregister_all :
    SealedSecret
    → List SealedSecretCondition
    → List (GaugeKey × ConditionStatus)
    → List (GaugeKey × ConditionStatus)
unfolding delete_gauge
unregister_all s [] gauges = gauges
unregister_all s (cond ∷ conds) gauges =
    unregister_all s conds (delete_gauge (gauge_key s cond) gauges)

-- UnregisterCondition
unfoldable pub unregister_condition :
    SealedSecret → List (GaugeKey × ConditionStatus) → List (GaugeKey × ConditionStatus)
unfolding unregister_all
unregister_condition s gauges = unregister_all s (conditions_of s) gauges
