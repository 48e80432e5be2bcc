-- ===== src/Controller/Transitions.antt =====
-- What updateSealedSecretsStatusConditions does to the status of a sealed secret.
use sealed_secrets.Base.{
  ℕ, ◌≡◌, ◌≢◌, refl, sym, ◌∙◌, subst, String, message, Bool, true, false, List, [], ◌∷◌, Option,
  none, some, Error, ◌==◌, inl, inr, Bool-cases, if◌then◌else◌, ◌⊎◌,
}
use sealed_secrets.Sealed.{
  SealedSecretCondition, SealedSecretStatus, ConditionStatus, condition_true, condition_false,
  condition_unknown, condition_unset,
}
use sealed_secrets.Controller.Conditions.{
  synced, same_status, status_of, message_of, new_condition, must_change, write_condition,
  update_conditions, update_sealed_secrets_status_conditions,
}

-- The first condition of the type Synced.
unfoldable pub find_synced : List SealedSecretCondition → Option SealedSecretCondition
find_synced [] = none
find_synced (cond ∷ conds) = if cond.type == "Synced" then some cond else find_synced conds

-- The condition that is searched for, or a new one without a status, a message and a time.
abbrev pub or_new : Option SealedSecretCondition → SealedSecretCondition
or_new none = record {
  type = "Synced";
  status = condition_unset;
  last_update_time = 0;
  last_transition_time = 0;
  reason = "";
  condition_message = "";
}
or_new (some cond) = cond

-- The status and the message that tell the outcome of an attempt: True and none for a success, and False and
-- the error's for a failure.
abbrev pub told_status : Option Error → ConditionStatus
told_status none = condition_true
told_status (some e) = condition_false

abbrev pub told_message : Option Error → String
told_message none = ""
told_message (some e) = message e

-- What the Synced condition is to be after an attempt at a time: it tells the outcome, and its transition
-- time moves exactly if its status does.
pub record IsRecorded (unseal_error : Option Error) (now : ℕ) (old new : SealedSecretCondition)
    : Type 0 where
  pub new_status : new.status ≡ told_status unseal_error
  pub new_message : new.condition_message ≡ told_message unseal_error
  pub new_update_time : new.last_update_time ≡ now
  pub transition_time :
      ((new.status ≡ old.status) × (new.last_transition_time ≡ old.last_transition_time))
      ⊎ ((new.status ≢ old.status) × (new.last_transition_time ≡ now))
  pub same_type : new.type ≡ old.type

status_of-told_status : (o : Option Error) → status_of o ≡ told_status o
status_of-told_status none = refl
status_of-told_status (some e) = refl

message_of-told_message : (o : Option Error) → message_of o ≡ told_message o
message_of-told_message none = refl
message_of-told_message (some e) = refl

same_status-path : (a b : ConditionStatus) → same_status a b ≡ true → a ≡ b
same_status-path condition_true condition_true h = refl
same_status-path condition_false condition_false h = refl
same_status-path condition_unknown condition_unknown h = refl
same_status-path condition_unset condition_unset h = refl
same_status-path condition_true condition_false h = cc
same_status-path condition_true condition_unknown h = cc
same_status-path condition_true condition_unset h = cc
same_status-path condition_false condition_true h = cc
same_status-path condition_false condition_unknown h = cc
same_status-path condition_false condition_unset h = cc
same_status-path condition_unknown condition_true h = cc
same_status-path condition_unknown condition_false h = cc
same_status-path condition_unknown condition_unset h = cc
same_status-path condition_unset condition_true h = cc
same_status-path condition_unset condition_false h = cc
same_status-path condition_unset condition_unknown h = cc

same_status_refl : (a : ConditionStatus) → same_status a a ≡ true
same_status_refl condition_true = refl
same_status_refl condition_false = refl
same_status_refl condition_unknown = refl
same_status_refl condition_unset = refl

same_status-other : (a b : ConditionStatus) → same_status a b ≡ false → b ≢ a
same_status-other a b h same =
    cc (subst (λ (x : ConditionStatus). same_status a x ≡ false) same h, same_status_refl a)

write_condition-IsRecorded :
    (unseal_error : Option Error) (now : ℕ) (cond : SealedSecretCondition)
    → IsRecorded unseal_error now cond (write_condition unseal_error now cond)
unfolding write_condition
write_condition-IsRecorded unseal_error now cond =
    elim (Bool-cases (same_status cond.status (status_of unseal_error))) [
      | inl same ↦ rw same (record {
        new_status =
            same_status-path cond.status (status_of unseal_error) same
            ∙ status_of-told_status unseal_error;
        new_message = message_of-told_message unseal_error;
        new_update_time = refl;
        transition_time = inl (refl, refl);
        same_type = refl;
      })
      | inr changed ↦ rw changed (record {
        new_status = status_of-told_status unseal_error;
        new_message = message_of-told_message unseal_error;
        new_update_time = refl;
        transition_time =
            inr (same_status-other cond.status (status_of unseal_error) changed, refl);
        same_type = refl;
      })
    ]

-- The conditions of other types, in order.
abbrev pub others : List SealedSecretCondition → List SealedSecretCondition
others [] = []
others (cond ∷ conds) = if cond.type == "Synced" then others conds else cond ∷ others conds

-- The types are kept, so the search finds the condition that was written.
write_condition-type :
    (unseal_error : Option Error) (now : ℕ) (cond : SealedSecretCondition)
    → (write_condition unseal_error now cond).type ≡ cond.type
write_condition-type unseal_error now cond =
    (write_condition-IsRecorded unseal_error now cond).same_type

find_synced-update_conditions :
    (unseal_error : Option Error) (now : ℕ) (conds : List SealedSecretCondition)
    → find_synced (update_conditions unseal_error now conds).0
      ≡ some (write_condition unseal_error now (or_new (find_synced conds)))
unfolding update_conditions find_synced
find_synced-update_conditions unseal_error now [] =
    rw (write_condition-type unseal_error now new_condition)
find_synced-update_conditions unseal_error now (cond ∷ conds) =
    elim (Bool-cases (cond.type == synced)) [
      | inl e ↦ rw (e, write_condition-type unseal_error now cond, e)
      | inr e ↦ rw (e, e, find_synced-update_conditions unseal_error now conds)
    ]

-- The conditions of other types stay as they are.
others-update_conditions :
    (unseal_error : Option Error) (now : ℕ) (conds : List SealedSecretCondition)
    → others (update_conditions unseal_error now conds).0 ≡ others conds
unfolding update_conditions
others-update_conditions unseal_error now [] =
    rw (write_condition-type unseal_error now new_condition)
others-update_conditions unseal_error now (cond ∷ conds) = elim (Bool-cases (cond.type == synced)) [
  | inl e ↦ rw (e, write_condition-type unseal_error now cond, e)
  | inr e ↦ rw (e, e, others-update_conditions unseal_error now conds)
]

-- The flag tells whether the status of the Synced condition changed.
update_conditions_required :
    (unseal_error : Option Error) (now : ℕ) (conds : List SealedSecretCondition)
    → (update_conditions unseal_error now conds).1
      ≡ must_change unseal_error (or_new (find_synced conds))
unfolding update_conditions find_synced
update_conditions_required unseal_error now [] = refl
update_conditions_required unseal_error now (cond ∷ conds) =
    elim (Bool-cases (cond.type == synced)) [
      | inl e ↦ rw e
      | inr e ↦ rw (e, update_conditions_required unseal_error now conds)
    ]

-- The flag, by the status before and after.
abbrev pub IsFlagged : ConditionStatus → ConditionStatus → Bool → Type 0
IsFlagged old new required = ((new ≡ old) × (required ≡ false)) ⊎ ((new ≢ old) × (required ≡ true))

must_change-IsFlagged :
    (unseal_error : Option Error) (cond : SealedSecretCondition)
    → IsFlagged cond.status (told_status unseal_error) (must_change unseal_error cond)
must_change-IsFlagged unseal_error cond =
    subst (λ (x : ConditionStatus). IsFlagged cond.status x (must_change unseal_error cond))
      (status_of-told_status unseal_error)
      (elim (Bool-cases (same_status cond.status (status_of unseal_error))) [
        | inl same ↦
            inl (sym (same_status-path cond.status (status_of unseal_error) same), rw same refl)
        | inr changed ↦
            inr (same_status-other cond.status (status_of unseal_error) changed, rw changed refl)
      ])

-- What the update of a status does.
pub record IsUpdated (st : SealedSecretStatus) (unseal_error : Option Error) (now : ℕ)
    (result : SealedSecretStatus × Bool) : Type 0 where
  pub recorded :
      (new : SealedSecretCondition) × (find_synced result.0.conditions ≡ some new)
      × IsRecorded unseal_error now (or_new (find_synced st.conditions)) new
  pub others_kept : others result.0.conditions ≡ others st.conditions
  pub generation_kept : result.0.observed_generation ≡ st.observed_generation
  pub required_changed :
      IsFlagged (or_new (find_synced st.conditions)).status (told_status unseal_error) result.1

-- After an attempt to unseal, the first condition of the type Synced (appended if there was none) has
-- the status True and no message for a success, and False and the error's message for a failure, the
-- time of the attempt as its update time, and a transition time that moved exactly if its status
-- changed; the conditions of other types and the observed generation stay, and the returned flag is set
-- exactly if the status changed.
pub update_sealed_secrets_status_conditions-IsUpdated :
    (st : SealedSecretStatus) (unseal_error : Option Error) (now : ℕ)
    → IsUpdated st unseal_error now (update_sealed_secrets_status_conditions st unseal_error now)
unfolding update_sealed_secrets_status_conditions
update_sealed_secrets_status_conditions-IsUpdated st unseal_error now = record {
  recorded = (
    write_condition unseal_error now (or_new (find_synced st.conditions)),
    find_synced-update_conditions unseal_error now st.conditions,
    write_condition-IsRecorded unseal_error now (or_new (find_synced st.conditions)),
  );
  others_kept = others-update_conditions unseal_error now st.conditions;
  generation_kept = refl;
  required_changed =
      rw (update_conditions_required unseal_error now st.conditions)
        (must_change-IsFlagged unseal_error (or_new (find_synced st.conditions)));
}
