-- ===== src/Controller/Reconcile.antt =====
-- Controller.unseal and its parts, pkg/controller/controller.go: what one key from the queue makes the
-- controller do.
use Prim.Native.String
use sealed_secrets.Base.{
  ℕ, suc, String, Bool, not, ◌||◌, [], Option, none, some, own, Error, message, is_not_found,
  Outcome, ok, err, panic, eqb, if◌then◌else◌,
}
use sealed_secrets.Base.Action.{Action, lift, return, ◌>>=◌}
use sealed_secrets.Crypto.{Primitives}
use sealed_secrets.Sealed.{Secret, SealedSecret, SealedSecretStatus, Codecs}
use sealed_secrets.Sealed.Unseal.{unseal}
use sealed_secrets.World.{World, Object}
use sealed_secrets.Registry.{private_keys}
use sealed_secrets.Controller.{
  Controller, normal, warning, call, report, count_error, convert_sealed_secret,
  is_annotated_to_be_managed, is_annotated_to_be_patched, is_immutable_error,
  format_immutable_error,
}
use sealed_secrets.Controller.Desired.{desired_secret}
use sealed_secrets.Controller.Conditions.{
  update_sealed_secrets_status_conditions, observe_condition,
}

abbrev pub err_update_failed : String
err_update_failed = "ErrUpdateFailed"

abbrev pub err_unseal_failed : String
err_unseal_failed = "ErrUnsealFailed"

abbrev pub success_unsealed : String
success_unsealed = "Unsealed"

abbrev pub empty_status : SealedSecretStatus
empty_status = record { observed_generation = 0; conditions = [] }

abbrev pub error_of {ℓ} : {A : Type ℓ} → Outcome A → Option Error
error_of (err e) = some e
error_of _ = none

-- fmt.Sprintf("Resource %q already exists …"), for a name with no character that %q escapes.
abbrev pub unmanaged_message : String → String
unmanaged_message name =
    String.◌++◌ "Resource \""
      (String.◌++◌ name "\" already exists and is not managed by SealedSecret")

module _ {p : Primitives} (c : Codecs) (w : World p) where
  -- if err != nil { …; return err }: the effects of a failed step.
  abbrev pub handled {ℓ} :
      {A : Type ℓ}
      → (Error → Controller w → Controller w)
      → Outcome A × Controller w
      → Outcome A × Controller w
  handled f (ok a, s) = (ok a, s)
  handled f (err e, s) = (err e, f e s)
  handled f (panic, s) = (panic, s)

  abbrev pub on_error {ℓ} :
      {A : Type ℓ}
      → Action (Controller w) A
      → (Error → Controller w → Controller w)
      → Action (Controller w) A
  on_error m f s = handled f (m s)

  -- What is reported when the unsealing fails, and when the target cannot be read or created.
  abbrev pub failed_unseal : SealedSecret → Error → Controller w → Controller w
  failed_unseal ssecret e s =
      count_error w "unseal" ssecret.meta.namespace
        (report w (warning err_unseal_failed (String.◌++◌ "Failed to unseal: " (message e))) s)

  abbrev pub failed_update : SealedSecret → Error → Controller w → Controller w
  failed_update ssecret e s =
      count_error w "update" ssecret.meta.namespace
        (report w (warning err_update_failed (message e)) s)

  -- Controller.attemptUnseal
  unfoldable pub attempt_unseal : SealedSecret → Action (Controller w) Secret
  attempt_unseal ssecret s =
      (unseal p c s.accept_deprecated_v1_data ssecret (private_keys w s.registry), s)

  abbrev pub created_if_missing :
      String → Secret → Outcome Secret × Controller w → Outcome Secret × Controller w
  created_if_missing ns new_secret (ok secret, s) = (ok secret, s)
  created_if_missing ns new_secret (err e, s) =
      if is_not_found e then call w (w.create_secret ns new_secret) s else (err e, s)
  created_if_missing ns new_secret (panic, s) = (panic, s)

  -- The target secret, created if it is not there.
  unfoldable pub get_or_create : SealedSecret → Secret → Action (Controller w) Secret
  get_or_create ssecret new_secret s =
      created_if_missing ssecret.meta.namespace new_secret
        (call w (w.get_secret ssecret.meta.namespace new_secret.meta.name) s)

  -- The controller may write the secret.
  abbrev pub is_ours : Secret → SealedSecret → Bool
  is_ours secret ssecret =
      w.is_controlled_by secret ssecret
      || is_annotated_to_be_managed secret
      || is_annotated_to_be_patched secret

  unfoldable pub check_ours : SealedSecret → Secret → Action (Controller w) (Unit {0})
  check_ours ssecret secret s =
      let text = unmanaged_message secret.meta.name in
      if is_ours secret ssecret then (ok tt, s) else (
        err (own (String.◌++◌ "failed update: " text)),
        count_error w "unmanaged" ssecret.meta.namespace
            (report w (warning err_update_failed text) s),
      )

  -- The text of a failed update.
  abbrev pub update_message : String → Error → String
  update_message key e = if is_immutable_error e then format_immutable_error key else message e

  -- The update of the secret, if it differs from what it was.
  unfoldable pub write_back :
      String → SealedSecret → Secret → Secret → Action (Controller w) (Unit {0})
  write_back key ssecret orig_secret secret s =
      if w.semantic_equal orig_secret secret
      then (ok tt, s)
      else on_error (call w (w.update_secret ssecret.meta.namespace secret) >>= λ _. return tt)
          (λ e t.
            count_error w "update" ssecret.meta.namespace
              (report w (warning err_update_failed (update_message key e)) t))
          s

  -- What unseal does to the target secret that it has found or created.
  unfoldable pub update_target :
      String → SealedSecret → Secret → Secret → Action (Controller w) (Unit {0})
  unfolding check_ours write_back
  update_target key ssecret new_secret secret = do
    checked ← check_ours ssecret secret
    desired ← lift (desired_secret secret new_secret)
    written ← write_back key ssecret secret desired
    λ s. (ok tt, report w (normal success_unsealed "SealedSecret unsealed successfully") s)

  -- The part of unseal behind the decryption.
  unfoldable pub apply_secret : String → SealedSecret → Secret → Action (Controller w) (Unit {0})
  unfolding get_or_create update_target
  apply_secret key ssecret new_secret = do
    secret ← on_error (get_or_create ssecret new_secret) (failed_update ssecret)
    update_target key ssecret new_secret secret

  -- The body of unseal, from the decryption to the event of success.
  unfoldable pub reconcile : String → SealedSecret → Action (Controller w) (Unit {0})
  unfolding attempt_unseal apply_secret
  reconcile key ssecret = do
    new_secret ← on_error (attempt_unseal ssecret) (failed_unseal ssecret)
    apply_secret key ssecret new_secret

  abbrev pub status_or_empty : Option SealedSecretStatus → SealedSecretStatus
  status_or_empty none = empty_status
  status_or_empty (some st) = st

  -- Controller.updateSealedSecretStatus. It changes the sealed secret that it is given, which the gauges
  -- are then set from, so that comes back too.
  unfoldable pub update_sealed_secret_status :
      SealedSecret → Option Error → ℕ → SealedSecret × Action (Controller w) (Unit {0})
  update_sealed_secret_status ssecret unseal_error now =
      let (st, required) =
        update_sealed_secrets_status_conditions (status_or_empty ssecret.status) unseal_error now in
      let observed = record ssecret {
        status = some (record st { observed_generation = ssecret.meta.generation });
      } in
      if required || not (eqb st.observed_generation ssecret.meta.generation)
      then (observed, call w (w.put_status ssecret.meta.namespace observed) >>= λ _. return tt)
      else (record ssecret { status = some st }, return tt)

  abbrev pub after_status : SealedSecret → Outcome (Unit {0}) × Controller w → Controller w
  after_status ssecret (ok _, s) = record s {
    condition_info = observe_condition ssecret s.condition_info;
  }
  after_status ssecret (err e, s) = count_error w "status" ssecret.meta.namespace s
  after_status ssecret (panic, s) = s

  -- The deferred function of unseal: a failure of the status update is counted, and no more.
  unfoldable pub record_status : SealedSecret → Option Error → Controller w → Controller w
  unfolding update_sealed_secret_status
  record_status ssecret unseal_error s =
      let (now, world) = w.now s.world in
      let (ssecret', write) = update_sealed_secret_status ssecret unseal_error now in
      if s.update_status
      then after_status ssecret' (write (record s { world = world }))
      else after_status ssecret (ok tt, s)

  -- The branch of unseal for a sealed secret that is gone.
  unfoldable pub collect_garbage : String → Action (Controller w) (Unit {0})
  collect_garbage key s =
      if s.old_gc_behavior
      then (elim (w.split_key key) [
        | ok (ns, name) ↦ gone (call w (w.delete_secret ns name) s)
        | err e ↦ (err e, s)
        | panic ↦ (panic, s)
      ])
      else (ok tt, s)
    where
      gone : Outcome (Unit {0}) × Controller w → Outcome (Unit {0}) × Controller w
      gone (err e, t) = if is_not_found e then (ok tt, t) else (err e, t)
      gone r = r

  -- The rest of unseal for a sealed secret that is there: the result is recorded in its status.
  unfoldable pub unseal_sealed : String → SealedSecret → Action (Controller w) (Unit {0})
  unfolding reconcile record_status
  unseal_sealed key ssecret s =
      let (r, s') = reconcile key ssecret s in (r, record_status ssecret (error_of r) s')

  abbrev pub unseal_object : String → Option Object → Action (Controller w) (Unit {0})
  unseal_object key none = collect_garbage key
  unseal_object key (some obj) = lift (convert_sealed_secret obj) >>= unseal_sealed key

  -- Controller.unseal
  unfoldable pub unseal_key : String → Action (Controller w) (Unit {0})
  unfolding collect_garbage unseal_sealed
  unseal_key key s =
      (do
        found ← on_error (call w (w.get_by_key key)) (λ e t. count_error w "fetch" "" t)
        unseal_object key found)
        (record s { unseal_requests_total = suc s.unseal_requests_total })
