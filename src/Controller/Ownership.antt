-- ===== src/Controller/Ownership.antt =====
-- Which writes to the cluster an attempt to reconcile may make.
use sealed_secrets.Base.{
  ◌≡◌, refl, sym, ◌∙◌, subst, String, true, false, inl, inr, Error, is_not_found, Outcome, is_ok,
  ok, err, panic, Bool-cases, Outcome-cases, eq_iff,
}
use sealed_secrets.Base.Action.{Action, return, continue}
use sealed_secrets.Base.GoMap.{index}
use sealed_secrets.Crypto.{Primitives}
use sealed_secrets.Sealed.{Secret, SealedSecret, Codecs}
use sealed_secrets.Sealed.Unseal.{unseal}
use sealed_secrets.World.{World}
use sealed_secrets.Registry.{private_keys}
use sealed_secrets.Controller.{Controller, call, is_annotated_to_be_managed}
use sealed_secrets.Controller.Desired.{desired_secret}
use sealed_secrets.Controller.Reconcile.{
  handled, created_if_missing, failed_update, failed_unseal, attempt_unseal, get_or_create, is_ours,
  check_ours, write_back, update_target, apply_secret, reconcile,
}

module _ {p : Primitives} (c : Codecs) (w : World p) (ssecret : SealedSecret) where
  abbrev get_target : Secret → w.State → Outcome Secret × w.State
  get_target new_secret = w.get_secret ssecret.meta.namespace new_secret.meta.name

  -- An answer that leaves nothing to create: a Secret, or an error that does not say not found.
  pub data IsAnswer : Outcome Secret → Type 0 where
    present : (secret : Secret) → IsAnswer (ok secret)
    other_error : (e : Error) → is_not_found e ≡ false → IsAnswer (err e)
    no_answer : IsAnswer panic

  -- The target is read, or is not there and is asked to be created.
  pub data IsFound (new_secret : Secret) (s : w.State) (r : Outcome Secret) (u : w.State)
      : Type 0 where
    read : get_target new_secret s ≡ (r, u) → IsAnswer r → IsFound new_secret s r u
    created :
        (e : Error) (t : w.State)
        → get_target new_secret s ≡ (err e, t)
        → is_not_found e ≡ true
        → w.create_secret ssecret.meta.namespace new_secret t ≡ (r, u)
        → IsFound new_secret s r u

  -- The sealed secret controls the target, or the target is annotated to be managed or to be patched.
  pub data MayWrite (secret : Secret) : Type 0 where
    controlled : w.is_controlled_by secret ssecret ≡ true → MayWrite secret
    managed :
        index secret.meta.annotations "sealedsecrets.bitnami.com/managed" ≡ "true" → MayWrite secret
    patched :
        index secret.meta.annotations "sealedsecrets.bitnami.com/patch" ≡ "true" → MayWrite secret

  -- A target is left alone, or it may be written and is updated to what is desired.
  pub data IsWritten (new_secret secret : Secret) (u v : w.State) : Type 0 where
    kept : v ≡ u → IsWritten new_secret secret u v
    updated :
        (desired : Secret) (r : Outcome Secret)
        → MayWrite secret
        → desired_secret secret new_secret ≡ ok desired
        → w.update_secret ssecret.meta.namespace desired u ≡ (r, v)
        → IsWritten new_secret secret u v

  -- What one attempt may do to the cluster.
  pub data IsAllowed (opened : Outcome Secret) (s v : w.State) : Type 0 where
    not_opened : is_ok opened ≡ false → v ≡ s → IsAllowed opened s v
    not_obtained :
        (new_secret : Secret) (r : Outcome Secret)
        → opened ≡ ok new_secret
        → is_ok r ≡ false
        → IsFound new_secret s r v
        → IsAllowed opened s v
    applied :
        (new_secret secret : Secret) (u : w.State)
        → opened ≡ ok new_secret
        → IsFound new_secret s (ok secret) u
        → IsWritten new_secret secret u v
        → IsAllowed opened s v

  is_ours-MayWrite : (secret : Secret) → is_ours c w secret ssecret ≡ true → MayWrite secret
  is_ours-MayWrite secret h = elim (Bool-cases (w.is_controlled_by secret ssecret)) [
    | inl owned ↦ controlled owned
    | inr not_owned ↦ elim (Bool-cases (is_annotated_to_be_managed secret)) [
      | inl kept_ours ↦ managed ((eq_iff _ _).0 kept_ours)
      | inr unmanaged ↦ patched ((eq_iff _ _).0 (rw (not_owned, unmanaged) at h))
    ]
  ]

  -- What only reports leaves the world alone.
  handled_world :
      {A : Type 0} (f : Error → Controller w → Controller w) (x : Outcome A × Controller w)
      → ((e : Error) (t : Controller w) → (f e t).world ≡ t.world)
      → (handled c w f x).1.world ≡ x.1.world
  handled_world f (ok a, t) h = refl
  handled_world f (err e, t) h = h e t
  handled_world f (panic, t) h = refl

  continue_world :
      {A B : Type 0} (f : A → Action (Controller w) B) (x : Outcome A × Controller w)
      → ((a : A) (t : Controller w) → (f a t).1.world ≡ t.world)
      → (continue f x).1.world ≡ x.1.world
  continue_world f (ok a, t) h = h a t
  continue_world f (err e, t) h = refl
  continue_world f (panic, t) h = refl

  write_back-IsWritten :
      (key : String) (new_secret secret desired : Secret) (t : Controller w)
      → is_ours c w secret ssecret ≡ true
      → desired_secret secret new_secret ≡ ok desired
      → IsWritten new_secret secret t.world (write_back c w key ssecret secret desired t).1.world
  unfolding write_back
  write_back-IsWritten key new_secret secret desired t ours e =
      elim (Bool-cases (w.semantic_equal secret desired)) [
        | inl same ↦ rw same (kept refl)
        | inr other ↦ rw other (
            subst (IsWritten new_secret secret t.world)
              (sym (
                handled_world _ _ (λ e' t'. refl)
                ∙ continue_world (λ _. return tt)
                    (call w (w.update_secret ssecret.meta.namespace desired) t) (λ a t'. refl)))
              (updated desired (w.update_secret ssecret.meta.namespace desired t.world).0
                (is_ours-MayWrite secret ours) e refl))
      ]

  update_target-IsWritten :
      (key : String) (new_secret secret : Secret) (t : Controller w)
      → IsWritten new_secret secret t.world
          (update_target c w key ssecret new_secret secret t).1.world
  unfolding update_target check_ours
  update_target-IsWritten key new_secret secret t = elim (Bool-cases (is_ours c w secret ssecret)) [
    | inl ours ↦ rw ours (elim (Outcome-cases (desired_secret secret new_secret)) [
      | inl (desired, e) ↦ rw e (
          subst (IsWritten new_secret secret t.world)
            (sym (continue_world _ (write_back c w key ssecret secret desired t) (λ a t'. refl)))
            (write_back-IsWritten key new_secret secret desired t ours e))
      | inr (inl (x, failed)) ↦ rw failed (kept refl)
      | inr (inr broken) ↦ rw broken (kept refl)
    ])
    | inr other ↦ rw other (kept refl)
  ]

  -- The target as it is found, whatever comes of it.
  get_or_create-IsFound :
      (new_secret : Secret) (t : Controller w)
      → IsFound new_secret t.world
          (get_or_create c w ssecret new_secret t).0
          (get_or_create c w ssecret new_secret t).1.world
  unfolding get_or_create
  get_or_create-IsFound new_secret t = from_get (get_target new_secret t.world) refl
    where
      from_get :
          (x : Outcome Secret × w.State)
          → get_target new_secret t.world ≡ x
          → IsFound new_secret t.world
              (created_if_missing c w ssecret.meta.namespace new_secret
                (x.0, record t { world = x.1 })).0
              (created_if_missing c w ssecret.meta.namespace new_secret
                (x.0, record t { world = x.1 })).1.world
      from_get (ok secret, u) e = read e (present secret)
      from_get (err x, u) e = elim (Bool-cases (is_not_found x)) [
        | inl missing ↦ rw missing (created x u e missing refl)
        | inr other ↦ rw other (read e (other_error x other))
      ]
      from_get (panic, u) e = read e no_answer

  module _ (opened : Outcome Secret) (new_secret : Secret)
      (is_opened : opened ≡ ok new_secret) where
    apply_found :
        (key : String) (s : w.State) (x : Outcome Secret × Controller w)
        → IsFound new_secret s x.0 x.1.world
        → IsAllowed opened s
            (continue
              (update_target c w key ssecret new_secret)
              (handled c w (failed_update c w ssecret) x)).1.world
    apply_found key s (ok secret, t) found =
        applied new_secret secret t.world is_opened found
          (update_target-IsWritten key new_secret secret t)
    apply_found key s (err e, t) found = not_obtained new_secret (err e) is_opened refl found
    apply_found key s (panic, t) found = not_obtained new_secret panic is_opened refl found

    apply_secret-IsAllowed :
        (key : String) (t : Controller w)
        → IsAllowed opened t.world (apply_secret c w key ssecret new_secret t).1.world
    unfolding apply_secret
    apply_secret-IsAllowed key t =
        apply_found key t.world (get_or_create c w ssecret new_secret t)
          (get_or_create-IsFound new_secret t)

  reconcile_opened :
      (key : String) (t : Controller w) (opened : Outcome Secret)
      → IsAllowed opened t.world
          (continue
            (apply_secret c w key ssecret)
            (handled c w (failed_unseal c w ssecret) (opened, t))).1.world
  reconcile_opened key t (ok new_secret) =
      apply_secret-IsAllowed (ok new_secret) new_secret refl key t
  reconcile_opened key t (err e) = not_opened refl refl
  reconcile_opened key t panic = not_opened refl refl

  -- After an attempt to reconcile a sealed secret, the world is as it was if the unsealing failed; and
  -- otherwise it has been read for the target and, if that was not found, asked to create the unsealed
  -- Secret, and it has been asked to update the target at most once, only if the target is controlled
  -- by the sealed secret or annotated to be managed or patched, and only to what is desired of it.
  pub reconcile-IsAllowed :
      (key : String) (t : Controller w)
      → IsAllowed
          (unseal p c t.accept_deprecated_v1_data ssecret (private_keys w t.registry))
          t.world
          (reconcile c w key ssecret t).1.world
  unfolding reconcile attempt_unseal
  reconcile-IsAllowed key t =
      reconcile_opened key t
        (unseal p c t.accept_deprecated_v1_data ssecret (private_keys w t.registry))
