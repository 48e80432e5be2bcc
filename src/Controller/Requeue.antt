-- ===== src/Controller/Requeue.antt =====
-- Which keys the deletion of a Secret puts into the queue.
use sealed_secrets.Base.{
  ◌≡◌, refl, subst, ap, Outcome-cases, Bool-cases, inl, inr, true, ◌||◌, Outcome, ok, err, panic,
  String,
}
use sealed_secrets.Crypto.{Primitives}
use sealed_secrets.Sealed.{Secret, SealedSecret}
use sealed_secrets.World.{World, sealed}
use sealed_secrets.Controller.{is_annotated_to_be_managed}
use sealed_secrets.Controller.Queue.{WorkQueue}
use sealed_secrets.Controller.Watch.{Informers, known, requeue_owner, owner_found, secret_deleted}

module _ (q : WorkQueue) (i : Informers) {p : Primitives} (w : World p) (secret : Secret) where
  -- The queue is as it was, or it was given the key of one sealed secret that controls the secret, or with
  -- which a managed secret shares its name.
  pub data IsRequeued (items : q.Items) (s : w.State) : q.Items → Type 0 where
    kept : IsRequeued items s items
    requeued :
        (skey : String) (place : String × String) (ssecret : SealedSecret) (key : String)
        (u : w.State)
        → i.secret_key_of secret ≡ ok skey
        → w.split_key skey ≡ ok place
        → w.get_sealed_secret place.0 place.1 s ≡ (ok ssecret, u)
        → (w.is_controlled_by secret ssecret || is_annotated_to_be_managed secret) ≡ true
        → i.key_of (sealed ssecret) ≡ ok key
        → IsRequeued items s (q.add key items)

  abbrev OnOk : {A : Type 0} → (A → Type 0) → Outcome A → Type 0
  OnOk P (ok a) = P a
  OnOk P _ = Unit

  requeue_owner-IsRequeued :
      (items : q.Items) (s u : w.State) (skey : String) (place : String × String)
      (ssecret : SealedSecret)
      → i.secret_key_of secret ≡ ok skey
      → w.split_key skey ≡ ok place
      → w.get_sealed_secret place.0 place.1 s ≡ (ok ssecret, u)
      → IsRequeued items s (requeue_owner q i w secret ssecret items)
  unfolding requeue_owner
  requeue_owner-IsRequeued items s u skey place ssecret e1 e2 e3 =
      elim (Bool-cases (w.is_controlled_by secret ssecret || is_annotated_to_be_managed secret)) [
        | inl ours ↦ rw ours (elim (Outcome-cases (i.key_of (sealed ssecret))) [
          | inl (key, e4) ↦ rw e4 (requeued skey place ssecret key u e1 e2 e3 ours e4)
          | inr (inl (e, failed)) ↦ rw failed kept
          | inr (inr broken) ↦ rw broken kept
        ])
        | inr other ↦ rw other kept
      ]

  owner_found-IsRequeued :
      (items : q.Items) (s : w.State) (skey : String) (place : String × String)
      → i.secret_key_of secret ≡ ok skey
      → w.split_key skey ≡ ok place
      → (x : Outcome SealedSecret × w.State) → w.get_sealed_secret place.0 place.1 s ≡ x
      → OnOk (IsRequeued items s) (owner_found q i w (known secret) x items).0
  unfolding owner_found
  owner_found-IsRequeued items s skey place e1 e2 (ok ssecret, u) e3 =
      requeue_owner-IsRequeued items s u skey place ssecret e1 e2 e3
  owner_found-IsRequeued items s skey place e1 e2 (err e, u) e3 = kept
  owner_found-IsRequeued items s skey place e1 e2 (panic, u) e3 = tt

  secret_deleted_cases :
      (items : q.Items) (s : w.State)
      → OnOk (IsRequeued items s) (secret_deleted q i w (known secret) items s).0
  unfolding secret_deleted
  secret_deleted_cases items s = elim (Outcome-cases (i.secret_key_of secret)) [
    | inl (skey, e1) ↦
        rw (e1, OnOk)
          (elim (Outcome-cases (w.split_key skey)) [
            | inl (place, e2) ↦
                rw (e2, OnOk)
                  (owner_found-IsRequeued items s skey place e1 e2
                    (w.get_sealed_secret place.0 place.1 s) refl)
            | inr (inl (e, failed)) ↦ rw (failed, OnOk) kept
            | inr (inr broken) ↦ rw (broken, OnOk) tt
          ])
    | inr (inl (e, failed)) ↦ rw (failed, OnOk) kept
    | inr (inr broken) ↦ rw (broken, OnOk) tt
  ]

  -- When the handler for the deletion of a Secret whose last state is known returns, the queue is as it
  -- was, or it was given the key of the sealed secret that stands under the key of the Secret, and that
  -- sealed secret controls the Secret or the Secret is annotated to be managed.
  pub secret_deleted-IsRequeued :
      (items items' : q.Items) (s u : w.State)
      → secret_deleted q i w (known secret) items s ≡ (ok items', u)
      → IsRequeued items s items'
  secret_deleted-IsRequeued items items' s u e =
      subst (OnOk (IsRequeued items s)) (ap (λ r. r.0) e) (secret_deleted_cases items s)
