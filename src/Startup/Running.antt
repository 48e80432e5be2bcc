-- ===== src/Startup/Running.antt =====
-- The controllers that the start of Main leaves running.
use sealed_secrets.Base.{
  ◌≡◌, ap, subst, String, Bool, true, false, not, ◌==◌, List, [], ◌∷◌, ◌++◌, Outcome, ok, err,
  panic, Each, if◌then◌else◌, ok-injective, is_not_found,
}
use sealed_secrets.Base.Action.{Action, attempt, bind-eq-ok, lift, return, ◌>>=◌}
use sealed_secrets.Base.Split.{split}
use sealed_secrets.Funcs.{remove_duplicates}
use sealed_secrets.Crypto.{Primitives}
use sealed_secrets.World.{World}
use sealed_secrets.Controller.Queue.{WorkQueue}
use sealed_secrets.Controller.Watch.{Informers}
use sealed_secrets.Registry.{KeyRegistry}
use sealed_secrets.Startup.{Renewal, sealed_secrets_key_label, init_key_registry, init_key_renewal}
use sealed_secrets.Startup.Options.{Flags}
use sealed_secrets.Startup.Informers.{Factories, Handlers, Configured, main_controller}
use sealed_secrets.Startup.Wired.{IsWired, main_controller-IsWired}
use sealed_secrets.Startup.Main.{
  Pod, Started, init_key_prefix, cutoff_time, with_registry, Running, if_there, my_namespace,
  main_namespace, watch_additional, start_controllers, start,
}

module _ {S : Type 0} {A : Type 0} (pod : Pod S) (prepare : String → Action S A)
    (P : String × A → Type 0)
    (good : (ns : String) (s s' : S) (c : A) → prepare ns s ≡ (ok c, s') → P (ns, c)) where
  -- All that an action returns is good.
  abbrev IsGood : Action S (Running pod prepare) → Type 0
  IsGood m = (out : Running pod prepare) (s s' : S) → m s ≡ (ok out, s') → Each P out

  if-IsGood :
      (b : Bool) (m n : Action S (Running pod prepare))
      → IsGood m
      → IsGood n
      → IsGood (if b then m else n)
  if-IsGood true m n h h' = h
  if-IsGood false m n h h' = h'

  there-IsGood :
      (r : Outcome (Unit {0})) (found missing : Action S (Running pod prepare))
      → IsGood found
      → IsGood missing
      → IsGood (if_there pod prepare r found missing)
  there-IsGood (ok there) found missing h h' = h
  there-IsGood (err e) found missing h h' =
      if-IsGood (is_not_found e) missing _ h' (λ out s s' e'. absurd (cc e'))
  there-IsGood panic found missing h h' = λ out s s' e. absurd (cc e)

  return-IsGood : (running : Running pod prepare) → Each P running → IsGood (return running)
  return-IsGood running h out s s' e = subst (Each P) (ok-injective (ap (λ x. x.0) e)) h

  Each-snoc :
      (running : Running pod prepare) (x : String × A)
      → Each P running
      → P x
      → Each P (running ++ (x ∷ []))
  Each-snoc [] x h good_one = (good_one, tt)
  Each-snoc (y ∷ running) x (first, h) good_one = (first, Each-snoc running x h good_one)

  watch_additional-Each :
      (namespace : String) (more : List String) (running : Running pod prepare)
      → Each P running
      → IsGood (watch_additional pod prepare namespace more running)
  unfolding watch_additional attempt
  watch_additional-Each namespace [] running h = return-IsGood running h
  watch_additional-Each namespace (ns ∷ more) running h = λ out s s' e.
      there-IsGood (pod.get_namespace ns s).0 _ _
        (if-IsGood (ns == namespace) _ _ (watch_additional-Each namespace more running h)
          (λ out' u u' e'.
            let (ctlr, v, prepared, e1) = bind-eq-ok (prepare ns) _ u e' in
            watch_additional-Each namespace more (running ++ ((ns, ctlr) ∷ []))
              (Each-snoc running (ns, ctlr) h (good ns u v ctlr prepared)) out' v u' e1))
        (watch_additional-Each namespace more running h) out (pod.get_namespace ns s).1 s' e

  pub start_controllers-Each : (f : Flags) → IsGood (start_controllers pod prepare f)
  unfolding start_controllers
  start_controllers-Each f out s s' e =
      let namespace = main_namespace pod f in
      let (controller, s1, prepared, e1) = bind-eq-ok (prepare namespace) _ s e in
      let first : Each P ((namespace, controller) ∷ []) =
        (good namespace s s1 controller prepared, tt) in
      if-IsGood (not (f.additional_namespaces == "")) _ _
        (watch_additional-Each namespace (remove_duplicates (split b',' f.additional_namespaces)) _
          first)
        (return-IsGood _ first) out s1 s' e1

module _ {p : Primitives} (w : World p) (q : WorkQueue) (i : Informers)
    (n : Factories w.State (Handlers w q i)) where
  -- The controller of a namespace was wired in some step of the start.
  pub record WasWired (f : Flags) (own_namespace : String) (x : String × Configured n.Informer)
      : Type 0 where
    pub before : w.State
    pub after : w.State
    pub is_wired : IsWired w q i n f own_namespace x.0 before after x.1

  -- The last steps of the start.
  started-WasWired :
      (pod : Pod w.State) (f : Flags) (renewed : Renewal × KeyRegistry w) (s s' : w.State)
      (r : Started w q i n)
      → (start_controllers pod (main_controller w q i n (my_namespace pod) f) f >>= λ running.
            return (record { key_registry = renewed.1; renewal = renewed.0; running = running }))
          s
        ≡ (ok r, s')
      → Each (WasWired f (my_namespace pod)) r.running
  started-WasWired pod f renewed s s' r e =
      let own_namespace = my_namespace pod in
      let (running, s1, started, e1) =
        bind-eq-ok (start_controllers pod (main_controller w q i n own_namespace f) f) _ s e in
      let same : running ≡ r.running =
        ap (λ (x : Started w q i n). x.running) (ok-injective (ap (λ x. x.0) e1)) in
      subst (Each (WasWired f own_namespace)) same (
        start_controllers-Each pod (main_controller w q i n own_namespace f)
          (WasWired f own_namespace)
          (λ ns u u' c prepared. record {
            before = u;
            after = u';
            is_wired = main_controller-IsWired w q i n f own_namespace ns u u' c prepared;
          })
          f running s s1 started)

  -- When the start of Main succeeds, the controller of each namespace that it leaves running has an
  -- informer for the sealed secrets of that namespace, an informer for its secrets exactly if they are
  -- to be created again, and one for the sealing keys of the controller's own namespace exactly if
  -- these are to be watched; the first two with the label selector of the flags and the last with the
  -- one of the keys; each was given its own handlers, in this order, without an error, and the retries
  -- and the two switches are those of the flags.
  pub start-WasWired :
      (pod : Pod w.State) (f : Flags) (s s' : w.State) (r : Started w q i n)
      → start w q i n pod f s ≡ (ok r, s')
      → Each (WasWired f (my_namespace pod)) r.running
  unfolding start
  start-WasWired pod f s s' r e =
      let own_namespace = my_namespace pod in
      let (prefix, s1, _, e1) = bind-eq-ok (lift (init_key_prefix f.key_prefix)) _ s e in
      let (kr, s2, _, e2) =
        bind-eq-ok
          (init_key_registry w pod.sort own_namespace prefix sealed_secrets_key_label f.key_size
            f.key_order_priority)
          _ s1 e1 in
      let (ct, s3, _, e3) = bind-eq-ok (lift (cutoff_time pod f)) _ s2 e2 in
      let renewing = with_registry w kr (
        init_key_renewal w f.key_renew_period f.valid_for ct f.my_cn f.private_key_annotations
          f.private_key_labels) in
      let (renewed, s4, _, e4) = bind-eq-ok renewing _ s3 e3 in
      started-WasWired pod f renewed s4 s' r e4
