-- ===== src/Startup/Wired.antt =====
-- Which informers the controller of a namespace has, and what they call.
use sealed_secrets.Base.{
  ◌≡◌, refl, sym, ap, ◌∙◌, subst, String, Bool, true, false, not, Option, none, some, Outcome, ok,
  err, panic, if◌then◌else◌, ok-injective,
}
use sealed_secrets.Base.GoMap.{map_option}
use sealed_secrets.Base.Action.{bind-eq-ok}
use sealed_secrets.Crypto.{Primitives}
use sealed_secrets.World.{World}
use sealed_secrets.Controller.Queue.{WorkQueue}
use sealed_secrets.Controller.Watch.{Informers}
use sealed_secrets.Startup.{key_selector}
use sealed_secrets.Startup.Options.{Flags}
use sealed_secrets.Startup.Informers.{
  Factories, Handlers, Configured, sealed_secrets_handlers, secrets_handlers, key_secrets_handlers,
  handled_by, watched, if_any, watch_sealed_secrets, watch_secrets, watch_key_secrets,
  new_controller, init_secret_informer_factory, tweak_options, prepare_controller, main_controller,
}

module _ {p : Primitives} (w : World p) (q : WorkQueue) (i : Informers)
    (n : Factories w.State (Handlers w q i)) where
  handled_by-ok :
      (text : String) (informer out : n.Informer) (s' : w.State) (x : Outcome (Unit {0}) × w.State)
      → handled_by w q i n text informer x ≡ (ok out, s')
      → (x ≡ (ok tt, s')) × (informer ≡ out)
  handled_by-ok text informer out s' (ok done, s) e =
      (ap (λ y. (ok tt, y.1)) e, ok-injective (ap (λ y. y.0) e))
  handled_by-ok text informer out s' (err failure, s) e = absurd (cc e)
  handled_by-ok text informer out s' (panic, s) e = absurd (cc e)

  -- An informer that is there has been given its handlers; one that is not has changed nothing.
  abbrev pub Handles : Option n.Informer → Handlers w q i → w.State → w.State → Type 0
  Handles none h s s' = s ≡ s'
  Handles (some informer) h s s' = n.add_event_handler informer h s ≡ (ok tt, s')

  if_any-ok :
      (text : String) (handlers : Handlers w q i) (factory : Option n.Factory)
      (out : Option n.Informer) (s s' : w.State)
      → if_any w q i n (λ f. watched w q i n text handlers (n.secrets f)) factory s ≡ (ok out, s')
      → (map_option n.secrets factory ≡ out) × Handles out handlers s s'
  if_any-ok text handlers none out s s' e =
      let is_out : none ≡ out = ok-injective (ap (λ y. y.0) e) in
      (is_out, subst (λ o. Handles o handlers s s') is_out (ap (λ y. y.1) e))
  if_any-ok text handlers (some factory) out s s' e =
      let (informer, s1, a, e1) =
        bind-eq-ok (watched w q i n text handlers (n.secrets factory)) _ s e in
      let (called, same) =
        handled_by-ok text (n.secrets factory) informer s1
          (n.add_event_handler (n.secrets factory) handlers s) a in
      let is_out : some (n.secrets factory) ≡ out =
        ap (λ x. some x) same ∙ ok-injective (ap (λ y. y.0) e1) in
      (
        is_out,
        subst (λ o. Handles o handlers s s') is_out
            (called ∙ ap (λ (v : w.State). (ok tt, v)) (ap (λ y. y.1) e1)),
      )

  -- The informers of the controller of a namespace.
  pub record IsWired (f : Flags) (own_namespace namespace : String) (s s' : w.State)
      (c : Configured n.Informer) : Type 0 where
    pub s1 : w.State
    pub s2 : w.State
    pub for_sealed_secrets :
        c.wiring.ss_informer
        ≡ n.sealed_secrets (n.sealed_factory namespace (tweak_options w q i n f))
    pub for_secrets : c.wiring.s_informer ≡ (
        if f.skip_recreate
        then none
        else some (n.secrets (n.secret_factory namespace (tweak_options w q i n f))))
    pub for_keys : c.wiring.k_informer ≡ (
        if f.watch_for_secrets
        then some (n.secrets (n.secret_factory own_namespace (some key_selector)))
        else none)
    pub sealed_secrets_handled :
        n.add_event_handler c.wiring.ss_informer (sealed_secrets_handlers w q i) s ≡ (ok tt, s1)
    pub secrets_handled : Handles c.wiring.s_informer (secrets_handlers w q i) s1 s2
    pub keys_handled :
        Handles c.wiring.k_informer (key_secrets_handlers w q i f.key_order_priority) s2 s'
    pub same_retries : c.max_retries ≡ f.max_retries
    pub same_behavior : c.old_gc_behavior ≡ f.old_gc_behavior
    pub same_status : c.update_status ≡ f.update_status

  map_option-enabled :
      (b : Bool) (x : n.Factory)
      → map_option n.secrets (if not b then none else some x)
        ≡ (if b then some (n.secrets x) else none)
  map_option-enabled true x = refl
  map_option-enabled false x = refl

  map_option-disabled :
      (b : Bool) (x : n.Factory)
      → map_option n.secrets (if not (not b) then none else some x)
        ≡ (if b then none else some (n.secrets x))
  map_option-disabled true x = refl
  map_option-disabled false x = refl

  abbrev configured :
      Flags → n.Informer → Option n.Informer → Option n.Informer → Configured n.Informer
  configured f ss si ki = record {
    wiring = record { ss_informer = ss; s_informer = si; k_informer = ki };
    max_retries = f.max_retries;
    old_gc_behavior = f.old_gc_behavior;
    update_status = f.update_status;
  }

  configured-IsWired :
      (f : Flags) (own_namespace namespace : String) (s s1 s2 s3 : w.State) (ss : n.Informer)
      (si ki : Option n.Informer)
      → watch_sealed_secrets w q i n (n.sealed_factory namespace (tweak_options w q i n f)) s
        ≡ (ok ss, s1)
      → if_any w q i n
          (watch_secrets w q i n)
          (init_secret_informer_factory w q i n namespace
            (tweak_options w q i n f)
            (not f.skip_recreate))
          s1
        ≡ (ok si, s2)
      → if_any w q i n
          (watch_key_secrets w q i n f.key_order_priority)
          (init_secret_informer_factory w q i n own_namespace
            (some key_selector)
            f.watch_for_secrets)
          s2
        ≡ (ok ki, s3)
      → IsWired f own_namespace namespace s s3 (configured f ss si ki)
  unfolding watch_sealed_secrets watch_secrets watch_key_secrets init_secret_informer_factory
  configured-IsWired f own_namespace namespace s s1 s2 s3 ss si ki a1 a2 a3 =
      let (called, same) = handled_by-ok _ _ ss s1 _ a1 in
      let (watched_one, own_called) = if_any-ok _ (secrets_handlers w q i) _ si s1 s2 a2 in
      let (key, key_called) =
        if_any-ok _ (key_secrets_handlers w q i f.key_order_priority) _ ki s2 s3 a3 in
      record {
        s1 = s1;
        s2 = s2;
        for_sealed_secrets = sym same;
        for_secrets = sym watched_one ∙ map_option-disabled f.skip_recreate _;
        for_keys = sym key ∙ map_option-enabled f.watch_for_secrets _;
        sealed_secrets_handled =
            ap (λ informer. n.add_event_handler informer (sealed_secrets_handlers w q i) s)
              (sym same)
            ∙ called;
        secrets_handled = own_called;
        keys_handled = key_called;
        same_retries = refl;
        same_behavior = refl;
        same_status = refl;
      }

  abbrev switched : Flags → Configured n.Informer → Configured n.Informer
  switched f c = record c { old_gc_behavior = f.old_gc_behavior; update_status = f.update_status }

  new_controller-IsWired :
      (f : Flags) (own_namespace namespace : String) (s s' : w.State) (c : Configured n.Informer)
      → prepare_controller w q i n namespace own_namespace (tweak_options w q i n f) f s
        ≡ (ok c, s')
      → IsWired f own_namespace namespace s s' (switched f c)
  unfolding prepare_controller new_controller
  new_controller-IsWired f own_namespace namespace s s' c e =
      let tweaked = tweak_options w q i n f in
      let secrets = init_secret_informer_factory w q i n namespace tweaked (not f.skip_recreate) in
      let keys =
        init_secret_informer_factory w q i n own_namespace (some key_selector)
          f.watch_for_secrets in
      let (ss, s1, a1, e1) =
        bind-eq-ok (watch_sealed_secrets w q i n (n.sealed_factory namespace tweaked)) _ s e in
      let (si, s2, a2, e2) = bind-eq-ok (if_any w q i n (watch_secrets w q i n) secrets) _ s1 e1 in
      let (ki, s3, a3, e3) =
        bind-eq-ok (if_any w q i n (watch_key_secrets w q i n f.key_order_priority) keys) _ s2 e2 in
      subst (λ v. IsWired f own_namespace namespace s v (switched f c)) (ap (λ x. x.1) e3)
        (subst (λ k. IsWired f own_namespace namespace s s3 (switched f k))
          (ok-injective (ap (λ x. x.0) e3))
          (configured-IsWired f own_namespace namespace s s1 s2 s3 ss si ki a1 a2 a3))

  -- x
  pub main_controller-IsWired :
      (f : Flags) (own_namespace namespace : String) (s s' : w.State) (c : Configured n.Informer)
      → main_controller w q i n own_namespace f namespace s ≡ (ok c, s')
      → IsWired f own_namespace namespace s s' c
  unfolding main_controller
  main_controller-IsWired f own_namespace namespace s s' c e =
      let (controller, s1, prepared, e1) =
        bind-eq-ok (prepare_controller w q i n namespace own_namespace (tweak_options w q i n f) f)
          _ s e in
      subst (λ v. IsWired f own_namespace namespace s v c) (ap (λ x. x.1) e1)
        (subst (IsWired f own_namespace namespace s s1) (ok-injective (ap (λ x. x.0) e1))
          (new_controller-IsWired f own_namespace namespace s s1 controller prepared))
