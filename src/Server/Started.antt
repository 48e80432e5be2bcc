-- ===== src/Server/Started.antt =====
-- After the start, the server hands out the certificate of the key that new secrets are to be sealed for.
use sealed_secrets.Base.{
  ℕ, ◌≡◌, ◌≢◌, refl, sym, ap, subst, [], ◌∷◌, none, some, Outcome, ok, err, panic, Bytes,
  Option-cases, inl, inr, ok-injective, map_ok,
}
use sealed_secrets.Base.Action.{Action, bind-eq-ok, lift, return, ◌>>=◌}
use sealed_secrets.Base.GoMap.{insert}
use sealed_secrets.Crypto.{Primitives}
use sealed_secrets.Crypto.Laws.{HasKey}
use sealed_secrets.Sealed.{Codecs}
use sealed_secrets.World.{World}
use sealed_secrets.Multidoc.{YamlPackage}
use sealed_secrets.Registry.{Key, KeyRegistry, get_cert, private_keys}
use sealed_secrets.Registry.Held.{IsCollisionFree}
use sealed_secrets.Controller.{Controller}
use sealed_secrets.Controller.Rotate.{Documents}
use sealed_secrets.Startup.{Renewal, sealed_secrets_key_label, init_key_registry, init_key_renewal}
use sealed_secrets.Startup.Load.{init_key_registry_lem}
use sealed_secrets.Startup.FirstKey.{IsSound, init_key_renewal-IsSound}
use sealed_secrets.Controller.Queue.{WorkQueue}
use sealed_secrets.Controller.Watch.{Informers}
use sealed_secrets.Startup.Options.{Flags}
use sealed_secrets.Startup.Informers.{Factories, Handlers, main_controller}
use sealed_secrets.Startup.Main.{
  Pod, Started, init_key_prefix, my_namespace, cutoff_time, with_registry, start_controllers, start,
}
use sealed_secrets.Server.{Request, Response, RateLimiter, handle_cert, write_certs, httpserver}
use sealed_secrets.Server.Service.{cert_provider, pem_block, serve}

abbrev pub cert_request : Request
cert_request = record { path = "/v1/cert.pem"; headers = []; body = ok [] }

abbrev pub cert_reply : Bytes → Response
cert_reply pem = record {
  status = some 200;
  header = ("Content-Type", "application/x-pem-file") ∷ [];
  sent = ("Content-Type", "application/x-pem-file") ∷ [];
  body = pem;
}

module _ {p : Primitives} (w : World p) where
  with_registry-ok :
      (kr : KeyRegistry w) (m : Action (KeyRegistry w × w.State) Renewal) (s s' : w.State)
      (x : Renewal × KeyRegistry w)
      → with_registry w kr m s ≡ (ok x, s')
      → m (kr, s) ≡ (ok x.0, (x.1, s'))
  with_registry-ok kr m s s' x e = returned (m (kr, s)) e
    where
      returned :
          (y : Outcome Renewal × (KeyRegistry w × w.State))
          → ◌≡◌ {A = Outcome (Renewal × KeyRegistry w) × w.State}
              (map_ok (λ a. (a, y.1.0)) y.0, y.1.1)
              (ok x, s')
          → y ≡ (ok x.0, (x.1, s'))
      returned (ok a, (kr', u)) e = cc e
      returned (err failure, (kr', u)) e = absurd (cc e)
      returned (panic, (kr', u)) e = absurd (cc e)

  module _ (q : WorkQueue) (i : Informers) (n : Factories w.State (Handlers w q i)) where
    started-key_registry :
        (pod : Pod w.State) (f : Flags) (renewed : Renewal × KeyRegistry w) (s s' : w.State)
        (r : Started w q i n)
        → (start_controllers pod (main_controller w q i n (my_namespace pod) f) f >>= λ running.
              return (record { key_registry = renewed.1; renewal = renewed.0; running = running }))
            s
          ≡ (ok r, s')
        → renewed.1 ≡ r.key_registry
    started-key_registry pod f renewed s s' r e =
        let (running, u, a, e') =
          bind-eq-ok (start_controllers pod (main_controller w q i n (my_namespace pod) f) f) _ s
            e in
        ap (λ (x : Started w q i n). x.key_registry) (ok-injective (ap (λ x. x.0) e'))

    start-IsSound :
        (pod : Pod w.State) (f : Flags) (s s' : w.State) (r : Started w q i n)
        → IsCollisionFree p
        → start w q i n pod f s ≡ (ok r, s')
        → IsSound w r.key_registry × (r.key_registry.most_recent_key ≢ none)
    unfolding start
    start-IsSound pod f s s' r free e =
        let (prefix, s1, a1, e1) = bind-eq-ok (lift (init_key_prefix f.key_prefix)) _ s e in
        let (kr, s2, a2, e2) =
          bind-eq-ok
            (init_key_registry w pod.sort (my_namespace pod) prefix sealed_secrets_key_label
              f.key_size f.key_order_priority)
            _ s1 e1 in
        let (ct, s3, a3, e3) = bind-eq-ok (lift (cutoff_time pod f)) _ s2 e2 in
        let renewing = λ (ct' : ℕ).
          init_key_renewal w f.key_renew_period f.valid_for ct' f.my_cn f.private_key_annotations
            f.private_key_labels in
        let (renewed, s4, a4, e4) = bind-eq-ok (with_registry w kr (renewing ct)) _ s3 e3 in
        let (ordered, held) =
          init_key_registry_lem w free pod.sort (my_namespace pod) prefix sealed_secrets_key_label
            f.key_order_priority f.key_size s1 s2 kr a2 in
        let sound =
          init_key_renewal-IsSound w free f.key_renew_period f.valid_for ct f.my_cn
            f.private_key_annotations f.private_key_labels kr renewed.1 s3 s4 renewed.0
            (record { is_ordered = ordered; is_held = held })
            (with_registry-ok kr (renewing ct) s3 s4 renewed a4) in
        subst (λ (k : KeyRegistry w). IsSound w k × (k.most_recent_key ≢ none))
          (started-key_registry pod f renewed s4 s' r e4) sound

    module _ (c : Codecs) (d : Documents) (y : YamlPackage) (l : RateLimiter) where
      -- If public keys with one fingerprint are the same: when the start of Main succeeds, from the
      -- prefix over the stored keys and the first key to the controllers, and the controller has the
      -- registry of the start, then there is a most recent key, a request for /v1/cert.pem is answered
      -- with its certificate and changes nothing, and the private keys that unseal hold one for the
      -- public key of that key.
      pub serve-start :
          (pod : Pod w.State) (f : Flags) (s s' : w.State) (r : Started w q i n) (t : Controller w)
          (store : l.Store)
          → IsCollisionFree p
          → start w q i n pod f s ≡ (ok r, s')
          → t.registry ≡ r.key_registry
          → (k : Key w) × (r.key_registry.most_recent_key ≡ some k)
            × (serve w c d y l cert_request (t, store)
                ≡ (ok (cert_reply (pem_block w k.cert)), (t, store)))
            × HasKey p (p.public k.private) (private_keys w t.registry)
      unfolding httpserver handle_cert write_certs cert_provider get_cert insert
      serve-start pod f s s' r t store free e same =
          let (sound, ready) = start-IsSound pod f s s' r free e in
          elim (Option-cases r.key_registry.most_recent_key) [
            | inl missing ↦ absurd (ready missing)
            | inr (k, found) ↦ (
              k,
              found,
              rw (same, found) refl,
              subst (λ (kr : KeyRegistry w). HasKey p (p.public k.private) (private_keys w kr))
                  (sym same) (sound.is_held.latest_held k found),
            )
          ]
