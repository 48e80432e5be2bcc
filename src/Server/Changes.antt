-- ===== src/Server/Changes.antt =====
-- What a request changes, and the headers that a rotated sealed secret is sent with.
use sealed_secrets.Base.{
  ◌≡◌, refl, ap, subst, ◌⊎◌, inl, inr, none, Outcome, ok, err, panic, Bytes, Outcome-cases,
  ok-injective,
}
use sealed_secrets.Base.Action.{continue, lift}
use sealed_secrets.Base.GoMap.{lookup}
use sealed_secrets.Crypto.{Primitives}
use sealed_secrets.Sealed.{SealedSecret, Codecs}
use sealed_secrets.Sealed.Seal.{new_sealed_secret}
use sealed_secrets.Sealed.Unseal.{unseal}
use sealed_secrets.World.{World, Object, sealed, other_object}
use sealed_secrets.Multidoc.{YamlPackage}
use sealed_secrets.Registry.{private_keys, latest_private_key}
use sealed_secrets.Controller.{Controller}
use sealed_secrets.Controller.Reconcile.{attempt_unseal}
use sealed_secrets.Controller.Rotate.{
  Documents, wrapped, aligned, reseal, rotate, rotate_object, attempt_unseal_content,
}
use sealed_secrets.Server.{
  Request, Response, RateLimiter, Route, healthz, verify, rotated, cert_pem, no_route, route,
  respond, handle_rotate, httpserver,
}
use sealed_secrets.Server.Service.{serve, pem_block, cert_provider}

module _ {p : Primitives} (c : Codecs) (w : World p) (d : Documents) (y : YamlPackage) where
  -- Nothing has changed but for what was drawn from the random source.
  abbrev pub IsDrawn : Controller w → Controller w → Type 0
  IsDrawn t t' = (t' ≡ t) ⊎ ((rnd : p.Rand) × (t' ≡ record t { world = w.set_rand rnd t.world }))

  finished-IsDrawn :
      (t t' : Controller w) (r : Outcome SealedSecret)
      → IsDrawn t t'
      → IsDrawn t
          (continue
            (λ s. lift (wrapped "error marshalling new secret to json. " (d.marshal s)))
            (r, t')).1
  finished-IsDrawn t t' (ok s) h = h
  finished-IsDrawn t t' (err e) h = h
  finished-IsDrawn t t' panic h = h

  reseal-IsDrawn : (s : SealedSecret) (t : Controller w) → IsDrawn t (reseal c w d s t).1
  unfolding reseal attempt_unseal
  reseal-IsDrawn s t =
      elim (Outcome-cases
        (unseal p c t.accept_deprecated_v1_data (aligned d s) (private_keys w t.registry))) [
          | inl (secret, opened) ↦ elim (Outcome-cases (latest_private_key w t.registry)) [
            | inl (k, got) ↦
                rw (opened, got)
                  (inr ((new_sealed_secret p c (p.public k) secret (w.rand t.world)).1, refl))
            | inr (inl (e, failed)) ↦ rw (opened, failed) (inl refl)
            | inr (inr broken) ↦ rw (opened, broken) (inl refl)
          ]
          | inr (inl (e, closed)) ↦ rw closed (inl refl)
          | inr (inr broken) ↦ rw broken (inl refl)
        ]

  rotate-IsDrawn : (content : Bytes) (t : Controller w) → IsDrawn t (rotate c w d content t).1
  unfolding rotate
  rotate-IsDrawn content t = elim (Outcome-cases (d.decode content)) [
    | inl (object, got) ↦ rw got (object_IsDrawn object)
    | inr (inl (e, bad)) ↦ rw bad (inl refl)
    | inr (inr broken) ↦ rw broken (inl refl)
  ]
    where
      object_IsDrawn : (o : Object) → IsDrawn t (rotate_object c w d o t).1
      object_IsDrawn other_object = inl refl
      object_IsDrawn (sealed s) =
          finished-IsDrawn t (reseal c w d s t).1 (reseal c w d s t).0 (reseal-IsDrawn s t)

  rotate_route-IsDrawn :
      (r : Request) (t : Controller w)
      → IsDrawn t
          (handle_rotate
            (pem_block w)
            (cert_provider w)
            (attempt_unseal_content c w d y)
            (rotate c w d)
            r
            t).1
  unfolding handle_rotate
  rotate_route-IsDrawn r t = elim (Outcome-cases r.body) [
    | inl (content, got) ↦ rw got (rotate-IsDrawn content t)
    | inr (inl (e, bad)) ↦ rw bad (inl refl)
    | inr (inr broken) ↦ rw broken (inl refl)
  ]

  module _ (l : RateLimiter) where
    -- Whatever request the server answers, or does not, the controller is as it was but for what was
    -- drawn from the random source: no request changes the keys, the events or the metrics of the
    -- reconciliation.
    pub serve-IsDrawn :
        (r : Request) (t : Controller w) (s : l.Store) → IsDrawn t (serve w c d y l r (t, s)).1.0
    unfolding httpserver
    serve-IsDrawn r t s = routed (route r.path)
      where
        routed :
            (to : Route)
            → IsDrawn t
                (respond
                  (pem_block w)
                  (cert_provider w)
                  (attempt_unseal_content c w d y)
                  (rotate c w d)
                  l
                  to
                  r
                  (t, s)).1.0
        routed healthz = inl refl
        routed verify = inl refl
        routed Route.rotate = rotate_route-IsDrawn r t
        routed cert_pem = inl refl
        routed no_route = inl refl

  rotated-Untyped :
      (out : Outcome Bytes) (reply : Response)
      → rotated (pem_block w) (cert_provider w) (attempt_unseal_content c w d y) (rotate c w d) out
        ≡ ok reply
      → lookup "Content-Type" reply.sent ≡ none
  unfolding lookup
  rotated-Untyped (ok new_secret) reply e =
      subst (λ (x : Response). lookup "Content-Type" x.sent ≡ none) (ok-injective e) refl
  rotated-Untyped (err failure) reply e =
      subst (λ (x : Response). lookup "Content-Type" x.sent ≡ none) (ok-injective e) refl
  rotated-Untyped panic reply e = cc

  -- No reply of the handler of /v1/rotate has sent a Content-Type, not even with a new sealed secret:
  -- the handler sets it when the headers are gone.
  handle_rotate-Untyped :
      (r : Request) (t t' : Controller w) (reply : Response)
      → handle_rotate
          (pem_block w)
          (cert_provider w)
          (attempt_unseal_content c w d y)
          (rotate c w d)
          r
          t
        ≡ (ok reply, t')
      → lookup "Content-Type" reply.sent ≡ none
  unfolding handle_rotate lookup
  handle_rotate-Untyped r t t' reply e = elim (Outcome-cases r.body) [
    | inl (content, got) ↦
        rotated-Untyped (rotate c w d content t).0 reply (ap (λ x. x.0) (rw got at e))
    | inr (inl (failure, bad)) ↦
        subst (λ (x : Response). lookup "Content-Type" x.sent ≡ none)
          (ok-injective (ap (λ x. x.0) (rw bad at e))) refl
    | inr (inr broken) ↦ absurd (cc (rw broken at e))
  ]
