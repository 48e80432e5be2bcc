-- ===== src/Server/Rotation.antt =====
-- What the server answers to /v1/rotate, and what kubeseal gets of that through the proxy of the API.
use sealed_secrets.Base.{
  ℕ, ◌≡◌, ◌≢◌, ap, ◌∙◌, String, Option, some, Outcome, ok, err, panic, Bytes, ok-injective,
  some-injective, arith,
}
use sealed_secrets.Base.Action.{bind-eq-ok}
use sealed_secrets.Base.GoMap.{Entries}
use sealed_secrets.Crypto.{Primitives}
use sealed_secrets.Sealed.{SealedSecret, Codecs}
use sealed_secrets.World.{World, sealed}
use sealed_secrets.Multidoc.{YamlPackage}
use sealed_secrets.Controller.{Controller}
use sealed_secrets.Controller.Rotate.{
  Documents, reseal, rotate, rotate_object, attempt_unseal_content,
}
use sealed_secrets.Controller.Rotation.{wrapped-ok}
use sealed_secrets.Server.{Request, Response, RateLimiter, handle_rotate, httpserver, rotated}
use sealed_secrets.Server.Service.{serve, pem_block, cert_provider}
use sealed_secrets.Kubeseal.Cluster.{answered, ClusterClient}
use sealed_secrets.Kubeseal.Remote.{sent}
use sealed_secrets.Server.Validation.{Site}

abbrev pub rotate_request : Entries String → Bytes → Request
rotate_request headers content = record {
  path = "/v1/rotate";
  headers = headers;
  body = ok content;
}

module _ {p : Primitives} (c : Codecs) (w : World p) (d : Documents) (y : YamlPackage)
    (l : RateLimiter) where
  -- The proxy of the API: what is reported as a success is the body of a reply with the status 200.
  pub record IsRotationProxy (net : ClusterClient (Site c w d y l)) : Type 0 where
    pub headers : Entries String
    pub only_success :
        (to : net.RestClient × String) (ns name : String) (content : Bytes) (t t' : Site c w d y l)
        (raw : Outcome Bytes)
        → sent net ns name "/v1/rotate" to content t ≡ (answered raw, t')
        → (reply : Response) × (serve w c d y l (rotate_request headers content) t ≡ (ok reply, t'))
          × (reply.status ≡ some 200)
          × (raw ≡ ok reply.body)

  rotate_object-ok :
      (secret : SealedSecret) (t t' : Controller w) (b : Bytes)
      → rotate_object c w d (sealed secret) t ≡ (ok b, t')
      → (made : SealedSecret) × (reseal c w d secret t ≡ (ok made, t')) × (d.marshal made ≡ ok b)
  rotate_object-ok secret t t' b e =
      let (made, u, e1, e2) = bind-eq-ok (reseal c w d secret) _ t e in
      (
        made,
        e1 ∙ ap (λ v. (ok made, v)) (ap (λ x. x.1) e2),
        wrapped-ok "error marshalling new secret to json. " (d.marshal made) (ap (λ x. x.0) e2),
      )

  rotated-ok :
      (out : Outcome Bytes) (reply : Response)
      → rotated (pem_block w) (cert_provider w) (attempt_unseal_content c w d y) (rotate c w d) out
        ≡ ok reply
      → reply.status ≡ some 200
      → out ≡ ok reply.body
  rotated-ok (ok b) reply e status = ap (λ (r : Response). ok r.body) (ok-injective e)
  rotated-ok (err failure) reply e status =
      absurd (not_success (ap (λ (r : Response). r.status) (ok-injective e) ∙ status))
    where
      not_success : ◌≢◌ {A = Option ℕ} (some 500) (some 200)
      not_success h = omega (arith, some-injective h)
  rotated-ok panic reply e status = absurd (cc e)

  -- A reply with the status 200 to /v1/rotate holds what resealing has made.
  pub serve_rotate-ok :
      (headers : Entries String) (content : Bytes) (secret : SealedSecret) (t t' : Controller w)
      (store store' : l.Store) (reply : Response)
      → d.decode content ≡ ok (sealed secret)
      → serve w c d y l (rotate_request headers content) (t, store) ≡ (ok reply, (t', store'))
      → reply.status ≡ some 200
      → (made : SealedSecret) × (reseal c w d secret t ≡ (ok made, t'))
        × (d.marshal made ≡ ok reply.body)
  unfolding httpserver handle_rotate rotate
  serve_rotate-ok headers content secret t t' store store' reply got e status =
      let e' = rw (got, httpserver) at e in
      let made_of = rotate_object c w d (sealed secret) t in
      let body = rotated-ok made_of.0 reply (ap (λ x. x.0) e') status in
      rotate_object-ok secret t t' reply.body
        (ap (λ x. (x, made_of.1)) body ∙ ap (λ u. (ok reply.body, u)) (ap (λ x. x.1.0) e'))
