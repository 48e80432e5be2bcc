-- ===== src/Server/Replies.antt =====
-- What the server says of a sealed secret.
use sealed_secrets.Base.{
  ℕ, ◌≡◌, ◌≢◌, refl, sym, String, [], inl, inr, some, Error, Outcome, ok, err, panic, Bytes,
  Outcome-cases, Bool, true, false, if◌then◌else◌, >>=-eq-ok, ok-injective,
}
use sealed_secrets.Base.GoMap.{Entries}
use sealed_secrets.Crypto.{Primitives}
use sealed_secrets.Sealed.{Secret, SealedSecret, Codecs}
use sealed_secrets.Sealed.Unseal.{unseal}
use sealed_secrets.World.{World, Object, sealed, other_object}
use sealed_secrets.Multidoc.{YamlPackage, ensure_not_multi_doc}
use sealed_secrets.Registry.{private_keys}
use sealed_secrets.Controller.{Controller}
use sealed_secrets.Controller.Reconcile.{attempt_unseal}
use sealed_secrets.Controller.Rotate.{
  Documents, rotate, attempt_unseal_content, attempt_object, unseals,
}
use sealed_secrets.Server.{
  Request, Response, new_response, RateLimiter, admitted, verified, handle_verify, httpserver,
}
use sealed_secrets.Server.Service.{serve, pem_block, cert_provider}

abbrev pub verify_request : Entries String → Bytes → Request
verify_request headers content = record {
  path = "/v1/verify";
  headers = headers;
  body = ok content;
}

abbrev pub coded : Entries String → ℕ → Response
coded limits code = record { status = some code; header = limits; sent = limits; body = [] }

module _ {p : Primitives} (c : Codecs) (w : World p) (d : Documents) (y : YamlPackage) where
  -- What the keys of the controller make of a document, and the status that tells it.
  pub data Verdict (content : Bytes) (t : Controller w) : ℕ → Type 0 where
    valid :
        (s : SealedSecret) (secret : Secret)
        → ensure_not_multi_doc y content ≡ ok tt
        → d.decode content ≡ ok (sealed s)
        → unseal p c t.accept_deprecated_v1_data s (private_keys w t.registry) ≡ ok secret
        → Verdict content t 200
    invalid :
        (s : SealedSecret) (e : Error)
        → ensure_not_multi_doc y content ≡ ok tt
        → d.decode content ≡ ok (sealed s)
        → unseal p c t.accept_deprecated_v1_data s (private_keys w t.registry) ≡ err e
        → Verdict content t 409
    many_documents : (e : Error) → ensure_not_multi_doc y content ≡ err e → Verdict content t 500
    no_object : (e : Error) → d.decode content ≡ err e → Verdict content t 500
    no_sealed_secret : d.decode content ≡ ok other_object → Verdict content t 500

  attempt_object-Verdict :
      (content : Bytes) (t : Controller w) (o : Object) (b : Bool)
      → ensure_not_multi_doc y content ≡ ok tt
      → d.decode content ≡ ok o
      → attempt_object c w d o t ≡ ok b
      → Verdict content t (if b then 200 else 409)
  unfolding attempt_unseal
  attempt_object-Verdict content t other_object b one got e = absurd (cc e)
  attempt_object-Verdict content t (sealed s) b one got e =
      elim (Outcome-cases (unseal p c t.accept_deprecated_v1_data s (private_keys w t.registry))) [
        | inl (secret, opened) ↦
            rw (sym (ok-injective (rw opened at e))) (valid s secret one got opened)
        | inr (inl (failure, closed)) ↦
            rw (sym (ok-injective (rw closed at e))) (invalid s failure one got closed)
        | inr (inr broken) ↦ absurd (cc (rw broken at e))
      ]

  no_error : (r : Outcome Secret) (e : Error) → unseals c w d r ≢ err e
  no_error (ok secret) e h = cc
  no_error (err failure) e h = cc
  no_error panic e h = cc

  attempt_object-err :
      (content : Bytes) (t : Controller w) (o : Object) (e : Error)
      → d.decode content ≡ ok o
      → attempt_object c w d o t ≡ err e
      → Verdict content t 500
  attempt_object-err content t other_object e got h = no_sealed_secret got
  attempt_object-err content t (sealed s) e got h = absurd (no_error _ e h)

  -- AttemptUnseal tells the two verdicts on a sealed secret apart; its errors are about other documents.
  attempt-Verdict :
      (content : Bytes) (t : Controller w) (b : Bool)
      → attempt_unseal_content c w d y content t ≡ ok b
      → Verdict content t (if b then 200 else 409)
  unfolding attempt_unseal_content
  attempt-Verdict content t b e =
      let (one, is_one, e1) = >>=-eq-ok (ensure_not_multi_doc y content) _ e in
      let (object, got, e2) = >>=-eq-ok (d.decode content) _ e1 in
      attempt_object-Verdict content t object b is_one got e2

  attempt-err :
      (content : Bytes) (t : Controller w) (e : Error)
      → attempt_unseal_content c w d y content t ≡ err e
      → Verdict content t 500
  unfolding attempt_unseal_content
  attempt-err content t e h = elim (Outcome-cases (ensure_not_multi_doc y content)) [
    | inl (one, is_one) ↦ elim (Outcome-cases (d.decode content)) [
      | inl (object, got) ↦ attempt_object-err content t object e got (rw (is_one, got) at h)
      | inr (inl (failure, bad)) ↦ no_object failure bad
      | inr (inr broken) ↦ absurd (cc (rw (is_one, broken) at h))
    ]
    | inr (inl (failure, many)) ↦ many_documents failure many
    | inr (inr broken) ↦ absurd (cc (rw broken at h))
  ]

  module _ (l : RateLimiter) where
    -- A request to /v1/verify whose body could be read and that the rate limiter lets through, if it is
    -- answered, is answered with a status, the headers that the limiter has set and no body, and leaves
    -- the controller as it is; the status is 200 only for one document with a sealed secret that the
    -- keys of the controller unseal, 409 only for one that they do not unseal, and 500 only for several
    -- documents, one that is not decoded, or one of another kind.
    pub serve-Verdict :
        (content : Bytes) (headers limits : Entries String) (t t' : Controller w) (s s' : l.Store)
        (reply : Response)
        → (l.limit (verify_request headers content) s).0 ≡ admitted limits
        → serve w c d y l (verify_request headers content) (t, s) ≡ (ok reply, (t', s'))
        → (code : ℕ) × Verdict content t code × (reply ≡ coded limits code) × (t' ≡ t)
    unfolding httpserver handle_verify
    serve-Verdict content headers limits t t' s s' reply let_through e =
        told (attempt_unseal_content c w d y content t) refl (rw let_through at e)
      where
        told :
            (a : Outcome Bool)
            → attempt_unseal_content c w d y content t ≡ a
            → ◌≡◌ {A = Outcome Response × (Controller w × l.Store)}
                (
                  verified
                      (pem_block w)
                      (cert_provider w)
                      (attempt_unseal_content c w d y)
                      (rotate c w d)
                      (record new_response { header = limits })
                      a,
                  (t, (l.limit (verify_request headers content) s).1),
                )
                (ok reply, (t', s'))
            → (code : ℕ) × Verdict content t code × (reply ≡ coded limits code) × (t' ≡ t)
        told (ok true) is_a e = (200, attempt-Verdict content t true is_a, cc, cc)
        told (ok false) is_a e = (409, attempt-Verdict content t false is_a, cc, cc)
        told (err failure) is_a e = (500, attempt-err content t failure is_a, cc, cc)
        told panic is_a e = absurd (cc e)
