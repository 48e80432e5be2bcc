-- ===== src/Server/Validation.antt =====
-- kubeseal --validate against the server of the controller: the client's answers are the server's replies.
use sealed_secrets.Base.{
  Each, ℕ, ◌≡◌, ◌≢◌, refl, sym, ap, ◌∙◌, subst, String, List, [], ◌∷◌, some, Outcome, ok, Bytes,
  ◌⊎◌, inl, inr, ok-injective, arith,
}
use sealed_secrets.Base.Action.{bind-eq-ok, lift, attempt}
use sealed_secrets.Base.GoMap.{Entries}
use sealed_secrets.Crypto.{Primitives}
use sealed_secrets.Sealed.{Secret, SealedSecret, Codecs}
use sealed_secrets.Sealed.Unseal.{unseal}
use sealed_secrets.World.{World, sealed}
use sealed_secrets.Multidoc.{YamlPackage, ensure_not_multi_doc}
use sealed_secrets.Registry.{private_keys}
use sealed_secrets.Controller.{Controller}
use sealed_secrets.Controller.Rotate.{Documents}
use sealed_secrets.Server.{Request, Response, Admission, admitted, denied, RateLimiter, httpserver}
use sealed_secrets.Server.Service.{serve}
use sealed_secrets.Server.Replies.{
  Verdict, valid, invalid, many_documents, no_object, no_sealed_secret, verify_request,
  serve-Verdict,
}
use sealed_secrets.Kubeseal.{Reader, Serializers}
use sealed_secrets.Kubeseal.Cluster.{
  Answer, answered, conflict, refused, ClusterClient, get_service_port_name,
}
use sealed_secrets.Kubeseal.Documents.{DocumentDecoder, read_sealed_secrets}
use sealed_secrets.Kubeseal.Remote.{
  connected, sent, validity, validate_one, validate_all, validate_sealed_secret,
}

module _ {p : Primitives} (c : Codecs) (w : World p) (d : Documents) (y : YamlPackage)
    (l : RateLimiter) where
  abbrev pub Site : Type 0
  Site = Controller w × l.Store

  -- The keys of the controller unseal a sealed secret.
  abbrev pub Unseals : Controller w → SealedSecret → Type 0
  Unseals t s =
      (secret : Secret) × (unseal p c t.accept_deprecated_v1_data s (private_keys w t.registry)
        ≡ ok secret)

  -- The controller decodes what kubeseal makes of a sealed secret, as one document.
  abbrev pub Encoded : Serializers → SealedSecret → Type 0
  Encoded k s =
      (content : Bytes) × (k.marshal s ≡ ok content)
      × (ensure_not_multi_doc y content ≡ ok tt)
      × (d.decode content ≡ ok (sealed s))

  -- The limiter lets a request through, or answers it with another status than success.
  abbrev pub IsLimiting : Type 0
  IsLimiting =
      (r : Request) (s : l.Store) (reply : Response)
      → (l.limit r s).0 ≡ denied reply
      → reply.status ≢ some 200

  -- The proxy of the API: a request is the server's to answer, a reply with the status 200 is a success, one with
  -- the status 409 a StatusError with that code, and any other one, or none, another error.
  pub record IsProxy (net : ClusterClient Site) : Type 0 where
    pub headers : Entries String
    pub keeps :
        (client : net.RestClient) (ns name : String) (t : Site)
        → (net.get_service client ns name t).1 ≡ t
    pub reaches :
        (to : net.RestClient × String) (ns name : String) (content : Bytes) (t : Site)
        → (sent net ns name "/v1/verify" to content t).1
          ≡ (serve w c d y l (verify_request headers content) t).1
    pub succeeds :
        (to : net.RestClient × String) (ns name : String) (content raw : Bytes) (t t' : Site)
        (reply : Response)
        → serve w c d y l (verify_request headers content) t ≡ (ok reply, t')
        → reply.status ≡ some 200
        → (r : Outcome Bytes) × (sent net ns name "/v1/verify" to content t ≡ (answered r, t'))
    pub only_success :
        (to : net.RestClient × String) (ns name : String) (content : Bytes) (t : Site)
        (r : Outcome Bytes)
        → (sent net ns name "/v1/verify" to content t).0 ≡ answered r
        → (reply : Response) × ((serve w c d y l (verify_request headers content) t).0 ≡ ok reply)
          × (reply.status ≡ some 200)

  Admission-cases :
      (a : Admission)
      → ((limits : Entries String) × (a ≡ admitted limits))
        ⊎ ((reply : Response) × (a ≡ denied reply))
  Admission-cases (admitted limits) = inl (limits, refl)
  Admission-cases (denied reply) = inr (reply, refl)

  sealed-injective : (s s' : SealedSecret) → sealed s ≡ sealed s' → s ≡ s'
  sealed-injective s s' e = cc

  some-injective : (a b : ℕ) → some a ≡ some b → a ≡ b
  some-injective a b e = cc

  Verdict-Unseals :
      (content : Bytes) (t : Controller w) (s : SealedSecret) (code : ℕ)
      → d.decode content ≡ ok (sealed s)
      → Verdict c w d y content t code
      → code ≡ 200
      → Unseals t s
  Verdict-Unseals content t s code got (valid s' secret one got' opened) e =
      let same : s' ≡ s = sealed-injective s' s (ok-injective (sym got' ∙ got)) in
      (
        secret,
        subst
            (λ x. unseal p c t.accept_deprecated_v1_data x (private_keys w t.registry) ≡ ok secret)
            same opened,
      )
  Verdict-Unseals content t s code got (invalid s' failure one got' closed) e = absurd (omega arith)
  Verdict-Unseals content t s code got (many_documents failure many) e = absurd (omega arith)
  Verdict-Unseals content t s code got (no_object failure bad) e = absurd (omega arith)
  Verdict-Unseals content t s code got (no_sealed_secret other) e = absurd (omega arith)

  -- A reply with the status 200 to /v1/verify tells that the keys unseal the sealed secret.
  served-Unseals :
      (headers : Entries String) (content : Bytes) (t : Site) (s : SealedSecret) (reply : Response)
      → IsLimiting
      → d.decode content ≡ ok (sealed s)
      → (serve w c d y l (verify_request headers content) t).0 ≡ ok reply
      → reply.status ≡ some 200
      → Unseals t.0 s
  unfolding httpserver
  served-Unseals headers content t s reply limiting got e status =
      elim (Admission-cases (l.limit (verify_request headers content) t.1).0) [
        | inl (limits, let_through) ↦
            let served = serve w c d y l (verify_request headers content) t in
            let (code, verdict, said, kept) =
              serve-Verdict c w d y l content headers limits t.0 served.1.0 t.1 served.1.1 reply
                let_through (ap (λ o. (o, served.1)) e) in
            Verdict-Unseals content t.0 s code got verdict
              (some-injective _ _ (sym (ap (λ (x : Response). x.status) said) ∙ status))
        | inr (reply', is_denied) ↦ absurd (
            limiting _ _ reply' is_denied
              (ap (λ (x : Response). x.status) (ok-injective (rw is_denied at e)) ∙ status))
      ]

  -- A request for a verdict leaves the controller as it is.
  pub serve-Kept :
      (headers : Entries String) (content : Bytes) (t : Site)
      → (serve w c d y l (verify_request headers content) t).1.0 ≡ t.0
  unfolding httpserver
  serve-Kept headers content t = refl

  module _ (limiting : IsLimiting) (net : ClusterClient Site) (proxy : IsProxy net)
      (k : Serializers) (ns name : String) where
    answered-Unseals :
        (to : net.RestClient × String) (secret : SealedSecret) (content : Bytes) (t : Site)
        (answer : Answer)
        → d.decode content ≡ ok (sealed secret)
        → (sent net ns name "/v1/verify" to content t).0 ≡ answer
        → validity net ns name k secret answer ≡ ok tt
        → Unseals t.0 secret
    answered-Unseals to secret content t (answered raw) got is_answer e =
        let (reply, served, status) = proxy.only_success to ns name content t raw is_answer in
        served-Unseals proxy.headers content t secret reply limiting got served status
    answered-Unseals to secret content t (conflict failure) got is_answer e = absurd (cc e)
    answered-Unseals to secret content t (refused failure) got is_answer e = absurd (cc e)

    validate_one-Unseals :
        (to : net.RestClient × String) (secret : SealedSecret) (t t' : Site)
        → Encoded k secret
        → validate_one net ns name k to secret t ≡ (ok tt, t')
        → Unseals t.0 secret × (t'.0 ≡ t.0)
    unfolding validate_one
    validate_one-Unseals to secret t t' (content, made, one, got) e =
        let e' = rw (made, validate_one) at e in
        (
          answered-Unseals to secret content t _ got refl (ap (λ x. x.0) e'),
          sym (ap (λ x. x.1.0) e')
              ∙ ap (λ x. x.0) (proxy.reaches to ns name content t)
              ∙ serve-Kept proxy.headers content t,
        )

    validate_all-Unseals :
        (to : net.RestClient × String) (secrets : List SealedSecret) (t t' : Site)
        → Each (Encoded k) secrets
        → validate_all net ns name k to secrets t ≡ (ok tt, t')
        → Each (Unseals t.0) secrets
    unfolding validate_all
    validate_all-Unseals to [] t t' encoded e = tt
    validate_all-Unseals to (secret ∷ secrets) t t' (first, others) e =
        let (done, u, e1, e2) = bind-eq-ok (validate_one net ns name k to secret) _ t e in
        let (opened, same) = validate_one-Unseals to secret t u first e1 in
        (
          opened,
          subst (λ v. Each (Unseals v) secrets) same
              (validate_all-Unseals to secrets u t' others e2),
        )

    connected-Kept :
        (to : net.RestClient × String) (t u : Site)
        → connected net ns name t ≡ (ok to, u)
        → u.0 ≡ t.0
    unfolding get_service_port_name attempt
    connected-Kept to t u e =
        let (conf, t1, a1, e1) = bind-eq-ok (lift net.client_config) _ t e in
        let (client, t2, a2, e2) = bind-eq-ok (lift (net.new_for_config conf)) _ t1 e1 in
        let (port, t3, a3, e3) = bind-eq-ok (get_service_port_name net client ns name) _ t2 e2 in
        ap (λ (x : Site). x.0)
          (sym (ap (λ x. x.1) e3)
            ∙ sym (ap (λ x. x.1) a3)
            ∙ proxy.keeps client ns name t2
            ∙ sym (ap (λ x. x.1) a2)
            ∙ sym (ap (λ x. x.1) a1))

    -- With a proxy of the API that hands requests to the controller's server and reports success only
    -- for a reply with the status 200, and a rate limiter that never answers with that status itself:
    -- when ValidateSealedSecret succeeds on a list of sealed secrets that the controller decodes from
    -- what json.Marshal makes of them, each of them is unsealed by the keys of the controller.
    pub validate_sealed_secret-Unseals :
        (z : DocumentDecoder SealedSecret) (fuel : ℕ) (in_ : Reader) (secrets : List SealedSecret)
        (t t' : Site)
        → read_sealed_secrets z fuel in_ ≡ some (ok secrets)
        → Each (Encoded k) secrets
        → validate_sealed_secret net ns name k z fuel in_ t ≡ some (ok tt, t')
        → Each (Unseals t.0) secrets
    unfolding validate_sealed_secret
    validate_sealed_secret-Unseals z fuel in_ secrets t t' got encoded e =
        let e' = run-injective (rw (got, validate_sealed_secret) at e) in
        let (to, u, e1, e2) = bind-eq-ok (connected net ns name) _ t e' in
        subst (λ v. Each (Unseals v) secrets) (connected-Kept to t u e1)
          (validate_all-Unseals to secrets u t' encoded e2)
      where
        run-injective : {a b : Outcome (Unit {0}) × Site} → some a ≡ some b → a ≡ b
        run-injective h = cc
