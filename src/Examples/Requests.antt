-- ===== src/Examples/Requests.antt =====
-- Requests to the server of the toy controller, and kubeseal --validate against it.
use sealed_secrets.Base.{
  ℕ, ◌≡◌, refl, ap, String, Bool, true, false, [], ◌∷◌, Option, none, some, err, external, Outcome,
  ok, panic, Bytes, bytes_of, utf8, eqb, ◌==◌, if◌then◌else◌, Bool-cases, inl, inr, Each, arith,
}
use sealed_secrets.Base.Action.{attempt}
use sealed_secrets.Base.GoMap.{Entries, get, insert, lookup, without}
use sealed_secrets.Scope.{
  encryption_label, secret_scope, update_scope_annotations, delete_all,
  strip_last_applied_annotations,
}
use sealed_secrets.Crypto.{put_uint16, uint16}
use sealed_secrets.Crypto.Encrypt.{hybrid_encrypt}
use sealed_secrets.Crypto.Decrypt.{open_parts, single_decrypt, hybrid_decrypt}
use sealed_secrets.Sealed.{SealedSecret}
use sealed_secrets.Sealed.Seal.{new_sealed_secret}
use sealed_secrets.Sealed.Unseal.{
  unseal, decrypt_items, render_items, without_errors, decrypt_item, place,
}
use sealed_secrets.World.{sealed}
use sealed_secrets.Multidoc.{YamlPackage, is_multi_document_yaml, ensure_not_multi_doc}
use sealed_secrets.Registry.{private_keys, latest_private_key}
use sealed_secrets.Controller.Reconcile.{attempt_unseal}
use sealed_secrets.Controller.Rotate.{Documents, aligned, reseal, rotate, attempt_unseal_content}
use sealed_secrets.Server.{
  Request, Response, RateLimiter, admitted, handle_verify, handle_rotate, httpserver,
}
use sealed_secrets.Server.Service.{pem_block, cert_provider, serve}
use sealed_secrets.Server.Replies.{Verdict, verify_request, coded, serve-Verdict}
use sealed_secrets.Server.Changes.{IsDrawn, serve-IsDrawn}
use sealed_secrets.Server.Validation.{
  Site, Unseals, Encoded, IsProxy, validate_sealed_secret-Unseals,
}
use sealed_secrets.Server.Acceptance.{validate_sealed_secret-Unseals_total}
use sealed_secrets.Kubeseal.Cluster.{
  Answer, answered, conflict, refused, ClusterClient, get_service_port_name,
}
use sealed_secrets.Kubeseal.Documents.{
  DocumentDecoder, decoded, end_of_file, read_documents, read_sealed_secrets,
}
use sealed_secrets.Kubeseal.Remote.{validate_one, validate_all, validate_sealed_secret}
use sealed_secrets.Examples.Toy.{toy, toy_codecs}
use sealed_secrets.Examples.ToyWorld.{toy_world}
use sealed_secrets.Examples.Sealing.{a_sealed_secret, opened_secret}
use sealed_secrets.Examples.Keys.{one_key}
use sealed_secrets.Examples.Cluster.{toy_controller, toy_documents}
use sealed_secrets.Examples.Client.{toy_serializers}

-- Every content is the same sealed secret, in one document.
abbrev pub sealed_documents : Documents
sealed_documents = record toy_documents { decode = λ content. ok (sealed a_sealed_secret) }

abbrev pub one_document : YamlPackage
one_document = record {
  Decoder = Unit;
  new_decoder = λ content. tt;
  decode = λ dec. (err (external "EOF"), dec);
}

abbrev pub limits : Entries String
limits = ("X-RateLimit-Limit", "2") ∷ []

abbrev pub no_limit : RateLimiter
no_limit = record { Store = Unit; limit = λ r s. (admitted limits, s) }

unseals :
    unseal toy toy_codecs false a_sealed_secret (private_keys toy_world one_key) ≡ ok opened_secret
unfolding unseal decrypt_items render_items without_errors decrypt_item hybrid_decrypt
    single_decrypt uint16 open_parts place get lookup insert bytes_of utf8 encryption_label
    secret_scope update_scope_annotations delete_all without strip_last_applied_annotations
unseals = refl

serve_example :
    serve toy_world toy_codecs sealed_documents one_document no_limit
      (verify_request [] [])
      (toy_controller, tt)
    ≡ (ok (coded limits 200), (toy_controller, tt))
unfolding httpserver handle_verify attempt_unseal_content attempt_unseal ensure_not_multi_doc
    is_multi_document_yaml
serve_example = rw unseals refl

serve-Verdict_example :
    (code : ℕ) × Verdict toy_codecs toy_world sealed_documents one_document [] toy_controller code
    × (coded limits 200 ≡ coded limits code)
    × (toy_controller ≡ toy_controller)
serve-Verdict_example =
    serve-Verdict toy_codecs toy_world sealed_documents one_document no_limit [] [] limits
      toy_controller toy_controller tt tt (coded limits 200) refl serve_example

abbrev rotate_request : Request
rotate_request = record { path = "/v1/rotate"; headers = []; body = ok [] }

serve-IsDrawn_example :
    IsDrawn toy_codecs toy_world sealed_documents one_document toy_controller
      (serve toy_world toy_codecs sealed_documents one_document no_limit rotate_request
        (toy_controller, tt)).1.0
serve-IsDrawn_example =
    serve-IsDrawn toy_codecs toy_world sealed_documents one_document no_limit rotate_request
      toy_controller tt

abbrev rotate_reply : Response
rotate_reply = record {
  status = some 200;
  header = ("Content-Type", "application/json") ∷ [];
  sent = [];
  body = [];
}

handle_rotate_example :
    handle_rotate
      (pem_block toy_world)
      (cert_provider toy_world)
      (attempt_unseal_content toy_codecs toy_world sealed_documents one_document)
      (rotate toy_codecs toy_world sealed_documents)
      rotate_request
      toy_controller
    ≡ (ok rotate_reply, toy_controller)
unfolding handle_rotate rotate reseal attempt_unseal latest_private_key aligned new_sealed_secret
    hybrid_encrypt put_uint16 unseal decrypt_items render_items without_errors decrypt_item
    hybrid_decrypt single_decrypt uint16 open_parts place get lookup insert bytes_of utf8
    encryption_label secret_scope update_scope_annotations delete_all without
    strip_last_applied_annotations
handle_rotate_example = refl

abbrev pub ToySite : Type 0
ToySite = Site toy_codecs toy_world sealed_documents one_document no_limit

abbrev pub answer_with : Option ℕ → Bytes → Answer
answer_with none body = refused (external "no status")
answer_with (some code) body =
    if eqb code 200
    then answered (ok body)
    else if eqb code 409
    then conflict (external "conflict")
    else refused (external "another status")

abbrev pub answer_of : Outcome Response → Answer
answer_of (ok reply) = answer_with reply.status reply.body
answer_of (err e) = refused e
answer_of panic = refused (external "EOF")

-- The proxy hands a request to the server.
abbrev toy_post : String → Bytes → ToySite → Answer × ToySite
toy_post suffix content t =
    let (reply, t') =
      serve toy_world toy_codecs sealed_documents one_document no_limit
        (record { path = suffix; headers = []; body = ok content }) t in
    (answer_of reply, t')

abbrev pub toy_client : ClusterClient ToySite
toy_client = record {
  Config = Unit;
  RestClient = Unit;
  client_config = ok tt;
  accepting = λ types conf. conf;
  new_for_config = λ conf. ok tt;
  get_service = λ client ns name t. (ok ("http" ∷ []), t);
  proxy_get = λ client ns address path t. (ok (ok []), t);
  post = λ client ns address suffix content t. toy_post suffix content t;
  open_file = λ name t. (ok (ok []), t);
  http_get = λ uri t. (err (external "no route"), t);
  parse_url = λ uri. ok "";
}

pub answer_with-answered :
    (status : Option ℕ) (body : Bytes) (raw : Outcome Bytes)
    → answer_with status body ≡ answered raw
    → status ≡ some 200
answer_with-answered none body raw e = absurd (cc e)
answer_with-answered (some code) body raw e = elim (Bool-cases (eqb code 200)) [
  | inl is_ok ↦ ap (λ n. some n) (ground arith)
  | inr other ↦ elim (Bool-cases (eqb code 409)) [
    | inl taken ↦ absurd (cc (rw (other, taken) at e))
    | inr failed ↦ absurd (cc (rw (other, failed) at e))
  ]
]

answer_of-answered :
    (reply : Outcome Response) (raw : Outcome Bytes)
    → answer_of reply ≡ answered raw
    → (r : Response) × (reply ≡ ok r) × (r.status ≡ some 200)
answer_of-answered (ok r) raw e = (r, refl, answer_with-answered r.status r.body raw e)
answer_of-answered (err failure) raw e = absurd (cc e)
answer_of-answered panic raw e = absurd (cc e)

toy_client-IsProxy : IsProxy toy_codecs toy_world sealed_documents one_document no_limit toy_client
toy_client-IsProxy = record {
  headers = [];
  keeps = λ client ns name t. refl;
  reaches = λ to ns name content t. refl;
  succeeds = λ to ns name content raw t t' reply e status. (ok reply.body, rw (e, status) refl);
  only_success = λ to ns name content t r e. answer_of-answered _ r e;
}

abbrev nameless : SealedSecret
nameless = record a_sealed_secret { meta = record a_sealed_secret.meta { name = "" } }

-- One sealed secret, and the end of the file.
abbrev sealed_docs : DocumentDecoder SealedSecret
sealed_docs = record {
  Decoder = Bool;
  new_decoder = λ r. true;
  next = λ dec. if dec then (a_sealed_secret, decoded, false) else (nameless, end_of_file, false);
  is_empty = λ s. s.meta.name == "";
}

sealed_docs_example : read_sealed_secrets sealed_docs 2 (ok []) ≡ some (ok (a_sealed_secret ∷ []))
unfolding read_sealed_secrets read_documents
sealed_docs_example = refl

encoded :
    Encoded toy_codecs toy_world sealed_documents one_document no_limit toy_serializers
      a_sealed_secret
unfolding ensure_not_multi_doc is_multi_document_yaml
encoded = ([], refl, refl, refl)

validate_sealed_secret-Unseals_total_example :
    (t' : ToySite) × (validate_sealed_secret toy_client "n" "c" toy_serializers sealed_docs 2
        (ok [])
        (toy_controller, tt)
      ≡ some (ok tt, t'))
validate_sealed_secret-Unseals_total_example =
    validate_sealed_secret-Unseals_total toy_codecs toy_world sealed_documents one_document no_limit
      (λ r s. (limits, refl)) toy_client toy_client-IsProxy toy_serializers "n" "c" sealed_docs 2
      (ok []) (a_sealed_secret ∷ []) (toy_controller, tt) tt tt "http" [] refl refl refl
      sealed_docs_example (encoded, tt) ((opened_secret, unseals), tt)

validate_example :
    validate_sealed_secret toy_client "n" "c" toy_serializers sealed_docs 2
      (ok [])
      (toy_controller, tt)
    ≡ some (ok tt, (toy_controller, tt))
unfolding validate_sealed_secret validate_all validate_one get_service_port_name read_sealed_secrets
    read_documents httpserver handle_verify attempt_unseal_content attempt_unseal
    ensure_not_multi_doc is_multi_document_yaml unseal decrypt_items render_items without_errors
    decrypt_item hybrid_decrypt single_decrypt uint16 open_parts place get lookup insert bytes_of
    utf8 encryption_label secret_scope update_scope_annotations delete_all without
    strip_last_applied_annotations attempt
validate_example = refl

validate_sealed_secret-Unseals_example :
    Each
      (Unseals toy_codecs toy_world sealed_documents one_document no_limit toy_controller)
      (a_sealed_secret ∷ [])
validate_sealed_secret-Unseals_example =
    validate_sealed_secret-Unseals toy_codecs toy_world sealed_documents one_document no_limit
      (λ r s reply h. absurd (cc h)) toy_client toy_client-IsProxy toy_serializers "n" "c"
      sealed_docs 2 (ok []) (a_sealed_secret ∷ []) (toy_controller, tt) (toy_controller, tt)
      sealed_docs_example (encoded, tt) validate_example
