-- ===== src/Examples/Renewal.antt =====
-- A cluster at rest, and a sealed secret that is sealed again by the server of the toy controller.
use sealed_secrets.Base.{
  ℕ, ◌≡◌, refl, ap, true, false, [], ◌∷◌, Option, none, some, err, Outcome, ok, panic, Bytes,
  bytes_of, utf8, eqb,
}
use sealed_secrets.Base.GoMap.{entries, get, insert, lookup, without}
use sealed_secrets.Scope.{
  encryption_label, secret_scope, update_scope_annotations, delete_all,
  strip_last_applied_annotations,
}
use sealed_secrets.Crypto.{put_uint16, uint16}
use sealed_secrets.Crypto.Encrypt.{hybrid_encrypt}
use sealed_secrets.Crypto.Decrypt.{open_parts, single_decrypt, hybrid_decrypt}
use sealed_secrets.Sealed.Seal.{new_sealed_secret}
use sealed_secrets.Sealed.Unseal.{
  unseal, decrypt_items, render_items, without_errors, decrypt_item, place,
}
use sealed_secrets.World.{World}
use sealed_secrets.Registry.{Key, KeyRegistry, private_keys, latest_private_key}
use sealed_secrets.Controller.{Controller}
use sealed_secrets.Controller.Desired.{desired_secret, replaced}
use sealed_secrets.Controller.Reconcile.{reconcile, attempt_unseal}
use sealed_secrets.Controller.Convergence.{IsSemantic, rested, reconcile_twice}
use sealed_secrets.Examples.Toy.{toy, toy_codecs, key_a}
use sealed_secrets.Examples.ToyWorld.{toy_world}
use sealed_secrets.Examples.Sealing.{a_sealed_secret, opened_secret}
use sealed_secrets.Examples.Keys.{one_key, one_key-IsHeld}
use sealed_secrets.Base.{Bool-cases, inl, inr, ok-injective, sym, ◌∙◌, subst}
use sealed_secrets.Base.Action.{attempt}
use sealed_secrets.Base.GoMap.{IsTable}
use sealed_secrets.Sealed.{Secret}
use sealed_secrets.Examples.Toy.{toy-IsCorrect, toy-IsTotal, toy-IsBinding, toy_codecs-IsBase64}
use sealed_secrets.Examples.Cluster.{toy_controller, aligned_secret, unseal-aligned, rotated_secret}
use sealed_secrets.Examples.Client.{toy_serializers}
use sealed_secrets.Examples.Requests.{
  sealed_documents, one_document, no_limit, ToySite, toy_client, answer_with, answer_of,
  answer_with-answered,
}
use sealed_secrets.Controller.Rotate.{aligned, reseal, rotate}
use sealed_secrets.Server.{Response, handle_rotate, httpserver}
use sealed_secrets.Server.Rotation.{IsRotationProxy}
use sealed_secrets.Server.Renewal.{Agree, IsRenewed, re_encrypt_one-IsRenewed}
use sealed_secrets.Kubeseal.{Serializers, Session}
use sealed_secrets.Kubeseal.Cluster.{Answer, answered}
use sealed_secrets.Kubeseal.Output.{
  equals_lowered, pretty_encoder, resource_output, sealed_secret_output,
}
use sealed_secrets.Kubeseal.Remote.{re_encrypt_one}

-- A cluster that holds the opened secret already.
abbrev resting_world : World toy
resting_world = record toy_world {
  get_secret = λ ns name s. (ok opened_secret, s);
  is_controlled_by = λ secret ssecret. true;
  semantic_equal = λ secret secret'. true;
}

abbrev resting_key : Key resting_world
resting_key = record { private = key_a; cert = 5; fingerprint = "a"; ordering_time = 5 }

abbrev resting_registry : KeyRegistry resting_world
resting_registry = record {
  namespace = one_key.namespace;
  key_prefix = one_key.key_prefix;
  key_label = one_key.key_label;
  keysize = one_key.keysize;
  keys = ("a", resting_key) ∷ [];
  most_recent_key = some resting_key;
}

abbrev resting : Controller resting_world
resting = record {
  registry = resting_registry;
  world = 9;
  old_gc_behavior = false;
  update_status = true;
  accept_deprecated_v1_data = false;
  events = [];
  unseal_requests_total = 0;
  unseal_errors_total = [];
  condition_info = [];
}

-- The cluster compares every two secrets as equal.
resting_world-IsSemantic : IsSemantic toy_codecs resting_world
resting_world-IsSemantic = record { same_equal = λ a b h. refl }

opens :
    unseal toy toy_codecs false a_sealed_secret (private_keys resting_world resting_registry)
    ≡ ok opened_secret
unfolding unseal decrypt_items render_items without_errors decrypt_item hybrid_decrypt
    single_decrypt uint16 open_parts place get lookup insert bytes_of utf8 encryption_label
    secret_scope update_scope_annotations delete_all without strip_last_applied_annotations
opens = refl

settles : desired_secret opened_secret opened_secret ≡ ok opened_secret
unfolding desired_secret replaced get lookup
settles = refl

reconcile_twice_example :
    reconcile toy_codecs resting_world "n/s" a_sealed_secret resting
    ≡ (ok tt, rested toy_codecs resting_world resting 9)
unfolding lookup
reconcile_twice_example =
    reconcile_twice toy_codecs resting_world "n/s" a_sealed_secret resting opened_secret
      opened_secret opened_secret 9 resting_world-IsSemantic opens (refl, (refl, tt)) tt tt settles
      (λ h. h) refl refl

-- The serializers of a kubeseal that reads what the server has made.
abbrev rotating_serializers : Serializers
rotating_serializers = record toy_serializers { unmarshal = λ b. ok rotated_secret }

answer_with-body :
    (status : Option ℕ) (body : Bytes) (raw : Outcome Bytes)
    → answer_with status body ≡ answered raw
    → raw ≡ ok body
answer_with-body none body raw e = absurd (cc e)
answer_with-body (some code) body raw e = elim (Bool-cases (eqb code 200)) [
  | inl is_ok ↦ cc (rw is_ok at e)
  | inr other ↦ elim (Bool-cases (eqb code 409)) [
    | inl taken ↦ absurd (cc (rw (other, taken) at e))
    | inr failed ↦ absurd (cc (rw (other, failed) at e))
  ]
]

passed_on :
    (x : Outcome Response × ToySite) (t' : ToySite) (raw : Outcome Bytes)
    → ◌≡◌ {A = Answer × ToySite} (answer_of x.0, x.1) (answered raw, t')
    → (r : Response) × (x ≡ (ok r, t')) × (r.status ≡ some 200) × (raw ≡ ok r.body)
passed_on (ok r, t) t' raw e =
    let e0 : answer_with r.status r.body ≡ answered raw = ap (λ y. y.0) e in
    (
      r,
      ap (λ u. (ok r, u)) (ap (λ y. y.1) e),
      answer_with-answered r.status r.body raw e0,
      answer_with-body r.status r.body raw e0,
    )
passed_on (err failure, t) t' raw e = absurd (cc e)
passed_on (panic, t) t' raw e = absurd (cc e)

toy_client-IsRotationProxy :
    IsRotationProxy toy_codecs toy_world sealed_documents one_document no_limit toy_client
toy_client-IsRotationProxy = record {
  headers = [];
  only_success = λ to ns name content t t' raw e. passed_on _ t' raw e;
}

makes :
    reseal toy_codecs toy_world sealed_documents a_sealed_secret toy_controller
    ≡ (ok rotated_secret, toy_controller)
unfolding reseal attempt_unseal latest_private_key aligned new_sealed_secret hybrid_encrypt
    put_uint16 unseal decrypt_items render_items without_errors decrypt_item hybrid_decrypt
    single_decrypt uint16 open_parts place get lookup insert bytes_of utf8 encryption_label
    secret_scope update_scope_annotations delete_all without strip_last_applied_annotations
makes = refl

agrees :
    Agree toy_codecs toy_world sealed_documents one_document no_limit toy_client
      toy_client-IsRotationProxy rotating_serializers "n" "c" "json" toy_controller a_sealed_secret
agrees = record {
  content = [];
  marshalled = refl;
  decoded = refl;
  returned = λ made b e e'. cc (rw makes at e);
}

is_aligned :
    (old : Secret)
    → unseal toy toy_codecs false
        (aligned sealed_documents a_sealed_secret)
        (private_keys toy_world one_key)
      ≡ ok old
    → aligned_secret ≡ old
unfolding aligned
is_aligned old e = ok-injective (sym unseal-aligned ∙ e)

tables :
    (old : Secret)
    → unseal toy toy_codecs false
        (aligned sealed_documents a_sealed_secret)
        (private_keys toy_world one_key)
      ≡ ok old
    → IsTable (entries old.secret_data) × IsTable (entries old.string_data)
unfolding lookup
tables old e =
    subst (λ v. IsTable (entries v.secret_data) × IsTable (entries v.string_data))
      (is_aligned old e) ((refl, (refl, tt)), tt)

abbrev empty_session : Session toy
empty_session = record { random = tt; out = [] }

abbrev full_session : Session toy
full_session = record { random = tt; out = 7 ∷ 10 ∷ [] }

re_encrypt_example :
    re_encrypt_one toy_client "n" "c" rotating_serializers toy "json"
      (tt, "http")
      a_sealed_secret
      ((toy_controller, tt), empty_session)
    ≡ (ok tt, ((toy_controller, tt), full_session))
unfolding re_encrypt_one handle_rotate httpserver rotate sealed_secret_output resource_output
    pretty_encoder equals_lowered bytes_of utf8 attempt
re_encrypt_example = rw makes refl

re_encrypt_one-IsRenewed_example :
    IsRenewed toy_codecs toy_world sealed_documents one_document no_limit toy_client
      toy_client-IsRotationProxy rotating_serializers "n" "c" "json" a_sealed_secret a_sealed_secret
      false toy_controller empty_session full_session
re_encrypt_one-IsRenewed_example =
    re_encrypt_one-IsRenewed toy_codecs toy_world sealed_documents one_document no_limit toy_client
      toy_client-IsRotationProxy rotating_serializers "n" "c" "json" toy-IsCorrect toy-IsTotal
      toy-IsBinding toy_codecs-IsBase64 (tt, "http") a_sealed_secret a_sealed_secret false
      (toy_controller, tt) (toy_controller, tt) empty_session full_session agrees one_key-IsHeld
      tables re_encrypt_example
