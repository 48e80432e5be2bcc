-- ===== src/Examples/Delivery.antt =====
-- A secret on its way from kubeseal into a cluster that does not have it yet.
use sealed_secrets.Base.{
  ◌≡◌, refl, ap, Bool, true, false, List, [], ◌∷◌, some, not_found, ok, inl, bytes_of, utf8,
}
use sealed_secrets.Base.GoMap.{get, insert, lookup, without}
use sealed_secrets.Scope.{
  encryption_label, secret_scope, update_scope_annotations, delete_all,
  strip_last_applied_annotations,
}
use sealed_secrets.Crypto.{uint16}
use sealed_secrets.Crypto.Decrypt.{open_parts, single_decrypt, hybrid_decrypt}
use sealed_secrets.Sealed.{OwnerReference}
use sealed_secrets.Sealed.Unseal.{
  unseal, decrypt_items, render_items, without_errors, decrypt_item, place,
}
use sealed_secrets.World.{World}
use sealed_secrets.Registry.{Key, KeyRegistry, private_keys}
use sealed_secrets.Controller.{Controller}
use sealed_secrets.Controller.Reconcile.{reconcile}
use sealed_secrets.Controller.Convergence.{IsSemantic, rested}
use sealed_secrets.Controller.Fresh.{IsOwnership, skips_owner, reconcile-absent}
use sealed_secrets.Kubeseal.Prepare.{prepare, with_namespace}
use sealed_secrets.Delivery.{IsVacant, IsArrived, seal_secret-IsArrived}
use sealed_secrets.Examples.Toy.{
  key_a, toy, toy_codecs, toy-IsCorrect, toy-IsTotal, toy-IsBinding, toy_codecs-IsBase64,
}
use sealed_secrets.Examples.ToyWorld.{toy_world}
use sealed_secrets.Examples.Sealing.{a_secret, a_sealed_secret, opened_secret}
use sealed_secrets.Examples.Keys.{one_key}
use sealed_secrets.Examples.Client.{
  toy_serializers, no_overrides, toy_namespace, toy_session, written_session, seal_secret_example,
}

abbrev has_owner : List OwnerReference → Bool
has_owner [] = false
has_owner (_ ∷ _) = true

-- A cluster without the secret, where an owner is a controller.
abbrev vacant_world : World toy
vacant_world = record toy_world {
  is_controlled_by = λ secret ssecret. has_owner secret.meta.owner_references;
  semantic_equal = λ secret secret'. true;
}

abbrev vacant_key : Key vacant_world
vacant_key = record { private = key_a; cert = 5; fingerprint = "a"; ordering_time = 5 }

abbrev vacant_registry : KeyRegistry vacant_world
vacant_registry = record {
  namespace = one_key.namespace;
  key_prefix = one_key.key_prefix;
  key_label = one_key.key_label;
  keysize = one_key.keysize;
  keys = ("a", vacant_key) ∷ [];
  most_recent_key = some vacant_key;
}

abbrev waiting : Controller vacant_world
waiting = record {
  registry = vacant_registry;
  world = 9;
  old_gc_behavior = false;
  update_status = true;
  accept_deprecated_v1_data = false;
  events = [];
  unseal_requests_total = 0;
  unseal_errors_total = [];
  condition_info = [];
}

vacant_world-IsSemantic : IsSemantic toy_codecs vacant_world
vacant_world-IsSemantic = record { same_equal = λ a b h. refl }

vacant_world-IsOwnership : IsOwnership toy_codecs vacant_world
vacant_world-IsOwnership = record {
  controlled = λ secret ssecret h. ap has_owner h;
  uncontrolled = λ secret ssecret h. ap has_owner h;
}

vacant : IsVacant toy_codecs vacant_world "n" "s" 9
vacant = record {
  failure = not_found "no such secret";
  world = 9;
  is_missing = refl;
  is_read = refl;
  creates = λ asked. (asked, 9, refl, refl);
}

opens :
    unseal toy toy_codecs false a_sealed_secret (private_keys vacant_world vacant_registry)
    ≡ ok opened_secret
unfolding unseal decrypt_items render_items without_errors decrypt_item hybrid_decrypt
    single_decrypt uint16 open_parts place get lookup insert bytes_of utf8 encryption_label
    secret_scope update_scope_annotations delete_all without strip_last_applied_annotations
opens = refl

owns : skips_owner a_sealed_secret ≡ false
unfolding get lookup delete_all without strip_last_applied_annotations
owns = refl

reconcile-absent_example :
    reconcile toy_codecs vacant_world "n/s" a_sealed_secret waiting
    ≡ (ok tt, rested toy_codecs vacant_world waiting 9)
unfolding get lookup delete_all without strip_last_applied_annotations
reconcile-absent_example =
    reconcile-absent toy_codecs vacant_world "n/s" a_sealed_secret waiting opened_secret
      opened_secret (not_found "no such secret") 9 9 vacant_world-IsSemantic
      vacant_world-IsOwnership opens (refl, (refl, tt)) tt tt (λ e. absurd (cc (owns, e))) refl refl
      refl refl

prepares : prepare no_overrides toy_namespace a_secret ≡ ok a_secret
unfolding prepare with_namespace secret_scope get lookup update_scope_annotations
prepares = refl

seal_secret-IsArrived_example :
    IsArrived toy_codecs vacant_world toy_serializers key_a no_overrides toy_namespace "n/s"
      a_sealed_secret a_secret toy_session written_session waiting
unfolding get lookup
seal_secret-IsArrived_example =
    seal_secret-IsArrived toy_codecs vacant_world toy_serializers key_a no_overrides toy_namespace
      toy-IsCorrect toy-IsTotal toy-IsBinding toy_codecs-IsBase64 "n/s" a_sealed_secret a_secret
      a_secret toy_session written_session waiting vacant_world-IsSemantic vacant_world-IsOwnership
      (inl refl) (refl, tt) (refl, tt) prepares tt tt refl vacant seal_secret_example
