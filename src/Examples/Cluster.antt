-- ===== src/Examples/Cluster.antt =====
-- What the controller does to a secret and to a status, at concrete values.
use sealed_secrets.Base.{
  ℕ, suc, ◌≤◌, String, true, false, ◌==◌, if◌then◌else◌, bytes_of, utf8, arith, ◌≡◌, refl, [], ◌∷◌,
  some, own, ok,
}
use sealed_secrets.Base.GoMap.{table, entries, get, lookup, insert, without}
use sealed_secrets.Sealed.{
  Secret, SealedSecret, SealedSecretStatus, condition_true, empty_secret, empty_meta,
}
use sealed_secrets.Controller.Desired.{desired_secret}
use sealed_secrets.Controller.Merge.{IsPatched, desired_secret-IsPatched}
use sealed_secrets.Controller.Conditions.{update_sealed_secrets_status_conditions}
use sealed_secrets.Controller.Transitions.{
  IsUpdated, update_sealed_secrets_status_conditions-IsUpdated,
}
use sealed_secrets.Scope.{
  encryption_label, secret_scope, update_scope_annotations, delete_all,
  strip_last_applied_annotations,
}
use sealed_secrets.Crypto.{put_uint16, uint16}
use sealed_secrets.Crypto.Encrypt.{hybrid_encrypt}
use sealed_secrets.Crypto.Decrypt.{single_decrypt, hybrid_decrypt, open_parts}
use sealed_secrets.Sealed.Seal.{new_sealed_secret, sealed_object}
use sealed_secrets.Sealed.Unseal.{
  unseal, decrypt_items, render_items, without_errors, decrypt_item, place,
}
use sealed_secrets.Sealed.RoundTrip.{IsReopened, applied}
use sealed_secrets.World.{other_object}
use sealed_secrets.Registry.{private_keys, latest_private_key}
use sealed_secrets.Controller.{Controller}
use sealed_secrets.Controller.Reconcile.{reconcile, attempt_unseal}
use sealed_secrets.Controller.Ownership.{IsAllowed, reconcile-IsAllowed}
use sealed_secrets.World.{World}
use sealed_secrets.Controller.Watch.{Informers, known, secret_deleted, owner_found, requeue_owner}
use sealed_secrets.Controller.Requeue.{IsRequeued, secret_deleted-IsRequeued}
use sealed_secrets.Controller.Queue.{WorkQueue, IsRateLimited, process_next_item}
use sealed_secrets.Controller.Retries.{process_next_item-IsWithin}
use sealed_secrets.Controller.Rotate.{Documents, aligned, reseal}
use sealed_secrets.Controller.Rotation.{reseal-IsReopened}
use sealed_secrets.Examples.Toy.{
  toy, toy_codecs, toy-IsCorrect, toy-IsTotal, toy-IsBinding, toy_codecs-IsBase64,
}
use sealed_secrets.Examples.ToyWorld.{toy_world}
use sealed_secrets.Examples.Sealing.{a_sealed_secret, opened_secret}
use sealed_secrets.Examples.Keys.{one_key, one_key-IsHeld}

abbrev old_secret : Secret
old_secret = record empty_secret {
  meta = record empty_meta {
    name = "s";
    namespace = "n";
    annotations = table (("sealedsecrets.bitnami.com/patch", "true") ∷ []);
  };
  secret_data = table (("kept", 1 ∷ []) ∷ ("k", 2 ∷ []) ∷ []);
}

abbrev unsealed_secret : Secret
unsealed_secret = record empty_secret {
  meta = record empty_meta { name = "s"; namespace = "n" };
  type = "Opaque";
  secret_data = table (("k", 3 ∷ []) ∷ []);
}

desired_secret-IsPatched_example :
    (out : Secret) × (desired_secret old_secret unsealed_secret ≡ ok out)
    × IsPatched old_secret unsealed_secret out
unfolding get lookup
desired_secret-IsPatched_example =
    desired_secret-IsPatched old_secret unsealed_secret refl (refl, tt) tt tt

-- A status that told a success.
abbrev pub healthy : SealedSecretStatus
healthy = record {
  observed_generation = 3;
  conditions =
      record {
        type = "Synced";
        status = condition_true;
        last_update_time = 5;
        last_transition_time = 5;
        reason = "";
        condition_message = "";
      }
      ∷ [];
}

update_sealed_secrets_status_conditions-IsUpdated_example :
    IsUpdated healthy
      (some (own "no key could decrypt secret"))
      8
      (update_sealed_secrets_status_conditions healthy (some (own "no key could decrypt secret")) 8)
update_sealed_secrets_status_conditions-IsUpdated_example =
    update_sealed_secrets_status_conditions-IsUpdated healthy
      (some (own "no key could decrypt secret")) 8

-- A controller with one key in the toy cluster.
abbrev pub toy_controller : Controller toy_world
toy_controller = record {
  registry = one_key;
  world = 9;
  old_gc_behavior = false;
  update_status = true;
  accept_deprecated_v1_data = false;
  events = [];
  unseal_requests_total = 0;
  unseal_errors_total = [];
  condition_info = [];
}

reconcile-IsAllowed_example :
    IsAllowed toy_codecs toy_world a_sealed_secret
      (unseal toy toy_codecs false a_sealed_secret (private_keys toy_world one_key))
      9
      (reconcile toy_codecs toy_world "n/s" a_sealed_secret toy_controller).1.world
reconcile-IsAllowed_example =
    reconcile-IsAllowed toy_codecs toy_world a_sealed_secret "n/s" toy_controller

-- A queue that is nothing but its counts, and always has the key n/s.
abbrev pub toy_queue : WorkQueue
toy_queue = record {
  Items = String → ℕ;
  next = λ items. (some "n/s", items);
  add = λ key items. items;
  done = λ key items. items;
  forget = λ key items j. if key == j then 0 else items j;
  num_requeues = λ key items. items key;
  add_rate_limited = λ key items j. if key == j then suc (items j) else items j;
  shut_down = λ items. items;
}

toy_queue-IsRateLimited : IsRateLimited toy_queue
toy_queue-IsRateLimited = record {
  next_keeps = λ j items. refl;
  done_keeps = λ k j items. refl;
  forget_resets = λ k j items. refl;
  add_counts = λ k j items. refl;
}

process_next_item-IsWithin_example :
    toy_queue.num_requeues "n/s"
      (process_next_item toy_queue 5 toy_codecs toy_world ((λ j. 5), toy_controller)).1.0
    ≤ 5
process_next_item-IsWithin_example =
    process_next_item-IsWithin toy_queue toy_queue-IsRateLimited 5 toy_codecs toy_world (λ j. 5)
      toy_controller (λ j. omega arith) "n/s"

-- A cluster with a sealed secret of every name, and a secret that is managed.
abbrev owner_world : World toy
owner_world = record toy_world { get_sealed_secret = λ ns name s. (ok a_sealed_secret, s) }

abbrev pub toy_informers : Informers
toy_informers = record {
  key_of = λ obj. ok "n/s";
  deletion_key_of = λ obj. ok "n/s";
  secret_key_of = λ secret. ok "n/s";
  same_spec = λ a b. false;
}

abbrev managed_secret : Secret
managed_secret = record empty_secret {
  meta = record empty_meta {
    name = "s";
    namespace = "n";
    annotations = table (("sealedsecrets.bitnami.com/managed", "true") ∷ []);
  };
}

secret_deleted_example :
    secret_deleted toy_queue toy_informers owner_world (known managed_secret) (λ j. 0) 9
    ≡ (ok (λ j. 0), 9)
unfolding secret_deleted owner_found requeue_owner get lookup
secret_deleted_example = refl

secret_deleted-IsRequeued_example :
    IsRequeued toy_queue toy_informers owner_world managed_secret (λ j. 0) 9 (λ j. 0)
secret_deleted-IsRequeued_example =
    secret_deleted-IsRequeued toy_queue toy_informers owner_world managed_secret (λ j. 0) (λ j. 0) 9
      9 secret_deleted_example

abbrev pub toy_documents : Documents
toy_documents = record {
  decode = λ content. ok other_object;
  marshal = λ s. ok [];
  deep_equal = λ a b. false;
}

-- The alignment leaves an empty map of annotations in the place of a nil one.
abbrev pub aligned_secret : Secret
aligned_secret = record opened_secret {
  meta = record opened_secret.meta { annotations = table [] };
}

abbrev pub rotated_secret : SealedSecret
rotated_secret = sealed_object aligned_secret (entries a_sealed_secret.spec.encrypted_data)

pub unseal-aligned :
    unseal toy toy_codecs false
      (aligned toy_documents a_sealed_secret)
      (private_keys toy_world one_key)
    ≡ ok aligned_secret
unfolding aligned unseal decrypt_items render_items without_errors decrypt_item hybrid_decrypt
    single_decrypt uint16 open_parts place get lookup insert bytes_of utf8 encryption_label
    secret_scope update_scope_annotations delete_all without strip_last_applied_annotations
unseal-aligned = refl

reseal_example :
    reseal toy_codecs toy_world toy_documents a_sealed_secret toy_controller
    ≡ (ok rotated_secret, toy_controller)
unfolding reseal attempt_unseal latest_private_key aligned new_sealed_secret hybrid_encrypt
    put_uint16 unseal decrypt_items render_items without_errors decrypt_item hybrid_decrypt
    single_decrypt uint16 open_parts place get lookup insert bytes_of utf8 encryption_label
    secret_scope update_scope_annotations delete_all without strip_last_applied_annotations
reseal_example = refl

reseal-IsReopened_example :
    (out : Secret) × (unseal toy toy_codecs false
        (applied rotated_secret a_sealed_secret)
        (private_keys toy_world one_key)
      ≡ ok out)
    × IsReopened aligned_secret out
unfolding lookup
reseal-IsReopened_example =
    reseal-IsReopened toy_codecs toy_world toy_documents toy-IsCorrect toy-IsTotal toy-IsBinding
      toy_codecs-IsBase64 a_sealed_secret toy_controller toy_controller rotated_secret
      a_sealed_secret aligned_secret false one_key-IsHeld unseal-aligned (refl, (refl, tt)) tt
      reseal_example
