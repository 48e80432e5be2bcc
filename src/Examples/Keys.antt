-- ===== src/Examples/Keys.antt =====
-- The registry of keys, the start of the controller and the small functions of it, in the toy cluster.
use sealed_secrets.Base.{
  own, utf8, String, ◌≡◌, ◌≢◌, ◌↔◌, ◌≤◌, refl, [], ◌∷◌, none, some, ok, err, external, bytes_of,
  length,
}
use sealed_secrets.Base.Action.{attempt}
use sealed_secrets.Base.Split.{split}
use sealed_secrets.Base.GoMap.{lookup, insert, get}
use sealed_secrets.Crypto.{public_key_fingerprint}
use sealed_secrets.Registry.{
  Key, KeyRegistry, register_new_key, new_key_registry, add_key, more_recent,
}
use sealed_secrets.Registry.Order.{IsOrdered, new_key_registry-IsOrdered}
use sealed_secrets.Registry.Held.{IsHeld, register_new_key-IsHeld, new_key_registry-IsHeld}
use sealed_secrets.Keys.{
  key_value, add_labels, key_labels, key_annotations, read_key, sign_key, sign_key_with_not_before,
  generate_private_key_and_cert, write_key, key_secret, encode_certs,
}
use sealed_secrets.Startup.{
  generate_key, load_keys, init_key_registry, init_key_renewal, registry_new_key_with_secret,
  with_legacy_key, get_key_order_priority, scheduled, needs_first_key, first_key, schedule,
  most_recent_time, renewal_after,
}
use sealed_secrets.Startup.Load.{init_key_registry_lem}
use sealed_secrets.Startup.FirstKey.{IsSound, init_key_renewal-IsSound}
use sealed_secrets.Funcs.{
  too_long, decimal, check_runes, is_kube_char, runes, validate_key_prefix, remove_duplicates,
  collect,
}
use sealed_secrets.Funcs.Prefix.{validate_key_prefix_iff, IsKubeName}
use sealed_secrets.Examples.Toy.{key_a, key_b, toy-IsCollisionFree}
use sealed_secrets.Examples.ToyWorld.{toy_world, good_key, broken_key}

abbrev no_keys : KeyRegistry toy_world
no_keys = new_key_registry toy_world "ns" "prefix" "label" 4096

abbrev key_5 : Key toy_world
key_5 = record { private = key_a; cert = 5; fingerprint = "a"; ordering_time = 5 }

abbrev pub one_key : KeyRegistry toy_world
one_key = record {
  namespace = "ns";
  key_prefix = "prefix";
  key_label = "label";
  keysize = 4096;
  keys = ("a", key_5) ∷ [];
  most_recent_key = some key_5;
}

register_example : register_new_key toy_world no_keys key_a 5 5 ≡ ok one_key
unfolding register_new_key add_key more_recent new_key_registry insert public_key_fingerprint
register_example = refl

pub one_key-IsHeld : IsHeld toy_world one_key
one_key-IsHeld =
    register_new_key-IsHeld toy_world toy-IsCollisionFree no_keys one_key key_a 5 5
      (new_key_registry-IsHeld toy_world "ns" "prefix" "label" 4096) register_example

init_key_registry_example :
    init_key_registry toy_world (λ l. l) "ns" "prefix" "label" 4096 "CertNotBefore" 9
    ≡ (ok one_key, 9)
unfolding attempt init_key_registry load_keys with_legacy_key registry_new_key_with_secret read_key
    get_key_order_priority register_new_key add_key more_recent new_key_registry insert
    public_key_fingerprint get lookup
init_key_registry_example = refl

init_key_registry_lem_example :
    IsOrdered toy_world one_key.keys one_key.most_recent_key × IsHeld toy_world one_key
init_key_registry_lem_example =
    init_key_registry_lem toy_world toy-IsCollisionFree (λ l. l) "ns" "prefix" "label"
      "CertNotBefore" 4096 9 9 one_key init_key_registry_example

load_keys_example : load_keys toy_world (good_key ∷ []) "CertNotBefore" no_keys ≡ ok one_key
unfolding load_keys registry_new_key_with_secret read_key get_key_order_priority register_new_key
    add_key more_recent new_key_registry insert public_key_fingerprint get lookup
load_keys_example = refl

read_broken_key :
    read_key toy_world broken_key
    ≡ err (external "data does not contain a valid RSA or ECDSA private key")
unfolding read_key get lookup
read_broken_key = refl

no_keys-IsSound : IsSound toy_world no_keys
no_keys-IsSound = record {
  is_ordered = new_key_registry-IsOrdered toy_world "ns" "prefix" "label" 4096;
  is_held = new_key_registry-IsHeld toy_world "ns" "prefix" "label" 4096;
}

-- The key that the first start makes: valid from 9, registered at 10.
abbrev key_10 : Key toy_world
key_10 = record { private = key_b; cert = 9; fingerprint = "b"; ordering_time = 10 }

abbrev first_registry : KeyRegistry toy_world
first_registry = record one_key { keys = ("b", key_10) ∷ []; most_recent_key = some key_10 }

init_key_renewal_example :
    init_key_renewal toy_world 30 100 0 "cn" "" "" (no_keys, 9)
    ≡ (ok (scheduled 29 30), (first_registry, 12))
unfolding init_key_renewal needs_first_key first_key schedule most_recent_time renewal_after
    generate_key generate_private_key_and_cert sign_key sign_key_with_not_before write_key
    key_secret key_labels key_annotations encode_certs register_new_key add_key more_recent
    new_key_registry insert public_key_fingerprint
init_key_renewal_example = refl

init_key_renewal-IsSound_example :
    IsSound toy_world first_registry × (first_registry.most_recent_key ≢ none)
init_key_renewal-IsSound_example =
    init_key_renewal-IsSound toy_world toy-IsCollisionFree 30 100 0 "cn" "" "" no_keys
      first_registry 9 12 (scheduled 29 30) no_keys-IsSound init_key_renewal_example

key_labels_example :
    key_labels "label" "team=x,label=off" ≡ ok (("label", "active") ∷ ("team", "x") ∷ [])
unfolding key_labels add_labels key_value split remove_duplicates collect insert lookup
key_labels_example = refl

validate_key_prefix_iff_example :
    (validate_key_prefix "key-1" ≡ ok "key-1")
    ↔ ((length (bytes_of "key-1") ≤ 245) × IsKubeName "key-1" × (◌≡◌ {A = String} "key-1" "key-1"))
validate_key_prefix_iff_example = validate_key_prefix_iff "key-1" "key-1"

validate_key_prefix_illegal :
    validate_key_prefix "a_" ≡ err (own "name contains illegal character _")
unfolding validate_key_prefix check_runes is_kube_char runes bytes_of utf8
validate_key_prefix_illegal = refl

too_long_message : too_long 246 ≡ own "name is too long, must be shorter than 245, got 246"
unfolding decimal
too_long_message = refl
