-- ===== src/Registry.antt =====
-- The registry of sealing keys: pkg/controller/keyregistry.go, but for generateKey (Startup). A Key is
-- never changed once it is made, so a pointer to it is the key itself.
pub mod Order
pub mod Held
use sealed_secrets.Base.{
  ℕ, String, Bool, true, [], Option, none, some, Error, own, Outcome, ok, err, panic, ltb,
  if◌then◌else◌, ◌>>=◌,
}
use sealed_secrets.Base.GoMap.{Entries, insert, map_values}
use sealed_secrets.Crypto.{Primitives, public_key_fingerprint}
use sealed_secrets.World.{World}

module _ {p : Primitives} (w : World p) where
  -- Key
  pub record Key : Type 0 where
    pub private : p.PrivateKey
    pub cert : w.Cert
    pub fingerprint : String
    pub ordering_time : ℕ

  -- KeyRegistry, without the client and the mutex
  pub record KeyRegistry : Type 0 where
    pub namespace : String
    pub key_prefix : String
    pub key_label : String
    pub keysize : ℕ
    pub keys : Entries Key
    pub most_recent_key : Option Key

  -- NewKeyRegistry
  unfoldable pub new_key_registry : String → String → String → ℕ → KeyRegistry
  new_key_registry namespace key_prefix key_label keysize = record {
    namespace = namespace;
    key_prefix = key_prefix;
    key_label = key_label;
    keysize = keysize;
    keys = [];
    most_recent_key = none;
  }

  -- The more recent of the current key and a new one; a tie goes to the current key.
  unfoldable pub more_recent : Option Key → Key → Option Key
  more_recent none k = some k
  more_recent (some m) k = if ltb m.ordering_time k.ordering_time then some k else some m

  -- The end of registerNewKey, where the key is known.
  unfoldable pub add_key : KeyRegistry → Key → KeyRegistry
  unfolding more_recent
  add_key kr k = record kr {
    keys = insert k.fingerprint k kr.keys;
    most_recent_key = more_recent kr.most_recent_key k;
  }

  -- registerNewKey
  unfoldable pub register_new_key : KeyRegistry → p.PrivateKey → w.Cert → ℕ → Outcome KeyRegistry
  unfolding add_key
  register_new_key kr priv_key cert ordering_time = do
    fingerprint ← public_key_fingerprint p (p.public priv_key)
    ok (
        add_key kr (record {
          private = priv_key;
          cert = cert;
          fingerprint = fingerprint;
          ordering_time = ordering_time;
        }))

  -- latestPrivateKey follows a nil pointer if there is no key.
  unfoldable pub latest_private_key : KeyRegistry → Outcome p.PrivateKey
  latest_private_key kr = elim kr.most_recent_key [ none ↦ panic | some k ↦ ok k.private ]

  -- getCert
  unfoldable pub get_cert : KeyRegistry → Outcome w.Cert
  get_cert kr = elim kr.most_recent_key [
    | none ↦ err (own "key registry has no keys")
    | some k ↦ ok k.cert
  ]

  -- The map of private keys that attemptUnseal builds.
  abbrev pub private_keys : KeyRegistry → Entries p.PrivateKey
  private_keys kr = map_values (λ (k : Key). k.private) kr.keys
