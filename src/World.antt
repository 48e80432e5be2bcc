-- ===== src/World.antt =====
-- What the controller calls outside the repository: the Kubernetes API, the clock, the random source and
-- the packages for keys and certificates. The state of all that is one abstract world.
use sealed_secrets.Base.{ℕ, String, Bool, List, Option, Outcome, ok, Bytes}
use sealed_secrets.Base.Action.{Action}
use sealed_secrets.Crypto.{Primitives}
use sealed_secrets.Sealed.{Secret, SealedSecret}

-- keyutil.ParsePrivateKeyPEM returns a key of any kind; only RSA keys are of use.
pub data ParsedKey (K : Type 0) : Type 0 where
  rsa_key : K → ParsedKey K
  other_key : ParsedKey K

-- The fields of an x509.Certificate that SignKeyWithNotBefore fills in. Times are nanoseconds.
pub record CertificateTemplate : Type 0 where
  pub serial_number : ℕ
  pub key_usage : String
  pub not_before : ℕ
  pub not_after : ℕ
  pub issuer : String
  pub subject : String
  pub basic_constraints_valid : Bool
  pub is_ca : Bool

-- What an informer's store may hold under a key.
pub data Object : Type 0 where
  sealed : SealedSecret → Object
  other_object : Object

pub record World (p : Primitives) : Type 1 where
  pub State : Type 0
  pub Cert : Type 0
  -- time.Now
  pub now : State → ℕ × State
  -- crypto/rand.Reader
  pub rand : State → p.Rand
  pub set_rand : p.Rand → State → State
  -- crypto/rsa, crypto/rand, crypto/x509
  pub rsa_generate_key : ℕ → Action p.Rand p.PrivateKey
  pub rand_int : ℕ → Action p.Rand ℕ
  pub create_certificate : CertificateTemplate → p.PublicKey → p.PrivateKey → Action p.Rand Bytes
  pub parse_certificate : Bytes → Outcome Cert
  pub not_before : Cert → ℕ
  pub raw : Cert → Bytes
  -- encoding/pem, keyutil and certUtil
  pub pem_encode : String → Bytes → Bytes
  pub marshal_pkcs1 : p.PrivateKey → Bytes
  pub parse_private_key_pem : Bytes → Outcome (ParsedKey p.PrivateKey)
  pub parse_certs_pem : Bytes → Outcome (List Cert)
  -- the Secrets of a namespace
  pub list_secrets : String → String → Action State (List Secret)
  pub get_secret : String → String → Action State Secret
  pub create_secret : String → Secret → Action State Secret
  pub update_secret : String → Secret → Action State Secret
  pub delete_secret : String → String → Action State (Unit {0})
  -- the SealedSecrets of a namespace
  pub get_sealed_secret : String → String → Action State SealedSecret
  pub get_by_key : String → Action State (Option Object)
  pub put_status : String → SealedSecret → Action State SealedSecret
  -- tools/cache, apimachinery
  pub split_key : String → Outcome (String × String)
  pub is_controlled_by : Secret → SealedSecret → Bool
  pub semantic_equal : Secret → Secret → Bool

module _ {p : Primitives} (w : World p) where
  -- time.Now as a step
  abbrev pub clock : Action w.State ℕ
  clock s = let (t, s') = w.now s in (ok t, s')

  -- A call that is given the random source.
  abbrev pub with_rand {ℓ} : {A : Type ℓ} → Action p.Rand A → Action w.State A
  with_rand m s = let (r, rnd) = m (w.rand s) in (r, w.set_rand rnd s)
