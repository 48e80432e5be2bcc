-- ===== src/Kubeseal/Raw.antt =====
-- EncryptSecretItem and ParseFromFile of pkg/kubeseal/kubeseal.go.
use Prim.Native.Char.{Char, code}
use sealed_secrets.Base.{String, eqb, Option, none, some, Bytes, bytes_of, if◌then◌else◌}
use sealed_secrets.Base.Action.{Action, ◌>>=◌}
use sealed_secrets.Scope.{SealingScope, encryption_label}
use sealed_secrets.Crypto.{Primitives}
use sealed_secrets.Crypto.Encrypt.{hybrid_encrypt}
use sealed_secrets.Sealed.{Codecs}
use sealed_secrets.Kubeseal.{Session, drawing, write}

-- EncryptSecretItem
unfoldable pub encrypt_secret_item :
    {p : Primitives}
    → Codecs
    → String
    → String
    → Bytes
    → SealingScope
    → p.PublicKey
    → Action (Session p) (Unit {0})
encrypt_secret_item {p} c secret_name ns plaintext scope pub_key = do
  out ← drawing (hybrid_encrypt p pub_key plaintext (encryption_label ns secret_name scope))
  write (bytes_of (c.base64_encode out))

abbrev pub prepended : Char → Option (String × String) → Option (String × String)
prepended ch none = none
prepended ch (some (k, v)) = some (String.◌∷◌ ch k, v)

-- The part before the first equals sign, and the part behind it: strings.SplitN(s, "=", 2).
unfoldable pub split_first : String → Option (String × String)
split_first String.[] = none
split_first (String.◌∷◌ ch s) =
    let rest = split_first s in if eqb (code ch) b'=' then some ("", s) else prepended ch rest

-- ParseFromFile
unfoldable pub parse_from_file : String → String × String
unfolding split_first
parse_from_file s = elim (split_first s) [ none ↦ ("", s) | some parts ↦ parts ]
