-- ===== src/Examples/ToyWorld.antt =====
-- A toy cluster: its state is a clock that moves by one with each look at it, and it holds one stored
-- sealing key, which nothing changes. A certificate is the time from which it is valid.
use sealed_secrets.Base.{
  ℕ, suc, false, [], ◌∷◌, none, not_found, external, Outcome, ok, err, Bytes, eqb, if◌then◌else◌,
}
use sealed_secrets.Base.GoMap.{table}
use sealed_secrets.Sealed.{Secret, empty_secret, empty_meta}
use sealed_secrets.World.{World, ParsedKey, rsa_key}
use sealed_secrets.Examples.Toy.{ToyKey, key_a, key_b, toy}

-- A stored key, with the private key and the certificate as bytes.
abbrev pub stored_key : Bytes → Bytes → Secret
stored_key key cert = record empty_secret {
  meta = record empty_meta { name = "stored"; namespace = "ns" };
  type = "kubernetes.io/tls";
  secret_data = table (("tls.key", key) ∷ ("tls.crt", cert) ∷ []);
}

abbrev pub good_key : Secret
good_key = stored_key (1 ∷ []) (5 ∷ [])

abbrev pub broken_key : Secret
broken_key = stored_key [] []

abbrev pub toy_private_key : Bytes → Outcome (ParsedKey ToyKey)
toy_private_key (b ∷ _) = ok (rsa_key (if eqb b 1 then key_a else key_b))
toy_private_key [] = err (external "data does not contain a valid RSA or ECDSA private key")

abbrev pub toy_certificate : Bytes → Outcome ℕ
toy_certificate (t ∷ _) = ok t
toy_certificate [] = err (external "no certificate")

abbrev pub toy_world : World toy
toy_world = record {
  State = ℕ;
  Cert = ℕ;
  now = λ s. (s, suc s);
  rand = λ s. tt;
  set_rand = λ r s. s;
  rsa_generate_key = λ size r. (ok key_b, r);
  rand_int = λ max r. (ok 4, r);
  create_certificate = λ template pk sk r. (ok (template.not_before ∷ []), r);
  parse_certificate = toy_certificate;
  not_before = λ cert. cert;
  raw = λ cert. cert ∷ [];
  pem_encode = λ kind bytes. bytes;
  marshal_pkcs1 = λ key. 2 ∷ [];
  parse_private_key_pem = toy_private_key;
  parse_certs_pem = λ bytes. ok bytes;
  list_secrets = λ ns selector s. (ok (good_key ∷ []), s);
  get_secret = λ ns name s. (err (not_found "no such secret"), s);
  create_secret = λ ns secret s. (ok secret, s);
  update_secret = λ ns secret s. (ok secret, s);
  delete_secret = λ ns name s. (ok tt, s);
  get_sealed_secret = λ ns name s. (err (not_found "no such sealed secret"), s);
  get_by_key = λ key s. (ok none, s);
  put_status = λ ns ssecret s. (ok ssecret, s);
  split_key = λ key. ok ("ns", key);
  is_controlled_by = λ secret ssecret. false;
  semantic_equal = λ secret secret'. false;
}
