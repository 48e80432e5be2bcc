-- ===== src/Kubeseal/Cluster.antt =====
-- The services of a cluster and the certificate of its controller: getServicePortName, isFilename, openCertLocal,
-- openCertURI, openCertCluster, OpenCert and ParseKey of pkg/kubeseal/kubeseal.go.
use Prim.Native.Char.{code}
use Prim.Native.String
use sealed_secrets.Base.{
  ℕ, String, Bool, true, false, not, ◌&&◌, List, [], ◌∷◌, own, message, Error, Outcome, ok, err,
  panic, Bytes, eqb, ltb, ◌==◌, if◌then◌else◌,
}
use sealed_secrets.Base.Action.{Action, lift, return, attempt, ◌>>=◌}
use sealed_secrets.Crypto.{Primitives}
use sealed_secrets.Kubeseal.{Reader}
use sealed_secrets.Kubeseal.Output.{lower}

-- What a request through the proxy of the API brings back: the outcome of Raw, a StatusError with the code of a
-- conflict, or another error.
pub data Answer : Type 0 where
  answered : Outcome Bytes → Answer
  conflict refused : Error → Answer

-- net.JoinSchemeNamePort
pub record Address : Type 0 where
  pub scheme : String
  pub name : String
  pub port : String

-- An http.Response
pub record Fetched : Type 0 where
  pub status_code : ℕ
  pub status : String
  pub body : Reader

-- The client of a cluster, os.Open, net/http and net/url, over a state S.
pub record ClusterClient (S : Type 0) : Type 1 where
  pub Config : Type 0
  pub RestClient : Type 0
  pub client_config : Outcome Config
  pub accepting : String → Config → Config
  pub new_for_config : Config → Outcome RestClient
  -- the names of the ports of a service
  pub get_service : RestClient → String → String → Action S (List String)
  pub proxy_get : RestClient → String → Address → String → Action S Reader
  pub post : RestClient → String → Address → String → Bytes → S → Answer × S
  pub open_file : String → Action S Reader
  pub http_get : String → Action S Fetched
  -- the scheme of a URL
  pub parse_url : String → Outcome String

module _ {S : Type 0} (net : ClusterClient S) where
  abbrev cannot_get_service : Error → Error
  cannot_get_service e = own (
      String.◌++◌ "cannot get sealed secret service: " (
        String.◌++◌ (message e)
          ".\nPlease, use the flag --controller-name and --controller-namespace to set up the name and namespace of the sealed secrets controller"))

  abbrev first_port : Outcome (List String) → Outcome String
  first_port (ok (port ∷ ports)) = ok port
  first_port (ok []) = panic
  first_port (err e) = err (cannot_get_service e)
  first_port panic = panic

  -- getServicePortName: a service without ports is not looked for.
  unfoldable pub get_service_port_name : net.RestClient → String → String → Action S String
  get_service_port_name client namespace service_name =
      attempt (net.get_service client namespace service_name) >>= λ r. lift (first_port r)

  abbrev pub is_letter : ℕ → Bool
  is_letter c = not (ltb c b'a') && not (ltb b'z' c)

  -- No scheme, or the letter of a drive.
  abbrev pub is_file_scheme : String → Bool
  is_file_scheme String.[] = true
  is_file_scheme (String.◌∷◌ c String.[]) = is_letter (lower (code c))
  is_file_scheme (String.◌∷◌ c (String.◌∷◌ d more)) = false

  -- isFilename
  unfoldable pub is_filename : String → Outcome Bool
  is_filename name = elim (net.parse_url name) [
    | ok scheme ↦ ok (is_file_scheme scheme)
    | err e ↦ err e
    | panic ↦ panic
  ]

  -- openCertURI
  unfoldable pub open_cert_uri : String → Action S Reader
  open_cert_uri uri = net.http_get uri >>= λ resp.
      if eqb resp.status_code 200
      then return resp.body
      else lift
          (err (own (String.◌++◌ "cannot fetch " (String.◌++◌ uri (String.◌++◌ ": " resp.status)))))

  -- openCertLocal
  unfoldable pub open_cert_local : String → Action S Reader
  unfolding is_filename open_cert_uri
  open_cert_local filename_or_uri = lift (is_filename filename_or_uri) >>= λ is_file.
      if is_file then net.open_file filename_or_uri else open_cert_uri filename_or_uri

  abbrev fetched : Outcome Reader → Outcome Reader
  fetched (ok r) = ok r
  fetched (err e) = err (own (String.◌++◌ "cannot fetch certificate: " (message e)))
  fetched panic = panic

  -- openCertCluster
  unfoldable pub open_cert_cluster : net.RestClient → String → String → Action S Reader
  unfolding get_service_port_name
  open_cert_cluster c namespace name = do
    port_name ← get_service_port_name c namespace name
    cert ← attempt (
        net.proxy_get c namespace (record { scheme = "http"; name = name; port = port_name })
          "/v1/cert.pem")
    lift (fetched cert)

  -- OpenCert
  unfoldable pub open_cert : String → String → String → Action S Reader
  unfolding open_cert_local open_cert_cluster
  open_cert controller_ns controller_name cert_url =
      if cert_url == ""
      then (do
        conf ← lift net.client_config
        rest_client ← lift (net.new_for_config (net.accepting "application/x-pem-file, */*" conf))
        open_cert_cluster rest_client controller_ns controller_name)
      else open_cert_local cert_url

-- The public key in a certificate.
pub data CertificateKey (K : Type 0) : Type 0 where
  rsa_public : K → CertificateKey K
  other_public : CertificateKey K

-- cert.ParseCertsPEM and the fields of an x509.Certificate
pub record Certificates (p : Primitives) : Type 1 where
  pub Certificate : Type 0
  pub parse_certs_pem : Bytes → Outcome (List Certificate)
  pub public_key : Certificate → CertificateKey p.PublicKey
  pub not_after : Certificate → ℕ

module _ {p : Primitives} (x : Certificates p) where
  abbrev pub unless_expired : ℕ → x.Certificate → p.PublicKey → Outcome p.PublicKey
  unless_expired now cert key =
      if ltb (x.not_after cert) now
      then err (own "failed to encrypt using an expired certificate")
      else ok key

  abbrev pub key_of_certificate : ℕ → x.Certificate → Outcome p.PublicKey
  key_of_certificate now cert = elim (x.public_key cert) [
    | rsa_public key ↦ unless_expired now cert key
    | other_public ↦ err (own "expected RSA public key")
  ]

  abbrev pub first_certificate_key : ℕ → List x.Certificate → Outcome p.PublicKey
  first_certificate_key now [] = err (own "failed to read any certificates")
  first_certificate_key now (cert ∷ more) = key_of_certificate now cert

  -- ParseKey, with the time of the call
  unfoldable pub parse_key : ℕ → Reader → Outcome p.PublicKey
  parse_key now r = elim r [
    | ok bytes ↦ elim (x.parse_certs_pem bytes) [
      | ok certs ↦ first_certificate_key now certs
      | err e ↦ err e
      | panic ↦ panic
    ]
    | err e ↦ err e
    | panic ↦ panic
  ]
