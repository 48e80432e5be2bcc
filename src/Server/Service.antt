-- ===== src/Server/Service.antt =====
-- What Main of pkg/controller/main.go hands to the HTTP server: the certificate of the registry, AttemptUnseal and
-- Rotate of the controller.
use sealed_secrets.Base.{List, [], ◌∷◌, Outcome, map_ok, Bytes}
use sealed_secrets.Base.Action.{Action}
use sealed_secrets.Crypto.{Primitives}
use sealed_secrets.Sealed.{Codecs}
use sealed_secrets.World.{World}
use sealed_secrets.Multidoc.{YamlPackage}
use sealed_secrets.Registry.{get_cert}
use sealed_secrets.Controller.{Controller}
use sealed_secrets.Controller.Rotate.{Documents, rotate, attempt_unseal_content}
use sealed_secrets.Server.{Request, Response, RateLimiter, httpserver}

module _ {p : Primitives} (w : World p) where
  -- pem.EncodeToMemory of a certificate
  abbrev pub pem_block : w.Cert → Bytes
  pem_block cert = w.pem_encode "CERTIFICATE" (w.raw cert)

  -- cp
  unfoldable pub cert_provider : Controller w → Outcome (List w.Cert)
  cert_provider t = map_ok (λ cert. cert ∷ []) (get_cert w t.registry)

  -- The server as Main starts it.
  abbrev pub serve :
      Codecs
      → Documents
      → YamlPackage
      → (l : RateLimiter) → Request
      → Action (Controller w × l.Store) Response
  serve c d y l =
      httpserver pem_block cert_provider (attempt_unseal_content c w d y) (rotate c w d) l
