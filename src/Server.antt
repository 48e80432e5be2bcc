-- ===== src/Server.antt =====
-- The HTTP server of the controller: pkg/controller/server.go. What the handlers are given (certProvider, secretChecker
-- and secretRotator) and the rate limiter are parameters; Server/Service passes them what Main passes.
pub mod Service
pub mod Replies
pub mod Changes
pub mod Validation
pub mod Acceptance
pub mod Started
pub mod Rotation
pub mod Renewal
use Prim.Native.String
use sealed_secrets.Base.{
  ℕ, String, Bool, true, false, List, [], ◌∷◌, ◌++◌, Option, none, some, Outcome, ok, err, panic,
  Bytes, bytes_of, ◌==◌, if◌then◌else◌,
}
use sealed_secrets.Base.Action.{Action, lift, return}
use sealed_secrets.Base.GoMap.{Entries, insert}

-- What a handler looks at of an http.Request.
pub record Request : Type 0 where
  pub path : String
  pub headers : Entries String
  pub body : Outcome Bytes

-- http.ResponseWriter: the map of headers, and what has been sent of it. Writes to the connection do not fail.
pub record Response : Type 0 where
  pub status : Option ℕ
  pub header : Entries String
  pub sent : Entries String
  pub body : Bytes

abbrev pub new_response : Response
new_response = record { status = none; header = []; sent = []; body = [] }

-- w.Header().Set
abbrev pub set_header : String → String → Response → Response
set_header key value w = record w { header = insert key value w.header }

-- w.WriteHeader: the first call sends the headers, a later one does nothing.
abbrev pub write_header : ℕ → Response → Response
write_header code w = elim w.status [
  | none ↦ record w { status = some code; sent = w.header }
  | some sent ↦ w
]

-- w.Write
abbrev pub write : Bytes → Response → Response
write b w = let w' = write_header 200 w in record w' { body = w'.body ++ b }

abbrev pub status_ok : ℕ
status_ok = 200

abbrev pub status_bad_request : ℕ
status_bad_request = 400

abbrev pub status_conflict : ℕ
status_conflict = 409

abbrev pub status_internal_server_error : ℕ
status_internal_server_error = 500

-- http.Error
abbrev pub http_error : String → ℕ → Response
http_error text code = write (bytes_of (String.◌++◌ text "\n")) (
    write_header code (
      set_header "X-Content-Type-Options" "nosniff"
        (set_header "Content-Type" "text/plain; charset=utf-8" new_response)))

-- What throttled.HTTPRateLimiter does with a request: it is let through with the headers that the limiter has set, or
-- answered by the limiter.
pub data Admission : Type 0 where
  admitted : Entries String → Admission
  denied : Response → Admission

pub record RateLimiter : Type 1 where
  pub Store : Type 0
  pub limit : Request → Store → Admission × Store

-- The handler of /healthz
unfoldable pub handle_healthz : Response
handle_healthz =
    write (bytes_of "ok\n") (set_header "Content-Type" "text/plain; charset=utf-8" new_response)

pub data Route : Type 0 where
  healthz verify rotate cert_pem no_route : Route

-- The patterns of the mux, for a path in its clean form.
abbrev pub route : String → Route
route path =
    if path == "/healthz"
    then healthz
    else if path == "/v1/verify"
    then verify
    else if path == "/v1/rotate"
    then Route.rotate
    else if path == "/v1/cert.pem"
    then cert_pem
    else no_route

module _ {S Cert : Type 0} (pem_block : Cert → Bytes) (cp : S → Outcome (List Cert))
    (sc : Bytes → S → Outcome Bool) (sr : Bytes → Action S Bytes) where
  -- A panic of a handler ends the request without a response.
  abbrev pub verified : Response → Outcome Bool → Outcome Response
  verified w (ok valid) = ok (write_header (if valid then status_ok else status_conflict) w)
  verified w (err e) = ok (write_header status_internal_server_error w)
  verified w panic = panic

  -- The handler of /v1/verify behind the rate limiter
  unfoldable pub handle_verify : Response → Request → S → Outcome Response
  handle_verify w r s = elim r.body [
    | ok content ↦ verified w (sc content s)
    | err e ↦ ok (write_header status_bad_request w)
    | panic ↦ panic
  ]

  abbrev pub rotated : Outcome Bytes → Outcome Response
  rotated (ok new_secret) = ok (
      write new_secret
        (set_header "Content-Type" "application/json" (write_header status_ok new_response)))
  rotated (err e) = ok (write_header status_internal_server_error new_response)
  rotated panic = panic

  abbrev rotate_body : Bytes → Action S Response
  rotate_body content s = let (out, s') = sr content s in (rotated out, s')

  -- The handler of /v1/rotate
  unfoldable pub handle_rotate : Request → Action S Response
  handle_rotate r = elim r.body [
    | ok content ↦ rotate_body content
    | err e ↦ return (write_header status_bad_request new_response)
    | panic ↦ lift panic
  ]

  -- The loop over the certificates
  unfoldable pub write_certs : List Cert → Response → Response
  write_certs [] w = w
  write_certs (cert ∷ certs) w = write_certs certs (write (pem_block cert) w)

  -- The handler of /v1/cert.pem
  unfoldable pub handle_cert : S → Outcome Response
  unfolding write_certs
  handle_cert s = elim (cp s) [
    | ok certs ↦
        ok (write_certs certs (set_header "Content-Type" "application/x-pem-file" new_response))
    | err e ↦ ok (http_error "cannot get certificate" status_internal_server_error)
    | panic ↦ panic
  ]

  module _ (l : RateLimiter) where
    abbrev pub Server : Type 0
    Server = S × l.Store

    -- RateLimit around a handler, which gets a response with the limiter's headers.
    abbrev pub limited : Admission → (Response → Outcome Response) → Outcome Response
    limited (admitted headers) handle = handle (record new_response { header = headers })
    limited (denied w) handle = ok w

    abbrev pub respond : Route → Request → Action Server Response
    respond healthz r t = (ok handle_healthz, t)
    respond verify r t =
        let (admission, store) = l.limit r t.1 in
        (limited admission (λ w. handle_verify w r t.0), (t.0, store))
    respond Route.rotate r t = let (w, s) = handle_rotate r t.0 in (w, (s, t.1))
    respond cert_pem r t = (handle_cert t.0, t)
    respond no_route r t = (ok (http_error "404 page not found" 404), t)

    -- httpserver: what its mux does with a request
    unfoldable pub httpserver : Request → Action Server Response
    unfolding handle_healthz handle_verify handle_rotate handle_cert
    httpserver r t = respond (route r.path) r t
