-- ===== src/Lib.antt =====
-- Sealed Secrets: a controller that turns SealedSecret objects, whose items are encrypted for the controller's key,
-- into the Secrets of a Kubernetes cluster.
--
-- The parts, and the files that model them:
--   Base        what all share: tests, lists, outcomes (a value, an error or a panic), Go maps (nil or a table),
--               the bytes of a text, strings.Split, and actions on a state that may fail.
--   Scope       the scopes, their annotations and the label for encryption: SealingScope, EncryptionLabel,
--               SecretScope, UpdateScopeAnnotations, StripLastAppliedAnnotations of
--               pkg/apis/sealedsecrets/v1alpha1/sealedsecret_expansion.go.
--   Crypto      pkg/crypto/crypto.go: HybridEncrypt, HybridDecrypt, singleDecrypt, PublicKeyFingerprint.
--   Sealed      NewSealedSecret, NewSealedSecretV1 (Sealed/Seal) and SealedSecret.Unseal (Sealed/Unseal) of
--               sealedsecret_expansion.go, over the types of pkg/apis/sealedsecrets/v1alpha1/types.go.
--   World       the Kubernetes API, the clock, the random source, x509 and PEM as an abstract record of functions
--               on a state.
--   Registry    pkg/controller/keyregistry.go: the keys by fingerprint, and the most recent one.
--   Keys        pkg/crypto/keys.go and pkg/controller/keys.go: making, reading and storing key pairs.
--   Funcs       pkg/controller/funcs.go: validateKeyPrefix, removeDuplicates, and ScheduleJobWithTrigger as a step
--               relation on its goroutines (Funcs/Schedule).
--   Startup     generateKey of keyregistry.go; initKeyRegistry and initKeyRenewal of pkg/controller/main.go, and
--               Main itself up to the servers (Startup/Main), with prepareController and NewController
--               (Startup/Informers); mainE of cmd/controller/main.go with pkg/log/log.go and
--               pkg/buildinfo/version.go (Startup/Process).
--   Controller  pkg/controller/controller.go: unseal, which gets a sealed secret, unseals it with the keys of the
--               registry, creates or updates the Secret, and records the outcome in the status of the sealed
--               secret, in events and in the metrics of pkg/controller/metrics.go; processNextItem with its retries
--               (Controller/Queue); runWorker, HasSynced and Run (Controller/Worker); AttemptUnseal and Rotate
--               (Controller/Rotate); the event handlers of the informers (Controller/Watch). Two runs after each
--               other are the subject of Controller/Convergence, a secret that is not there yet of
--               Controller/Fresh.
--   Multidoc    pkg/multidocyaml/multidocyaml.go.
--   Kubeseal    pkg/kubeseal/kubeseal.go, the library of the command line: the reading of documents
--               (Kubeseal/Documents), Seal with its preparation of a secret (Kubeseal/Prepare, Kubeseal/Seal),
--               SealMergingInto (Kubeseal/Merge; what the merge opens to: Kubeseal/MergedItems), EncryptSecretItem
--               and ParseFromFile (Kubeseal/Raw), the private keys and UnsealSealedSecret (Kubeseal/PrivateKeys,
--               Kubeseal/Recovery), OpenCert and ParseKey (Kubeseal/Cluster), ValidateSealedSecret and
--               ReEncryptSealedSecret (Kubeseal/Remote).
--   Cli         runCLI of cmd/kubeseal/main.go, which chooses a function of Kubeseal by the flags (Cli/Run), and main
--               with mainE (Cli/Process).
--   Flags       pkg/flagenv/flagenv.go and pkg/pflagenv/flagenv.go; Flags/Names describes the names of the variables.
--   Server      pkg/controller/server.go: the handlers, and with Server/Service what Main passes them. The client's
--               requests reach them through a proxy (Server/Validation, Server/Rotation).
--   Delivery    kubeseal and the controller together: from a secret to its sealed form and to the secret in the
--               cluster.
--   Examples    toy instances of the parameters and one example for each of the results.
--
-- How code corresponds to definitions: a Go function with an error result is a function into Outcome, and one that
-- changes state is an Action, which gives the state back beside an error too. A method with a pointer receiver
-- takes and returns the record. A range loop over a map visits the entries in the order of the table, which Go
-- leaves open, so the theorems hold for every order. A nil dereference, a write to a nil map and an index out of
-- range are the outcome panic. Loops are structural recursion, so there is no fuel but in decimal_digits and decimal, which are
-- given more digits than a number has, in the reading of documents, for which the number of the documents is
-- enough (Kubeseal/Reading), and in runWorker, for which one more than the keys of a queue that is shut down is
-- enough (Controller/Stopping).
--
-- Parameters, with what is relied on as named hypotheses: RSA-OAEP, AES-GCM, the random source and the SSH
-- fingerprint (Crypto.Primitives with IsCorrect, IsTotal, IsBinding, IsCollisionFree), base64, text/template with
-- the sprig functions, multierror and the decoder of objects (Sealed.Codecs with IsBase64), the work queue of
-- client-go (WorkQueue with IsRateLimited and IsClosing), what Run calls to wait (Runtime with IsWaiting), the
-- factories of informers (Factories), the YAML decoders, the serializers, json.Marshal, sort.Sort, the rate limiter
-- (RateLimiter with IsLimiting, IsOpen), the calls of files (FileCalls, KeyFiles), the client of a cluster with its proxy
-- (ClusterClient with IsProxy and IsRotationProxy), the JSON of client and server (Agree), and the World, with
-- IsSemantic for the comparison of secrets, IsOwnership for IsControlledBy, and IsVacant and IsStored for a
-- creation. IsBinding is the strongest form of security: no key and no label but the right ones open a ciphertext.
-- Bytes are natural numbers, times are nanoseconds since a zero that stands for a time that is not set, and the
-- errors of callees keep only their text. A format string is written out for names without characters that %q
-- escapes.
--
-- Not modelled: log lines, the locking of the registry, the inside of the informers, the start of the HTTP servers,
-- the signals and the shutdown, the registration and parsing of flags, the generated clients, the deployment
-- manifests.
pub mod Base
pub mod Scope
pub mod Crypto
pub mod Sealed
pub mod Funcs
pub mod World
pub mod Multidoc
pub mod Registry
pub mod Keys
pub mod Startup
pub mod Controller
pub mod Cli
pub mod Flags
pub mod Kubeseal
pub mod Server
pub mod Delivery
pub mod Examples
