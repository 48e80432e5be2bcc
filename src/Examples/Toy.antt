-- ===== src/Examples/Toy.antt =====
-- A toy of the cryptographic packages and of the encodings. Two key pairs, which are their own public keys; a
-- ciphertext that carries its key, its label and the message in the clear; and text that holds a byte as
-- a run of dots. It satisfies what the development relies on.
use Prim.Native.Char.{Char, char, code}
use mathlib.Core.Path.{ap₂}
use sealed_secrets.Base.{
  ℕ, suc, ◌+◌, ◌^◌, ◌<◌, String, ◌≡◌, refl, sym, ap, ◌∙◌, Bool, true, false, [], ◌∷◌, ◌++◌, own,
  Error, Outcome, ok, err, panic, Bytes, bytes_of, zero, ltb, ltb→lt, eqb, length, replicate,
  if◌then◌else◌, arith, eq_iff, subst, ◌≢◌, ok-injective,
}
use sealed_secrets.Base.Action.{Action}
use sealed_secrets.Crypto.{Primitives, public_key_fingerprint}
use sealed_secrets.Crypto.Laws.{IsCorrect, IsTotal, IsBinding}
use sealed_secrets.Sealed.{Codecs}
use sealed_secrets.Sealed.Items.{IsBase64}
use sealed_secrets.Registry.Held.{IsCollisionFree}

pub data ToyKey : Type 0 where
  key_a key_b : ToyKey

abbrev pub key_code : ToyKey → ℕ
key_code key_a = 1
key_code key_b = 2

abbrev pub key_name : ToyKey → String
key_name key_a = "a"
key_name key_b = "b"

-- The rest of a text behind a prefix.
abbrev pub strip : Bytes → Bytes → Outcome Bytes
strip [] rest = ok rest
strip (a ∷ label) [] = err (own "decryption error")
strip (a ∷ label) (b ∷ rest) =
    let r = strip label rest in if eqb a b then r else err (own "decryption error")

abbrev pub cut : ℕ → Bytes → Bytes → Outcome Bytes
cut n label rest = if eqb n (length label) then strip label rest else err (own "decryption error")

abbrev pub toy_encrypt : ToyKey → Bytes → Bytes → Action (Unit {0}) Bytes
toy_encrypt pk msg label rnd =
    let c = key_code pk ∷ length label ∷ (label ++ msg) in
    if ltb (length c) (2 ^ 16) then (ok c, rnd) else (err (own "message too long"), rnd)

abbrev pub toy_decrypt : ToyKey → Bytes → Bytes → Outcome Bytes
toy_decrypt sk (k ∷ n ∷ rest) label =
    if eqb k (key_code sk) then cut n label rest else err (own "decryption error")
toy_decrypt sk _ label = err (own "decryption error")

abbrev pub toy : Primitives
toy = record {
  Rand = Unit;
  PublicKey = ToyKey;
  PrivateKey = ToyKey;
  Block = Bytes;
  Aead = Bytes;
  SshKey = ToyKey;
  public = λ k. k;
  read_full = λ n rnd. (ok (replicate n 7), rnd);
  encrypt_oaep = toy_encrypt;
  decrypt_oaep = toy_decrypt;
  new_cipher = λ key. ok key;
  new_gcm = λ block. ok block;
  nonce_size = λ aed. 12;
  aead_seal = λ aed nonce msg. msg;
  aead_open = λ aed nonce c. ok c;
  new_public_key = λ pk. ok pk;
  fingerprint_sha256 = key_name;
}

eqb_refl : (n : ℕ) → eqb n n ≡ true
eqb_refl n = ground arith

eqb→eq : (a b : ℕ) → eqb a b ≡ true → a ≡ b
eqb→eq a b h = ground arith

key_code-injective : (k k' : ToyKey) → key_code k ≡ key_code k' → k ≡ k'
key_code-injective key_a key_a e = refl
key_code-injective key_a key_b e = absurd (omega arith)
key_code-injective key_b key_a e = absurd (omega arith)
key_code-injective key_b key_b e = refl

-- A test that guards a success was passed.
if_ok {ℓ} :
    {A : Type ℓ} (b : Bool) (x : Error) {r : Outcome A} {a : A}
    → (if b then r else err x) ≡ ok a
    → (b ≡ true) × (r ≡ ok a)
if_ok true x h = (refl, h)
if_ok false x h = cc

if_ne_panic {ℓ} :
    {A : Type ℓ} (b : Bool) (x : Error) {r : Outcome A}
    → r ≢ panic
    → (if b then r else err x) ≢ panic
if_ne_panic true x h e = h e
if_ne_panic false x h e = cc

strip-append : (label msg : Bytes) → strip label (label ++ msg) ≡ ok msg
strip-append [] msg = refl
strip-append (a ∷ label) msg = rw eqb_refl (strip-append label msg)

strip-ok :
    (label label' msg m : Bytes)
    → length label ≡ length label'
    → strip label' (label ++ msg) ≡ ok m
    → label' ≡ label
strip-ok [] [] msg m e h = refl
strip-ok [] (a ∷ label') msg m e h = absurd (omega (arith, e))
strip-ok (a ∷ label) [] msg m e h = absurd (omega (arith, e))
strip-ok (a ∷ label) (b ∷ label') msg m e h =
    let (same, rest) = if_ok (eqb b a) _ h in
    let same_rest = strip-ok label label' msg m (omega (arith, e)) rest in
    cc (eqb→eq b a same, same_rest)

strip-ne-panic : (label rest : Bytes) → strip label rest ≢ panic
strip-ne-panic [] rest e = cc
strip-ne-panic (a ∷ label) [] e = cc
strip-ne-panic (a ∷ label) (b ∷ rest) e = if_ne_panic (eqb a b) _ (strip-ne-panic label rest) e

toy_decrypt-ne-panic : (sk : ToyKey) (c label : Bytes) → toy_decrypt sk c label ≢ panic
toy_decrypt-ne-panic sk [] label e = cc
toy_decrypt-ne-panic sk (k ∷ []) label e = cc
toy_decrypt-ne-panic sk (k ∷ n ∷ rest) label e =
    if_ne_panic (eqb k (key_code sk)) _
      (if_ne_panic (eqb n (length label)) _ (strip-ne-panic label rest)) e

-- What a ciphertext decrypts to.
toy_decrypt-made :
    (sk : ToyKey) (msg label : Bytes)
    → toy_decrypt sk (key_code sk ∷ length label ∷ (label ++ msg)) label ≡ ok msg
toy_decrypt-made sk msg label = rw (eqb_refl, eqb_refl) (strip-append label msg)

toy_decrypt-ok :
    (sk pk : ToyKey) (msg label label' m : Bytes)
    → toy_decrypt sk (key_code pk ∷ length label ∷ (label ++ msg)) label' ≡ ok m
    → (sk ≡ pk) × (label' ≡ label)
toy_decrypt-ok sk pk msg label label' m h =
    let (same_code, h1) = if_ok (eqb (key_code pk) (key_code sk)) _ h in
    let (same_length, h2) = if_ok (eqb (length label) (length label')) _ h1 in
    (
      sym (key_code-injective pk sk (eqb→eq (key_code pk) (key_code sk) same_code)),
      strip-ok label label' msg m (eqb→eq (length label) (length label') same_length) h2,
    )

abbrev fits : Bool → Bytes → Error → Outcome Bytes × Unit {0}
fits b c x = if b then (ok c, tt) else (err x, tt)

if_fits :
    (b : Bool) (x : Error) {c c' : Bytes} → fits b c' x ≡ (ok c, tt {0}) → (b ≡ true) × (c' ≡ c)
if_fits true x h = (refl, ok-injective (ap (λ t. t.0) h))
if_fits false x h = cc (ap (λ t. t.0) h)

toy_encrypt-ok :
    (pk : ToyKey) (msg label c : Bytes)
    → toy_encrypt pk msg label tt ≡ (ok c, tt)
    → (c ≡ key_code pk ∷ length label ∷ (label ++ msg)) × (length c < 2 ^ 16)
toy_encrypt-ok pk msg label c e =
    let made = key_code pk ∷ length label ∷ (label ++ msg) in
    let (is_short, same) = if_fits (ltb (length made) (2 ^ 16)) _ e in
    (sym same, subst (λ l. length l < 2 ^ 16) same (ltb→lt (length made) (2 ^ 16) is_short))

pub toy-IsCorrect : IsCorrect toy
toy-IsCorrect = record {
  decrypt-encrypt = λ sk msg label rnd rnd' c e.
      subst (λ l. toy_decrypt sk l label ≡ ok msg) (sym (toy_encrypt-ok sk msg label c e).0)
        (toy_decrypt-made sk msg label);
  encrypt_length = λ pk msg label rnd rnd' c e. (toy_encrypt-ok pk msg label c e).1;
  aead_open-aead_seal = λ aed nonce msg. refl;
}

pub toy-IsTotal : IsTotal toy
toy-IsTotal = record { decrypt_returns = λ sk c label h. toy_decrypt-ne-panic sk c label h }

pub toy-IsBinding : IsBinding toy
toy-IsBinding = record {
  only_key = λ sk pk msg label label' rnd rnd' c m e h.
      toy_decrypt-ok sk pk msg label label' m
        (subst (λ l. toy_decrypt sk l label' ≡ ok m) (toy_encrypt-ok pk msg label c e).0 h);
}

key_name-injective : (k k' : ToyKey) → key_name k ≡ key_name k' → k ≡ k'
key_name-injective key_a key_a e = refl
key_name-injective key_a key_b e = absurd (cc ((eq_iff "a" "b").1 e))
key_name-injective key_b key_a e = absurd (cc ((eq_iff "b" "a").1 e))
key_name-injective key_b key_b e = refl

pub toy-IsCollisionFree : IsCollisionFree toy
unfolding public_key_fingerprint
toy-IsCollisionFree = record {
  same_key = λ pk pk' fp e e'. key_name-injective pk pk' (ok-injective (e ∙ sym e'));
}

abbrev dot : Char
dot = char 46 tt

abbrev comma : Char
comma = char 44 tt

-- A byte as a run of dots and a comma behind it.
abbrev dots : ℕ → String → String
dots zero s = String.◌∷◌ dot s
dots (suc n) s = String.◌∷◌ comma (dots n s)

abbrev pub toy_encode : Bytes → String
toy_encode [] = String.[]
toy_encode (b ∷ bs) = dots b (toy_encode bs)

abbrev pub toy_decode : ℕ → String → Bytes
toy_decode n String.[] = []
toy_decode n (String.◌∷◌ c s) =
    let end = n ∷ toy_decode 0 s in
    let more = toy_decode (suc n) s in if eqb (code c) 46 then end else more

toy_decode-dots : (n b : ℕ) (s : String) → toy_decode n (dots b s) ≡ (n + b) ∷ toy_decode 0 s
toy_decode-dots n zero s = ap (λ m. m ∷ toy_decode 0 s) (omega arith)
toy_decode-dots n (suc b) s =
    toy_decode-dots (suc n) b s ∙ ap (λ m. m ∷ toy_decode 0 s) (omega arith)

toy_decode-encode : (bs : Bytes) → toy_decode 0 (toy_encode bs) ≡ bs
toy_decode-encode [] = refl
toy_decode-encode (b ∷ bs) =
    toy_decode-dots 0 b (toy_encode bs) ∙ ap₂ (λ m l. m ∷ l) (omega arith) (toy_decode-encode bs)

abbrev pub toy_codecs : Codecs
toy_codecs = record {
  Template = String;
  base64_encode = toy_encode;
  base64_decode = λ s. ok (toy_decode 0 s);
  parse_template = λ name text. ok text;
  execute_template = λ template values. (bytes_of template, ok tt);
  tag_error = λ key e. e;
  join_errors = λ errs. own "errors";
  group_version = λ v. v;
  supports_json = true;
  encode_secret = λ secret. err (own "not encoded");
  decode_secret = λ bytes. err (own "not decoded");
}

pub toy_codecs-IsBase64 : IsBase64 toy_codecs
toy_codecs-IsBase64 = record { decode-encode = λ b. ap (λ l. ok l) (toy_decode-encode b) }
