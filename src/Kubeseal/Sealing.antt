-- ===== src/Kubeseal/Sealing.antt =====
-- What kubeseal writes, the controller unseals.
use sealed_secrets.Base.{◌≡◌, sym, ap, ◌∙◌, subst, Bool, ok}
use sealed_secrets.Base.Action.{bind-eq-ok, lift}
use sealed_secrets.Base.GoMap.{Entries, entries, IsTable}
use sealed_secrets.Crypto.{Primitives}
use sealed_secrets.Crypto.Laws.{IsCorrect, IsTotal, IsBinding, HasKey}
use sealed_secrets.Sealed.{Secret, SealedSecret, Codecs}
use sealed_secrets.Sealed.Seal.{new_sealed_secret}
use sealed_secrets.Sealed.Items.{IsBase64}
use sealed_secrets.Sealed.RoundTrip.{
  IsReopened, IsMade, applied, new_sealed_secret-IsMade, unseal-new_sealed_secret,
}
use sealed_secrets.Sealed.Unseal.{unseal}
use sealed_secrets.Kubeseal.{Serializers, Session, drawing}
use sealed_secrets.Kubeseal.Output.{sealed_secret_output}
use sealed_secrets.Kubeseal.Prepare.{SealOptions, ClientNamespace, prepare}
use sealed_secrets.Kubeseal.Prepared.{prepare-IsPrepared}
use sealed_secrets.Kubeseal.Seal.{seal_secret}

module _ {p : Primitives} (c : Codecs) (k : Serializers) (pub_key : p.PublicKey) (o : SealOptions)
    (client : ClientNamespace) where
  -- The secret was prepared, sealed and written, and the controller with its keys gets it back.
  pub record IsDelivered (keys : Entries p.PrivateKey) (flag : Bool) (cluster : SealedSecret)
      (secret : Secret) (s t : Session p) : Type 0 where
    pub prepared : Secret
    pub made : SealedSecret
    pub random : p.Rand
    pub opened : Secret
    pub is_prepared : prepare o client secret ≡ ok prepared
    pub is_made : IsMade p c pub_key prepared made
    pub is_written :
        sealed_secret_output k o.output_format made (record s { random = random }) ≡ (ok tt, t)
    pub is_opened : unseal p c flag (applied made cluster) keys ≡ ok opened
    pub is_reopened : IsReopened prepared opened

  module _ (correct : IsCorrect p) (total : IsTotal p) (binding : IsBinding p) (base64 : IsBase64 c)
      (keys : Entries p.PrivateKey) (held : HasKey p pub_key keys) where
    -- With an RSA-OAEP whose decryption undoes the encryption under the same key and label, returns no
    -- panic and fails for every other key and label, ciphertexts shorter than 65536 bytes, and an AES-
    -- GCM and a base64 that decode what they encoded: when the body of Seal's loop succeeds on a secret
    -- whose Data and StringData have no key twice, then it prepared the secret, made a sealed secret of
    -- that and wrote it to the output, and that sealed secret, applied to a cluster, is unsealed by
    -- private keys that hold one for the public key, and keeps the items and the rest of the prepared
    -- secret as sealing and unsealing does.
    pub seal_secret-IsDelivered :
        (flag : Bool) (cluster : SealedSecret) (secret : Secret) (s t : Session p)
        → IsTable (entries secret.secret_data)
        → IsTable (entries secret.string_data)
        → seal_secret c k pub_key o client secret s ≡ (ok tt, t)
        → IsDelivered keys flag cluster secret s t
    unfolding seal_secret
    seal_secret-IsDelivered flag cluster secret s t tables tables' e =
        let (prepared, s1, first, e1) = bind-eq-ok (lift (prepare o client secret)) _ s e in
        let (made, s2, second, e2) =
          bind-eq-ok (drawing (new_sealed_secret p c pub_key prepared)) _ s1 e1 in
        let unchanged : s ≡ s1 = ap (λ x. x.1) first in
        let drawn = new_sealed_secret p c pub_key prepared s.random in
        let second' : drawing (new_sealed_secret p c pub_key prepared) s ≡ (ok made, s2) =
          subst
            (λ (u : Session p). drawing (new_sealed_secret p c pub_key prepared) u ≡ (ok made, s2))
            (sym unchanged) second in
        let sealed : drawn ≡ (ok made, drawn.1) = ap (λ x. (x.0, drawn.1)) second' in
        let same =
          (prepare-IsPrepared o client secret prepared (ap (λ x. x.0) first)).same_contents in
        let (opened, is_opened, is_reopened) =
          unseal-new_sealed_secret p c pub_key prepared made s.random drawn.1 sealed correct total
            binding base64 keys held flag cluster
            (subst (λ m. IsTable (entries m)) (sym (ap (λ x. x.secret_data) same)) tables)
            (subst (λ m. IsTable (entries m)) (sym (ap (λ x. x.string_data) same)) tables') in
        record {
          prepared = prepared;
          made = made;
          random = drawn.1;
          opened = opened;
          is_prepared = ap (λ x. x.0) first;
          is_made = new_sealed_secret-IsMade p c pub_key prepared made s.random drawn.1 sealed;
          is_written =
              ap (sealed_secret_output k o.output_format made) (ap (λ x. x.1) second') ∙ e2;
          is_opened = is_opened;
          is_reopened = is_reopened;
        }
