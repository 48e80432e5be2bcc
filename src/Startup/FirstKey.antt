-- ===== src/Startup/FirstKey.antt =====
-- What generateKey and initKeyRenewal do to the registry.
use sealed_secrets.Base.{
  eqb, List-cases, if_both, ℕ, String, ◌≡◌, ◌≢◌, refl, sym, ap, ◌∙◌, subst, Bool, true, false, [],
  ◌∷◌, Option, none, some, Outcome, ok, err, panic, is_ok, ok-injective, inl, inr, >>=-eq-ok,
}
use sealed_secrets.Base.Action.{Action, continue, ◌>>=◌, bind-eq-ok, return}
use sealed_secrets.Crypto.{Primitives, public_key_fingerprint}
use sealed_secrets.World.{World}
use sealed_secrets.Registry.{Key, KeyRegistry, register_new_key, add_key, more_recent}
use sealed_secrets.Registry.Order.{IsOrdered, register_new_key-IsOrdered}
use sealed_secrets.Registry.Held.{IsCollisionFree, IsHeld, register_new_key-IsHeld}
use sealed_secrets.Keys.{generate_private_key_and_cert, write_key}
use sealed_secrets.Startup.Stored.{IsKeyStored, write_key-IsKeyStored}
use sealed_secrets.Startup.{
  Machine, registered, generate_key, needs_first_key, first_key, read_registry, most_recent_time,
  schedule, renewal_after, init_key_renewal, Renewal,
}

module _ {p : Primitives} (w : World p) where
  -- A key was not made or not registered, and the registry is what it was; or a key was generated, stored
  -- and, with the time of the clock, registered, and its name is returned.
  pub data Extends (valid_for : ℕ) (cn annotations labels : String) (kr : KeyRegistry w)
      (s : w.State) (x : Outcome String × Machine w) : Type 0 where
    kept : is_ok x.0 ≡ false → x.1.0 ≡ kr → Extends valid_for cn annotations labels kr s x
    added :
        (priv_key : p.PrivateKey) (cert : w.Cert) (s1 s2 : w.State) (name : String)
        → generate_private_key_and_cert w kr.keysize valid_for cn s ≡ (ok (priv_key, cert), s1)
        → IsKeyStored w kr annotations labels priv_key cert s1 s2 name
        → register_new_key w kr priv_key cert (w.now s2).0 ≡ ok x.1.0
        → x.1.1 ≡ (w.now s2).1
        → x.0 ≡ ok name
        → Extends valid_for cn annotations labels kr s x

  -- A step in the world fails, and the registry is what it was, or goes on.
  continue_world {ℓ} :
      {A : Type 0} {B : Type 0} (E : Outcome B × Machine w → Type ℓ) (kr : KeyRegistry w)
      (f : A → Action (Machine w) B) (x : Outcome A × w.State)
      → ((r : Outcome B) (s' : w.State) → is_ok r ≡ false → E (r, (kr, s')))
      → ((a : A) (s' : w.State) → x ≡ (ok a, s') → E (f a (kr, s')))
      → E (continue f (x.0, (kr, x.1)))
  continue_world E kr f (ok a, s') failed h = h a s' refl
  continue_world E kr f (err e, s') failed h = failed (err e) s' refl
  continue_world E kr f (panic, s') failed h = failed panic s' refl

  registered-Extends :
      (valid_for : ℕ) (cn annotations labels : String) (kr : KeyRegistry w) (s s1 s2 : w.State)
      (priv_key : p.PrivateKey) (cert : w.Cert) (name : String) (r : Outcome (KeyRegistry w))
      → generate_private_key_and_cert w kr.keysize valid_for cn s ≡ (ok (priv_key, cert), s1)
      → IsKeyStored w kr annotations labels priv_key cert s1 s2 name
      → register_new_key w kr priv_key cert (w.now s2).0 ≡ r
      → Extends valid_for cn annotations labels kr s
          (continue (λ _. return name) (registered w kr (w.now s2).1 r))
  registered-Extends valid_for cn annotations labels kr s s1 s2 priv_key cert name (ok kr') made
        stored e =
      added priv_key cert s1 s2 name made stored e refl refl
  registered-Extends valid_for cn annotations labels kr s s1 s2 priv_key cert name (err x) made
        stored e =
      kept refl refl
  registered-Extends valid_for cn annotations labels kr s s1 s2 priv_key cert name panic made stored
        e =
      kept refl refl

  pub generate_key-Extends :
      (valid_for : ℕ) (cn annotations labels : String) (kr : KeyRegistry w) (s : w.State)
      → Extends valid_for cn annotations labels kr s
          (generate_key w valid_for cn annotations labels (kr, s))
  unfolding generate_key
  generate_key-Extends valid_for cn annotations labels kr s =
      let E : Outcome String × Machine w → Type 0 = Extends valid_for cn annotations labels kr s in
      let failed : (r : Outcome String) (s' : w.State) → is_ok r ≡ false → E (r, (kr, s')) =
        λ r s' no. kept no refl in
      continue_world E kr _ (generate_private_key_and_cert w kr.keysize valid_for cn s) failed
        λ pair s1 made.
          continue_world E kr _
            (write_key w pair.0 (pair.1 ∷ []) kr.namespace kr.key_label kr.key_prefix annotations
              labels 0 s1)
            failed
            λ name s2 written.
              registered-Extends valid_for cn annotations labels kr s s1 s2 pair.0 pair.1 name _
                made
                (write_key-IsKeyStored w kr annotations labels pair.0 pair.1 s1 s2 name written)
                refl

  -- A registry that is fit for use: its most recent key is the latest, and is among the private keys.
  pub record IsSound (kr : KeyRegistry w) : Type 0 where
    pub is_ordered : IsOrdered w kr.keys kr.most_recent_key
    pub is_held : IsHeld w kr

  generate_key-IsSound :
      IsCollisionFree p
      → (valid_for : ℕ) (cn annotations labels : String) (kr : KeyRegistry w) (s : w.State)
      → IsSound kr
      → IsSound (generate_key w valid_for cn annotations labels (kr, s)).1.0
  generate_key-IsSound free valid_for cn annotations labels kr s h =
      elim (generate_key-Extends valid_for cn annotations labels kr s) [
        | kept _ same ↦ rw same h
        | added priv_key cert _ _ _ _ _ e _ _ ↦ record {
          is_ordered = register_new_key-IsOrdered w kr _ priv_key cert _ h.is_ordered e;
          is_held = register_new_key-IsHeld w free kr _ priv_key cert _ h.is_held e;
        }
      ]

  more_recent-ne-none : (o : Option (Key w)) (k : Key w) → more_recent w o k ≢ none
  unfolding more_recent
  more_recent-ne-none none k e = cc
  more_recent-ne-none (some m) k e =
      if_both (λ o. o ≢ none) _ (some k) (some m) (λ x. cc) (λ x. cc) e

  -- A successful registration leaves a most recent key.
  register_new_key-latest :
      (kr kr' : KeyRegistry w) (priv_key : p.PrivateKey) (cert : w.Cert) (t : ℕ)
      → register_new_key w kr priv_key cert t ≡ ok kr'
      → kr'.most_recent_key ≢ none
  unfolding register_new_key add_key
  register_new_key-latest kr kr' priv_key cert t e =
      let (fp, _, e') = >>=-eq-ok (public_key_fingerprint p (p.public priv_key)) _ e in
      subst (λ (r : KeyRegistry w). r.most_recent_key ≢ none) (ok-injective e')
        (more_recent-ne-none kr.most_recent_key _)

  generate_key-latest :
      (valid_for : ℕ) (cn annotations labels : String) (kr kr' : KeyRegistry w) (s s' : w.State)
      (name : String)
      → generate_key w valid_for cn annotations labels (kr, s) ≡ (ok name, (kr', s'))
      → kr'.most_recent_key ≢ none
  generate_key-latest valid_for cn annotations labels kr kr' s s' name e =
      elim (generate_key-Extends valid_for cn annotations labels kr s) [
        | kept failed _ ↦ cc (ap (λ x. is_ok x.0) e)
        | added priv_key cert _ s2 _ _ _ r _ _ ↦
            register_new_key-latest kr kr' priv_key cert (w.now s2).0 (r ∙ ap (λ x. ok x.1.0) e)
      ]

  -- needsKey answers no only if there is a most recent key.
  needs_first_key-no :
      (kr : KeyRegistry w) (cutoff_time : ℕ)
      → needs_first_key w kr cutoff_time ≡ ok false
      → kr.most_recent_key ≢ none
  unfolding needs_first_key
  needs_first_key-no kr cutoff_time e none_left = elim (List-cases kr.keys) [
    | inl empty ↦ cc (rw (empty, needs_first_key) at e)
    | inr (x, xs, more) ↦ cc (rw (more, needs_first_key, none_left) at e)
  ]

  first_key_lem :
      IsCollisionFree p
      → (stale : Bool) (valid_for : ℕ) (cn annotations labels : String) (kr kr' : KeyRegistry w)
        (s s' : w.State)
      → IsSound kr
      → (stale ≡ false → kr.most_recent_key ≢ none)
      → first_key w stale valid_for cn annotations labels (kr, s) ≡ (ok tt, (kr', s'))
      → IsSound kr' × (kr'.most_recent_key ≢ none)
  unfolding first_key
  first_key_lem free true valid_for cn annotations labels kr kr' s s' h fresh e =
      let (name, (kr1, s1), generated, done) =
        bind-eq-ok (generate_key w valid_for cn annotations labels) _ (kr, s) e in
      let same : kr1 ≡ kr' = ap (λ x. x.1.0) done in
      subst (λ (k : KeyRegistry w). IsSound k × (k.most_recent_key ≢ none)) same
        (
          subst IsSound (ap (λ x. x.1.0) generated)
              (generate_key-IsSound free valid_for cn annotations labels kr s h),
          generate_key-latest valid_for cn annotations labels kr kr1 s s1 name generated,
        )
  first_key_lem free false valid_for cn annotations labels kr kr' s s' h fresh e =
      subst (λ (k : KeyRegistry w). IsSound k × (k.most_recent_key ≢ none)) (ap (λ x. x.1.0) e)
        (h, fresh refl)

  continue_keeps {ℓ κ} :
      {A : Type ℓ} {B : Type κ} (kr : KeyRegistry w) (f : A → Action (Machine w) B) (r : Outcome A)
      (s : w.State)
      → ((a : A) → (f a (kr, s)).1.0 ≡ kr)
      → (continue f (r, (kr, s))).1.0 ≡ kr
  continue_keeps kr f (ok a) s h = h a
  continue_keeps kr f (err e) s h = refl
  continue_keeps kr f panic s h = refl

  -- The part of initKeyRenewal behind the first key leaves the registry alone.
  schedule_keeps :
      (period : ℕ) (kr : KeyRegistry w) (s : w.State) → (schedule w period (kr, s)).1.0 ≡ kr
  unfolding schedule
  schedule_keeps period kr s =
      if_both (λ (m : Action (Machine w) Renewal). (m (kr, s)).1.0 ≡ kr) (eqb period 0) _ _ refl
        (continue_keeps kr
          (λ now.
            read_registry w (most_recent_time w) >>= λ t. return (renewal_after w period now t))
          (ok (w.now s).0) (w.now s).1
          λ now.
            continue_keeps kr (λ t. return (renewal_after w period now t)) (most_recent_time w kr)
              (w.now s).1 λ t. refl)

  -- If public keys with one fingerprint are the same and the registry's most recent key is its latest
  -- and has its private key in it, then when initKeyRenewal returns without an error the registry is
  -- still so, and it has a most recent key, so that latestPrivateKey meets no nil pointer.
  pub init_key_renewal-IsSound :
      IsCollisionFree p
      → (period valid_for cutoff_time : ℕ) (cn annotations labels : String) (kr kr' : KeyRegistry w)
        (s s' : w.State) (r : Renewal)
      → IsSound kr
      → init_key_renewal w period valid_for cutoff_time cn annotations labels (kr, s)
        ≡ (ok r, (kr', s'))
      → IsSound kr' × (kr'.most_recent_key ≢ none)
  unfolding init_key_renewal
  init_key_renewal-IsSound free period valid_for cutoff_time cn annotations labels kr kr' s s' r h
        e =
      let (stale, (kr1, s1), asked, e1) =
        bind-eq-ok (read_registry w (λ k. needs_first_key w k cutoff_time)) _ (kr, s) e in
      let (done, (kr2, s2), first, e2) =
        bind-eq-ok (first_key w stale valid_for cn annotations labels) _ (kr1, s1) e1 in
      let same : kr ≡ kr1 = ap (λ x. x.1.0) asked in
      let answer : needs_first_key w kr1 cutoff_time ≡ ok stale =
        ap (λ k. needs_first_key w k cutoff_time) (sym same) ∙ ap (λ x. x.0) asked in
      let ready =
        first_key_lem free stale valid_for cn annotations labels kr1 kr2 s1 s2
          (subst IsSound same h)
          (λ no_need. needs_first_key-no kr1 cutoff_time (answer ∙ ap (λ b. ok b) no_need)) first in
      subst (λ (k : KeyRegistry w). IsSound k × (k.most_recent_key ≢ none))
        (sym (schedule_keeps period kr2 s2) ∙ ap (λ x. x.1.0) e2) ready
