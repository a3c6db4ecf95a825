-- ===== src/PartyStore/Activating.antt =====
-- What activate_successor_epoch of prototype/locus/party_store.py does to the tables.
use locus_v.Prelude.{
  ◌+◌, ◌≡◌, ◌⊎◌, Bool, true, false, not, ◌&&◌, Option, none, some, refl, subst, ◌∙◌, arith, inl,
  inr, if◌then◌else◌, Bool-cases,
}
use locus_v.Prelude.Eq.{nat_eq, list_eq, option_eq}
use locus_v.Prelude.Results.{ok, bind-ok, raise_if-ok, or_raise}
use locus_v.Certificates.Values.{Text}
use locus_v.Certificates.Hash.{Crypto}
use locus_v.Certificates.Config.{AuthorizerConfig}
use locus_v.Lifecycle.Transition.{EpochTransition, transition_hash}
use locus_v.Lifecycle.Activation.{EpochActivationCertificate, verify_activation, activation_hash}
use locus_v.Lifecycle.Accepted.{verify_activation-IsActivated}
use locus_v.Lifecycle.RoundTrip.{read_transition_lem, validate_transition-read}
use locus_v.PartyStore.Tables.{conflict, EpochRow, Store, is_active, found}
use locus_v.PartyStore.Runtime.{pass, catch}
use locus_v.PartyStore.Successors.{matching_predecessor}
use locus_v.PartyStore.Activate.{
  epoch_state, is_done, read_local_ready, is_ready, activate_new, activate_successor_epoch, holds,
  activate_rows,
}
use locus_v.PartyStore.Caught.{catch-ok}
use locus_v.PartyStore.EpochSteps.{
  EpochStep, transition_locked, approval_stored, successor_prepared, package_registered,
  successor_activated, Aside, Activates,
}
use locus_v.PartyStore.OnEpochs.{aside, lock_transition-Aside, store_approval-Stored}
use locus_v.PartyStore.OnPackages.{prepare_successor_epoch-Aside, register-Aside}

holds-some :
    {A : Type 0} (test : A → Bool) (o : Option A)
    → holds test o ≡ true
    → (x : A) × (o ≡ some x) × (test x ≡ true)
holds-some test none h = absurd (cc)
holds-some test (some x) h = (x, refl, h)

not_found : {A : Type 0} (o : Option A) → found o ≡ false → o ≡ none
not_found none h = refl
not_found (some x) h = absurd (cc)

activate_new-Activates :
    (crypto : Crypto) (t : EpochTransition) (g : Text) (s u : Store)
    → t.successor_epoch ≡ t.predecessor_epoch + 1
    → activate_new crypto t g (epoch_state t s) s ≡ ok u
    → Activates s u
activate_new-Activates crypto t g s u consecutive h =
    let e = epoch_state t s in
    let (ready, _, h1) = bind-ok (read_local_ready crypto e.preparation) _ _ h in
    let (hash, _, h2) = bind-ok (pass (transition_hash crypto t)) _ _ h1 in
    let (good, h3) = raise_if-ok (not (is_ready t hash ready e)) _ _ _ h2 in
    let (prepared, _, h4) = bind-ok (or_raise e.preparation conflict) _ _ h3 in
    let at : holds (λ (r : EpochRow). is_active r.status && matching_predecessor t r) e.predecessor
        ≡ true =
      ground (arith, good) in
    let free : found e.successor ≡ false = ground (arith, good) in
    let (row, found_row, fits) =
      holds-some (λ (r : EpochRow). is_active r.status && matching_predecessor t r) e.predecessor
        at in
    let o : activate_rows crypto t hash g prepared.party_id s ≡ u = ground (arith, h4) in
    subst (Activates s) o (record {
      transition = t;
      consecutive = consecutive;
      party_id = prepared.party_id;
      predecessor = row;
      found_predecessor = found_row;
      was_active = ground (arith, fits);
      matched = ground (arith, fits);
      fresh = not_found e.successor free;
      epochs = refl;
      same_attempts = refl;
      same_locks = refl;
      same_phases = refl;
      same_transitions = refl;
    })

pub activate_successor_epoch_cases :
    (crypto : Crypto) (c : EpochActivationCertificate) (p q : AuthorizerConfig) (g : Text)
    (s u : Store)
    → activate_successor_epoch crypto c p q s ≡ ok (g, u)
    → (s ≡ u) ⊎ Activates s u
unfolding activate_successor_epoch
activate_successor_epoch_cases crypto c p q g s u h =
    let (_, verified, h1) = bind-ok (catch (verify_activation crypto c p q)) _ _ h in
    let x =
      verify_activation-IsActivated crypto c p q
        (catch-ok (verify_activation crypto c p q) tt verified) in
    let consecutive =
      (read_transition_lem c.transition c.transition
        (validate_transition-read c.transition x.valid)).1 in
    let (w, k, h2) =
      bind-ok
        (if is_done (activation_hash crypto c) (epoch_state c.transition s)
          then ok s
          else activate_new crypto c.transition (activation_hash crypto c)
              (epoch_state c.transition s) s)
        _ _ h1 in
    let o : w ≡ u = ground (arith, h2) in
    elim (Bool-cases (is_done (activation_hash crypto c) (epoch_state c.transition s))) [
      | inl e ↦ inl (ground (arith, e, k) ∙ o)
      | inr e ↦ inr (
          subst (Activates s) o (
            activate_new-Activates crypto c.transition (activation_hash crypto c) s w consecutive
              (ground (arith, e, k))))
    ]

-- A transaction on successor epochs leaves the epochs alone or activates one.
pub EpochStep-cases :
    (crypto : Crypto) (s u : Store) → EpochStep crypto s u → Aside s u ⊎ Activates s u
EpochStep-cases crypto s u (transition_locked t p q g v h) =
    inl (lock_transition-Aside crypto t p q g s u v h)
EpochStep-cases crypto s u (approval_stored t g a h) =
    inl (store_approval-Stored crypto t g s u a h).change
EpochStep-cases crypto s u (successor_prepared c t p q g parameters party_state r h) =
    inl (prepare_successor_epoch-Aside crypto c t p q g parameters party_state s u r h)
EpochStep-cases crypto s u (package_registered c p parameters party_state g h) =
    inl (register-Aside crypto c p parameters party_state s u g h)
EpochStep-cases crypto s u (successor_activated c p q g h) =
    elim (activate_successor_epoch_cases crypto c p q g s u h) [
      | inl o ↦ inl (subst (Aside s) o (aside s))
      | inr a ↦ inr a
    ]
