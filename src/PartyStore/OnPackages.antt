-- ===== src/PartyStore/OnPackages.antt =====
-- What prepare_successor_epoch and register_initial_runtime_package of prototype/locus/party_store.py
-- do to the tables.
use locus_v.Prelude.{◌≡◌, not, ◌||◌, Option, none, some, ◌∷◌, refl, subst, arith}
use locus_v.Prelude.Eq.{◌==◌, nat_eq, list_eq, option_eq}
use locus_v.Prelude.Results.{ok, bind-ok, raise_if-ok, or_raise}
use locus_v.Certificates.Values.{Text, Bytes}
use locus_v.Certificates.Hash.{Crypto}
use locus_v.Certificates.Config.{AuthorizerConfig, config_digest, validate_config}
use locus_v.Certificates.Votes.{AuthorizerSigner}
use locus_v.Lifecycle.Transition.{EpochTransition, transition_hash, verify_configs}
use locus_v.Lifecycle.Package.{validate_package, package_digest, create_package}
use locus_v.Lifecycle.Ready.{EpochReady, create_ready, ready_to_dict, ready_from_dict}
use locus_v.PartyStore.EpochTables.{
  RuntimeState, Preparation, RuntimeRow, runtime_prepared, at_preparation, at_runtime,
}
use locus_v.PartyStore.Tables.{invalid_state, lift, Store, select, found, at_epoch}
use locus_v.PartyStore.Ledger.{EpochConfig, validate_epoch}
use locus_v.PartyStore.Slots.{no_bytes}
use locus_v.PartyStore.Runtime.{
  pass, catch, validate_runtime_components, register_over, register_initial_runtime_package,
  initial_package, runtime_state_of, runtime_row, same_runtime,
}
use locus_v.PartyStore.Successors.{transition_of, require_predecessor}
use locus_v.PartyStore.Preparations.{
  insert_runtime, prepare_again, prepare_new, prepare_epoch_over, prepare_successor_epoch,
  new_preparation,
}
use locus_v.PartyStore.EpochSteps.{same, Aside}
use locus_v.PartyStore.OnEpochs.{aside, ends-Aside}

prepare_again-Aside :
    (crypto : Crypto) (fresh : Preparation) (f : RuntimeState → RuntimeRow) (s u : Store)
    (existing : Preparation) (r : EpochReady)
    → prepare_again crypto fresh f s existing ≡ ok (r, u)
    → Aside s u
prepare_again-Aside crypto fresh f s u existing r h =
    let (_, h1) = raise_if-ok _ _ _ _ h in
    let (_, _, h2) =
      bind-ok
        (or_raise (select (at_runtime fresh.bid fresh.successor_epoch) s.runtime_packages)
          invalid_state)
        _ _ h1 in
    let (_, h3) = raise_if-ok _ _ _ _ h2 in
    let (q, _, h4) =
      bind-ok (pass (ready_from_dict (crypto.loads existing.readiness_bytes))) _ _ h3 in
    ends-Aside q r s u s (aside s) h4

prepare_new-Aside :
    (crypto : Crypto) (t : EpochTransition) (g : AuthorizerSigner) (fresh : Preparation)
    (f : RuntimeState → RuntimeRow) (q : EpochReady) (s u : Store) (r : EpochReady)
    → prepare_new crypto t g fresh f q s ≡ ok (r, u)
    → Aside s u
prepare_new-Aside crypto t g fresh f q s u r h =
    let (_, _, h1) = bind-ok (require_predecessor t g s) _ _ h in
    let (lock, _, h2) =
      bind-ok (or_raise (select (transition_of t) s.transition_locks) invalid_state) _ _ h1 in
    let (_, h3) =
      raise_if-ok
        (not (lock.transition_hash == fresh.transition_hash) || no_bytes lock.approval_bytes) _ _ _
        h2 in
    let (_, h4) =
      raise_if-ok (found (select (at_epoch t.bid t.successor_epoch) s.epochs)) _ _ _ h3 in
    let (_, _, h5) = bind-ok (insert_runtime (f runtime_prepared) s.runtime_packages) _ _ h4 in
    ends-Aside q r s u _
      (record {
        same_epochs = refl;
        same_attempts = refl;
        same_locks = refl;
        same_phases = refl;
        transitions = same;
      })
      h5

prepare_epoch_over-Aside :
    (crypto : Crypto) (t : EpochTransition) (g : AuthorizerSigner) (fresh : Preparation)
    (f : RuntimeState → RuntimeRow) (q : EpochReady) (s u : Store) (o : Option Preparation)
    (r : EpochReady)
    → prepare_epoch_over crypto t g fresh f q s o ≡ ok (r, u)
    → Aside s u
prepare_epoch_over-Aside crypto t g fresh f q s u (some x) r h =
    prepare_again-Aside crypto fresh f s u x r h
prepare_epoch_over-Aside crypto t g fresh f q s u none r h =
    prepare_new-Aside crypto t g fresh f q s u r h

pub prepare_successor_epoch-Aside :
    (crypto : Crypto) (c : EpochConfig) (t : EpochTransition) (p q : AuthorizerConfig)
    (g : AuthorizerSigner) (parameters party_state : Option Bytes) (s u : Store) (r : EpochReady)
    → prepare_successor_epoch crypto c t p q g parameters party_state s ≡ ok (r, u)
    → Aside s u
unfolding prepare_successor_epoch
prepare_successor_epoch-Aside crypto c t p q g parameters party_state s u r h =
    let (_, _, h1) = bind-ok (validate_epoch c) _ _ h in
    let (_, _, h2) = bind-ok (catch (verify_configs crypto t p q)) _ _ h1 in
    let (_, _, h3) = bind-ok (validate_runtime_components parameters party_state) _ _ h2 in
    let (_, h4) = raise_if-ok _ _ _ _ h3 in
    let (descriptor, _, h5) =
      bind-ok (catch (create_package crypto t q g.party_id parameters party_state)) _ _ h4 in
    let (ready, _, h6) = bind-ok (pass (create_ready crypto t descriptor g)) _ _ h5 in
    let (hash, _, h7) = bind-ok (pass (transition_hash crypto t)) _ _ h6 in
    let (digest, _, h8) = bind-ok (pass (package_digest crypto descriptor)) _ _ h7 in
    prepare_epoch_over-Aside crypto t g
      (new_preparation t hash c g.party_id (crypto.encode (ready_to_dict ready)))
      (runtime_row crypto descriptor digest q parameters party_state) ready s u
      (select (at_preparation t.bid t.successor_epoch) s.preparations) r h8

register_over-Aside :
    (f : RuntimeState → RuntimeRow) (state : Option RuntimeState) (s u : Store)
    (o : Option RuntimeRow)
    → register_over f state s o ≡ ok u
    → Aside s u
register_over-Aside f none s u none h = absurd (cc)
register_over-Aside f none s u (some x) h = absurd (cc)
register_over-Aside f (some state) s u none h =
    let o : record s { runtime_packages = f state ∷ s.runtime_packages } ≡ u = ground (arith, h) in
    subst (Aside s) o (record {
      same_epochs = refl;
      same_attempts = refl;
      same_locks = refl;
      same_phases = refl;
      transitions = same;
    })
register_over-Aside f (some state) s u (some x) h =
    let (_, h1) = raise_if-ok (not (same_runtime x (f state))) _ _ _ h in
    let o : s ≡ u = ground (arith, h1) in subst (Aside s) o (aside s)

pub register-Aside :
    (crypto : Crypto) (c : EpochConfig) (p : AuthorizerConfig)
    (parameters party_state : Option Bytes) (s u : Store) (g : Text)
    → register_initial_runtime_package crypto c p parameters party_state s ≡ ok (g, u)
    → Aside s u
unfolding register_initial_runtime_package
register-Aside crypto c p parameters party_state s u g h =
    let (_, _, h1) = bind-ok (validate_epoch c) _ _ h in
    let (_, _, h2) = bind-ok (lift (validate_config p)) _ _ h1 in
    let (_, _, h3) = bind-ok (validate_runtime_components parameters party_state) _ _ h2 in
    let (digest, _, h4) = bind-ok (lift (config_digest crypto p)) _ _ h3 in
    let (_, h5) = raise_if-ok _ _ _ _ h4 in
    let (_, _, h6) =
      bind-ok (pass (validate_package (initial_package crypto c parameters party_state))) _ _ h5 in
    let (row, _, h7) =
      bind-ok (or_raise (select (at_epoch c.bid c.epoch) s.epochs) invalid_state) _ _ h6 in
    let (_, h8) = raise_if-ok _ _ _ _ h7 in
    let (hash, _, h9) =
      bind-ok (pass (package_digest crypto (initial_package crypto c parameters party_state))) _ _
        h8 in
    let fresh : RuntimeState → RuntimeRow =
      runtime_row crypto (initial_package crypto c parameters party_state) hash p parameters
        party_state in
    let (w, k, h10) =
      bind-ok
        (register_over fresh (runtime_state_of row.status) s
          (select (at_runtime c.bid c.epoch) s.runtime_packages))
        _ _ h9 in
    ends-Aside hash g s u w
      (register_over-Aside fresh (runtime_state_of row.status) s w
        (select (at_runtime c.bid c.epoch) s.runtime_packages) k)
      h10
