-- ===== src/PartyStore/OnEpochs.antt =====
-- What the transactions of create_epoch_approval of prototype/locus/party_store.py do to the tables.
use locus_v.Prelude.{◌≡◌, not, ◌||◌, Option, none, some, refl, subst, arith}
use locus_v.Prelude.Eq.{◌==◌, nat_eq, list_eq, option_eq, eq_of_beq}
use locus_v.Prelude.Results.{ok, bind-ok, raise_if-ok, or_raise}
use locus_v.Certificates.Values.{Text, Bytes}
use locus_v.Certificates.Hash.{Crypto}
use locus_v.Certificates.Config.{AuthorizerConfig}
use locus_v.Certificates.Votes.{AuthorizerSigner}
use locus_v.Lifecycle.Transition.{EpochTransition, transition_hash, verify_configs}
use locus_v.Lifecycle.Approval.{EpochApproval, create_approval, approval_to_dict}
use locus_v.PartyStore.EpochTables.{TransitionLock}
use locus_v.PartyStore.Tables.{conflict, Stored, Store, select, update}
use locus_v.PartyStore.Runtime.{pass, catch}
use locus_v.PartyStore.Successors.{
  transition_of, new_transition_lock, require_predecessor, check_resolved, read_approval_bytes,
  approve_again, approve_over, lock_transition, set_approval, keep_approval, store_approval,
}
use locus_v.PartyStore.Caught.{pass-ok}
use locus_v.PartyStore.EpochSteps.{same, added, changed, Aside}

-- The tables that a transaction on packages and preparations leaves alone.
pub aside : (s : Store) → Aside s s
aside s = record {
  same_epochs = refl;
  same_attempts = refl;
  same_locks = refl;
  same_phases = refl;
  transitions = same;
}

pub ends-Aside :
    {A : Type 0} (a b : A) (s t u : Store)
    → Aside s u
    → ◌≡◌ {A = Stored (A × Store)} (ok (a, u)) (ok (b, t))
    → Aside s t
ends-Aside a b s t u h e = let o : u ≡ t = ground (arith, e) in subst (Aside s) o h

approve_again-Aside :
    (t : EpochTransition) (g : AuthorizerSigner) (s u : Store) (o v : Option EpochApproval)
    → approve_again t g s o ≡ ok (v, u)
    → Aside s u
approve_again-Aside t g s u (some a) v h = ends-Aside (some a) v s u s (aside s) h
approve_again-Aside t g s u none v h =
    let (_, _, h1) = bind-ok (require_predecessor t g s) _ _ h in
    let (_, _, h2) = bind-ok (check_resolved t s) _ _ h1 in ends-Aside none v s u s (aside s) h2

approve_over-Aside :
    (crypto : Crypto) (t : EpochTransition) (hash : Text) (g : AuthorizerSigner) (s u : Store)
    (o : Option TransitionLock) (v : Option EpochApproval)
    → select (transition_of t) s.transition_locks ≡ o
    → approve_over crypto t hash g s o ≡ ok (v, u)
    → Aside s u
approve_over-Aside crypto t hash g s u (some existing) v at h =
    let (_, h1) =
      raise_if-ok
        (not (existing.transition_hash == hash)
          || not
              (existing.transition_bytes == (new_transition_lock crypto t hash).transition_bytes))
        _ _ _ h in
    let (o, _, h2) = bind-ok (read_approval_bytes crypto existing.approval_bytes) _ _ h1 in
    approve_again-Aside t g s u o v h2
approve_over-Aside crypto t hash g s u none v at h =
    let (_, _, h1) = bind-ok (require_predecessor t g s) _ _ h in
    let (_, _, h2) = bind-ok (check_resolved t s) _ _ h1 in
    ends-Aside none v s u _
      (record {
        same_epochs = refl;
        same_attempts = refl;
        same_locks = refl;
        same_phases = refl;
        transitions = added (new_transition_lock crypto t hash) at;
      })
      h2

pub lock_transition-Aside :
    (crypto : Crypto) (t : EpochTransition) (p q : AuthorizerConfig) (g : AuthorizerSigner)
    (s u : Store) (v : Option EpochApproval)
    → lock_transition crypto t p q g s ≡ ok (v, u)
    → Aside s u
unfolding lock_transition
lock_transition-Aside crypto t p q g s u v h =
    let (_, _, h1) = bind-ok (catch (verify_configs crypto t p q)) _ _ h in
    let (_, h2) = raise_if-ok _ _ _ _ h1 in
    let (hash, _, h3) = bind-ok (pass (transition_hash crypto t)) _ _ h2 in
    approve_over-Aside crypto t hash g s u (select (transition_of t) s.transition_locks) v refl h3

or_raise-ok : {A : Type 0} (o : Option A) (x : A) → or_raise o conflict ≡ ok x → o ≡ some x
or_raise-ok none x h = absurd (cc)
or_raise-ok (some y) x h = cc

-- The party has signed an approval of the transition, of which its lock has the hash.
pub record ApprovalStored (crypto : Crypto) (t : EpochTransition) (s u : Store) : Type 0 where
  pub change : Aside s u
  pub hash : Text
  pub hash_of : transition_hash crypto t ≡ ok hash
  pub row : TransitionLock
  pub found_row : select (transition_of t) s.transition_locks ≡ some row
  pub same_hash : row.transition_hash ≡ hash

pub keep_approval-Aside :
    (t : EpochTransition) (b : Bytes) (s u : Store) (o : Option Bytes)
    → keep_approval t b s o ≡ ok u
    → Aside s u
keep_approval-Aside t b s u (some stored) h =
    let (_, h1) = raise_if-ok (not (stored == b)) _ _ _ h in
    let o : s ≡ u = ground (arith, h1) in subst (Aside s) o (aside s)
keep_approval-Aside t b s u none h =
    let o : record s {
      transition_locks = update (transition_of t) (set_approval b) s.transition_locks;
    }
        ≡ u =
      ground (arith, h) in
    subst (Aside s) o (record {
      same_epochs = refl;
      same_attempts = refl;
      same_locks = refl;
      same_phases = refl;
      transitions =
          changed (transition_of t) (set_approval b)
            (λ x. record { same_bid = refl; same_epoch = refl; same_hash = refl });
    })

pub store_approval-Stored :
    (crypto : Crypto) (t : EpochTransition) (g : AuthorizerSigner) (s u : Store) (a : EpochApproval)
    → store_approval crypto t g s ≡ ok (a, u)
    → ApprovalStored crypto t s u
unfolding store_approval
store_approval-Stored crypto t g s u a h =
    let (b, _, h1) = bind-ok (pass (create_approval crypto t g)) _ _ h in
    let (row, at, h2) =
      bind-ok (or_raise (select (transition_of t) s.transition_locks) conflict) _ _ h1 in
    let (hash, k, h3) = bind-ok (pass (transition_hash crypto t)) _ _ h2 in
    let (equal, h4) = raise_if-ok (not (row.transition_hash == hash)) _ _ _ h3 in
    let (w, kept, h5) =
      bind-ok (keep_approval t (crypto.encode (approval_to_dict b)) s row.approval_bytes) _ _ h4 in
    record {
      change = ends-Aside b a s u w (keep_approval-Aside t _ s w row.approval_bytes kept) h5;
      hash = hash;
      hash_of = pass-ok (transition_hash crypto t) hash k;
      row = row;
      found_row = or_raise-ok (select (transition_of t) s.transition_locks) row at;
      same_hash = eq_of_beq row.transition_hash hash (ground (arith, equal));
    }
