-- ===== src/PartyStore/Successors.antt =====
-- create_epoch_approval of prototype/locus/party_store.py. It runs two transactions, each of them a
-- function.
use locus_v.Prelude.{ℕ, Bool, not, ◌&&◌, ◌||◌, Option, none, some, ◌∷◌}
use locus_v.Prelude.Eq.{◌==◌, nat_eq, list_eq, option_eq}
use locus_v.Prelude.Results.{ok, raise, ◌>>=◌, ◌>>◌, raise_if, or_raise}
use locus_v.Certificates.Values.{Text, Bytes}
use locus_v.Certificates.Hash.{Crypto}
use locus_v.Certificates.Config.{AuthorizerConfig, key_of}
use locus_v.Certificates.Votes.{AuthorizerSigner, public_key_hex}
use locus_v.Lifecycle.Transition.{
  EpochTransition, verify_configs, transition_to_dict, transition_hash,
}
use locus_v.Lifecycle.Approval.{
  EpochApproval, create_approval, approval_to_dict, approval_from_dict,
}
use locus_v.PartyStore.EpochTables.{TransitionLock, at_transition}
use locus_v.PartyStore.Tables.{
  invalid_state, conflict, Stored, EpochRow, SlotLock, Store, is_active, select, update, found,
  at_epoch, append_audit,
}
use locus_v.PartyStore.Authorizations.{is_installed}
use locus_v.PartyStore.Methods.{Outcome, commit}
use locus_v.PartyStore.Runtime.{pass, catch}

-- _matching_predecessor
abbrev pub matching_predecessor : EpochTransition → EpochRow → Bool
matching_predecessor t r =
    r.config_digest == t.predecessor_config_digest
    && r.backup_digest == t.predecessor_backup_digest
    && r.installed_head == t.predecessor_head
    && r.consumed == t.predecessor_consumed
    && r.budget == t.predecessor_budget

abbrev pub unresolved : Text → ℕ → SlotLock → Bool
unresolved bid epoch r = r.bid == bid && r.epoch == epoch && not (is_installed r.state)

abbrev pub transition_of : EpochTransition → TransitionLock → Bool
transition_of t r = at_transition t.bid t.predecessor_epoch r

-- The row of the INSERT into epoch_transition_locks.
abbrev pub new_transition_lock : Crypto → EpochTransition → Text → TransitionLock
new_transition_lock crypto t hash = record {
  bid = t.bid;
  predecessor_epoch = t.predecessor_epoch;
  transition_hash = hash;
  transition_bytes = crypto.encode (transition_to_dict t);
  approval_bytes = none;
}

-- The steps after the tests of an existing lock.
abbrev pub require_predecessor : EpochTransition → AuthorizerSigner → Store → Stored EpochRow
require_predecessor t signer s = do
  row ← or_raise (select (at_epoch t.bid t.predecessor_epoch) s.epochs) invalid_state
  raise_if
      (not (is_active row.status)
        || not (row.party_id == signer.party_id)
        || not (matching_predecessor t row))
      invalid_state
  ok row

abbrev pub check_resolved : EpochTransition → Store → Stored (Unit {0})
check_resolved t s =
    raise_if (found (select (unresolved t.bid t.predecessor_epoch) s.slot_locks)) conflict

abbrev pub read_approval_bytes : Crypto → Option Bytes → Stored (Option EpochApproval)
read_approval_bytes crypto none = ok none
read_approval_bytes crypto (some bytes) = do
  a ← pass (approval_from_dict (crypto.loads bytes))
  ok (some a)

-- An existing lock that has no approval, or has one.
abbrev pub approve_again :
    EpochTransition
    → AuthorizerSigner
    → Store
    → Option EpochApproval
    → Stored (Option EpochApproval × Store)
approve_again t signer s (some a) = ok (some a, s)
approve_again t signer s none = do
  _ ← require_predecessor t signer s
  check_resolved t s
  ok (none, s)

abbrev pub approve_over :
    Crypto
    → EpochTransition
    → Text
    → AuthorizerSigner
    → Store
    → Option TransitionLock
    → Stored (Option EpochApproval × Store)
approve_over crypto t hash signer s (some existing) = do
  raise_if
      (not (existing.transition_hash == hash)
        || not (existing.transition_bytes == crypto.encode (transition_to_dict t)))
      conflict
  stored ← read_approval_bytes crypto existing.approval_bytes
  approve_again t signer s stored
approve_over crypto t hash signer s none = do
  _ ← require_predecessor t signer s
  check_resolved t s
  ok (
    none,
    record s {
      transition_locks = new_transition_lock crypto t hash ∷ s.transition_locks;
      audit_events =
          append_audit crypto "EPOCH_TRANSITION_LOCKED" t.bid t.predecessor_epoch hash
            s.audit_events;
    },
  )

-- The tests and the first transaction of create_epoch_approval: a stored approval, or a lock.
unfoldable pub lock_transition :
    Crypto
    → EpochTransition
    → AuthorizerConfig
    → AuthorizerConfig
    → AuthorizerSigner
    → Store
    → Stored (Option EpochApproval × Store)
unfolding verify_configs transition_hash public_key_hex append_audit
lock_transition crypto t predecessor successor signer s = do
  catch (verify_configs crypto t predecessor successor)
  raise_if
      (not (key_of predecessor.public_keys signer.party_id == some (public_key_hex crypto signer)))
      invalid_state
  hash ← pass (transition_hash crypto t)
  approve_over crypto t hash signer s (select (transition_of t) s.transition_locks)

abbrev pub set_approval : Bytes → TransitionLock → TransitionLock
set_approval bytes r = record r { approval_bytes = some bytes }

abbrev pub keep_approval : EpochTransition → Bytes → Store → Option Bytes → Stored Store
keep_approval t bytes s (some stored) = do raise_if (not (stored == bytes)) conflict; ok s
keep_approval t bytes s none = ok (record s {
  transition_locks = update (transition_of t) (set_approval bytes) s.transition_locks;
})

-- The second transaction of create_epoch_approval, after the approval was signed.
unfoldable pub store_approval :
    Crypto → EpochTransition → AuthorizerSigner → Store → Stored (EpochApproval × Store)
unfolding create_approval transition_hash
store_approval crypto t signer s = do
  approval ← pass (create_approval crypto t signer)
  row ← or_raise (select (transition_of t) s.transition_locks) conflict
  hash ← pass (transition_hash crypto t)
  raise_if (not (row.transition_hash == hash)) conflict
  u ← keep_approval t (crypto.encode (approval_to_dict approval)) s row.approval_bytes
  ok (approval, u)

-- Signs and stores unless the first transaction found a stored approval.
abbrev pub approve_after :
    Store
    → (Store → Stored (EpochApproval × Store))
    → Stored (Option EpochApproval × Store)
    → Outcome EpochApproval
approve_after s store (ok (some a, t)) = (ok a, t)
approve_after s store (ok (none, t)) = commit t (store t)
approve_after s store (raise e) = (raise e, s)

unfoldable pub create_epoch_approval :
    Crypto
    → EpochTransition
    → AuthorizerConfig
    → AuthorizerConfig
    → AuthorizerSigner
    → Store
    → Outcome EpochApproval
unfolding lock_transition store_approval
create_epoch_approval crypto t predecessor successor signer s =
    approve_after s (store_approval crypto t signer)
      (lock_transition crypto t predecessor successor signer s)
