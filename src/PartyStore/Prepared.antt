-- ===== src/PartyStore/Prepared.antt =====
-- The transactions of create_install_vote and install_certificate in prototype/locus/party_store.py as
-- changes of the locks alone.
use locus_v.Prelude.{◌≡◌, not, ◌||◌, Option, none, some, refl, subst}
use locus_v.Prelude.Eq.{◌==◌, nat_eq, list_eq, option_eq}
use locus_v.Prelude.Results.{ok, or_raise, bind-ok, raise_if-ok}
use locus_v.Certificates.Values.{Text, Bytes}
use locus_v.Certificates.Hash.{Crypto}
use locus_v.Certificates.Config.{AuthorizerConfig, config_digest}
use locus_v.Certificates.Entry.{AttemptEntry, entry_hash}
use locus_v.Certificates.Votes.{Vote, AuthorizerSigner, vote_to_dict, install_kind}
use locus_v.Certificates.Prepare.{PrepareCertificate, verify_prepare, prepare_hash}
use locus_v.Certificates.Authorization.{AuthorizationCertificate, create_install_vote}
use locus_v.PartyStore.Tables.{lift, conflict, Store, SlotLock, select, at_epoch, insert_lock}
use locus_v.PartyStore.Ledger.{require_active}
use locus_v.PartyStore.Slots.{
  slot_of, read_install_vote, other_prepare, no_bytes, set_prepare, prepare_over, lock_prepare,
  set_install_vote, keep_install_vote, store_install_vote,
}
use locus_v.PartyStore.Authorizations.{
  set_authorization, installed_lock, record_over, record_authorization,
}
use locus_v.PartyStore.Locks.{
  OnLocks, changed, kept, done, updated, ok_injective, insert-LockChange,
}

prepare_over-OnLocks :
    (crypto : Crypto) (p : PrepareCertificate) (s t : Store) (o v : Option Vote)
    → prepare_over crypto p s o ≡ ok (v, t)
    → OnLocks s t
prepare_over-OnLocks crypto p s t (some w) v h = done (some w) v s t s (kept s) h
prepare_over-OnLocks crypto p s t none v h =
    done none v s t _
      (record {
        same_epochs = refl;
        same_attempts = refl;
        same_phases = refl;
        same_transitions = refl;
        locks = changed (slot_of p.entry) (set_prepare crypto p) (λ x. record {
          same_bid = refl;
          same_epoch = refl;
          same_index = refl;
          same_hash = refl;
        });
      })
      h

pub lock_prepare-OnLocks :
    (crypto : Crypto) (p : PrepareCertificate) (c : AuthorizerConfig) (g : AuthorizerSigner)
    (s t : Store) (v : Option Vote)
    → lock_prepare crypto p c g s ≡ ok (v, t)
    → OnLocks s t
unfolding lock_prepare
lock_prepare-OnLocks crypto p c g s t v h =
    let (_, _, h1) = bind-ok (lift (verify_prepare crypto p c)) _ _ h in
    let (d, _, h2) = bind-ok (lift (config_digest crypto c)) _ _ h1 in
    let (row, _, h3) =
      bind-ok (require_active (select (at_epoch p.entry.bid p.entry.epoch) s.epochs)) _ _ h2 in
    let (_, h4) =
      raise_if-ok (not (row.party_id == g.party_id) || not (row.config_digest == d)) _ _ _ h3 in
    let (lock, _, h5) =
      bind-ok (or_raise (select (slot_of p.entry) s.slot_locks) conflict) _ _ h4 in
    let (hash, _, h6) = bind-ok (lift (entry_hash crypto p.entry)) _ _ h5 in
    let (_, h7) =
      raise_if-ok (not (lock.entry_hash == hash) || no_bytes lock.entry_vote_bytes) _ _ _ h6 in
    let (_, h8) = raise_if-ok (other_prepare (prepare_hash crypto p) lock.prepare_hash) _ _ _ h7 in
    let (vote, _, h9) = bind-ok (read_install_vote crypto lock.install_vote_bytes) _ _ h8 in
    prepare_over-OnLocks crypto p s t vote v h9

keep_install_vote-OnLocks :
    (e : AttemptEntry) (bytes : Bytes) (s t : Store) (o : Option Bytes)
    → keep_install_vote e bytes s o ≡ ok t
    → OnLocks s t
keep_install_vote-OnLocks e bytes s t (some stored) h =
    let (_, rest) = raise_if-ok (not (stored == bytes)) _ _ _ h in
    subst (OnLocks s) (ok_injective _ _ rest) (kept s)
keep_install_vote-OnLocks e bytes s t none h = subst (OnLocks s) (ok_injective _ _ h) (
    updated s (slot_of e) (set_install_vote bytes)
      (λ x. record { same_bid = refl; same_epoch = refl; same_index = refl; same_hash = refl }))

pub store_install_vote-OnLocks :
    (crypto : Crypto) (p : PrepareCertificate) (g : AuthorizerSigner) (s t : Store) (v : Vote)
    → store_install_vote crypto p g s ≡ ok (v, t)
    → OnLocks s t
unfolding store_install_vote
store_install_vote-OnLocks crypto p g s t v h =
    let (row, _, h1) = bind-ok (or_raise (select (slot_of p.entry) s.slot_locks) conflict) _ _ h in
    let (_, h2) = raise_if-ok (not (row.prepare_hash == some (prepare_hash crypto p))) _ _ _ h1 in
    let (u, done_to, rest) =
      bind-ok
        (keep_install_vote p.entry
          (crypto.encode (vote_to_dict install_kind (create_install_vote crypto p g))) s
          row.install_vote_bytes)
        _ _ h2 in
    done _ v s t u (keep_install_vote-OnLocks p.entry _ s u row.install_vote_bytes done_to) rest

record_over-OnLocks :
    (crypto : Crypto) (a : AuthorizationCertificate) (hash : Text) (s t : Store)
    (o : Option SlotLock)
    → record_over crypto a hash s o ≡ ok t
    → OnLocks s t
record_over-OnLocks crypto a hash s t none h =
    let (after, put, rest) =
      bind-ok (insert_lock (installed_lock crypto a hash) s.slot_locks) _ _ h in
    subst (OnLocks s) (ok_injective _ _ rest) (record {
      same_epochs = refl;
      same_attempts = refl;
      same_phases = refl;
      same_transitions = refl;
      locks = insert-LockChange (installed_lock crypto a hash) s.slot_locks after put;
    })
record_over-OnLocks crypto a hash s t (some lock) h = subst (OnLocks s) (ok_injective _ _ h) (
    updated s (slot_of a.prepare.entry) (set_authorization crypto a)
      (λ x. record { same_bid = refl; same_epoch = refl; same_index = refl; same_hash = refl }))

pub record_authorization-OnLocks :
    (crypto : Crypto) (a : AuthorizationCertificate) (s t : Store)
    → record_authorization crypto a s ≡ ok t
    → OnLocks s t
unfolding record_authorization
record_authorization-OnLocks crypto a s t h =
    let (hash, _, h1) = bind-ok (lift (entry_hash crypto a.prepare.entry)) _ _ h in
    record_over-OnLocks crypto a hash s t (select (slot_of a.prepare.entry) s.slot_locks) h1
