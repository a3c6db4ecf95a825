-- ===== src/PartyStore/Locks.antt =====
-- What the transactions on slot_locks in prototype/locus/party_store.py leave alone: the other tables,
-- and the key and the entry hash of every row.
use locus_v.Prelude.{
  ◌+◌, ◌≡◌, Bool, not, ◌||◌, Option, none, some, List, ◌∷◌, refl, subst, arith, Option-cases, inl,
  inr,
}
use locus_v.Prelude.Eq.{◌==◌, nat_eq, list_eq, option_eq, list_beq_iff}
use locus_v.Prelude.Results.{Result, ok, raise, or_raise, bind-ok, raise_if-ok, or_raise-ok}
use locus_v.Certificates.Values.{Text, Bytes}
use locus_v.Certificates.Hash.{Crypto}
use locus_v.Certificates.Config.{AuthorizerConfig, validate_config, config_digest}
use locus_v.Certificates.Entry.{AttemptEntry, validate_entry, entry_hash}
use locus_v.Certificates.Votes.{Vote, AuthorizerSigner, vote_to_dict, entry_kind}
use locus_v.Certificates.Prepare.{create_entry_vote}
use locus_v.PartyStore.Tables.{
  Stored, lift, conflict, Store, EpochRow, SlotLock, select, update, found, at_epoch, at_slot,
  lock_session, insert_lock,
}
use locus_v.PartyStore.Ledger.{require_active}
use locus_v.PartyStore.Slots.{
  slot_of, new_lock, read_vote, lock_over, lock_entry, set_entry_vote, keep_entry_vote,
  store_entry_vote,
}

pub record Keeps (x y : SlotLock) : Type 0 where
  pub same_bid : y.bid ≡ x.bid
  pub same_epoch : y.epoch ≡ x.epoch
  pub same_index : y.log_index ≡ x.log_index
  pub same_hash : y.entry_hash ≡ x.entry_hash

pub data LockChange (before : List SlotLock) : List SlotLock → Type 0 where
  same : LockChange before before
  added :
      (r : SlotLock)
      → select (at_slot r.bid r.epoch r.log_index) before ≡ none
      → LockChange before (r ∷ before)
  changed :
      (test : SlotLock → Bool) (change : SlotLock → SlotLock)
      → ((x : SlotLock) → Keeps x (change x))
      → LockChange before (update test change before)

-- The transaction is one on the locks alone.
pub record OnLocks (s t : Store) : Type 0 where
  pub same_epochs : t.epochs ≡ s.epochs
  pub same_attempts : t.attempts ≡ s.attempts
  pub same_phases : t.phases ≡ s.phases
  pub same_transitions : t.transition_locks ≡ s.transition_locks
  pub locks : LockChange s.slot_locks t.slot_locks

pub kept : (s : Store) → OnLocks s s
kept s = record {
  same_epochs = refl;
  same_attempts = refl;
  same_phases = refl;
  same_transitions = refl;
  locks = same;
}

insert_lock-ok :
    (r : SlotLock) (rows after : List SlotLock)
    → insert_lock r rows ≡ ok after
    → (select (at_slot r.bid r.epoch r.log_index) rows ≡ none) × (r ∷ rows ≡ after)
insert_lock-ok r rows after h =
    let (free, rest) =
      raise_if-ok
        (found (select (at_slot r.bid r.epoch r.log_index) rows)
          || found (select (lock_session r.bid r.epoch r.sid) rows))
        _ _ _ h in
    elim (Option-cases (select (at_slot r.bid r.epoch r.log_index) rows)) [
      | inl q ↦ (q, ground (arith, rest))
      | inr (x, q) ↦ absurd (ground (arith, free, q))
    ]

pub insert-LockChange :
    (r : SlotLock) (rows after : List SlotLock)
    → insert_lock r rows ≡ ok after
    → LockChange rows after
insert-LockChange r rows after h =
    let (free, e) = insert_lock-ok r rows after h in subst (LockChange rows) e (added r free)

-- A computation that returned what `x` returned.
pub done :
    {A : Type 0} (a b : A) (s t u : Store)
    → OnLocks s u
    → ◌≡◌ {A = Stored (A × Store)} (ok (a, u)) (ok (b, t))
    → OnLocks s t
done a b s t u h e = let o : u ≡ t = ground (arith, e) in subst (OnLocks s) o h

lock_over-OnLocks :
    (crypto : Crypto) (e : AttemptEntry) (hash : Text) (s t : Store) (epoch : EpochRow)
    (o : Option SlotLock) (v : Option Vote)
    → lock_over crypto e hash s epoch o ≡ ok (v, t)
    → OnLocks s t
lock_over-OnLocks crypto e hash s t epoch (some existing) v h =
    let (_, h1) = raise_if-ok (not (existing.entry_hash == hash)) _ _ _ h in
    let (w, _, rest) = bind-ok (read_vote crypto existing.entry_vote_bytes) _ _ h1 in
    done w v s t s (kept s) rest
lock_over-OnLocks crypto e hash s t epoch none v h =
    let (_, h1) = raise_if-ok (not (e.log_index == epoch.installed_index + 1)) _ _ _ h in
    let (_, h2) = raise_if-ok (not (e.previous_head == epoch.installed_head)) _ _ _ h1 in
    let (_, h3) = raise_if-ok (not (e.resulting_consumed == epoch.consumed + 1)) _ _ _ h2 in
    let (_, h4) = raise_if-ok (not (e.effective_budget == epoch.budget)) _ _ _ h3 in
    let (after, put, rest) = bind-ok (insert_lock (new_lock crypto e hash) s.slot_locks) _ _ h4 in
    done none v s t _
      (record {
        same_epochs = refl;
        same_attempts = refl;
        same_phases = refl;
        same_transitions = refl;
        locks = insert-LockChange (new_lock crypto e hash) s.slot_locks after put;
      })
      rest

pub lock_entry-OnLocks :
    (crypto : Crypto) (e : AttemptEntry) (c : AuthorizerConfig) (g : AuthorizerSigner) (s t : Store)
    (v : Option Vote)
    → lock_entry crypto e c g s ≡ ok (v, t)
    → OnLocks s t
unfolding lock_entry
lock_entry-OnLocks crypto e c g s t v h =
    let (_, _, h1) = bind-ok (lift (validate_entry e)) _ _ h in
    let (_, _, h2) = bind-ok (lift (validate_config c)) _ _ h1 in
    let (d, _, h3) = bind-ok (lift (config_digest crypto c)) _ _ h2 in
    let (_, h4) =
      raise_if-ok (not (e.bid == c.bid) || not (e.epoch == c.epoch) || not (e.config_digest == d)) _
        _ _ h3 in
    let (row, _, h5) = bind-ok (require_active (select (at_epoch e.bid e.epoch) s.epochs)) _ _ h4 in
    let (_, h6) = raise_if-ok (not (row.party_id == g.party_id)) _ _ _ h5 in
    let (_, h7) = raise_if-ok (not (row.config_digest == d)) _ _ _ h6 in
    let (hash, _, h8) = bind-ok (lift (entry_hash crypto e)) _ _ h7 in
    lock_over-OnLocks crypto e hash s t row (select (slot_of e) s.slot_locks) v h8

-- An UPDATE that keeps key and hash.
pub updated :
    (s : Store) (test : SlotLock → Bool) (change : SlotLock → SlotLock)
    → ((x : SlotLock) → Keeps x (change x))
    → OnLocks s (record s { slot_locks = update test change s.slot_locks })
updated s test change h = record {
  same_epochs = refl;
  same_attempts = refl;
  same_phases = refl;
  same_transitions = refl;
  locks = changed test change h;
}

pub ok_injective : {A : Type 0} (a b : A) → ◌≡◌ {A = Stored A} (ok a) (ok b) → a ≡ b
ok_injective a b h = cc

keep_entry_vote-OnLocks :
    (e : AttemptEntry) (bytes : Bytes) (s t : Store) (o : Option Bytes)
    → keep_entry_vote e bytes s o ≡ ok t
    → OnLocks s t
keep_entry_vote-OnLocks e bytes s t (some stored) h =
    let (_, rest) = raise_if-ok (not (stored == bytes)) _ _ _ h in
    subst (OnLocks s) (ok_injective _ _ rest) (kept s)
keep_entry_vote-OnLocks e bytes s t none h = subst (OnLocks s) (ok_injective _ _ h) (
    updated s (slot_of e) (set_entry_vote bytes)
      (λ x. record { same_bid = refl; same_epoch = refl; same_index = refl; same_hash = refl }))

-- What a committed entry vote has found and done.
pub record Voted (crypto : Crypto) (e : AttemptEntry) (s t : Store) : Type 0 where
  pub row : SlotLock
  pub hash : Text
  pub found_row : select (slot_of e) s.slot_locks ≡ some row
  pub hash_of : entry_hash crypto e ≡ ok hash
  pub same_hash : row.entry_hash ≡ hash
  pub change : OnLocks s t

pub lift-ok : {A : Type 0} (m : Result _ A) (a : A) → lift m ≡ ok a → m ≡ ok a
lift-ok (ok x) a h = ground (arith, h)
lift-ok (raise e) a h = absurd (cc)

pub store_entry_vote-Voted :
    (crypto : Crypto) (e : AttemptEntry) (g : AuthorizerSigner) (s t : Store) (v : Vote)
    → store_entry_vote crypto e g s ≡ ok (v, t)
    → Voted crypto e s t
unfolding store_entry_vote
store_entry_vote-Voted crypto e g s t v h =
    let (vote, _, h1) = bind-ok (lift (create_entry_vote crypto e g)) _ _ h in
    let (row, found_row, h2) =
      bind-ok (or_raise (select (slot_of e) s.slot_locks) conflict) _ _ h1 in
    let (hash, hashed, h3) = bind-ok (lift (entry_hash crypto e)) _ _ h2 in
    let (matches, h4) = raise_if-ok (not (row.entry_hash == hash)) _ _ _ h3 in
    let (u, done_to, rest) =
      bind-ok
        (keep_entry_vote e (crypto.encode (vote_to_dict entry_kind vote)) s row.entry_vote_bytes) _
        _ h4 in
    record {
      row = row;
      hash = hash;
      found_row = or_raise-ok _ _ _ found_row;
      hash_of = lift-ok _ _ hashed;
      same_hash = (list_beq_iff row.entry_hash hash).0 (ground (arith, matches));
      change =
          done vote v s t u (keep_entry_vote-OnLocks e _ s u row.entry_vote_bytes done_to) rest;
    }
