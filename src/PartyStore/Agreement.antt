-- ===== src/PartyStore/Agreement.antt =====
-- One slot, one entry: the locks of prototype/locus/party_store.py under any transactions, and the
-- certificates of attempt_certificates.py that honest stores have signed.
use locus_v.Prelude.{
  ℕ, ◌≤◌, ◌≡◌, Bool, true, not, none, some, List, [], ◌∷◌, sym, ap, ◌∙◌, subst, arith, Bool-cases,
  inl, inr,
}
use locus_v.Prelude.Eq.{nat_eq, list_eq, eq_of_beq}
use locus_v.Prelude.Lists.{In, count}
use locus_v.Prelude.Results.{ok, bind-ok}
use locus_v.Certificates.Values.{Text}
use locus_v.Certificates.Hash.{Crypto}
use locus_v.Certificates.Config.{AuthorizerConfig, party_ids}
use locus_v.Certificates.Entry.{AttemptEntry, validate_entry, entry_hash, hash_entry}
use locus_v.Certificates.Votes.{Vote, AuthorizerSigner, authorizer_ids}
use locus_v.Certificates.Prepare.{PrepareCertificate, verify_prepare}
use locus_v.Certificates.Accepted.{verify_prepare-IsPrepared}
use locus_v.Certificates.Intersection.{quorum_intersection}
use locus_v.PartyStore.Tables.{Store, SlotLock, select, update, at_slot}
use locus_v.PartyStore.Ledger.{AttemptAuthorization, install_authorization}
use locus_v.PartyStore.Slots.{store_entry_vote}
use locus_v.PartyStore.Authorizations.{authorization_fields}
use locus_v.PartyStore.PhaseSteps.{PhaseStep-Quiet}
use locus_v.PartyStore.Activating.{EpochStep-cases}
use locus_v.PartyStore.Steps.{
  Step, enrolled, authorized, entry_locked, entry_voted, prepare_locked, install_voted,
  attempt_installed, authorization_recorded, phase_moved, epoch_moved, Reach, start, next,
}
use locus_v.PartyStore.Locks.{
  Keeps, LockChange, same, added, changed, lock_entry-OnLocks, store_entry_vote-Voted,
}
use locus_v.PartyStore.Prepared.{
  lock_prepare-OnLocks, store_install_vote-OnLocks, record_authorization-OnLocks,
}
use locus_v.PartyStore.Install.{
  enroll_epoch_cases, install_authorization_cases, install_attempt-installed,
}

-- The lock of a slot, as far as it never changes.
abbrev pub Locked : Text → ℕ → ℕ → Text → List SlotLock → Type 0
Locked bid epoch index hash rows =
    (r : SlotLock) × (select (at_slot bid epoch index) rows ≡ some r) × (r.entry_hash ≡ hash)

update-Locked :
    (bid : Text) (epoch index : ℕ) (hash : Text) (test : SlotLock → Bool)
    (change : SlotLock → SlotLock) (rows : List SlotLock)
    → ((x : SlotLock) → Keeps x (change x))
    → Locked bid epoch index hash rows
    → Locked bid epoch index hash (update test change rows)
update-Locked bid epoch index hash test change [] keeps (r, q, e) = absurd (cc)
update-Locked bid epoch index hash test change (x ∷ rows) keeps (r, q, e) =
    let k = keeps x in
    elim (Bool-cases (at_slot bid epoch index x)) [
      | inl at ↦
          let o : x ≡ r = ground (arith, q, at) in
          let h : x.entry_hash ≡ hash = ap (λ y. y.entry_hash) o ∙ e in
          elim (Bool-cases (test x)) [
            | inl t ↦ (
              change x,
              ground (arith, at, t, k.same_bid, k.same_epoch, k.same_index),
              k.same_hash ∙ h,
            )
            | inr t ↦ (x, ground (arith, at, t), h)
          ]
      | inr at ↦
          let (s, p, h) =
            update-Locked bid epoch index hash test change rows keeps
              (r, ground (arith, q, at), e) in
          elim (Bool-cases (test x)) [
            | inl t ↦ (s, ground (arith, at, t, p, k.same_bid, k.same_epoch, k.same_index), h)
            | inr t ↦ (s, ground (arith, at, t, p), h)
          ]
    ]

-- A new row does not hide a lock.
added-Locked :
    (bid : Text) (epoch index : ℕ) (hash : Text) (x : SlotLock) (rows : List SlotLock)
    → select (at_slot x.bid x.epoch x.log_index) rows ≡ none
    → Locked bid epoch index hash rows
    → Locked bid epoch index hash (x ∷ rows)
added-Locked bid epoch index hash x rows free (r, q, e) =
    elim (Bool-cases (at_slot bid epoch index x)) [
      | inl at ↦
          let a : x.bid ≡ bid = eq_of_beq x.bid bid (ground (arith, at)) in
          let b : x.epoch ≡ epoch = eq_of_beq x.epoch epoch (ground (arith, at)) in
          let c : x.log_index ≡ index = eq_of_beq x.log_index index (ground (arith, at)) in
          let clash : select (at_slot bid epoch index) rows ≡ none = cc (free, a, b, c) in
          absurd (cc (clash, q))
      | inr at ↦ (r, ground (arith, at, q), e)
    ]

change-Locked :
    (bid : Text) (epoch index : ℕ) (hash : Text) (before after : List SlotLock)
    → LockChange before after
    → Locked bid epoch index hash before
    → Locked bid epoch index hash after
change-Locked bid epoch index hash before _ same h = h
change-Locked bid epoch index hash before _ (added r free) h =
    added-Locked bid epoch index hash r before free h
change-Locked bid epoch index hash before _ (changed test change keeps) h =
    update-Locked bid epoch index hash test change before keeps h

-- The locks that a transaction leaves alone.
unmoved :
    (bid : Text) (epoch index : ℕ) (hash : Text) (s t : Store)
    → t.slot_locks ≡ s.slot_locks
    → Locked bid epoch index hash s.slot_locks
    → Locked bid epoch index hash t.slot_locks
unmoved bid epoch index hash s t e h = subst (Locked bid epoch index hash) (sym e) h

installed-Locked :
    (crypto : Crypto) (bid : Text) (epoch index : ℕ) (hash g : Text) (s t : Store)
    (a : AttemptAuthorization)
    → install_authorization crypto a s ≡ ok (g, t)
    → Locked bid epoch index hash s.slot_locks
    → Locked bid epoch index hash t.slot_locks
installed-Locked crypto bid epoch index hash g s t a e h =
    elim ((install_authorization_cases crypto a g s t e).1) [
      | inl o ↦ subst (λ x. Locked bid epoch index hash x.slot_locks) o h
      | inr i ↦ unmoved bid epoch index hash s t i.slot_locks h
    ]

Step-Locked :
    (crypto : Crypto) (bid : Text) (epoch index : ℕ) (hash : Text) (s t : Store)
    → Step crypto s t
    → Locked bid epoch index hash s.slot_locks
    → Locked bid epoch index hash t.slot_locks
Step-Locked crypto bid epoch index hash s t (enrolled c e) h =
    elim (enroll_epoch_cases crypto c s t e) [
      | inl o ↦ subst (λ x. Locked bid epoch index hash x.slot_locks) o h
      | inr i ↦ unmoved bid epoch index hash s t i.slot_locks h
    ]
Step-Locked crypto bid epoch index hash s t (authorized a g e) h =
    installed-Locked crypto bid epoch index hash g s t a e h
Step-Locked crypto bid epoch index hash s t (entry_locked e c g v k) h =
    change-Locked bid epoch index hash _ _ (lock_entry-OnLocks crypto e c g s t v k).locks h
Step-Locked crypto bid epoch index hash s t (entry_voted e g v k) h =
    change-Locked bid epoch index hash _ _ (store_entry_vote-Voted crypto e g s t v k).change.locks
      h
Step-Locked crypto bid epoch index hash s t (prepare_locked p c g v k) h =
    change-Locked bid epoch index hash _ _ (lock_prepare-OnLocks crypto p c g s t v k).locks h
Step-Locked crypto bid epoch index hash s t (install_voted p g v k) h =
    change-Locked bid epoch index hash _ _ (store_install_vote-OnLocks crypto p g s t v k).locks h
Step-Locked crypto bid epoch index hash s t (attempt_installed a c e) h =
    let (_, (g, i)) = install_attempt-installed crypto a c s t e in
    installed-Locked crypto bid epoch index hash g s t (authorization_fields crypto a) i h
Step-Locked crypto bid epoch index hash s t (authorization_recorded a k) h =
    change-Locked bid epoch index hash _ _ (record_authorization-OnLocks crypto a s t k).locks h
Step-Locked crypto bid epoch index hash s t (phase_moved k) h =
    unmoved bid epoch index hash s t (PhaseStep-Quiet crypto s t k).same_locks h
Step-Locked crypto bid epoch index hash s t (epoch_moved k) h =
    elim (EpochStep-cases crypto s t k) [
      | inl a ↦ unmoved bid epoch index hash s t a.same_locks h
      | inr a ↦ unmoved bid epoch index hash s t a.same_locks h
    ]

pub Reach-Locked :
    (crypto : Crypto) (bid : Text) (epoch index : ℕ) (hash : Text) (s t : Store)
    → Reach crypto s t
    → Locked bid epoch index hash s.slot_locks
    → Locked bid epoch index hash t.slot_locks
Reach-Locked crypto bid epoch index hash s t start h = h
Reach-Locked crypto bid epoch index hash s t (next {t = u} r k) h =
    Step-Locked crypto bid epoch index hash u t k (Reach-Locked crypto bid epoch index hash s u r h)

-- The store has signed the entry, at some moment of the run that led to `final`.
pub record Signed (crypto : Crypto) (e : AttemptEntry) (final : Store) : Type 0 where
  pub before : Store
  pub after_vote : Store
  pub signer : AuthorizerSigner
  pub vote : Vote
  pub signing : store_entry_vote crypto e signer before ≡ ok (vote, after_vote)
  pub onward : Reach crypto after_vote final

entry_hash-hash :
    (crypto : Crypto) (e : AttemptEntry) (h : Text)
    → entry_hash crypto e ≡ ok h
    → h ≡ hash_entry crypto e
unfolding entry_hash
entry_hash-hash crypto e h p =
    let (_, _, rest) = bind-ok (validate_entry e) _ _ p in ground (arith, rest)

Signed-Locked :
    (crypto : Crypto) (e : AttemptEntry) (final : Store)
    → Signed crypto e final
    → Locked e.bid e.epoch e.log_index (hash_entry crypto e) final.slot_locks
Signed-Locked crypto e final x =
    let w = store_entry_vote-Voted crypto e x.signer x.before x.after_vote x.vote x.signing in
    Reach-Locked crypto e.bid e.epoch e.log_index (hash_entry crypto e) x.after_vote final x.onward
      (change-Locked e.bid e.epoch e.log_index (hash_entry crypto e) _ _ w.change.locks
        (w.row, w.found_row, w.same_hash ∙ entry_hash-hash crypto e w.hash w.hash_of))

-- One store never signs two entries for one slot: whatever transactions of `Step` come before, between
-- and after, two entries that it has signed for the same backup, epoch and log index have one hash.
pub one_entry_per_slot :
    (crypto : Crypto) (d e : AttemptEntry) (final : Store)
    → Signed crypto d final
    → Signed crypto e final
    → d.bid ≡ e.bid
    → d.epoch ≡ e.epoch
    → d.log_index ≡ e.log_index
    → hash_entry crypto d ≡ hash_entry crypto e
one_entry_per_slot crypto d e final x y a b c =
    let (r, p, h) = Signed-Locked crypto d final x in
    let (t, q, k) = Signed-Locked crypto e final y in
    let o : select (at_slot e.bid e.epoch e.log_index) final.slot_locks ≡ some r =
      cc (p, a, b, c) in
    let same_row : r ≡ t = ground (arith, o, q) in sym h ∙ ap (λ z. z.entry_hash) same_row ∙ k

-- When at most `fault_bound` authorizers are dishonest, and every honest authorizer that voted in a
-- certificate has signed its entry from its own store, two prepare certificates that verify under one
-- configuration for one log index are for the same entry hash.
pub certificates_agree :
    (crypto : Crypto) (c : AuthorizerConfig) (honest : ℕ → Bool) (final : ℕ → Store)
    (p q : PrepareCertificate)
    → count (λ id. not (honest id)) (party_ids c.public_keys) ≤ c.fault_bound
    → verify_prepare crypto p c ≡ ok tt
    → verify_prepare crypto q c ≡ ok tt
    → ((id : ℕ)
        → honest id ≡ true
        → In id (authorizer_ids p.votes)
        → Signed crypto p.entry (final id))
    → ((id : ℕ)
        → honest id ≡ true
        → In id (authorizer_ids q.votes)
        → Signed crypto q.entry (final id))
    → p.entry.log_index ≡ q.entry.log_index
    → hash_entry crypto p.entry ≡ hash_entry crypto q.entry
certificates_agree crypto c honest final p q faults h k signed_p signed_q index =
    let (id, good, in_p, in_q) = quorum_intersection crypto c honest p q faults h k in
    let x = verify_prepare-IsPrepared crypto p c h in
    let y = verify_prepare-IsPrepared crypto q c k in
    one_entry_per_slot crypto p.entry q.entry (final id) (signed_p id good in_p)
      (signed_q id good in_q) (x.same_bid ∙ sym y.same_bid) (x.same_epoch ∙ sym y.same_epoch) index
