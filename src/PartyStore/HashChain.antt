-- ===== src/PartyStore/HashChain.antt =====
-- The log of an epoch in prototype/locus/party_store.py: its attempts as a chain of hashes.
use locus_v.Prelude.{
  ℕ, ◌+◌, ◌≡◌, Bool, true, ◌&&◌, none, some, List, [], ◌∷◌, refl, sym, ap, subst, ◌∙◌, arith,
  Bool-cases, Option-cases, inl, inr, if◌then◌else◌,
}
use locus_v.Prelude.Eq.{◌==◌, nat_eq, list_eq, beq_self}
use locus_v.Prelude.Lists.{count}
use locus_v.Certificates.Values.{Text}
use locus_v.Certificates.Hash.{Crypto}
use locus_v.Certificates.Entry.{AttemptEntry, hash_entry}
use locus_v.PartyStore.Tables.{Store, EpochRow, AttemptRow, empty_store, select, update, at_epoch}
use locus_v.PartyStore.Ledger.{
  first_row, AttemptAuthorization, attempt_hash, attempt_row, advance_row,
}
use locus_v.PartyStore.Activate.{set_retired, successor_row}
use locus_v.PartyStore.Rows.{updated_row, updated_row-same, select-update-some, select-update-none}
use locus_v.PartyStore.Accounts.{
  in_epoch, IsBudgeted, Accounts, IsLedger, same_key, select-update_self, select-update_other,
}
use locus_v.PartyStore.Budget.{Reach-IsLedger}
use locus_v.PartyStore.EpochChange.{
  EpochChange, unchanged, first, advanced, succeeded, Step-EpochChange,
}
use locus_v.PartyStore.Install.{Installs}
use locus_v.PartyStore.Steps.{Reach, start, next}

-- The attempts of an epoch, the latest first.
abbrev pub entries : Text → ℕ → List AttemptRow → List AttemptRow
entries bid epoch [] = []
entries bid epoch (r ∷ rows) =
    let rest = entries bid epoch rows in if in_epoch bid epoch r then r ∷ rest else rest

-- The entry of attempt_certificates.py that the row of an attempt records.
abbrev pub entry_of : Text → AttemptRow → AttemptEntry
entry_of config r = record {
  bid = r.bid;
  epoch = r.epoch;
  config_digest = config;
  log_index = r.log_index;
  previous_head = r.previous_head;
  sid = r.sid;
  request_digest = r.request_digest;
  tpass_request_hash = r.tpass_request_hash;
  resulting_consumed = r.resulting_consumed;
  effective_budget = r.effective_budget;
}

-- A log of `n` entries over `genesis` that ends in `head`: the latest entry has place `n`, and its hash,
-- over all its fields with the head before it, is `head`; the head before it ends the other entries.
abbrev pub IsLog : Crypto → Text → Text → ℕ → Text → List AttemptRow → Type 0
IsLog crypto config genesis n head [] = (n ≡ 0) × (head ≡ genesis)
IsLog crypto config genesis n head (r ∷ rows) =
    (r.log_index ≡ n)
    × (r.resulting_consumed ≡ n)
    × (r.entry_hash ≡ head)
    × (hash_entry crypto (entry_of config r) ≡ head)
    × ((m : ℕ) × (n ≡ m + 1) × IsLog crypto config genesis m r.previous_head rows)

-- The row of the epoch is at the end of its log.
abbrev pub HasLog : Crypto → Text → ℕ → List AttemptRow → EpochRow → Type 0
HasLog crypto bid epoch attempts r =
    (genesis : Text) × IsLog crypto r.config_digest genesis r.installed_index r.installed_head
      (entries bid epoch attempts)

abbrev pub HasLogs : Crypto → Store → Type 0
HasLogs crypto s =
    (bid : Text) (epoch : ℕ) (r : EpochRow)
    → select (at_epoch bid epoch) s.epochs ≡ some r
    → HasLog crypto bid epoch s.attempts r

no_entries :
    (bid : Text) (epoch : ℕ) (rows : List AttemptRow)
    → count (in_epoch bid epoch) rows ≡ 0
    → entries bid epoch rows ≡ []
no_entries bid epoch [] h = refl
no_entries bid epoch (r ∷ rows) h = elim (Bool-cases (in_epoch bid epoch r)) [
  | inl e ↦ absurd (ground (arith, e, h))
  | inr e ↦ rw e (no_entries bid epoch rows (ground (arith, e, h)))
]

-- A row that starts an epoch.
starts-HasLog :
    (crypto : Crypto) (s : Store) (x : EpochRow) (bid : Text) (epoch : ℕ)
    → IsLedger s
    → select (at_epoch x.bid x.epoch) s.epochs ≡ none
    → x.installed_index ≡ 0
    → at_epoch bid epoch x ≡ true
    → HasLog crypto bid epoch s.attempts x
starts-HasLog crypto s x bid epoch ledger free zero_index at =
    let (p, q) = same_key bid epoch x.bid x.epoch at in
    let none_here : select (at_epoch bid epoch) s.epochs ≡ none =
      subst (λ z. select (at_epoch z epoch) s.epochs ≡ none) p
        (subst (λ z. select (at_epoch x.bid z) s.epochs ≡ none) q free) in
    let zero_count : count (in_epoch bid epoch) s.attempts ≡ 0 =
      subst (Accounts s bid epoch) none_here (ledger bid epoch) in
    (
      x.installed_head,
      subst (IsLog crypto x.config_digest x.installed_head x.installed_index x.installed_head)
          (sym (no_entries bid epoch s.attempts zero_count)) (zero_index, refl),
    )

-- The logs with a row that starts an epoch.
add-HasLogs :
    (crypto : Crypto) (s t : Store) (x : EpochRow) (after : List EpochRow)
    → IsLedger s
    → select (at_epoch x.bid x.epoch) s.epochs ≡ none
    → x.installed_index ≡ 0
    → t.epochs ≡ x ∷ after
    → t.attempts ≡ s.attempts
    → ((bid : Text) (epoch : ℕ) (r : EpochRow)
        → select (at_epoch bid epoch) after ≡ some r
        → HasLog crypto bid epoch s.attempts r)
    → HasLogs crypto t
add-HasLogs crypto s t x after ledger free zero_index epochs attempts h bid epoch r found =
    let here : select (at_epoch bid epoch) (x ∷ after) ≡ some r =
      ap (select (at_epoch bid epoch)) (sym epochs) ∙ found in
    subst (λ z. HasLog crypto bid epoch z r) (sym attempts)
      (elim (Bool-cases (at_epoch bid epoch x)) [
        | inl e ↦
            let same : x ≡ r = ground (arith, here, e) in
            subst (HasLog crypto bid epoch s.attempts) same
              (starts-HasLog crypto s x bid epoch ledger free zero_index e)
        | inr e ↦ h bid epoch r (ground (arith, here, e))
      ])

-- The retired row of an epoch has the log of the row before.
retired-HasLog :
    (crypto : Crypto) (s : Store) (test : EpochRow → Bool) (bid : Text) (epoch : ℕ) (r : EpochRow)
    → HasLogs crypto s
    → select (at_epoch bid epoch) (update test set_retired s.epochs) ≡ some r
    → HasLog crypto bid epoch s.attempts r
retired-HasLog crypto s test bid epoch r h found =
    elim (Option-cases (select (at_epoch bid epoch) s.epochs)) [
      | inl e ↦
          let gone =
            select-update-none (at_epoch bid epoch) test set_retired s.epochs (λ x. refl) e in
          absurd (cc (gone, found))
      | inr (p, e) ↦
          let there =
            select-update-some (at_epoch bid epoch) test set_retired s.epochs p (λ x. refl) e in
          let same : updated_row test set_retired p ≡ r = ground (arith, there, found) in
          let (genesis, log) = h bid epoch p e in
          let index : p.installed_index ≡ r.installed_index =
            sym (updated_row-same (λ z. z.installed_index) test set_retired p refl)
            ∙ ap (λ z. z.installed_index) same in
          let config : p.config_digest ≡ r.config_digest =
            sym (updated_row-same (λ z. z.config_digest) test set_retired p refl)
            ∙ ap (λ z. z.config_digest) same in
          let head : p.installed_head ≡ r.installed_head =
            sym (updated_row-same (λ z. z.installed_head) test set_retired p refl)
            ∙ ap (λ z. z.installed_head) same in
          (
            genesis,
            subst
                (λ z.
                  IsLog crypto z genesis r.installed_index r.installed_head
                    (entries bid epoch s.attempts))
                config
                (subst
                  (λ z.
                    IsLog crypto p.config_digest genesis z r.installed_head
                      (entries bid epoch s.attempts))
                  index
                  (subst
                    (λ z.
                      IsLog crypto p.config_digest genesis p.installed_index z
                        (entries bid epoch s.attempts))
                    head log)),
          )
    ]

-- entry_hash of AttemptAuthorization is that of AttemptEntry.
hash_entry-attempt_hash :
    (crypto : Crypto) (hash : Text) (a : AttemptAuthorization)
    → hash_entry crypto (entry_of a.config_digest (attempt_row hash a)) ≡ attempt_hash crypto a
unfolding attempt_hash
hash_entry-attempt_hash crypto hash a = refl

-- The log of an epoch with one more attempt.
extend-HasLog :
    (crypto : Crypto) (a : AttemptAuthorization) (hash : Text) (s t : Store)
    (x : Installs a hash s t)
    → attempt_hash crypto a ≡ hash
    → IsLedger s
    → HasLog crypto a.bid a.epoch s.attempts x.row
    → HasLog crypto a.bid a.epoch t.attempts (advance_row hash a x.row)
extend-HasLog crypto a hash s t x hashed ledger (genesis, log) =
    let counted : IsBudgeted x.row (count (in_epoch a.bid a.epoch) s.attempts) =
      subst (Accounts s a.bid a.epoch) x.found_row (ledger a.bid a.epoch) in
    let own : in_epoch a.bid a.epoch (attempt_row hash a) ≡ true =
      ground (arith, beq_self a.bid, beq_self a.epoch) in
    let more : attempt_row hash a ∷ entries a.bid a.epoch s.attempts
        ≡ entries a.bid a.epoch t.attempts =
      sym (ap (entries a.bid a.epoch) x.attempts ∙ ground (arith, own)) in
    (
      genesis,
      subst (IsLog crypto x.row.config_digest genesis a.log_index hash) more (
        refl,
        omega (arith, x.consumed, x.index, counted.index),
        refl,
        subst (λ z. hash_entry crypto (entry_of z (attempt_row hash a)) ≡ hash) (sym x.config)
            (hash_entry-attempt_hash crypto hash a ∙ hashed),
        (
          x.row.installed_index,
          x.index,
          subst
              (λ z.
                IsLog crypto x.row.config_digest genesis x.row.installed_index z
                  (entries a.bid a.epoch s.attempts))
              (sym x.head) log,
        ),
      ),
    )

Installs-HasLogs :
    (crypto : Crypto) (a : AttemptAuthorization) (hash : Text) (s t : Store)
    → Installs a hash s t
    → attempt_hash crypto a ≡ hash
    → IsLedger s
    → HasLogs crypto s
    → HasLogs crypto t
Installs-HasLogs crypto a hash s t x hashed ledger h bid epoch r found =
    elim (Bool-cases (a.bid == bid && a.epoch == epoch)) [
      | inl at ↦
          let (p, q) = same_key bid epoch a.bid a.epoch at in
          let here : select (at_epoch a.bid a.epoch) t.epochs ≡ some r = cc (found, p, q) in
          let located : select (at_epoch a.bid a.epoch) t.epochs ≡ some (advance_row hash a x.row) =
            ap (select (at_epoch a.bid a.epoch)) x.epochs
            ∙ select-update_self a.bid a.epoch (advance_row hash a) s.epochs x.row
                (λ y. (refl, refl)) x.found_row in
          let same : advance_row hash a x.row ≡ r = ground (arith, located, here) in
          let log =
            extend-HasLog crypto a hash s t x hashed ledger (h a.bid a.epoch x.row x.found_row) in
          subst (λ z. HasLog crypto z epoch t.attempts r) p
            (subst (λ z. HasLog crypto a.bid z t.attempts r) q
              (subst (HasLog crypto a.bid a.epoch t.attempts) same log))
      | inr at ↦
          let before : select (at_epoch bid epoch) s.epochs ≡ some r =
            sym (
              ap (select (at_epoch bid epoch)) x.epochs
              ∙ select-update_other bid epoch a.bid a.epoch (advance_row hash a) s.epochs
                  (λ y. (refl, refl)) at)
            ∙ found in
          let equal : entries bid epoch s.attempts ≡ entries bid epoch t.attempts =
            sym (ap (entries bid epoch) x.attempts ∙ ground (arith, at)) in
          let (genesis, log) = h bid epoch r before in
          (
            genesis,
            subst (IsLog crypto r.config_digest genesis r.installed_index r.installed_head) equal
                log,
          )
    ]

change-HasLogs :
    (crypto : Crypto) (s t : Store)
    → EpochChange crypto s t
    → IsLedger s
    → HasLogs crypto s
    → HasLogs crypto t
change-HasLogs crypto s t (unchanged e a) ledger h = λ bid epoch r found.
    subst (λ z. HasLog crypto bid epoch z r) (sym a)
      (h bid epoch r (ap (select (at_epoch bid epoch)) (sym e) ∙ found))
change-HasLogs crypto s t (first c x) ledger h =
    add-HasLogs crypto s t (first_row c) s.epochs ledger x.fresh refl x.epochs x.attempts h
change-HasLogs crypto s t (advanced a hash hashed x) ledger h =
    Installs-HasLogs crypto a hash s t x hashed ledger h
change-HasLogs crypto s t (succeeded x) ledger h =
    let y = x.transition in
    let test = at_epoch y.bid y.predecessor_epoch in
    add-HasLogs crypto s t (successor_row y x.party_id) (update test set_retired s.epochs) ledger
      x.fresh refl x.epochs x.same_attempts
      (λ bid epoch r found. retired-HasLog crypto s test bid epoch r h found)

-- After any of the transactions in `Step`, from an empty party store, the attempts that are installed in
-- an epoch are a chain of hashes that ends in its row. The latest has the index of the row, and the head
-- of the row is both its stored hash and the hash, as attempt_certificates.py computes it, of its entry
-- under the configuration digest of the row, an entry that contains the head before it. The same holds
-- of that head and the attempts before, with the index and the consumed count going down by one, to the
-- first, which is over some genesis head.
pub attempts-HasLog :
    (crypto : Crypto) (s : Store) (bid : Text) (epoch : ℕ) (r : EpochRow)
    → Reach crypto empty_store s
    → select (at_epoch bid epoch) s.epochs ≡ some r
    → HasLog crypto bid epoch s.attempts r
attempts-HasLog crypto s bid epoch r start found = absurd (cc (found))
attempts-HasLog crypto s bid epoch r (next {t = u} reach k) found =
    change-HasLogs crypto u s (Step-EpochChange crypto u s k)
      (Reach-IsLedger crypto empty_store u reach (λ b e. refl))
      (λ b e x h. attempts-HasLog crypto u b e x reach h) bid epoch r found
