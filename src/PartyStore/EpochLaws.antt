-- ===== src/PartyStore/EpochLaws.antt =====
-- The epochs of prototype/locus/party_store.py under any transactions: one of them is active, and a
-- retired one stays as it is.
use locus_v.Prelude.{
  ℕ, ◌+◌, ◌≤◌, ◌≡◌, Bool, true, false, ◌&&◌, none, some, List, [], ◌∷◌, refl, sym, ap, subst, ◌∙◌,
  arith, Bool-cases, inl, inr,
}
use locus_v.Prelude.Eq.{◌==◌, nat_eq, list_eq, eq_of_beq}
use locus_v.Prelude.Lists.{count}
use locus_v.Certificates.Values.{Text}
use locus_v.Certificates.Hash.{Crypto}
use locus_v.PartyStore.Tables.{
  EpochStatus, active, retired, failed_closed, Store, EpochRow, empty_store, is_active, select,
  update, found, at_epoch,
}
use locus_v.PartyStore.Ledger.{of_backup, first_row, AttemptAuthorization, advance_row}
use locus_v.PartyStore.Activate.{is_retired, set_retired, successor_row}
use locus_v.PartyStore.Rows.{select-update-some, select-here}
use locus_v.PartyStore.EpochChange.{
  EpochChange, unchanged, first, advanced, succeeded, Step-EpochChange,
}
use locus_v.PartyStore.Steps.{Reach, start, next, Reach-trans}
use locus_v.PartyStore.Accounts.{in_epoch}
use locus_v.PartyStore.Budget.{attempts-IsBudgeted}

-- An epoch of the backup that is active.
abbrev pub active_in : Text → EpochRow → Bool
active_in bid r = r.bid == bid && is_active r.status

no_backup-count :
    (bid : Text) (rows : List EpochRow)
    → found (select (of_backup bid) rows) ≡ false
    → count (active_in bid) rows ≡ 0
no_backup-count bid [] h = refl
no_backup-count bid (x ∷ rows) h = elim (Bool-cases (of_backup bid x)) [
  | inl e ↦ absurd (ground (arith, e, h))
  | inr e ↦ ground (arith, e, no_backup-count bid rows (ground (arith, e, h)))
]

advance-count :
    (bid : Text) (hash : Text) (a : AttemptAuthorization) (test : EpochRow → Bool)
    (rows : List EpochRow)
    → count (active_in bid) (update test (advance_row hash a) rows) ≡ count (active_in bid) rows
advance-count bid hash a test [] = refl
advance-count bid hash a test (x ∷ rows) = elim (Bool-cases (test x)) [
  | inl e ↦ ground (arith, e, advance-count bid hash a test rows)
  | inr e ↦ ground (arith, e, advance-count bid hash a test rows)
]

retire-count :
    (bid : Text) (test : EpochRow → Bool) (rows : List EpochRow)
    → count (active_in bid) (update test set_retired rows) ≤ count (active_in bid) rows
retire-count bid test [] = omega arith
retire-count bid test (x ∷ rows) = elim (Bool-cases (test x)) [
  | inl e ↦ ground (arith, e, retire-count bid test rows)
  | inr e ↦ ground (arith, e, retire-count bid test rows)
]

-- Retiring an active epoch leaves one active epoch less.
retire_active :
    (bid : Text) (epoch : ℕ) (rows : List EpochRow) (r : EpochRow)
    → select (at_epoch bid epoch) rows ≡ some r
    → is_active r.status ≡ true
    → count (active_in bid) (update (at_epoch bid epoch) set_retired rows) + 1
      ≤ count (active_in bid) rows
retire_active bid epoch [] r at h = absurd (cc)
retire_active bid epoch (x ∷ rows) r at h = elim (Bool-cases (at_epoch bid epoch x)) [
  | inl e ↦
      let same : x ≡ r = ground (arith, at, e) in
      let on : is_active x.status ≡ true = ap (λ z. is_active z.status) same ∙ h in
      ground (arith, e, on, retire-count bid (at_epoch bid epoch) rows)
  | inr e ↦ ground (arith, e, retire_active bid epoch rows r (ground (arith, at, e)) h)
]

change-one_active :
    (crypto : Crypto) (bid : Text) (s t : Store)
    → EpochChange crypto s t
    → count (active_in bid) s.epochs ≤ 1
    → count (active_in bid) t.epochs ≤ 1
change-one_active crypto bid s t (unchanged e same) h =
    subst (λ z. count (active_in bid) z ≤ 1) (sym e) h
change-one_active crypto bid s t (first c x) h =
    subst (λ z. count (active_in bid) z ≤ 1) (sym x.epochs)
      (elim (Bool-cases (c.bid == bid)) [
        | inl e ↦
            let none_yet : count (active_in bid) s.epochs ≡ 0 = no_backup-count bid s.epochs (
              subst (λ z. found (select (of_backup z) s.epochs) ≡ false) (eq_of_beq c.bid bid e)
                x.first) in
            ground (arith, e, none_yet)
        | inr e ↦ ground (arith, e, h)
      ])
change-one_active crypto bid s t (advanced a hash hashed x) h =
    subst (λ z. count (active_in bid) z ≤ 1) (sym x.epochs)
      (omega (arith, h, advance-count bid hash a (at_epoch a.bid a.epoch) s.epochs))
change-one_active crypto bid s t (succeeded x) h =
    let y = x.transition in
    subst (λ z. count (active_in bid) z ≤ 1) (sym x.epochs)
      (elim (Bool-cases (y.bid == bid)) [
        | inl e ↦
            let fewer =
              retire_active y.bid y.predecessor_epoch s.epochs x.predecessor x.found_predecessor
                x.was_active in
            subst
              (λ z.
                count (active_in z) (
                  successor_row y x.party_id
                  ∷ update (at_epoch y.bid y.predecessor_epoch) set_retired s.epochs)
                ≤ 1)
              (eq_of_beq y.bid bid e)
              (ground (
                arith,
                fewer,
                subst (λ z. count (active_in z) s.epochs ≤ 1) (sym (eq_of_beq y.bid bid e)) h,
              ))
        | inr e ↦
            ground (arith, e, h, retire-count bid (at_epoch y.bid y.predecessor_epoch) s.epochs)
      ])

-- After any of the transactions in `Step`, from an empty party store, at most one epoch of a backup
-- is active.
pub one_active_epoch :
    (crypto : Crypto) (s : Store) (bid : Text)
    → Reach crypto empty_store s
    → count (active_in bid) s.epochs ≤ 1
one_active_epoch crypto _ bid start = omega arith
one_active_epoch crypto s bid (next {t = u} r k) =
    change-one_active crypto bid u s (Step-EpochChange crypto u s k)
      (one_active_epoch crypto u bid r)

retired_inactive : (z : EpochStatus) → is_retired z ≡ true → is_active z ≡ true → ⊥
retired_inactive active h k = absurd (cc)
retired_inactive retired h k = absurd (cc)
retired_inactive failed_closed h k = absurd (cc)

-- An UPDATE of an active row leaves a retired one.
pub kept_retired :
    (b : Text) (n : ℕ) (bid : Text) (epoch : ℕ) (change : EpochRow → EpochRow)
    (rows : List EpochRow) (x r : EpochRow)
    → ((y : EpochRow) → at_epoch bid epoch (change y) ≡ at_epoch bid epoch y)
    → select (at_epoch b n) rows ≡ some x
    → is_active x.status ≡ true
    → select (at_epoch bid epoch) rows ≡ some r
    → is_retired r.status ≡ true
    → select (at_epoch bid epoch) (update (at_epoch b n) change rows) ≡ some r
kept_retired b n bid epoch change rows x r keeps at_x on at_r off =
    select-update-some (at_epoch bid epoch) (at_epoch b n) change rows r keeps at_r
    ∙ elim (Bool-cases (at_epoch b n r)) [
      | inl e ↦
          let h = select-here (at_epoch bid epoch) rows r at_r in
          let same_bid : b ≡ bid =
            sym (eq_of_beq r.bid b (ground (arith, e))) ∙ eq_of_beq r.bid bid (ground (arith, h)) in
          let same_epoch : n ≡ epoch =
            sym (eq_of_beq r.epoch n (ground (arith, e)))
            ∙ eq_of_beq r.epoch epoch (ground (arith, h)) in
          let here : select (at_epoch b n) rows ≡ some r = cc (at_r, same_bid, same_epoch) in
          let same : x ≡ r = ground (arith, at_x, here) in
          absurd (retired_inactive r.status off (subst (λ z. is_active z.status ≡ true) same on))
      | inr e ↦ rw e refl
    ]

-- A new row leaves the rows of other epochs.
pub kept_below :
    (bid : Text) (epoch : ℕ) (x q r : EpochRow) (rows after : List EpochRow)
    → select (at_epoch x.bid x.epoch) rows ≡ none
    → select (at_epoch bid epoch) rows ≡ some q
    → select (at_epoch bid epoch) after ≡ some r
    → select (at_epoch bid epoch) (x ∷ after) ≡ some r
kept_below bid epoch x q r rows after free before h = elim (Bool-cases (at_epoch bid epoch x)) [
  | inl e ↦
      let b : x.bid ≡ bid = eq_of_beq x.bid bid (ground (arith, e)) in
      let n : x.epoch ≡ epoch = eq_of_beq x.epoch epoch (ground (arith, e)) in
      let clash : select (at_epoch bid epoch) rows ≡ none = cc (free, b, n) in
      absurd (cc (clash, before))
  | inr e ↦ ground (arith, e, h)
]

change-retired :
    (crypto : Crypto) (bid : Text) (epoch : ℕ) (s t : Store) (r : EpochRow)
    → EpochChange crypto s t
    → is_retired r.status ≡ true
    → select (at_epoch bid epoch) s.epochs ≡ some r
    → select (at_epoch bid epoch) t.epochs ≡ some r
change-retired crypto bid epoch s t r (unchanged e same) off h =
    ap (select (at_epoch bid epoch)) e ∙ h
change-retired crypto bid epoch s t r (first c x) off h =
    ap (select (at_epoch bid epoch)) x.epochs
    ∙ kept_below bid epoch (first_row c) r r s.epochs s.epochs x.fresh h h
change-retired crypto bid epoch s t r (advanced a hash hashed x) off h =
    ap (select (at_epoch bid epoch)) x.epochs
    ∙ kept_retired a.bid a.epoch bid epoch (advance_row hash a) s.epochs x.row r (λ y. refl)
        x.found_row x.active h off
change-retired crypto bid epoch s t r (succeeded x) off h =
    let y = x.transition in
    ap (select (at_epoch bid epoch)) x.epochs
    ∙ kept_below bid epoch (successor_row y x.party_id) r r s.epochs _ x.fresh h (
        kept_retired y.bid y.predecessor_epoch bid epoch set_retired s.epochs x.predecessor r
          (λ z. refl) x.found_predecessor x.was_active h off)

Reach-retired :
    (crypto : Crypto) (s t : Store) (bid : Text) (epoch : ℕ) (r : EpochRow)
    → Reach crypto s t
    → is_retired r.status ≡ true
    → select (at_epoch bid epoch) s.epochs ≡ some r
    → select (at_epoch bid epoch) t.epochs ≡ some r
Reach-retired crypto s _ bid epoch r start off h = h
Reach-retired crypto s t bid epoch r (next {t = u} a k) off h =
    change-retired crypto bid epoch u t r (Step-EpochChange crypto u t k) off
      (Reach-retired crypto s u bid epoch r a off h)

-- A retired epoch of a store that transactions of `Step` made from an empty one keeps its row as it is,
-- after any more of them, and no attempt is installed in it any more.
pub retired_forever :
    (crypto : Crypto) (s t : Store) (bid : Text) (epoch : ℕ) (r : EpochRow)
    → Reach crypto empty_store s
    → Reach crypto s t
    → select (at_epoch bid epoch) s.epochs ≡ some r
    → is_retired r.status ≡ true
    → (select (at_epoch bid epoch) t.epochs ≡ some r)
      × (count (in_epoch bid epoch) t.attempts ≡ count (in_epoch bid epoch) s.attempts)
retired_forever crypto s t bid epoch r before after at off =
    let later = Reach-retired crypto s t bid epoch r after off at in
    let x = attempts-IsBudgeted crypto s bid epoch r before at in
    let y =
      attempts-IsBudgeted crypto t bid epoch r (Reach-trans crypto empty_store s t before after)
        later in
    (later, y.attempts ∙ sym x.attempts)
