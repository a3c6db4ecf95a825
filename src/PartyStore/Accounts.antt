-- ===== src/PartyStore/Accounts.antt =====
-- The attempts that a party store of prototype/locus/party_store.py has installed, by their epochs.
use locus_v.Prelude.{
  ℕ, ◌+◌, ◌≤◌, ◌≡◌, Bool, true, false, ◌&&◌, Option, none, some, List, [], ◌∷◌, refl, sym, ap, ◌∙◌,
  subst, arith, Bool-cases, inl, inr,
}
use locus_v.Prelude.Eq.{◌==◌, nat_eq, list_eq, eq_of_beq}
use locus_v.Prelude.Lists.{count}
use locus_v.Certificates.Values.{Text}
use locus_v.PartyStore.Tables.{Store, EpochRow, AttemptRow, select, update, at_epoch}
use locus_v.PartyStore.Ledger.{EpochConfig, first_row, AttemptAuthorization, advance_row}
use locus_v.PartyStore.Install.{Enrolls, Installs}

-- The attempts of one epoch.
abbrev pub in_epoch : Text → ℕ → AttemptRow → Bool
in_epoch bid epoch r = r.bid == bid && r.epoch == epoch

-- The row of an epoch agrees with the attempts that are installed in it.
pub record IsBudgeted (r : EpochRow) (installed : ℕ) : Type 0 where
  pub within : r.consumed ≤ r.budget
  pub index : r.installed_index ≡ r.consumed
  pub attempts : installed ≡ r.consumed

abbrev pub Accounts : Store → Text → ℕ → Option EpochRow → Type 0
Accounts s bid epoch none = count (in_epoch bid epoch) s.attempts ≡ 0
Accounts s bid epoch (some r) = IsBudgeted r (count (in_epoch bid epoch) s.attempts)

-- Every epoch is accounted for.
abbrev pub IsLedger : Store → Type 0
IsLedger s = (bid : Text) (epoch : ℕ) → Accounts s bid epoch (select (at_epoch bid epoch) s.epochs)

pub same_key :
    (bid : Text) (epoch : ℕ) (a : Text) (n : ℕ)
    → (a == bid && n == epoch) ≡ true
    → (a ≡ bid) × (n ≡ epoch)
same_key bid epoch a n h =
    (eq_of_beq a bid (ground (arith, h)), eq_of_beq n epoch (ground (arith, h)))

pub select-update_self :
    (bid : Text) (epoch : ℕ) (change : EpochRow → EpochRow) (rows : List EpochRow) (r : EpochRow)
    → ((x : EpochRow) → ((change x).bid ≡ x.bid) × ((change x).epoch ≡ x.epoch))
    → select (at_epoch bid epoch) rows ≡ some r
    → select (at_epoch bid epoch) (update (at_epoch bid epoch) change rows) ≡ some (change r)
select-update_self bid epoch change [] r keeps h = absurd (cc)
select-update_self bid epoch change (x ∷ rows) r keeps h =
    let k = keeps x in
    elim (Bool-cases (at_epoch bid epoch x)) [
      | inl at ↦ ground (arith, at, h, k.0, k.1)
      | inr at ↦
          ground
            (arith, at, select-update_self bid epoch change rows r keeps (ground (arith, h, at)))
    ]

pub select-update_other :
    (bid : Text) (epoch : ℕ) (b : Text) (n : ℕ) (change : EpochRow → EpochRow)
    (rows : List EpochRow)
    → ((x : EpochRow) → ((change x).bid ≡ x.bid) × ((change x).epoch ≡ x.epoch))
    → (b == bid && n == epoch) ≡ false
    → select (at_epoch bid epoch) (update (at_epoch b n) change rows)
      ≡ select (at_epoch bid epoch) rows
select-update_other bid epoch b n change [] keeps h = refl
select-update_other bid epoch b n change (x ∷ rows) keeps h =
    let k = keeps x in
    let ih = select-update_other bid epoch b n change rows keeps h in
    elim (Bool-cases (at_epoch b n x)) [
      | inl at ↦
          let (p, q) = same_key b n x.bid x.epoch at in
          let away : at_epoch bid epoch x ≡ false =
            subst (λ z. (z == bid && x.epoch == epoch) ≡ false) (sym p)
              (subst (λ z. (b == bid && z == epoch) ≡ false) (sym q) h) in
          ground (arith, at, away, ih, k.0, k.1)
      | inr at ↦ ground (arith, at, ih)
    ]

-- The accounts of an epoch with the same attempts.
pub same_account :
    (s t : Store) (bid : Text) (epoch : ℕ) (o : Option EpochRow)
    → t.attempts ≡ s.attempts
    → Accounts s bid epoch o
    → Accounts t bid epoch o
same_account s t bid epoch none e k = ap (count (in_epoch bid epoch)) e ∙ k
same_account s t bid epoch (some r) e k =
    subst (λ z. IsBudgeted r (count (in_epoch bid epoch) z)) (sym e) k

-- The accounts of a store with the same two tables.
pub moved : (s t : Store) → t.epochs ≡ s.epochs → t.attempts ≡ s.attempts → IsLedger s → IsLedger t
moved s t e a h bid epoch =
    subst (λ x. Accounts t bid epoch (select (at_epoch bid epoch) x)) (sym e)
      (same_account s t bid epoch (select (at_epoch bid epoch) s.epochs) a (h bid epoch))

pub Enrolls-IsLedger : (c : EpochConfig) (s t : Store) → Enrolls c s t → IsLedger s → IsLedger t
Enrolls-IsLedger c s t x h bid epoch = elim (Bool-cases (c.bid == bid && c.epoch == epoch)) [
  | inl at ↦
      let (p, q) = same_key bid epoch c.bid c.epoch at in
      let old : Accounts s c.bid c.epoch none =
        subst (Accounts s c.bid c.epoch) x.fresh (h c.bid c.epoch) in
      let zero_count : count (in_epoch bid epoch) t.attempts ≡ 0 =
        ap (count (in_epoch bid epoch)) x.attempts
        ∙ subst (λ z. count (in_epoch z epoch) s.attempts ≡ 0) p
            (subst (λ z. count (in_epoch c.bid z) s.attempts ≡ 0) q old) in
      let found : select (at_epoch bid epoch) t.epochs ≡ some (first_row c) =
        ap (select (at_epoch bid epoch)) x.epochs ∙ ground (arith, at) in
      subst (Accounts t bid epoch) (sym found)
        (record { within = omega arith; index = refl; attempts = zero_count })
  | inr at ↦
      let found : select (at_epoch bid epoch) t.epochs ≡ select (at_epoch bid epoch) s.epochs =
        ap (select (at_epoch bid epoch)) x.epochs ∙ ground (arith, at) in
      subst (Accounts t bid epoch) (sym found)
        (same_account s t bid epoch (select (at_epoch bid epoch) s.epochs) x.attempts (h bid epoch))
]

pub Installs-IsLedger :
    (a : AttemptAuthorization) (hash : Text) (s t : Store)
    → Installs a hash s t
    → IsLedger s
    → IsLedger t
Installs-IsLedger a hash s t x h bid epoch = elim (Bool-cases (a.bid == bid && a.epoch == epoch)) [
  | inl at ↦
      let (p, q) = same_key bid epoch a.bid a.epoch at in
      let old : IsBudgeted x.row (count (in_epoch a.bid a.epoch) s.attempts) =
        subst (Accounts s a.bid a.epoch) x.found_row (h a.bid a.epoch) in
      let more : count (in_epoch bid epoch) t.attempts ≡ count (in_epoch bid epoch) s.attempts + 1 =
        ap (count (in_epoch bid epoch)) x.attempts ∙ ground (arith, at) in
      let counted : count (in_epoch bid epoch) s.attempts ≡ x.row.consumed =
        subst (λ z. count (in_epoch z epoch) s.attempts ≡ x.row.consumed) p
          (subst (λ z. count (in_epoch a.bid z) s.attempts ≡ x.row.consumed) q old.attempts) in
      let located : select (at_epoch a.bid a.epoch) t.epochs ≡ some (advance_row hash a x.row) =
        ap (select (at_epoch a.bid a.epoch)) x.epochs
        ∙ select-update_self a.bid a.epoch (advance_row hash a) s.epochs x.row (λ y. (refl, refl))
            x.found_row in
      let found : select (at_epoch bid epoch) t.epochs ≡ some (advance_row hash a x.row) =
        subst (λ z. select (at_epoch z epoch) t.epochs ≡ some (advance_row hash a x.row)) p
          (subst (λ z. select (at_epoch a.bid z) t.epochs ≡ some (advance_row hash a x.row)) q
            located) in
      subst (Accounts t bid epoch) (sym found) (record {
        within = x.within;
        index = omega (arith, x.index, x.consumed, old.index);
        attempts = omega (arith, more, counted, x.consumed);
      })
  | inr at ↦
      let found : select (at_epoch bid epoch) t.epochs ≡ select (at_epoch bid epoch) s.epochs =
        ap (select (at_epoch bid epoch)) x.epochs
        ∙ select-update_other bid epoch a.bid a.epoch (advance_row hash a) s.epochs
            (λ y. (refl, refl)) at in
      let equal : count (in_epoch bid epoch) t.attempts ≡ count (in_epoch bid epoch) s.attempts =
        ap (count (in_epoch bid epoch)) x.attempts ∙ ground (arith, at) in
      subst (Accounts t bid epoch) (sym found)
        (go equal (select (at_epoch bid epoch) s.epochs) (h bid epoch))
]
  where
    go :
        count (in_epoch bid epoch) t.attempts ≡ count (in_epoch bid epoch) s.attempts
        → (o : Option EpochRow) → Accounts s bid epoch o
        → Accounts t bid epoch o
    go e none k = e ∙ k
    go e (some r) k = subst (IsBudgeted r) (sym e) k
