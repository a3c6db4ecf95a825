-- ===== src/PartyStore/EpochChain.antt =====
-- The epochs of a backup in prototype/locus/party_store.py follow one another.
use locus_v.Prelude.{
  ℕ, ◌+◌, ◌≡◌, Bool, true, none, some, List, ◌∷◌, ◌⊎◌, refl, sym, subst, arith, Bool-cases,
  Option-cases, inl, inr,
}
use locus_v.Prelude.Eq.{nat_eq, list_eq, eq_of_beq}
use locus_v.Certificates.Values.{Text}
use locus_v.Certificates.Hash.{Crypto}
use locus_v.PartyStore.Tables.{Store, EpochRow, empty_store, select, update, at_epoch, is_active}
use locus_v.PartyStore.Ledger.{EpochConfig, first_row, advance_row}
use locus_v.PartyStore.Activate.{is_retired, set_retired, successor_row}
use locus_v.PartyStore.Rows.{select-update-none}
use locus_v.PartyStore.Accounts.{select-update_self}
use locus_v.PartyStore.EpochSteps.{Activates}
use locus_v.PartyStore.EpochChange.{
  EpochChange, unchanged, first, advanced, succeeded, Step-EpochChange,
}
use locus_v.PartyStore.Install.{Enrolls}
use locus_v.PartyStore.EpochLaws.{kept_retired, kept_below}
use locus_v.PartyStore.Steps.{Reach, start, next}

-- The epoch `n` of the backup has been retired.
abbrev pub IsRetired : List EpochRow → Text → ℕ → Type 0
IsRetired rows bid n =
    (p : EpochRow) × (select (at_epoch bid n) rows ≡ some p) × (is_retired p.status ≡ true)

abbrev pub IsChained : List EpochRow → Type 0
IsChained rows =
    (bid : Text) (n : ℕ) (r : EpochRow)
    → select (at_epoch bid (n + 1)) rows ≡ some r
    → (n ≡ 0) ⊎ IsRetired rows bid n

-- An UPDATE adds no row.
select-update-found :
    (bid : Text) (n : ℕ) (test : EpochRow → Bool) (change : EpochRow → EpochRow)
    (rows : List EpochRow) (r : EpochRow)
    → ((x : EpochRow) → at_epoch bid n (change x) ≡ at_epoch bid n x)
    → select (at_epoch bid n) (update test change rows) ≡ some r
    → (p : EpochRow) × (select (at_epoch bid n) rows ≡ some p)
select-update-found bid n test change rows r keeps h =
    elim (Option-cases (select (at_epoch bid n) rows)) [
      | inl e ↦
          let gone = select-update-none (at_epoch bid n) test change rows keeps e in
          absurd (cc (gone, h))
      | inr found ↦ found
    ]

module _ (s : Store) (chained : IsChained s.epochs) where
  -- An UPDATE of an active row keeps the chain.
  update-IsChained :
      (b : Text) (k : ℕ) (x : EpochRow) (change : EpochRow → EpochRow)
      → ((bid : Text) (n : ℕ) (y : EpochRow) → at_epoch bid n (change y) ≡ at_epoch bid n y)
      → select (at_epoch b k) s.epochs ≡ some x
      → is_active x.status ≡ true
      → IsChained (update (at_epoch b k) change s.epochs)
  update-IsChained b k x change keeps at_x on bid n r h =
      let (q, at_q) =
        select-update-found bid (n + 1) (at_epoch b k) change s.epochs r (keeps bid (n + 1)) h in
      elim (chained bid n q at_q) [
        | inl z ↦ inl z
        | inr (p, at_p, off) ↦
            inr (p, kept_retired b k bid n change s.epochs x p (keeps bid n) at_x on at_p off, off)
      ]

  -- A new row, of an epoch that the others may precede.
  add-IsChained :
      (x : EpochRow) (after : List EpochRow)
      → select (at_epoch x.bid x.epoch) s.epochs ≡ none
      → IsChained after
      → ((bid : Text) (n : ℕ) (p : EpochRow)
          → select (at_epoch bid n) after ≡ some p
          → (q : EpochRow) × (select (at_epoch bid n) s.epochs ≡ some q))
      → ((bid : Text) (n : ℕ)
          → x.bid ≡ bid
          → x.epoch ≡ n + 1
          → (n ≡ 0) ⊎ IsRetired (x ∷ after) bid n)
      → IsChained (x ∷ after)
  add-IsChained x after free below known own bid n r h =
      elim (Bool-cases (at_epoch bid (n + 1) x)) [
        | inl e ↦
            own bid n (eq_of_beq x.bid bid (ground (arith, e)))
              (eq_of_beq x.epoch (n + 1) (ground (arith, e)))
        | inr e ↦ elim (below bid n r (ground (arith, e, h))) [
          | inl z ↦ inl z
          | inr (p, at_p, off) ↦
              let (q, at_q) = known bid n p at_p in
              inr (p, kept_below bid n x q p s.epochs after free at_q at_p, off)
        ]
      ]

  Enrolls-IsChained : (c : EpochConfig) (t : Store) → Enrolls c s t → IsChained t.epochs
  Enrolls-IsChained c t x = subst IsChained (sym x.epochs) (
      add-IsChained (first_row c) s.epochs x.fresh chained (λ bid n p h. (p, h))
        (λ bid n b e. inl (omega (arith, e, x.genesis))))

  Activates-IsChained : (t : Store) → Activates s t → IsChained t.epochs
  Activates-IsChained t x =
      let y = x.transition in
      let k = y.predecessor_epoch in
      let after = update (at_epoch y.bid k) set_retired s.epochs in
      subst IsChained (sym x.epochs) (
        add-IsChained (successor_row y x.party_id) after x.fresh
          (update-IsChained y.bid k x.predecessor set_retired (λ bid n z. refl) x.found_predecessor
            x.was_active)
          (λ bid n p h.
            select-update-found bid n (at_epoch y.bid k) set_retired s.epochs p (λ z. refl) h)
          (λ bid n b e.
            let same : k ≡ n = omega (arith, e, x.consecutive) in
            let here : select (at_epoch y.bid k) after ≡ some (set_retired x.predecessor) =
              select-update_self y.bid k set_retired s.epochs x.predecessor (λ z. (refl, refl))
                x.found_predecessor in
            let there : select (at_epoch bid n) after ≡ some (set_retired x.predecessor) =
              subst (λ z. select (at_epoch z n) after ≡ some (set_retired x.predecessor)) b
                (subst (λ z. select (at_epoch y.bid z) after ≡ some (set_retired x.predecessor))
                  same here) in
            let (q, at_q) =
              select-update-found bid n (at_epoch y.bid k) set_retired s.epochs
                (set_retired x.predecessor) (λ z. refl) there in
            inr (
              set_retired x.predecessor,
              kept_below bid n (successor_row y x.party_id) q (set_retired x.predecessor) s.epochs
                  after x.fresh at_q there,
              refl,
            )))

  change-IsChained : (crypto : Crypto) (t : Store) → EpochChange crypto s t → IsChained t.epochs
  change-IsChained crypto t (unchanged e same) = subst IsChained (sym e) chained
  change-IsChained crypto t (first c x) = Enrolls-IsChained c t x
  change-IsChained crypto t (advanced a hash hashed x) = subst IsChained (sym x.epochs) (
      update-IsChained a.bid a.epoch x.row (advance_row hash a) (λ bid n y. refl) x.found_row
        x.active)
  change-IsChained crypto t (succeeded x) = Activates-IsChained t x

Reach-IsChained : (crypto : Crypto) (s : Store) → Reach crypto empty_store s → IsChained s.epochs
Reach-IsChained crypto _ start = λ bid n r h. absurd (cc (h))
Reach-IsChained crypto s (next {t = u} r k) =
    change-IsChained u (Reach-IsChained crypto u r) crypto s (Step-EpochChange crypto u s k)

-- After any of the transactions in `Step`, from an empty party store, each epoch of a backup that is not
-- its first comes after a retired one: the store has the row of the epoch before, and it is retired.
pub predecessor-IsRetired :
    (crypto : Crypto) (s : Store) (bid : Text) (epoch : ℕ) (r : EpochRow)
    → Reach crypto empty_store s
    → select (at_epoch bid (epoch + 1)) s.epochs ≡ some r
    → (epoch ≡ 0) ⊎ IsRetired s.epochs bid epoch
predecessor-IsRetired crypto s bid epoch r reach found =
    Reach-IsChained crypto s reach bid epoch r found
