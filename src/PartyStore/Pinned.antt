-- ===== src/PartyStore/Pinned.antt =====
-- A row of a table of prototype/locus/party_store.py that is found at one key and of which one column
-- never changes.
use locus_v.Prelude.{Bool, true, none, some, List, ◌∷◌, ◌≡◌, ◌∙◌, arith, Bool-cases, inl, inr}
use locus_v.PartyStore.Tables.{select, update}
use locus_v.PartyStore.Rows.{updated_row, updated_row-same, select-update-some}

module _ {A : Type 0} {B : Type 0} (key : A → Bool) (column : A → B) (value : B) where
  abbrev pub Pinned : List A → Type 0
  Pinned rows = (r : A) × (select key rows ≡ some r) × (column r ≡ value)

  pub update-Pinned :
      (test : A → Bool) (change : A → A) (rows : List A)
      → ((x : A) → (key (change x) ≡ key x) × (column (change x) ≡ column x))
      → Pinned rows
      → Pinned (update test change rows)
  update-Pinned test change rows keeps (r, at, e) = (
    updated_row test change r,
    select-update-some key test change rows r (λ x. (keeps x).0) at,
    updated_row-same column test change r ((keeps r).1) ∙ e,
  )

  pub added-Pinned :
      (x : A) (rows : List A)
      → (key x ≡ true → select key rows ≡ none)
      → Pinned rows
      → Pinned (x ∷ rows)
  added-Pinned x rows free (r, at, e) = elim (Bool-cases (key x)) [
    | inl k ↦ let clash = free k in absurd (cc (clash, at))
    | inr k ↦ (r, ground (arith, k, at), e)
  ]
