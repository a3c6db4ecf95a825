-- ===== src/PartyStore/Rows.antt =====
-- `select` and `update` on the rows of a table.
use locus_v.Prelude.{
  Bool, true, false, none, some, List, [], ◌∷◌, ◌≡◌, refl, sym, ap, subst, arith, Bool-cases, inl,
  inr, if◌then◌else◌,
}
use locus_v.Prelude.Lists.{All, In, here, there}
use locus_v.PartyStore.Tables.{select, update}

module _ {A : Type 0} where
  -- What an UPDATE makes of one row.
  abbrev pub updated_row : (A → Bool) → (A → A) → A → A
  updated_row test change x = if test x then change x else x

  pub updated_row-same :
      {B : Type 0} (f : A → B) (test : A → Bool) (change : A → A) (x : A)
      → f (change x) ≡ f x
      → f (updated_row test change x) ≡ f x
  updated_row-same f test change x h = elim (Bool-cases (test x)) [
    | inl e ↦ rw e h
    | inr e ↦ rw e refl
  ]

  pub select-update-some :
      (key test : A → Bool) (change : A → A) (rows : List A) (x : A)
      → ((y : A) → key (change y) ≡ key y)
      → select key rows ≡ some x
      → select key (update test change rows) ≡ some (updated_row test change x)
  select-update-some key test change [] x keeps h = absurd (cc)
  select-update-some key test change (y ∷ rows) x keeps h =
      let k = updated_row-same key test change y (keeps y) in
      elim (Bool-cases (key y)) [
        | inl e ↦
            let same : y ≡ x = ground (arith, h, e) in
            rw k (rw e (ap (λ z. some (updated_row test change z)) same))
        | inr e ↦
            rw k (rw e (select-update-some key test change rows x keeps (ground (arith, h, e))))
      ]

  pub select-update-none :
      (key test : A → Bool) (change : A → A) (rows : List A)
      → ((y : A) → key (change y) ≡ key y)
      → select key rows ≡ none
      → select key (update test change rows) ≡ none
  select-update-none key test change [] keeps h = refl
  select-update-none key test change (y ∷ rows) keeps h =
      let k = updated_row-same key test change y (keeps y) in
      elim (Bool-cases (key y)) [
        | inl e ↦ absurd (ground (arith, h, e))
        | inr e ↦ rw k (rw e (select-update-none key test change rows keeps (ground (arith, h, e))))
      ]

  pub select-here :
      (key : A → Bool) (rows : List A) (x : A) → select key rows ≡ some x → key x ≡ true
  select-here key [] x h = absurd (cc)
  select-here key (y ∷ rows) x h = elim (Bool-cases (key y)) [
    | inl e ↦ let same : y ≡ x = ground (arith, h, e) in subst (λ z. key z ≡ true) same e
    | inr e ↦ select-here key rows x (ground (arith, h, e))
  ]

  pub All-update {κ} :
      (P : A → Type κ) (test : A → Bool) (change : A → A) (rows : List A)
      → ((x : A) → P x → P (change x))
      → All P rows
      → All P (update test change rows)
  All-update P test change [] keeps h = tt
  All-update P test change (x ∷ rows) keeps (p, ps) = (
    elim (Bool-cases (test x)) [ inl e ↦ rw e (keeps x p) | inr e ↦ rw e p ],
    All-update P test change rows keeps ps,
  )

  -- No two rows with one key, where `key x` tests for the key of `x`.
  abbrev pub Distinct : (A → A → Bool) → List A → Type 0
  Distinct key [] = Unit
  Distinct key (x ∷ rows) = (select (key x) rows ≡ none) × Distinct key rows

  pub Distinct-update :
      (key : A → A → Bool) (test : A → Bool) (change : A → A) (rows : List A)
      → ((x : A) → key (change x) ≡ key x)
      → ((x y : A) → key x (change y) ≡ key x y)
      → Distinct key rows
      → Distinct key (update test change rows)
  Distinct-update key test change [] own other h = tt
  Distinct-update key test change (x ∷ rows) own other (free, rest) = (
    subst (λ k. select k (update test change rows) ≡ none)
        (sym (updated_row-same key test change x (own x)))
        (select-update-none (key x) test change rows (other x) free),
    Distinct-update key test change rows own other rest,
  )

  -- A row with the key of another is that one.
  select-none-In :
      (key : A → Bool) (rows : List A) (x : A) → select key rows ≡ none → In x rows → key x ≡ false
  select-none-In key [] x h i = elim i [ ]
  select-none-In key (y ∷ rows) x h (here e) =
      subst (λ z. key z ≡ false) e
        (elim (Bool-cases (key y)) [ inl k ↦ absurd (ground (arith, h, k)) | inr k ↦ k ])
  select-none-In key (y ∷ rows) x h (there i) =
      select-none-In key rows x
        (elim (Bool-cases (key y)) [
          | inl k ↦ absurd (ground (arith, h, k))
          | inr k ↦ ground (arith, h, k)
        ])
        i

  pub Distinct-select :
      (key : A → A → Bool) (rows : List A) (x : A)
      → ((y z : A) → key y z ≡ true → key z y ≡ true)
      → key x x ≡ true
      → Distinct key rows
      → In x rows
      → select (key x) rows ≡ some x
  Distinct-select key [] x symmetric own d i = elim i [ ]
  Distinct-select key (y ∷ rows) x symmetric own (free, rest) (here e) =
      let at : key x y ≡ true = subst (λ z. key x z ≡ true) (sym e) own in rw at (ap some e)
  Distinct-select key (y ∷ rows) x symmetric own (free, rest) (there i) =
      let away : key y x ≡ false = select-none-In (key y) rows x free i in
      elim (Bool-cases (key x y)) [
        | inl k ↦ absurd (ground (arith, away, symmetric x y k))
        | inr k ↦ rw k (Distinct-select key rows x symmetric own rest i)
      ]
