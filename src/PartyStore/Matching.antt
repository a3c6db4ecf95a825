-- ===== src/PartyStore/Matching.antt =====
-- Counting the rows of a table with distinct keys.
use locus_v.Prelude.{
  ◌+◌, ◌≤◌, Bool, true, false, ◌||◌, none, List, [], ◌∷◌, ◌≡◌, refl, arith, Bool-cases, inl, inr,
}
use locus_v.Prelude.Lists.{All, count}
use locus_v.PartyStore.Tables.{select}
use locus_v.PartyStore.Rows.{Distinct}

module _ {A : Type 0} where
  -- No row passes a test that implies one that selects nothing.
  count-select-none :
      (key test : A → Bool) (rows : List A)
      → ((x : A) → test x ≡ true → key x ≡ true)
      → select key rows ≡ none
      → count test rows ≡ 0
  count-select-none key test [] implied h = refl
  count-select-none key test (x ∷ rows) implied h = elim (Bool-cases (key x)) [
    | inl k ↦ absurd (ground (arith, h, k))
    | inr k ↦
        let rest = count-select-none key test rows implied (ground (arith, h, k)) in
        elim (Bool-cases (test x)) [
          | inl e ↦ absurd (ground (arith, k, implied x e))
          | inr e ↦ rw e (omega (arith, rest))
        ]
  ]

  -- Of the rows with distinct keys at most one passes a test that fixes the key.
  pub count-Distinct :
      (key : A → A → Bool) (test : A → Bool) (rows : List A)
      → ((x y : A) → test x ≡ true → test y ≡ true → key x y ≡ true)
      → Distinct key rows
      → count test rows ≤ 1
  count-Distinct key test [] fixed h = omega arith
  count-Distinct key test (x ∷ rows) fixed (free, rest) = elim (Bool-cases (test x)) [
    | inl e ↦
        let others = count-select-none (key x) test rows (λ y k. fixed x y e k) free in
        rw e (omega (arith, others))
    | inr e ↦ let others = count-Distinct key test rows fixed rest in rw e (omega (arith, others))
  ]

  pub count-either :
      (p q r : A → Bool) (rows : List A)
      → ((x : A) → p x ≡ true → (q x || r x) ≡ true)
      → count p rows ≤ count q rows + count r rows
  count-either p q r [] h = omega arith
  count-either p q r (x ∷ rows) h =
      let rest = count-either p q r rows h in
      elim (Bool-cases (p x)) [
        | inl e ↦ let k = h x e in ground (arith, e, k, rest)
        | inr e ↦ rw e (omega (arith, rest))
      ]

  pub count-All :
      (p q : A → Bool) (rows : List A)
      → All (λ x. p x ≡ true → q x ≡ true) rows
      → count p rows ≤ count q rows
  count-All p q [] h = omega arith
  count-All p q (x ∷ rows) (h, hs) =
      let rest = count-All p q rows hs in
      elim (Bool-cases (p x)) [
        | inl e ↦ let k = h e in rw e (rw k (omega (arith, rest)))
        | inr e ↦ rw e (omega (arith, rest))
      ]

  pub count-never :
      (test : A → Bool) (rows : List A) → ((x : A) → test x ≡ false) → count test rows ≡ 0
  count-never test [] h = refl
  count-never test (x ∷ rows) h =
      let rest = count-never test rows h in rw (h x) (omega (arith, rest))
