-- ===== src/Prelude/Sets.antt =====
-- Python's `in`, `set(...)` and `issubset` on short sequences.
use Prim.Native.Nat.{ℕ, zero, suc}
use mathlib.Core.Path.{◌≡◌, refl}
use mathlib.Core.Logic.{inl, inr}
use mathlib.Core.Bool.{Bool, true, false, not, ◌&&◌, ◌||◌}
use mathlib.Core.Option.{some}
use mathlib.Core.List.{List, [], ◌∷◌, ◌++◌}
use native.Mathlib.Omega.{arith}
use locus_v.Prelude.Tests.{if◌then◌else◌, Bool-cases}
use locus_v.Prelude.Eq.{Eq, ◌==◌}
use locus_v.Prelude.Lists.{length, take, last?, All, In, here, there}
use locus_v.Prelude.Counts.{insert_sorted, sorted}

module _ {ℓ} {A : Type ℓ} ⦃e : Eq A⦄ where
  -- x in xs
  unfoldable pub contains : List A → A → Bool
  contains [] a = false
  contains (x ∷ xs) a = x == a || contains xs a

  -- The members of `set(xs)`, once each.
  unfoldable pub to_set : List A → List A
  unfolding contains
  to_set [] = []
  to_set (x ∷ xs) = if contains xs x then to_set xs else x ∷ to_set xs

  -- No member occurs twice.
  unfoldable pub distinct : List A → Bool
  unfolding contains
  distinct [] = true
  distinct (x ∷ xs) = not (contains xs x) && distinct xs

  -- set(xs).issubset(ys)
  unfoldable pub is_subset : List A → List A → Bool
  unfolding contains
  is_subset [] ys = true
  is_subset (x ∷ xs) ys = contains ys x && is_subset xs ys

  pub contains-In : (xs : List A) (a : A) → contains xs a ≡ true → In a xs
  unfolding contains
  contains-In [] a h = absurd (cc)
  contains-In (x ∷ xs) a h = elim (Bool-cases (x == a)) [
    | inl q ↦ here ((e.same_iff x a).0 q)
    | inr q ↦ there (contains-In xs a (ground arith))
  ]

  pub In-contains : (xs : List A) (a : A) → In a xs → contains xs a ≡ true
  unfolding contains
  In-contains [] a m = elim m [ ]
  In-contains (x ∷ xs) a (here q) = ground (arith, e.same_iff x a)
  In-contains (x ∷ xs) a (there m) = ground (arith, In-contains xs a m)

  pub contains-append :
      (xs ys : List A) (a : A) → contains (xs ++ ys) a ≡ (contains xs a || contains ys a)
  unfolding contains
  contains-append [] ys a = refl
  contains-append (x ∷ xs) ys a = ground (arith, contains-append xs ys a)

  pub length-to_set : (xs : List A) → distinct xs ≡ true → length (to_set xs) ≡ length xs
  unfolding to_set distinct
  length-to_set [] h = refl
  length-to_set (x ∷ xs) h = ground (arith, length-to_set xs)

  pub distinct-append :
      (xs : List A) (a : A)
      → distinct xs ≡ true
      → contains xs a ≡ false
      → distinct (xs ++ a ∷ []) ≡ true
  unfolding distinct contains
  distinct-append [] a h k = refl
  distinct-append (x ∷ xs) a h k =
      ground
        (arith, distinct-append xs a, contains-append xs (a ∷ []) x, e.same_iff a x, e.same_iff x a)

  contains-take :
      (n : ℕ) (xs : List A) (a : A) → contains xs a ≡ false → contains (take n xs) a ≡ false
  unfolding contains
  contains-take zero xs a h = refl
  contains-take (suc n) [] a h = refl
  contains-take (suc n) (x ∷ xs) a h = ground (arith, contains-take n xs a)

  pub distinct-take : (n : ℕ) (xs : List A) → distinct xs ≡ true → distinct (take n xs) ≡ true
  unfolding distinct
  distinct-take zero xs h = refl
  distinct-take (suc n) [] h = refl
  distinct-take (suc n) (x ∷ xs) h = ground (arith, distinct-take n xs, contains-take n xs x)

  pub is_subset-All : (xs ys : List A) → All (λ x. contains ys x ≡ true) xs → is_subset xs ys ≡ true
  unfolding is_subset
  is_subset-All [] ys h = refl
  is_subset-All (x ∷ xs) ys h = ground (arith, is_subset-All xs ys h.1, h.0)

  contains-insert_sorted :
      (le : A → A → Bool) (x : A) (xs : List A) (a : A)
      → contains (insert_sorted le x xs) a ≡ (x == a || contains xs a)
  unfolding contains insert_sorted
  contains-insert_sorted le x [] a = refl
  contains-insert_sorted le x (y ∷ ys) a = elim (Bool-cases (le x y)) [
    | inl q ↦ rw q
    | inr q ↦ rw q (ground (arith, contains-insert_sorted le x ys a))
  ]

  pub contains-sorted :
      (le : A → A → Bool) (xs : List A) (a : A) → contains (sorted le xs) a ≡ contains xs a
  unfolding contains sorted
  contains-sorted le [] a = refl
  contains-sorted le (x ∷ xs) a =
      ground (arith, contains-insert_sorted le x (sorted le xs) a, contains-sorted le xs a)

  distinct-insert_sorted :
      (le : A → A → Bool) (x : A) (xs : List A)
      → distinct xs ≡ true
      → contains xs x ≡ false
      → distinct (insert_sorted le x xs) ≡ true
  unfolding distinct contains insert_sorted
  distinct-insert_sorted le x [] h k = refl
  distinct-insert_sorted le x (y ∷ ys) h k = elim (Bool-cases (le x y)) [
    | inl q ↦ rw q (ground arith)
    | inr q ↦ rw q (
        ground (
          arith,
          distinct-insert_sorted le x ys,
          contains-insert_sorted le x ys y,
          e.same_iff x y,
          e.same_iff y x,
        ))
  ]

  pub distinct-sorted :
      (le : A → A → Bool) (xs : List A) → distinct xs ≡ true → distinct (sorted le xs) ≡ true
  unfolding distinct sorted
  distinct-sorted le [] h = refl
  distinct-sorted le (x ∷ xs) h =
      distinct-insert_sorted le x (sorted le xs) (distinct-sorted le xs (ground arith))
        (rw (contains-sorted le xs x) (ground arith))

  pub All-to_set {κ} : (P : A → Type κ) (xs : List A) → All P xs → All P (to_set xs)
  unfolding to_set
  All-to_set P [] h = tt
  All-to_set P (x ∷ xs) h = elim (Bool-cases (contains xs x)) [
    | inl q ↦ rw q (All-to_set P xs h.1)
    | inr q ↦ rw q (h.0, All-to_set P xs h.1)
  ]

  pub last?-contains : (xs : List A) (a : A) → last? xs ≡ some a → contains xs a ≡ true
  unfolding contains
  last?-contains [] a h = absurd (cc)
  last?-contains (x ∷ []) a h = ground (arith, e.same_iff x a)
  last?-contains (x ∷ y ∷ xs) a h = ground (arith, last?-contains (y ∷ xs) a h)

  pub contains-to_set : (xs : List A) (a : A) → contains (to_set xs) a ≡ contains xs a
  unfolding to_set contains
  contains-to_set [] a = refl
  contains-to_set (x ∷ xs) a = elim (Bool-cases (contains xs x)) [
    | inl h ↦ elim (Bool-cases (x == a)) [
      | inl q ↦
          let o : contains xs a ≡ true = ground (arith, h, (e.same_iff x a).0 q) in
          ground (arith, h, q, o, contains-to_set xs a)
      | inr q ↦ ground (arith, h, q, contains-to_set xs a)
    ]
    | inr h ↦ ground (arith, h, contains-to_set xs a)
  ]

  pub distinct-to_set : (xs : List A) → distinct (to_set xs) ≡ true
  unfolding to_set distinct
  distinct-to_set [] = refl
  distinct-to_set (x ∷ xs) = elim (Bool-cases (contains xs x)) [
    | inl h ↦ ground (arith, h, distinct-to_set xs)
    | inr h ↦ ground (arith, h, distinct-to_set xs, contains-to_set xs x)
  ]
