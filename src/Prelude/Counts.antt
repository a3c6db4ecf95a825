-- ===== src/Prelude/Counts.antt =====
-- `All`, `In` and `count` under an append, a write and a sort.
use Prim.Native.Nat.{ℕ, zero, suc, ◌+◌, ◌≤◌, ◌<◌}
use mathlib.Core.Path.{◌≡◌, refl, ◌∙◌}
use mathlib.Core.Logic.{inl, inr}
use mathlib.Core.Bool.{Bool, true, ◌&&◌}
use mathlib.Core.Option.{some}
use mathlib.Core.List.{List, [], ◌∷◌}
use native.Mathlib.Omega.{arith}
use locus_v.Prelude.Tests.{if◌then◌else◌, Bool-cases}
use locus_v.Prelude.Lists.{length, get_elem?, set, All, In, here, there, count}

module _ {ℓ} {A : Type ℓ} where
  -- Insertion at the first place whose element does not come before `x`.
  unfoldable pub insert_sorted : (A → A → Bool) → A → List A → List A
  insert_sorted le x [] = x ∷ []
  insert_sorted le x (y ∷ ys) = if le x y then x ∷ y ∷ ys else y ∷ insert_sorted le x ys

  -- Python's stable `sorted`, by a test on the keys.
  unfoldable pub sorted : (A → A → Bool) → List A → List A
  unfolding insert_sorted
  sorted le [] = []
  sorted le (x ∷ xs) = insert_sorted le x (sorted le xs)

  pub All-insert_sorted {κ} :
      (P : A → Type κ) (le : A → A → Bool) (x : A) (xs : List A)
      → P x
      → All P xs
      → All P (insert_sorted le x xs)
  unfolding insert_sorted
  All-insert_sorted P le x [] p h = (p, tt)
  All-insert_sorted P le x (y ∷ ys) p h = elim (Bool-cases (le x y)) [
    | inl e ↦ rw e (p, h)
    | inr e ↦ rw e (h.0, All-insert_sorted P le x ys p h.1)
  ]

  pub All-sorted {κ} :
      (P : A → Type κ) (le : A → A → Bool) (xs : List A) → All P xs → All P (sorted le xs)
  unfolding sorted
  All-sorted P le [] h = tt
  All-sorted P le (x ∷ xs) h = All-insert_sorted P le x (sorted le xs) h.0 (All-sorted P le xs h.1)

  count-insert_sorted :
      (p : A → Bool) (le : A → A → Bool) (x : A) (xs : List A)
      → count p (insert_sorted le x xs) ≡ count p (x ∷ xs)
  unfolding insert_sorted
  count-insert_sorted p le x [] = refl
  count-insert_sorted p le x (y ∷ ys) = elim (Bool-cases (le x y)) [
    | inl e ↦ rw e
    | inr e ↦ rw e (omega (arith, count-insert_sorted p le x ys))
  ]

  pub count-sorted :
      (p : A → Bool) (le : A → A → Bool) (xs : List A) → count p (sorted le xs) ≡ count p xs
  unfolding sorted
  count-sorted p le [] = refl
  count-sorted p le (x ∷ xs) =
      count-insert_sorted p le x (sorted le xs) ∙ omega (arith, count-sorted p le xs)

  length-count : (xs : List A) → length xs ≡ count (λ _. true) xs
  length-count [] = refl
  length-count (x ∷ xs) = omega (arith, length-count xs)

  pub length-sorted : (le : A → A → Bool) (xs : List A) → length (sorted le xs) ≡ length xs
  length-sorted le xs =
      omega (arith, length-count xs, length-count (sorted le xs), count-sorted (λ _. true) le xs)

  pub All-set {κ} :
      (P : A → Type κ) (xs : List A) (i : ℕ) (v : A) → P v → All P xs → All P (set xs i v)
  All-set P [] i v p h = tt
  All-set P (x ∷ xs) zero v p h = (p, h.1)
  All-set P (x ∷ xs) (suc i) v p h = (h.0, All-set P xs i v p h.1)

  pub All-get_elem? {κ} :
      (P : A → Type κ) (xs : List A) (i : ℕ) {x : A} → All P xs → get_elem? xs i ≡ some x → P x
  All-get_elem? P [] i h e = absurd (cc)
  All-get_elem? P (y ∷ xs) zero {x} h e = subst-P (ground arith) h.0
    where
      subst-P : y ≡ x → P y → P x
      subst-P q t = rw q at t
  All-get_elem? P (y ∷ xs) (suc i) h e = All-get_elem? P xs i h.1 e

  pub All-In {κ} : (P : A → Type κ) (xs : List A) {x : A} → All P xs → In x xs → P x
  All-In P [] h m = elim m [ ]
  All-In P (y ∷ xs) h (here e) = rw e at h.0
  All-In P (y ∷ xs) h (there m) = All-In P xs h.1 m

  pub All-mono {κ μ} :
      (P : A → Type κ) (Q : A → Type μ) (xs : List A) → ((x : A) → P x → Q x) → All P xs → All Q xs
  All-mono P Q [] k h = tt
  All-mono P Q (x ∷ xs) k h = (k x h.0, All-mono P Q xs k h.1)

  -- A write that keeps the test at its place, or makes it pass, does not lower the count.
  pub count-le-set :
      (p : A → Bool) (xs : List A) (i : ℕ) (x v : A)
      → get_elem? xs i ≡ some x
      → (p x ≡ true → p v ≡ true)
      → count p xs ≤ count p (set xs i v)
  count-le-set p [] i x v e k = omega arith
  count-le-set p (y ∷ xs) zero x v e k = ground arith
  count-le-set p (y ∷ xs) (suc i) x v e k = omega (arith, count-le-set p xs i x v e k)

  pub count_mono :
      (p q : A → Bool) (xs : List A)
      → All (λ x. p x ≡ true → q x ≡ true) xs
      → count p xs ≤ count q xs
  count_mono p q [] h = omega arith
  count_mono p q (x ∷ xs) h = ground (arith, count_mono p q xs h.1, h.0)

  -- Two tests that together pass more often than there are elements pass together somewhere.
  pub count_overlap :
      (p q : A → Bool) (xs : List A)
      → length xs < count p xs + count q xs
      → (x : A) × In x xs × (p x ≡ true) × (q x ≡ true)
  count_overlap p q [] h = absurd (omega arith)
  count_overlap p q (x ∷ xs) h = elim (Bool-cases (p x && q x)) [
    | inl e ↦ (x, here refl, ground arith, ground arith)
    | inr e ↦ let (y, m, py, qy) = count_overlap p q xs (ground arith) in (y, there m, py, qy)
  ]

  pub count_In : (p : A → Bool) (xs : List A) → 0 < count p xs → (x : A) × In x xs × (p x ≡ true)
  count_In p [] h = absurd (omega arith)
  count_In p (x ∷ xs) h = elim (Bool-cases (p x)) [
    | inl e ↦ (x, here refl, e)
    | inr e ↦ let (y, m, py) = count_In p xs (ground arith) in (y, there m, py)
  ]

  pub get_elem?-In : (xs : List A) (i : ℕ) {x : A} → get_elem? xs i ≡ some x → In x xs
  get_elem?-In [] i e = absurd (cc)
  get_elem?-In (y ∷ xs) zero e = here (ground arith)
  get_elem?-In (y ∷ xs) (suc i) e = there (get_elem?-In xs i e)

  pub get_elem?_total : (xs : List A) (i : ℕ) → i < length xs → (x : A) × (get_elem? xs i ≡ some x)
  get_elem?_total [] i h = absurd (omega arith)
  get_elem?_total (x ∷ xs) zero h = (x, refl)
  get_elem?_total (x ∷ xs) (suc i) h = get_elem?_total xs i (omega arith)

  pub All-of_In {κ} : (P : A → Type κ) (xs : List A) → ((x : A) → In x xs → P x) → All P xs
  All-of_In P [] h = tt
  All-of_In P (x ∷ xs) h = (h x (here refl), All-of_In P xs (λ y m. h y (there m)))
