-- ===== src/Prelude/Lists.antt =====
-- Lists measured by native numbers, tests over them, and their laws.
use mathlib.Core.Path.{◌≡◌, refl, ap}
use mathlib.Core.Bool.{Bool}
use mathlib.Core.Option.{Option, none, some}
use mathlib.Core.List.{List, [], ◌∷◌, ◌++◌}
use native.Mathlib.Omega.{arith}
use Prim.Native.Nat.{ℕ, zero, suc, ◌+◌, ◌≤◌}
use locus_v.Prelude.Tests.{if◌then◌else◌}

module _ {ℓ} {A : Type ℓ} where
  abbrev pub length : List A → ℕ
  length [] = 0
  length (x ∷ xs) = suc (length xs)

  abbrev pub get_elem? : List A → ℕ → Option A
  get_elem? [] i = none
  get_elem? (x ∷ xs) zero = some x
  get_elem? (x ∷ xs) (suc i) = get_elem? xs i

  abbrev pub set : List A → ℕ → A → List A
  set [] i v = []
  set (x ∷ xs) zero v = v ∷ xs
  set (x ∷ xs) (suc i) v = x ∷ set xs i v

  abbrev pub take : ℕ → List A → List A
  take zero xs = []
  take (suc n) [] = []
  take (suc n) (x ∷ xs) = x ∷ take n xs

  abbrev pub last? : List A → Option A
  last? [] = none
  last? (x ∷ []) = some x
  last? (x ∷ y ∷ xs) = last? (y ∷ xs)

  -- xs[:-1]
  abbrev pub drop_last : List A → List A
  drop_last [] = []
  drop_last (x ∷ []) = []
  drop_last (x ∷ y ∷ xs) = x ∷ drop_last (y ∷ xs)

  -- A predicate that holds of every element.
  abbrev pub All {κ} : (A → Type κ) → List A → Type κ
  All P [] = Unit
  All P (x ∷ xs) = P x × All P xs

  -- A decided membership, with the place kept.
  pub data In (a : A) : List A → Type ℓ where
    here : {x : A} {xs : List A} → x ≡ a → In a (x ∷ xs)
    there : {x : A} {xs : List A} → In a xs → In a (x ∷ xs)

  -- sum(test(x) for x in xs)
  abbrev pub count : (A → Bool) → List A → ℕ
  count p [] = 0
  count p (x ∷ xs) = (if p x then 1 else 0) + count p xs

  pub length-append : (xs ys : List A) → length (xs ++ ys) ≡ length xs + length ys
  length-append [] ys = omega arith
  length-append (x ∷ xs) ys = omega (arith, length-append xs ys)

  pub length-set : (xs : List A) (i : ℕ) (v : A) → length (set xs i v) ≡ length xs
  length-set [] i v = refl
  length-set (x ∷ xs) zero v = refl
  length-set (x ∷ xs) (suc i) v = ap suc (length-set xs i v)

  pub length-take-le : (n : ℕ) (xs : List A) → length (take n xs) ≤ length xs
  length-take-le zero xs = omega arith
  length-take-le (suc n) [] = omega arith
  length-take-le (suc n) (x ∷ xs) = omega (arith, length-take-le n xs)

  pub drop_last-append : (xs : List A) (x : A) → drop_last (xs ++ x ∷ []) ≡ xs
  drop_last-append [] x = refl
  drop_last-append (y ∷ []) x = refl
  drop_last-append (y ∷ z ∷ xs) x = ap (λ t. y ∷ t) (drop_last-append (z ∷ xs) x)

  pub last?-append : (xs : List A) (x : A) → last? (xs ++ x ∷ []) ≡ some x
  last?-append [] x = refl
  last?-append (y ∷ []) x = refl
  last?-append (y ∷ z ∷ xs) x = last?-append (z ∷ xs) x

  pub drop_last-append_last :
      (xs : List A) (r : A) → last? xs ≡ some r → drop_last xs ++ r ∷ [] ≡ xs
  drop_last-append_last [] r h = absurd (cc)
  drop_last-append_last (x ∷ []) r h = cc
  drop_last-append_last (x ∷ y ∷ xs) r h = ap (λ t. x ∷ t) (drop_last-append_last (y ∷ xs) r h)

  pub All-append {κ} :
      (P : A → Type κ) (front back : List A) → All P front → All P back → All P (front ++ back)
  All-append P [] ys _ kept = kept
  All-append P (x ∷ xs) ys (p, ps) kept = (p, All-append P xs ys ps kept)

  -- A sequence one longer than its front is the front and one more.
  pub append_last :
      (xs ys : List A)
      → length ys ≡ length xs + 1
      → drop_last ys ≡ xs
      → (r : A) × (ys ≡ xs ++ r ∷ [])
  append_last xs [] h e = absurd (omega arith)
  append_last [] (y ∷ []) h e = (y, refl)
  append_last (x ∷ xs) (y ∷ []) h e = absurd (omega arith)
  append_last [] (y ∷ z ∷ ys) h e = absurd (omega arith)
  append_last (x ∷ xs) (y ∷ z ∷ ys) h e =
      let (r, q) = append_last xs (z ∷ ys) (omega arith) (ground arith) in (r, ground (arith, q))

  -- Two appends that agree, with fronts of one length, agree in both parts.
  pub append_cancel :
      (xs ys us vs : List A) → length xs ≡ length ys → xs ++ us ≡ ys ++ vs → (xs ≡ ys) × (us ≡ vs)
  append_cancel [] [] us vs n h = (refl, h)
  append_cancel [] (y ∷ ys) us vs n h = absurd (omega (arith, n))
  append_cancel (x ∷ xs) [] us vs n h = absurd (omega (arith, n))
  append_cancel (x ∷ xs) (y ∷ ys) us vs n h =
      let (p, q) = append_cancel xs ys us vs (omega (arith, n)) (ground (arith, h)) in
      (ground (arith, p, h), q)
