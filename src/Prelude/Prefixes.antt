-- ===== src/Prelude/Prefixes.antt =====
-- Prefixes of sequences.
use Prim.Native.Nat.{ℕ, zero, suc, ◌≤◌}
use mathlib.Core.Path.{◌≡◌, refl}
use mathlib.Core.Bool.{Bool, true, false, ◌&&◌}
use mathlib.Core.List.{List, [], ◌∷◌, ◌++◌}
use native.Mathlib.Omega.{arith}
use locus_v.Prelude.Tests.{leb}
use locus_v.Prelude.Eq.{Eq, ◌==◌, list_eq, list_beq, beq_self}
use locus_v.Prelude.Lists.{length, take}

module _ {ℓ} {A : Type ℓ} ⦃e : Eq A⦄ where
  -- len(prefix) <= len(value) and value[: len(prefix)] == prefix
  unfoldable pub is_prefix : List A → List A → Bool
  is_prefix p v = leb (length p) (length v) && list_beq (take (length p) v) p

  is_prefix-nil : (v : List A) → is_prefix [] v ≡ true
  unfolding is_prefix
  is_prefix-nil v = ground arith

  is_prefix-cons : (x y : A) (p v : List A) → is_prefix (x ∷ p) (y ∷ v) ≡ (y == x && is_prefix p v)
  unfolding is_prefix
  is_prefix-cons x y p v = ground arith

  is_prefix-cons_nil : (x : A) (p : List A) → is_prefix (x ∷ p) [] ≡ false
  unfolding is_prefix
  is_prefix-cons_nil x p = ground arith

  pub is_prefix_refl : (v : List A) → is_prefix v v ≡ true
  is_prefix_refl [] = is_prefix-nil []
  is_prefix_refl (x ∷ v) = rw (is_prefix-cons, beq_self, is_prefix_refl v)

  pub is_prefix-append : (p t : List A) → is_prefix p (p ++ t) ≡ true
  is_prefix-append [] t = is_prefix-nil t
  is_prefix-append (x ∷ p) t = rw (is_prefix-cons, beq_self, is_prefix-append p t)

  pub is_prefix_trans :
      (p q v : List A) → is_prefix p q ≡ true → is_prefix q v ≡ true → is_prefix p v ≡ true
  is_prefix_trans [] q v h k = is_prefix-nil v
  is_prefix_trans (x ∷ p) [] v h k = ground (arith, is_prefix-cons_nil x p)
  is_prefix_trans (x ∷ p) (y ∷ q) [] h k = ground (arith, is_prefix-cons_nil y q)
  is_prefix_trans (x ∷ p) (y ∷ q) (z ∷ v) h k = ground (
    arith,
    is_prefix-cons x y p q,
    is_prefix-cons y z q v,
    is_prefix-cons x z p v,
    is_prefix_trans p q v,
    e.same_iff z x,
    e.same_iff y x,
    e.same_iff z y,
  )

  pub length-le_of_prefix : (p v : List A) → is_prefix p v ≡ true → length p ≤ length v
  unfolding is_prefix
  length-le_of_prefix p v h = ground arith

  -- Two prefixes of one sequence are comparable.
  pub is_prefix_comparable :
      (p q v : List A)
      → is_prefix p v ≡ true
      → is_prefix q v ≡ true
      → length p ≤ length q
      → is_prefix p q ≡ true
  is_prefix_comparable [] q v h k l = is_prefix-nil q
  is_prefix_comparable (x ∷ p) [] v h k l = absurd (omega arith)
  is_prefix_comparable (x ∷ p) (y ∷ q) [] h k l = ground (arith, is_prefix-cons_nil x p)
  is_prefix_comparable (x ∷ p) (y ∷ q) (z ∷ v) h k l = ground (
    arith,
    is_prefix-cons x y p q,
    is_prefix-cons y z q v,
    is_prefix-cons x z p v,
    is_prefix_comparable p q v,
    e.same_iff z x,
    e.same_iff y x,
    e.same_iff z y,
  )

  pub prefix_of_same_length : (p q : List A) → is_prefix p q ≡ true → length p ≡ length q → p ≡ q
  prefix_of_same_length [] [] h l = refl
  prefix_of_same_length [] (y ∷ q) h l = absurd (omega arith)
  prefix_of_same_length (x ∷ p) [] h l = absurd (omega arith)
  prefix_of_same_length (x ∷ p) (y ∷ q) h l =
      ground (arith, is_prefix-cons x y p q, e.same_iff y x, prefix_of_same_length p q)

  pub is_prefix-take : (n : ℕ) (v : List A) → is_prefix (take n v) v ≡ true
  is_prefix-take zero v = is_prefix-nil v
  is_prefix-take (suc n) [] = is_prefix-nil []
  is_prefix-take (suc n) (x ∷ v) = rw (is_prefix-cons, beq_self, is_prefix-take n v)
