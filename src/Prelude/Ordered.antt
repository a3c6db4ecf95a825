-- ===== src/Prelude/Ordered.antt =====
-- Python's `ids == sorted(set(ids))`: strictly increasing numbers.
use Prim.Native.Nat.{ℕ, ◌≤◌, ◌<◌}
use mathlib.Core.Path.{◌≡◌, sym, subst}
use mathlib.Core.Logic.{inl, inr}
use mathlib.Core.Bool.{Bool, true, false}
use mathlib.Core.List.{List, [], ◌∷◌}
use native.Mathlib.Omega.{arith}
use locus_v.Prelude.Tests.{leb, Bool-cases}
use locus_v.Prelude.Eq.{◌==◌, nat_eq, list_eq, eq_of_beq}
use locus_v.Prelude.Lists.{All}
use locus_v.Prelude.Counts.{sorted, insert_sorted, All-insert_sorted, All-mono}
use locus_v.Prelude.Sets.{contains, to_set, distinct, distinct-to_set, distinct-sorted}

-- ids != sorted(set(ids)), negated
abbrev pub is_canonical : List ℕ → Bool
is_canonical ids = ids == sorted leb (to_set ids)

abbrev pub Increasing : List ℕ → Type 0
Increasing [] = Unit
Increasing (x ∷ xs) = All (λ y. x < y) xs × Increasing xs

abbrev Ascending : List ℕ → Type 0
Ascending [] = Unit
Ascending (x ∷ xs) = All (λ y. x ≤ y) xs × Ascending xs

insert_sorted-Ascending : (x : ℕ) (xs : List ℕ) → Ascending xs → Ascending (insert_sorted leb x xs)
unfolding insert_sorted
insert_sorted-Ascending x [] h = (tt, tt)
insert_sorted-Ascending x (y ∷ ys) (least, rest) = elim (Bool-cases (leb x y)) [
  | inl q ↦ rw q (
    (ground (arith, q), All-mono (λ z. y ≤ z) (λ z. x ≤ z) ys (λ z l. ground (arith, q, l)) least),
    (least, rest),
  )
  | inr q ↦ rw q (
    All-insert_sorted (λ z. y ≤ z) leb x ys (ground (arith, q)) least,
    insert_sorted-Ascending x ys rest,
  )
]

sorted-Ascending : (xs : List ℕ) → Ascending (sorted leb xs)
unfolding sorted
sorted-Ascending [] = tt
sorted-Ascending (x ∷ xs) = insert_sorted-Ascending x (sorted leb xs) (sorted-Ascending xs)

below-All :
    (x : ℕ) (xs : List ℕ) → All (λ y. x ≤ y) xs → contains xs x ≡ false → All (λ y. x < y) xs
unfolding contains
below-All x [] h c = tt
below-All x (y ∷ ys) (l, h) c =
    (ground (arith, l, c, nat_eq.same_iff y x), below-All x ys h (ground (arith, c)))

Ascending-Increasing : (xs : List ℕ) → Ascending xs → distinct xs ≡ true → Increasing xs
unfolding distinct
Ascending-Increasing [] h d = tt
Ascending-Increasing (x ∷ xs) (l, h) d =
    (below-All x xs l (ground (arith, d)), Ascending-Increasing xs h (ground (arith, d)))

pub is_canonical-Increasing : (ids : List ℕ) → is_canonical ids ≡ true → Increasing ids
is_canonical-Increasing ids h = subst Increasing (sym (eq_of_beq ids (sorted leb (to_set ids)) h)) (
    Ascending-Increasing (sorted leb (to_set ids)) (sorted-Ascending (to_set ids))
      (distinct-sorted leb (to_set ids) (distinct-to_set ids)))
