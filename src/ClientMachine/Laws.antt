-- ===== src/ClientMachine/Laws.antt =====
-- Machines whose rules keep a predicate of states and go forward in an order of states.
use locus_v.Prelude.{some, List, ◌≡◌, ◌⊎◌, inl, inr, arith, sym, ap, ◌∙◌, subst, Bool-cases}
use locus_v.Prelude.Eq.{Eq, ◌==◌, list_eq, nat_eq, pair_eq}
use locus_v.Prelude.Results.{ok}
use locus_v.Contracts.Values.{Text}
use locus_v.ClientMachine.Store.{get, put, Rules, Machine, empty_machine}
use locus_v.ClientMachine.Runs.{Call, opened, moved, kept, Later, now, after}

-- An entry after another was put, by which of the two it is.
get-put_cases :
    {V : Type 0} (d : List (Text × V)) (k j : Text) (v w : V)
    → get (put d k v) j ≡ some w
    → ((k ≡ j) × (v ≡ w)) ⊎ (get d j ≡ some w)
get-put_cases d k j v w h = elim (Bool-cases (k == j)) [
  | inl q ↦ inl ((list_eq.same_iff k j).0 q, ground (arith, q, h))
  | inr q ↦ inr (ground (arith, q, h))
]

module _ {S V A : Type 0} ⦃same_state : Eq S⦄ (r : Rules S V A) (Good : S → Type 0)
    (Before : S → S → Type 0)
    (starts-Good : (a : A) (o : Text) (s : S)
      → r.starts a o ≡ ok s
      → Good s × (r.operation_id s ≡ o))
    (step-Good : (s t : S) (v : V)
      → Good s
      → r.step s v ≡ ok t
      → Good t × Before s t × (r.operation_id t ≡ r.operation_id s))
    (Before-refl : (s : S) → Before s s)
    (Before-trans : (s t u : S) → Before s t → Before t u → Before s u) where
  -- Every state is good and stands under its own identifier.
  abbrev pub IsSound : Machine S → Type 0
  IsSound m = (o : Text) (s : S) → get m.states o ≡ some s → Good s × (r.operation_id s ≡ o)

  pub empty-IsSound : IsSound empty_machine
  empty-IsSound o s h = absurd (cc)

  -- Putting a good state keeps the others.
  put-IsSound :
      (m : Machine S) (k : Text) (v : S) (sound : IsSound m)
      → Good v
      → r.operation_id v ≡ k
      → (o : Text) (s : S) → get (put m.states k v) o ≡ some s
      → Good s × (r.operation_id s ≡ o)
  put-IsSound m k v sound good same o s h = elim (get-put_cases m.states k o v s h) [
    | inl (p, q) ↦ (subst Good q good, sym (ap (λ x. r.operation_id x) q) ∙ same ∙ p)
    | inr q ↦ sound o s q
  ]

  Call-IsSound : (m n : Machine S) → Call r m n → IsSound m → IsSound n
  Call-IsSound m _ (opened a o s fresh e) sound =
      let (good, same) = starts-Good a o s e in put-IsSound m o s sound good same
  Call-IsSound m _ (moved s t v fresh current e) sound =
      let (good, before, same) = step-Good s t v (sound _ s current).0 e in
      put-IsSound m (r.operation_id s) t sound good same
  Call-IsSound m _ kept sound = sound

  pub Later-IsSound : (m n : Machine S) → Later r m n → IsSound m → IsSound n
  Later-IsSound m n now sound = sound
  Later-IsSound m n (after {n = k} l c) sound = Call-IsSound k n c (Later-IsSound m k l sound)

  -- A call moves the state of an operation forward or not at all.
  Call-Before :
      (m n : Machine S) (o : Text) (s : S)
      → Call r m n
      → IsSound m
      → get m.states o ≡ some s
      → (t : S) × (get n.states o ≡ some t) × Before s t
  Call-Before m _ o s (opened a k u fresh e) sound h = elim (Bool-cases (k == o)) [
    | inl q ↦
        let p : k ≡ o = (list_eq.same_iff k o).0 q in
        absurd (ground (arith, sym fresh ∙ ap (get m.states) p ∙ h))
    | inr q ↦ (s, ground (arith, q, h), Before-refl s)
  ]
  Call-Before m _ o s (moved u t v fresh current e) sound h =
      elim (Bool-cases (r.operation_id u == o)) [
        | inl q ↦
            let p : r.operation_id u ≡ o = (list_eq.same_iff _ o).0 q in
            let same : u ≡ s = ground (arith, sym current ∙ ap (get m.states) p ∙ h) in
            let (good, before, _) = step-Good u t v (sound _ u current).0 e in
            (t, ground (arith, q), subst (λ x. Before x t) same before)
        | inr q ↦ (s, ground (arith, q, h), Before-refl s)
      ]
  Call-Before m _ o s kept sound h = (s, h, Before-refl s)

  pub Later-Before :
      (m n : Machine S) (o : Text) (s : S)
      → Later r m n
      → IsSound m
      → get m.states o ≡ some s
      → (t : S) × (get n.states o ≡ some t) × Before s t
  Later-Before m n o s now sound h = (s, h, Before-refl s)
  Later-Before m n o s (after {n = k} l c) sound h =
      let (t, found, before) = Later-Before m k o s l sound h in
      let (u, moves, further) = Call-Before k n o t c (Later-IsSound m k l sound) found in
      (u, moves, Before-trans s t u before further)
