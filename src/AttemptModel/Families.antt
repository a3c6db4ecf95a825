-- ===== src/AttemptModel/Families.antt =====
-- A successor that one family lists is a successor of a sound state.
use locus_v.Prelude.{refl, sym, subst, inl, inr, Bool, List, [], ◌∷◌, ◌++◌, Bool-cases}
use locus_v.Prelude.Lists.{In, here, there}
use locus_v.Prelude.Counts.{sorted, insert_sorted}
use locus_v.Prelude.Results.{ok, raise, ◌>>=◌, Returns, Returns-mono, Returns-value}
use locus_v.AttemptModel.State.{Checked, ModelState, ModelScenario}
use locus_v.AttemptModel.Successors.{
  Action, Successor, joined, all_successors, successors, vote_successors, prepare_successors,
  certificate_successors, install_successors, crash_successors, reconcile_successors,
  rollback_successors, evaluate_successors,
}
use locus_v.AttemptModel.Reach.{Reach, next, Sound-Returns}
use locus_v.AttemptModel.Bounds.{Reach-Sound}

In-append_left {ℓ} : {A : Type ℓ} {a : A} (xs ys : List A) → In a xs → In a (xs ++ ys)
In-append_left [] ys m = elim m [ ]
In-append_left (x ∷ xs) ys (here e) = here e
In-append_left (x ∷ xs) ys (there m) = there (In-append_left xs ys m)

In-append_right {ℓ} : {A : Type ℓ} {a : A} (xs ys : List A) → In a ys → In a (xs ++ ys)
In-append_right [] ys m = m
In-append_right (x ∷ xs) ys m = there (In-append_right xs ys m)

In-insert_new {ℓ} :
    {A : Type ℓ} (le : A → A → Bool) (x : A) (xs : List A) → In x (insert_sorted le x xs)
unfolding insert_sorted
In-insert_new le x [] = here refl
In-insert_new le x (y ∷ ys) = elim (Bool-cases (le x y)) [
  | inl e ↦ rw e (here refl)
  | inr e ↦ rw e (there (In-insert_new le x ys))
]

In-insert_old {ℓ} :
    {A : Type ℓ} {a : A} (le : A → A → Bool) (x : A) (xs : List A)
    → In a xs
    → In a (insert_sorted le x xs)
unfolding insert_sorted
In-insert_old le x [] m = elim m [ ]
In-insert_old le x (y ∷ ys) (here q) = elim (Bool-cases (le x y)) [
  | inl e ↦ rw e (there (here q))
  | inr e ↦ rw e (here q)
]
In-insert_old le x (y ∷ ys) (there m) = elim (Bool-cases (le x y)) [
  | inl e ↦ rw e (there (there m))
  | inr e ↦ rw e (there (In-insert_old le x ys m))
]

pub In-sorted {ℓ} :
    {A : Type ℓ} {a : A} (le : A → A → Bool) (xs : List A) → In a xs → In a (sorted le xs)
unfolding sorted
In-sorted le [] m = elim m [ ]
In-sorted {a = a} le (x ∷ xs) (here e) =
    subst (λ y. In a (insert_sorted le y (sorted le xs))) (sym e)
      (In-insert_new le a (sorted le xs))
In-sorted le (x ∷ xs) (there m) = In-insert_old le x (sorted le xs) (In-sorted le xs m)

-- `x` is in what a computation returns.
abbrev pub Lists : Successor → Checked (List Successor) → Type 0
Lists x m = Returns (In x) m

Lists-left :
    (x : Successor) (m n : Checked (List Successor))
    → Lists x m
    → Returns (λ _. Unit {0}) (joined m n)
    → Lists x (joined m n)
Lists-left x (ok xs) (ok ys) h r = In-append_left xs ys h
Lists-left x (ok xs) (raise e) h r = absurd r
Lists-left x (raise e) n h r = absurd h

Lists-right :
    (x : Successor) (m n : Checked (List Successor))
    → Lists x n
    → Returns (λ _. Unit {0}) (joined m n)
    → Lists x (joined m n)
Lists-right x (ok xs) (ok ys) h r = In-append_right xs ys h
Lists-right x (ok xs) (raise e) h r = absurd r
Lists-right x (raise e) n h r = absurd r

Returns-right :
    (m n : Checked (List Successor))
    → Returns (λ _. Unit {0}) (joined m n)
    → Returns (λ _. Unit {0}) n
Returns-right (ok xs) (ok ys) r = tt
Returns-right (ok xs) (raise e) r = absurd r
Returns-right (raise e) n r = absurd r

-- The families in the order in which `_successors` joins them.
pub data Family : Type 0 where
  votes prepares certificates installs crashes reconciles rollbacks evaluations : Family

abbrev pub family : Family → ModelState → ModelScenario → Checked (List Successor)
family votes s sc = vote_successors s sc
family prepares s sc = prepare_successors s
family certificates s sc = certificate_successors s sc
family installs s sc = install_successors s
family crashes s sc = crash_successors s
family reconciles s sc = reconcile_successors s sc
family rollbacks s sc = rollback_successors s sc
family evaluations s sc = evaluate_successors s

-- What `_successors` joins, from the left.
abbrev join_all :
    List (Checked (List Successor)) → Checked (List Successor) → Checked (List Successor)
join_all [] last = last
join_all (m ∷ ms) last = joined m (join_all ms last)

Lists-join_all :
    (x : Successor) (ms : List (Checked (List Successor))) (last : Checked (List Successor))
    → Returns (λ _. Unit {0}) (join_all ms last)
    → (m : Checked (List Successor)) → In m ms
    → Lists x m
    → Lists x (join_all ms last)
Lists-join_all x [] last r m i h = elim i [ ]
Lists-join_all x (n ∷ ms) last r m (here e) h =
    Lists-left x n (join_all ms last) (subst (Lists x) (sym e) h) r
Lists-join_all x (n ∷ ms) last r m (there i) h =
    Lists-right x n (join_all ms last)
      (Lists-join_all x ms last (Returns-right n (join_all ms last) r) m i h) r

Lists-join_last :
    (x : Successor) (ms : List (Checked (List Successor))) (last : Checked (List Successor))
    → Returns (λ _. Unit {0}) (join_all ms last)
    → Lists x last
    → Lists x (join_all ms last)
Lists-join_last x [] last r h = h
Lists-join_last x (n ∷ ms) last r h =
    Lists-right x n (join_all ms last)
      (Lists-join_last x ms last (Returns-right n (join_all ms last) r) h) r

Lists-all_successors :
    (f : Family) (s : ModelState) (sc : ModelScenario) (x : Successor)
    → Returns (λ _. Unit {0}) (all_successors s sc)
    → Lists x (family f s sc)
    → Lists x (all_successors s sc)
unfolding all_successors
Lists-all_successors f s sc x r h = go f h
  where
    ms : List (Checked (List Successor))
    ms =
        family votes s sc
        ∷ family prepares s sc
        ∷ family certificates s sc
        ∷ family installs s sc
        ∷ family crashes s sc
        ∷ family reconciles s sc
        ∷ family rollbacks s sc
        ∷ []

    at : (m : Checked (List Successor)) → In m ms → Lists x m → Lists x (all_successors s sc)
    at = Lists-join_all x ms (family evaluations s sc) r

    go : (f : Family) → Lists x (family f s sc) → Lists x (all_successors s sc)
    go votes h = at _ (here refl) h
    go prepares h = at _ (there (here refl)) h
    go certificates h = at _ (there (there (here refl))) h
    go installs h = at _ (there (there (there (here refl)))) h
    go crashes h = at _ (there (there (there (there (here refl))))) h
    go reconciles h = at _ (there (there (there (there (there (here refl)))))) h
    go rollbacks h = at _ (there (there (there (there (there (there (here refl))))))) h
    go evaluations h = Lists-join_last x ms (family evaluations s sc) r h

sorted_parts :
    (before : Successor → Successor → Bool) (x : Successor) (m : Checked (List Successor))
    → Returns (λ _. Unit {0}) (m >>= λ all. ok (sorted before all))
    → Lists x m
    → Lists x (m >>= λ all. ok (sorted before all))
sorted_parts before x (ok xs) r h = In-sorted before xs h
sorted_parts before x (raise e) r h = absurd h

unsorted_parts :
    (before : Successor → Successor → Bool) (m : Checked (List Successor))
    → Returns (λ _. Unit {0}) (m >>= λ all. ok (sorted before all))
    → Returns (λ _. Unit {0}) m
unsorted_parts before (ok xs) r = tt
unsorted_parts before (raise e) r = absurd r

-- What a family lists of a reachable state is reachable.
pub Reach-family :
    (before : Successor → Successor → Bool) (sc : ModelScenario) {s : ModelState} {t : ModelState}
    → Reach before sc s
    → (f : Family) (a : Action) → Lists (a, t) (family f s sc)
    → Reach before sc t
unfolding successors
Reach-family before sc {s} {t} r f a h =
    let u : Returns (λ _. Unit {0}) (successors before s sc) =
      Returns-mono _ (λ _. Unit {0}) (successors before s sc) (λ _ _. tt)
        (Sound-Returns before sc (Reach-Sound before sc r)) in
    let (xs, e, m) = Returns-value (In (a, t)) (successors before s sc) (
      sorted_parts before (a, t) (all_successors s sc) u
        (Lists-all_successors f s sc (a, t) (unsorted_parts before (all_successors s sc) u) h)) in
    next a r e m
