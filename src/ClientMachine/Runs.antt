-- ===== src/ClientMachine/Runs.antt =====
-- What `begin` and `advance` keep, for any rules: entries, exact retries, and laws of the states.
use locus_v.Prelude.{
  not, Option, none, some, List, [], ◌∷◌, ◌≡◌, ◌≢◌, inl, inr, arith, refl, sym, ap, ◌∙◌, subst,
  Bool-cases,
}
use locus_v.Prelude.Eq.{Eq, ◌==◌, list_eq, nat_eq, pair_eq, eq_of_beq, beq_self}
use locus_v.Prelude.Results.{ok, raise, or_raise, bind-ok, raise_if-ok, or_raise-ok}
use locus_v.Contracts.Values.{Text, Bytes, Checked, event_reused, stale_state}
use locus_v.ClientMachine.Store.{
  get, put, get-put, Rules, Machine, begin, advance, key_of, retry, apply, join, answer, Command,
  begins, advances, left_by, perform, run,
}

-- An entry that a call with another key leaves in place.
get-put_kept :
    {K V : Type 0} ⦃e : Eq K⦄ (d : List (K × V)) (k j : K) (v w : V)
    → get d k ≡ none
    → get d j ≡ some w
    → get (put d k v) j ≡ some w
get-put_kept ⦃e⦄ d k j v w fresh h = elim (Bool-cases (k == j)) [
  | inl q ↦ let o : k ≡ j = (e.same_iff k j).0 q in absurd (cc)
  | inr q ↦ ground (arith, q, h)
]

module _ {S V A : Type 0} ⦃same_state : Eq S⦄ (r : Rules S V A) where
  -- A call that returned, by the branch that it took.
  pub data Call (m : Machine S) : Machine S → Type 0 where
    opened :
        (a : A) (operation : Text) (s : S)
        → get m.states operation ≡ none
        → r.starts a operation ≡ ok s
        → Call m (record m { states = put m.states operation s })
    moved :
        (s t : S) (v : V)
        → get m.events (key_of r s v) ≡ none
        → get m.states (r.operation_id s) ≡ some s
        → r.step s v ≡ ok t
        → Call m (record {
          states = put m.states (r.operation_id s) t;
          events = put m.events (key_of r s v) (r.fingerprint v, t);
        })
    kept : Call m m

  -- The machines that any calls lead to.
  pub data Later (m : Machine S) : Machine S → Type 0 where
    now : Later m m
    after : {n o : Machine S} → Later m n → Call n o → Later m o

  join-Call :
      (m n : Machine S) (a : A) (operation : Text) (s : S) (o : Option S)
      → get m.states operation ≡ o
      → join r m a operation o ≡ ok (s, n)
      → Call m n
  join-Call m n a operation s (some state) found h =
      let (u, rejoined, rest) = bind-ok (r.rejoins a state) _ _ h in
      let same : m ≡ n = ground (arith, rest) in subst (λ x. Call m x) same kept
  join-Call m n a operation s none fresh h =
      let (state, started, rest) = bind-ok (r.starts a operation) _ _ h in
      let same : record m { states = put m.states operation state } ≡ n = ground (arith, rest) in
      subst (λ x. Call m x) same (opened a operation state fresh started)

  pub begin-Call :
      (m n : Machine S) (a : A) (operation : Text) (s : S)
      → begin r m a operation ≡ ok (s, n)
      → Call m n
  unfolding begin
  begin-Call m n a operation s h =
      let (u, admitted, rest) = bind-ok (r.admits a operation) _ _ h in
      join-Call m n a operation s (get m.states operation) refl rest

  -- The machine after a step.
  abbrev pub stepped : Machine S → S → V → S → Machine S
  stepped m s v t = record {
    states = put m.states (r.operation_id s) t;
    events = put m.events (key_of r s v) (r.fingerprint v, t);
  }

  retry_cases :
      (m n : Machine S) (v : V) (prior : Bytes × S) (t : S)
      → retry r m v prior ≡ ok (t, n)
      → (prior ≡ (r.fingerprint v, t)) × (m ≡ n)
  retry_cases m n v (b, u) t h =
      let (same, rest) = raise_if-ok (not (b == r.fingerprint v)) _ _ _ h in
      let o : b ≡ r.fingerprint v = eq_of_beq _ _ (ground (arith, same)) in
      let p : u ≡ t = ground (arith, rest) in (ground (arith, o, p), ground (arith, rest))

  apply_cases :
      (m n : Machine S) (s t : S) (v : V)
      → apply r m s v ≡ ok (t, n)
      → (get m.states (r.operation_id s) ≡ some s) × (r.step s v ≡ ok t) × (stepped m s v t ≡ n)
  apply_cases m n s t v h =
      let (current, found, h1) =
        bind-ok (or_raise (get m.states (r.operation_id s)) stale_state) _ _ h in
      let (same, h2) = raise_if-ok (not (current == s)) _ _ _ h1 in
      let o : current ≡ s = eq_of_beq _ _ (ground (arith, same)) in
      let (u, moves, rest) = bind-ok (r.step current v) _ _ h2 in
      let p : u ≡ t = ground (arith, rest) in
      let q : stepped m s v u ≡ n = ground (arith, rest) in
      (
        or_raise-ok _ _ _ found ∙ ap some o,
        ap (λ x. r.step x v) (sym o) ∙ moves ∙ ap ok p,
        ap (stepped m s v) (sym p) ∙ q,
      )

  -- A call that returned was a retry or a step.
  answer_cases :
      (m n : Machine S) (s t : S) (v : V) (o : Option (Bytes × S))
      → get m.events (key_of r s v) ≡ o
      → answer r m s v o ≡ ok (t, n)
      → Call m n × (get n.events (key_of r s v) ≡ some (r.fingerprint v, t))
  answer_cases m n s t v (some prior) found h =
      let (o, same) = retry_cases m n v prior t h in
      subst (λ x. Call m x × (get x.events (key_of r s v) ≡ some (r.fingerprint v, t))) same
        (kept, found ∙ ap some o)
  answer_cases m n s t v none fresh h =
      let (current, moves, same) = apply_cases m n s t v h in
      subst (λ x. Call m x × (get x.events (key_of r s v) ≡ some (r.fingerprint v, t))) same
        (moved s t v fresh current moves, get-put m.events (key_of r s v) (r.fingerprint v, t))

  pub advance-Call :
      (m n : Machine S) (s t : S) (v : V)
      → advance r m s v ≡ ok (t, n)
      → Call m n × (get n.events (key_of r s v) ≡ some (r.fingerprint v, t))
  unfolding advance
  advance-Call m n s t v h = answer_cases m n s t v (get m.events (key_of r s v)) refl h

  -- Events are never forgotten.
  pub events_kept :
      (m n : Machine S) (k : Text × Text) (w : Bytes × S)
      → Later m n
      → get m.events k ≡ some w
      → get n.events k ≡ some w
  events_kept m n k w now h = h
  events_kept m n k w (after l (opened a operation s fresh e)) h = events_kept m _ k w l h
  events_kept m n k w (after l (moved s t v fresh current e)) h =
      get-put_kept _ (key_of r s v) k _ w fresh (events_kept m _ k w l h)
  events_kept m n k w (after l kept) h = events_kept m n k w l h

  -- A recorded event is answered from the record.
  advance_recorded :
      (n : Machine S) (s : S) (v : V) (w : Bytes × S)
      → get n.events (key_of r s v) ≡ some w
      → advance r n s v ≡ retry r n v w
  unfolding advance
  advance_recorded n s v w h = ap (answer r n s v) h

  pub advance_retried :
      (m n o : Machine S) (s t : S) (v : V)
      → advance r m s v ≡ ok (t, n)
      → Later n o
      → advance r o s v ≡ ok (t, o)
  advance_retried m n o s t v h l =
      advance_recorded o s v _ (events_kept n o _ _ l (advance-Call m n s t v h).1)
      ∙ ground (arith, beq_self (r.fingerprint v))

  pub advance_reused :
      (m n o : Machine S) (s t u : S) (v w : V)
      → advance r m s v ≡ ok (t, n)
      → Later n o
      → key_of r u w ≡ key_of r s v
      → r.fingerprint v ≢ r.fingerprint w
      → advance r o u w ≡ raise event_reused
  advance_reused m n o s t u v w h l same other =
      advance_recorded o u w (r.fingerprint v, t)
        (ap (get o.events) same ∙ events_kept n o _ _ l (advance-Call m n s t v h).1)
      ∙ elim (Bool-cases (r.fingerprint v == r.fingerprint w)) [
        | inl q ↦ absurd (other (eq_of_beq _ _ q))
        | inr q ↦ ground (arith, q)
      ]

  left_by-Call :
      (m : Machine S) (result : Checked (S × Machine S))
      → ((s : S) (n : Machine S) → result ≡ ok (s, n) → Call m n)
      → Call m (left_by r m result)
  left_by-Call m (ok (s, n)) h = h s n refl
  left_by-Call m (raise e) h = kept

  perform-Call : (m : Machine S) (c : Command S V A) → Call m (perform r m c)
  unfolding perform
  perform-Call m (begins a o) = left_by-Call m (begin r m a o) λ s n h. begin-Call m n a o s h
  perform-Call m (advances s v) =
      left_by-Call m (advance r m s v) λ t n h. (advance-Call m n s t v h).0

  run_after : (m n : Machine S) (cs : List (Command S V A)) → Later m n → Later m (run r n cs)
  unfolding run
  run_after m n [] l = l
  run_after m n (c ∷ cs) l = run_after m (perform r n c) cs (after l (perform-Call n c))

  -- Whatever the callers do leads to a later machine.
  pub run-Later : (m : Machine S) (cs : List (Command S V A)) → Later m (run r m cs)
  run-Later m cs = run_after m m cs now
