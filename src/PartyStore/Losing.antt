-- ===== src/PartyStore/Losing.antt =====
-- mark_open_phases_lost of prototype/locus/party_store.py as a change of the table of phases alone.
use locus_v.Prelude.{
  ℕ, Bool, true, false, some, List, [], ◌∷◌, ◌≡◌, refl, sym, ap, subst, ◌∙◌, arith, Bool-cases,
  Option-cases, inl, inr,
}
use locus_v.Prelude.Eq.{◌==◌, nat_eq, list_eq, beq_self, eq_of_beq}
use locus_v.Prelude.Lists.{All, In, here, there}
use locus_v.Certificates.Values.{Text}
use locus_v.Certificates.Hash.{Crypto}
use locus_v.PartyStore.Tables.{
  PhaseState, intent, commitment_stored, responded, lost, PhaseRow, Store, select, update,
}
use locus_v.PartyStore.Phases.{at_phase, is_open}
use locus_v.PartyStore.PhaseUpdates.{set_lost, open_phases, lose_each, mark_open_phases_lost}
use locus_v.PartyStore.Rows.{
  updated_row, select-update-some, select-update-none, Distinct, Distinct-select,
}
use locus_v.PartyStore.PhaseChange.{
  is_answered, set_lost-Keeps, set_lost-Forward, PhaseChange, changed, both,
}
use locus_v.PartyStore.OnPhases.{OnPhases, kept}

-- The phase of `id`, if there is one, has not been answered.
abbrev Unanswered : List PhaseRow → Text → Type 0
Unanswered rows id =
    (x : PhaseRow) → select (at_phase id) rows ≡ some x → is_answered x.state ≡ false

update-Unanswered :
    (rows : List PhaseRow) (id other : Text)
    → Unanswered rows id
    → Unanswered (update (at_phase other) set_lost rows) id
update-Unanswered rows id other h y at = elim (Option-cases (select (at_phase id) rows)) [
  | inl q ↦
      let none_left =
        select-update-none (at_phase id) (at_phase other) set_lost rows (λ x. refl) q in
      absurd (ground (arith, at, none_left))
  | inr (x, q) ↦
      let moved = select-update-some (at_phase id) (at_phase other) set_lost rows x (λ z. refl) q in
      let e : updated_row (at_phase other) set_lost x ≡ y = ground (arith, at, moved) in
      subst (λ z. is_answered z.state ≡ false) e
        (elim (Bool-cases (at_phase other x)) [ inl k ↦ rw k refl | inr k ↦ rw k (h x q) ])
]

lose_each-Unanswered :
    (crypto : Crypto) (lose : List PhaseRow) (s : Store) (id : Text)
    → Unanswered s.phases id
    → Unanswered (lose_each crypto lose s).phases id
unfolding lose_each
lose_each-Unanswered crypto [] s id h = h
lose_each-Unanswered crypto (r ∷ lose) s id h =
    update-Unanswered _ id r.phase_instance_id (lose_each-Unanswered crypto lose s id h)

trans : (s t u : Store) → OnPhases s t → OnPhases t u → OnPhases s u
trans s t u f g = record {
  same_epochs = g.same_epochs ∙ f.same_epochs;
  same_attempts = g.same_attempts ∙ f.same_attempts;
  same_locks = g.same_locks ∙ f.same_locks;
  same_transitions = g.same_transitions ∙ f.same_transitions;
  change = both f.change (subst (λ a. PhaseChange a t.phases u.phases) f.same_attempts g.change);
}

-- A phase that is there or not.
loses :
    (crypto : Crypto) (r : PhaseRow) (s t : Store)
    → Unanswered s.phases r.phase_instance_id
    → t.epochs ≡ s.epochs
    → t.attempts ≡ s.attempts
    → t.slot_locks ≡ s.slot_locks
    → t.transition_locks ≡ s.transition_locks
    → t.phases ≡ update (at_phase r.phase_instance_id) set_lost s.phases
    → OnPhases s t
loses crypto r s t h e a l m p = record {
  same_epochs = e;
  same_attempts = a;
  same_locks = l;
  same_transitions = m;
  change =
      subst (PhaseChange s.attempts s.phases) (sym p)
        (changed r.phase_instance_id set_lost set_lost-Keeps λ x k. set_lost-Forward x (h x k));
}

lose_each-OnPhases :
    (crypto : Crypto) (lose : List PhaseRow) (s : Store)
    → All (λ r. Unanswered s.phases r.phase_instance_id) lose
    → OnPhases s (lose_each crypto lose s)
unfolding lose_each
lose_each-OnPhases crypto [] s h = kept s
lose_each-OnPhases crypto (r ∷ lose) s (h, hs) =
    trans s (lose_each crypto lose s) _ (lose_each-OnPhases crypto lose s hs) (
      loses crypto r (lose_each crypto lose s) _
        (lose_each-Unanswered crypto lose s r.phase_instance_id h) refl refl refl refl refl)

abbrev pub same_phase : PhaseRow → PhaseRow → Bool
same_phase x y = at_phase x.phase_instance_id y

same_phase_symmetric : (x y : PhaseRow) → same_phase x y ≡ true → same_phase y x ≡ true
same_phase_symmetric x y h =
    subst (λ t. (x.phase_instance_id == t) ≡ true)
      (sym (eq_of_beq y.phase_instance_id x.phase_instance_id h)) (beq_self x.phase_instance_id)

open_unanswered : (z : PhaseState) → is_open z ≡ true → is_answered z ≡ false
open_unanswered intent h = refl
open_unanswered commitment_stored h = refl
open_unanswered responded h = absurd (cc)
open_unanswered lost h = absurd (cc)

unanswered_at :
    (all : List PhaseRow) (r x : PhaseRow)
    → select (same_phase r) all ≡ some r
    → select (same_phase r) all ≡ some x
    → is_answered r.state ≡ false
    → is_answered x.state ≡ false
unanswered_at all r x at q h =
    let e : r ≡ x = ground (arith, at, q) in subst (λ z. is_answered z.state ≡ false) e h

open_phases-Unanswered :
    (rows all : List PhaseRow)
    → ((x : PhaseRow) → In x rows → In x all)
    → Distinct same_phase all
    → All (λ r. Unanswered all r.phase_instance_id) (open_phases rows)
open_phases-Unanswered [] all inside d = tt
open_phases-Unanswered (r ∷ rows) all inside d =
    let rest = open_phases-Unanswered rows all (λ x i. inside x (there i)) d in
    elim (Bool-cases (is_open r.state)) [
      | inl k ↦
          let at : select (same_phase r) all ≡ some r =
            Distinct-select same_phase all r same_phase_symmetric (beq_self r.phase_instance_id) d
              (inside r (here refl)) in
          rw k (λ x q. unanswered_at all r x at q (open_unanswered r.state k), rest)
      | inr k ↦ rw k rest
    ]

pub mark_open_phases_lost-OnPhases :
    (crypto : Crypto) (n : ℕ) (s t : Store)
    → Distinct same_phase s.phases
    → mark_open_phases_lost crypto s ≡ (n, t)
    → OnPhases s t
unfolding mark_open_phases_lost
mark_open_phases_lost-OnPhases crypto n s t d h = subst (OnPhases s) (ap (λ z. z.1) h) (
    lose_each-OnPhases crypto (open_phases s.phases) s
      (open_phases-Unanswered s.phases s.phases (λ x i. i) d))

-- A transaction that leaves the epochs, the attempts and the locks.
pub record Quiet (s t : Store) : Type 0 where
  pub same_epochs : t.epochs ≡ s.epochs
  pub same_attempts : t.attempts ≡ s.attempts
  pub same_locks : t.slot_locks ≡ s.slot_locks
  pub same_transitions : t.transition_locks ≡ s.transition_locks

lose_each-Quiet :
    (crypto : Crypto) (lose : List PhaseRow) (s : Store) → Quiet s (lose_each crypto lose s)
unfolding lose_each
lose_each-Quiet crypto [] s = record {
  same_epochs = refl;
  same_attempts = refl;
  same_locks = refl;
  same_transitions = refl;
}
lose_each-Quiet crypto (r ∷ lose) s =
    let rest = lose_each-Quiet crypto lose s in
    record {
      same_epochs = rest.same_epochs;
      same_attempts = rest.same_attempts;
      same_locks = rest.same_locks;
      same_transitions = rest.same_transitions;
    }

pub mark_open_phases_lost-Quiet :
    (crypto : Crypto) (n : ℕ) (s t : Store) → mark_open_phases_lost crypto s ≡ (n, t) → Quiet s t
unfolding mark_open_phases_lost
mark_open_phases_lost-Quiet crypto n s t h =
    subst (Quiet s) (ap (λ z. z.1) h) (lose_each-Quiet crypto (open_phases s.phases) s)
