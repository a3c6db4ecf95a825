-- ===== src/Lifecycle/RoundTrip.antt =====
-- What `to_dict` writes, `from_dict` reads: the objects of prototype/locus/epoch_lifecycle.py.
use locus_v.Prelude.{ℕ, ◌+◌, ◌≡◌, not, ◌||◌, sym, subst, ap, ◌∙◌, arith, ltb}
use locus_v.Prelude.Eq.{◌==◌, nat_eq, list_eq, eq_of_beq}
use locus_v.Prelude.Results.{ok, raise, ◌>>=◌, bind-ok, raise_if-ok}
use locus_v.Certificates.Values.{Text, Checked, integer, string, codes, get_hex, is_literal}
use locus_v.Certificates.RoundTrip.{get_hex-string}
use locus_v.Lifecycle.Values.{Cycled, relabel, cycle_integer, cycle_hex, cycle_dict}
use locus_v.Lifecycle.Transition.{
  EpochTransition, transition_members, transition_to_dict, read_transition, validate_transition,
  transition_from_dict,
}
use locus_v.Lifecycle.Approval.{
  EpochApproval, approval_members, approval_to_dict, read_approval, approval_from_dict,
}
use locus_v.Lifecycle.Ready.{EpochReady, ready_members, ready_to_dict, read_ready, ready_from_dict}

relabel-ok : {A : Type 0} (x : Checked A) (a : A) → relabel x ≡ ok a → x ≡ ok a
relabel-ok (ok b) a h = cc
relabel-ok (raise e) a h = absurd (cc)

cycle_hex-string : (n : ℕ) (t u : Text) → cycle_hex n (string t) ≡ ok u → t ≡ u
unfolding cycle_hex
cycle_hex-string n t u h = get_hex-string n t u (relabel-ok (get_hex n (string t)) u h)

cycle_integer-integer : (m n k : ℕ) → cycle_integer m (integer n) ≡ ok k → n ≡ k
unfolding cycle_integer
cycle_integer-integer m n k h =
    let (_, rest) = raise_if-ok (ltb n m || ltb 9223372036854775807 n) _ _ _ h in
    ground (arith, rest)

ok_same : {A : Type 0} (a b : A) → ◌≡◌ {A = Cycled A} (ok a) (ok b) → a ≡ b
ok_same a b h = cc

-- A field that is read from its own value is that value.
hex_step :
    {A : Type 0} (n : ℕ) (t : Text) (f : Text → Cycled A) (a : A)
    → (cycle_hex n (string t) >>= f) ≡ ok a
    → f t ≡ ok a
hex_step n t f a h =
    let (u, k, rest) = bind-ok (cycle_hex n (string t)) f a h in
    subst (λ z. f z ≡ ok a) (sym (cycle_hex-string n t u k)) rest

integer_step :
    {A : Type 0} (m n : ℕ) (f : ℕ → Cycled A) (a : A)
    → (cycle_integer m (integer n) >>= f) ≡ ok a
    → f n ≡ ok a
integer_step m n f a h =
    let (k, e, rest) = bind-ok (cycle_integer m (integer n)) f a h in
    subst (λ z. f z ≡ ok a) (sym (cycle_integer-integer m n k e)) rest

-- A valid transition is what its members read, and its epochs are consecutive.
pub read_transition_lem :
    (t x : EpochTransition)
    → read_transition (transition_members t) ≡ ok x
    → (x ≡ t) × (t.successor_epoch ≡ t.predecessor_epoch + 1)
unfolding read_transition
read_transition_lem t x h =
    let h1 = hex_step 16 t.bid _ x h in
    let h2 = integer_step 1 t.predecessor_epoch _ x h1 in
    let h3 = integer_step 1 t.successor_epoch _ x h2 in
    let (next, h4) = raise_if-ok (not (t.successor_epoch == t.predecessor_epoch + 1)) _ _ _ h3 in
    let h5 = hex_step 32 t.predecessor_config_digest _ x h4 in
    let h6 = hex_step 32 t.predecessor_backup_digest _ x h5 in
    let h7 = hex_step 32 t.predecessor_head _ x h6 in
    let h8 = integer_step 0 t.predecessor_consumed _ x h7 in
    let h9 = integer_step 1 t.predecessor_budget _ x h8 in
    let (_, h10) = raise_if-ok (ltb t.predecessor_budget t.predecessor_consumed) _ _ _ h9 in
    let h11 = hex_step 32 t.successor_config_digest _ x h10 in
    let h12 = hex_step 32 t.successor_backup_digest _ x h11 in
    let h13 = integer_step 1 t.successor_budget _ x h12 in
    let (policy, h14) =
      raise_if-ok (not (is_literal (string t.policy_version) "LOCUS-epoch-lifecycle-policy-v1")) _ _
        _ h13 in
    let h15 = hex_step 32 t.transition_nonce _ x h14 in
    let same_policy : codes "LOCUS-epoch-lifecycle-policy-v1" ≡ t.policy_version = sym (
      eq_of_beq t.policy_version (codes "LOCUS-epoch-lifecycle-policy-v1")
        (ground (arith, policy))) in
    let built : x ≡ record t { policy_version = codes "LOCUS-epoch-lifecycle-policy-v1" } =
      ok_same _ _ (sym h15) in
    (
      built ∙ ap (λ z. record t { policy_version = z }) same_policy,
      eq_of_beq t.successor_epoch (t.predecessor_epoch + 1) (ground (arith, next)),
    )

pub validate_transition-read :
    (t : EpochTransition)
    → validate_transition t ≡ ok tt
    → read_transition (transition_members t) ≡ ok t
unfolding validate_transition
validate_transition-read t h =
    let (x, k, _) = bind-ok (read_transition (transition_members t)) _ _ h in
    k ∙ ap ok (read_transition_lem t x k).0

-- A valid transition is read back from its dictionary.
pub transition_from_dict-transition_to_dict :
    (t : EpochTransition)
    → validate_transition t ≡ ok tt
    → transition_from_dict (transition_to_dict t) ≡ ok t
unfolding transition_from_dict cycle_dict
transition_from_dict-transition_to_dict t h = validate_transition-read t h

read_approval_lem : (a x : EpochApproval) → read_approval (approval_members a) ≡ ok x → x ≡ a
unfolding read_approval
read_approval_lem a x h =
    let h1 = integer_step 1 a.party_id _ x h in
    let h2 = hex_step 32 a.transition_hash _ x h1 in
    let h3 = hex_step 64 a.signature _ x h2 in ok_same x a (sym h3)

read_ready_lem : (r x : EpochReady) → read_ready (ready_members r) ≡ ok x → x ≡ r
unfolding read_ready
read_ready_lem r x h =
    let h1 = integer_step 1 r.party_id _ x h in
    let h2 = hex_step 32 r.transition_hash _ x h1 in
    let h3 = hex_step 32 r.runtime_package_digest _ x h2 in
    let h4 = hex_step 64 r.signature _ x h3 in ok_same x r (sym h4)

pub approval_from_dict-approval_to_dict :
    (a x : EpochApproval)
    → read_approval (approval_members a) ≡ ok x
    → approval_from_dict (approval_to_dict a) ≡ ok a
unfolding approval_from_dict cycle_dict
approval_from_dict-approval_to_dict a x h = h ∙ ap ok (read_approval_lem a x h)

pub ready_from_dict-ready_to_dict :
    (r x : EpochReady)
    → read_ready (ready_members r) ≡ ok x
    → ready_from_dict (ready_to_dict r) ≡ ok r
unfolding ready_from_dict cycle_dict
ready_from_dict-ready_to_dict r x h = h ∙ ap ok (read_ready_lem r x h)
