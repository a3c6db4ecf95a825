-- ===== src/Contracts/Members.antt =====
-- What the directory and the suite enrollment of prototype_final/locus/contracts.py guarantee once
-- they are built.
use locus_v.Prelude.{◌↔◌, ◌+◌, ℕ, ◌≤◌, false, not, List, [], ◌∷◌, ◌≡◌, arith, ltb}
use locus_v.Prelude.Eq.{◌==◌, nat_eq, list_eq, list_beq_iff, eq_of_beq}
use locus_v.Prelude.Lists.{length, All, In}
use locus_v.Prelude.Sets.{contains-In}
use locus_v.Prelude.Ordered.{is_canonical, Increasing, is_canonical-Increasing}
use locus_v.Prelude.Results.{ok, bind-ok, raise_if-ok}
use locus_v.Contracts.Values.{
  identifier, max_epoch, IsIdentifier, Text, positive_int, max_parties, threshold_exceeds_parties,
  invalid,
}
use locus_v.Contracts.Accepts.{
  positive_int-IsPositive, IsPositive-positive_int, identifier-IsIdentifier,
  IsIdentifier-identifier,
}
use locus_v.Contracts.Directory.{
  LifecycleBinding, check_lifecycle, ThresholdParameters, check_threshold, RecoveryHolder,
  PartyDirectorySnapshot, has_stranger, authorizer_ids, holder_ids, check_directory,
}
use locus_v.Contracts.Suites.{
  PartyRecoveryState, RecoverySuiteEnrollment, mixes_suites, state_holders, check_suite_enrollment,
}

known_holders :
    (ids : List ℕ) (hs : List RecoveryHolder)
    → has_stranger ids hs ≡ false
    → All (λ h. In h.authorizer_id ids) hs
known_holders ids [] q = tt
known_holders ids (h ∷ hs) q =
    (contains-In ids h.authorizer_id (ground (arith, q)), known_holders ids hs (ground (arith, q)))

-- What every directory that was built, with the threshold that it holds, satisfies.
pub record IsDirectory (d : PartyDirectorySnapshot) : Type 0 where
  pub authorizers_ordered : Increasing (authorizer_ids d)
  pub holders_ordered : Increasing (holder_ids d)
  pub quorum_positive : 1 ≤ d.authorization_quorum
  pub quorum_reachable : d.authorization_quorum ≤ length (authorizer_ids d)
  pub holders_known : All (λ h. In h.authorizer_id (authorizer_ids d)) d.recovery_holders
  pub threshold_positive : 1 ≤ d.recovery_threshold.k
  pub threshold_reachable : d.recovery_threshold.k ≤ length d.recovery_holders

threshold_order : (t : ThresholdParameters) → check_threshold t ≡ ok tt → (1 ≤ t.k) × (t.k ≤ t.n)
unfolding check_threshold
threshold_order t h =
    let (a, lower, h1) = bind-ok (positive_int max_parties t.k) _ _ h in
    let (b, upper, h2) = bind-ok (positive_int max_parties t.n) _ _ h1 in
    let (order, _) =
      raise_if-ok (ltb t.n t.k) threshold_exceeds_parties (ok tt) tt (ground (arith, h2)) in
    ((positive_int-IsPositive max_parties t.k a lower).positive, ground (arith, order))

-- A party directory that its checks and those of its threshold accept has strictly increasing
-- authorizer and holder identifiers, a positive quorum that its authorizers can meet, holders that
-- are all authorizers, and a positive recovery threshold that its holders can meet.
pub check_directory-IsDirectory :
    (d : PartyDirectorySnapshot)
    → check_threshold d.recovery_threshold ≡ ok tt
    → check_directory d ≡ ok tt
    → IsDirectory d
unfolding check_directory
check_directory-IsDirectory d h0 h =
    let (authorizers, h1) = raise_if-ok (not (is_canonical (authorizer_ids d))) _ _ _ h in
    let (holders, h2) = raise_if-ok (not (is_canonical (holder_ids d))) _ _ _ h1 in
    let (q, quorum, h3) =
      bind-ok (positive_int (length (authorizer_ids d)) d.authorization_quorum) _ _ h2 in
    let (known, h4) = raise_if-ok (has_stranger (authorizer_ids d) d.recovery_holders) _ _ _ h3 in
    let (members, _) =
      raise_if-ok (not (length d.recovery_holders == d.recovery_threshold.n)) _ _ _ h4 in
    let bounds =
      positive_int-IsPositive (length (authorizer_ids d)) d.authorization_quorum q quorum in
    let (least, most) = threshold_order d.recovery_threshold h0 in
    let number : length d.recovery_holders ≡ d.recovery_threshold.n =
      eq_of_beq _ _ (ground (arith, members)) in
    record {
      authorizers_ordered =
          is_canonical-Increasing (authorizer_ids d) (ground (arith, authorizers));
      holders_ordered = is_canonical-Increasing (holder_ids d) (ground (arith, holders));
      quorum_positive = bounds.positive;
      quorum_reachable = bounds.bounded;
      holders_known = known_holders (authorizer_ids d) d.recovery_holders known;
      threshold_positive = least;
      threshold_reachable = omega (arith, most, number);
    }

one_suite :
    (suite : Text) (ss : List PartyRecoveryState)
    → mixes_suites suite ss ≡ false
    → All (λ s. s.suite_id ≡ suite) ss
one_suite suite [] h = tt
one_suite suite (s ∷ ss) h =
    (ground (arith, h, list_beq_iff s.suite_id suite), one_suite suite ss (ground (arith, h)))

-- A suite enrollment that its checks accept has at least one party state, strictly increasing
-- holder identifiers, one suite throughout, and a secret that is not empty.
pub check_suite_enrollment-Increasing :
    (x : RecoverySuiteEnrollment)
    → check_suite_enrollment x ≡ ok tt
    → (1 ≤ length x.party_states)
      × Increasing (state_holders x)
      × All (λ s. s.suite_id ≡ x.public_state.suite_id) x.party_states
      × (1 ≤ length x.recovery_secret)
unfolding check_suite_enrollment
check_suite_enrollment-Increasing x h =
    let (parties, h1) = raise_if-ok (length x.party_states == 0) _ _ _ h in
    let (holders, h2) = raise_if-ok (not (is_canonical (state_holders x))) _ _ _ h1 in
    let (suites, h3) = raise_if-ok (mixes_suites x.public_state.suite_id x.party_states) _ _ _ h2 in
    let (secret, _) =
      raise_if-ok (length x.recovery_secret == 0) invalid (ok tt) tt (ground (arith, h3)) in
    (
      ground (arith, parties),
      is_canonical-Increasing (state_holders x) (ground (arith, holders)),
      one_suite x.public_state.suite_id x.party_states suites,
      ground (arith, secret),
    )

-- What a lifecycle binding must satisfy.
pub record IsLifecycle (l : LifecycleBinding) : Type 0 where
  pub backup : IsIdentifier l.backup_id
  pub digest : IsIdentifier l.successor_configuration_digest
  pub predecessor : 1 ≤ l.predecessor_epoch
  pub consecutive : l.successor_epoch ≡ l.predecessor_epoch + 1
  pub bounded : l.successor_epoch ≤ max_epoch

check_lifecycle-IsLifecycle : (l : LifecycleBinding) → check_lifecycle l ≡ ok tt → IsLifecycle l
unfolding check_lifecycle
check_lifecycle-IsLifecycle l h =
    let (a, named, h1) = bind-ok (identifier l.backup_id) _ _ h in
    let (b, before, h2) = bind-ok (positive_int max_epoch l.predecessor_epoch) _ _ h1 in
    let (c, after, h3) = bind-ok (positive_int max_epoch l.successor_epoch) _ _ h2 in
    let (next, h4) = raise_if-ok (not (l.successor_epoch == l.predecessor_epoch + 1)) _ _ _ h3 in
    let (d, digested, _) = bind-ok (identifier l.successor_configuration_digest) _ _ h4 in
    record {
      backup = identifier-IsIdentifier l.backup_id a named;
      digest = identifier-IsIdentifier l.successor_configuration_digest d digested;
      predecessor = (positive_int-IsPositive max_epoch l.predecessor_epoch b before).positive;
      consecutive = eq_of_beq l.successor_epoch (l.predecessor_epoch + 1) (ground (arith, next));
      bounded = (positive_int-IsPositive max_epoch l.successor_epoch c after).bounded;
    }

IsLifecycle-check_lifecycle : (l : LifecycleBinding) → IsLifecycle l → check_lifecycle l ≡ ok tt
unfolding check_lifecycle
IsLifecycle-check_lifecycle l h = ground (
  arith,
  IsIdentifier-identifier l.backup_id h.backup,
  IsIdentifier-identifier l.successor_configuration_digest h.digest,
  IsPositive-positive_int max_epoch l.predecessor_epoch
      (record { positive = h.predecessor; bounded = omega (arith, h.consecutive, h.bounded) }),
  IsPositive-positive_int max_epoch l.successor_epoch
      (record { positive = omega (arith, h.consecutive); bounded = h.bounded }),
  h.consecutive,
)

-- The checks of a lifecycle binding accept exactly the bindings with valid identifiers, a positive
-- predecessor epoch, and the next epoch, which is at most 2^63 - 1, as the successor.
pub check_lifecycle_iff : (l : LifecycleBinding) → (check_lifecycle l ≡ ok tt) ↔ IsLifecycle l
check_lifecycle_iff l = (check_lifecycle-IsLifecycle l, IsLifecycle-check_lifecycle l)
