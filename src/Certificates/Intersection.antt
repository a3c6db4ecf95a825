-- ===== src/Certificates/Intersection.antt =====
-- Two quorums of attempt_certificates.py share an honest authorizer.
use locus_v.Prelude.{
  ℕ, suc, ◌+◌, ◌≤◌, ◌<◌, ◌≡◌, Bool, true, false, not, ◌&&◌, ◌||◌, some, List, [], ◌∷◌, refl, ap,
  arith, Bool-cases, inl, inr,
}
use locus_v.Prelude.Eq.{◌==◌, nat_eq, eq_of_beq}
use locus_v.Prelude.Lists.{length, All, In, here, there, count}
use locus_v.Prelude.Counts.{count_overlap}
use locus_v.Prelude.Sets.{contains, contains-In}
use locus_v.Prelude.Ordered.{Increasing}
use locus_v.Prelude.Results.{ok}
use locus_v.Certificates.Values.{Text, Bytes}
use locus_v.Certificates.Hash.{Crypto}
use locus_v.Certificates.Config.{PublicKeys, AuthorizerConfig, key_of, party_ids}
use locus_v.Certificates.Votes.{Vote, authorizer_ids}
use locus_v.Certificates.Prepare.{PrepareCertificate, verify_prepare}
use locus_v.Certificates.Accepted.{IsVote, IsConfig, IsPrepared, verify_prepare-IsPrepared}

count-not : (p : ℕ → Bool) (xs : List ℕ) → count p xs + count (λ x. not (p x)) xs ≡ length xs
count-not p [] = refl
count-not p (x ∷ xs) = ground (arith, count-not p xs)

count_both :
    (p q : ℕ → Bool) (xs : List ℕ)
    → count p xs + count q xs ≤ length xs + count (λ x. p x && q x) xs
count_both p q [] = omega arith
count_both p q (x ∷ xs) = ground (arith, count_both p q xs)

-- A new member passes where the others did not.
count_more :
    (p : ℕ → Bool) (x : ℕ) (ids : List ℕ)
    → In x ids
    → p x ≡ false
    → count p ids + 1 ≤ count (λ y. x == y || p y) ids
count_more p x [] m h = elim m [ ]
count_more p x (y ∷ ids) (here e) h = ground (arith, e, h, nat_eq.same_iff x y, count_same p x ids)
  where
    count_same :
        (p : ℕ → Bool) (x : ℕ) (ids : List ℕ) → count p ids ≤ count (λ y. x == y || p y) ids
    count_same p x [] = omega arith
    count_same p x (z ∷ zs) = ground (arith, count_same p x zs)
count_more p x (y ∷ ids) (there m) h = ground (arith, count_more p x ids m h)

above-All : (x : ℕ) (xs : List ℕ) → All (λ y. x < y) xs → contains xs x ≡ false
unfolding contains
above-All x [] h = refl
above-All x (y ∷ ys) (l, h) = ground (arith, l, nat_eq.same_iff y x, above-All x ys h)

-- Different members of `ids` are as many as they count there.
length-le-count :
    (xs ids : List ℕ) → Increasing xs → All (λ x. In x ids) xs → length xs ≤ count (contains xs) ids
unfolding contains
length-le-count [] ids h k = omega arith
length-le-count (x ∷ xs) ids (l, h) (m, k) =
    omega (arith, length-le-count xs ids h k, count_more (contains xs) x ids m (above-All x xs l))

pub known_id :
    (keys : PublicKeys) (id : ℕ) (key : Text) → key_of keys id ≡ some key → In id (party_ids keys)
known_id [] id key h = absurd (cc)
known_id (k ∷ ks) id key h = elim (Bool-cases (k.0 == id)) [
  | inl q ↦ here (eq_of_beq k.0 id q)
  | inr q ↦ there (known_id ks id key (ground (arith, h, q)))
]

known_ids :
    (crypto : Crypto) (keys : PublicKeys) (subject : Text) (message : Bytes) (vs : List Vote)
    → All (IsVote crypto keys subject message) vs
    → All (λ id. In id (party_ids keys)) (authorizer_ids vs)
known_ids crypto keys subject message [] h = tt
known_ids crypto keys subject message (v ∷ vs) (x, xs) =
    (known_id keys v.authorizer_id x.key x.known, known_ids crypto keys subject message vs xs)

length-party_ids : (keys : PublicKeys) → length (party_ids keys) ≡ length keys
length-party_ids [] = refl
length-party_ids (k ∷ ks) = ap suc (length-party_ids ks)

-- Two quorums among the configured authorizers share an honest member.
pub common_member :
    (c : AuthorizerConfig) (honest : ℕ → Bool) (xs ys : List ℕ)
    → count (λ id. not (honest id)) (party_ids c.public_keys) ≤ c.fault_bound
    → IsConfig c
    → Increasing xs × Increasing ys
    → All (λ id. In id (party_ids c.public_keys)) xs
      × All (λ id. In id (party_ids c.public_keys)) ys
    → c.quorum ≤ length xs × c.quorum ≤ length ys
    → (id : ℕ) × (honest id ≡ true) × In id xs × In id ys
common_member c honest xs ys faults config (order_x, order_y) (known_x, known_y) (many_x, many_y) =
    let ids = party_ids c.public_keys in
    let in_x : ℕ → Bool = contains xs in
    let in_y : ℕ → Bool = contains ys in
    let (id, _, both, good) =
      count_overlap (λ i. in_x i && in_y i) honest ids
        (omega (
          arith,
          faults,
          length-le-count xs ids order_x known_x,
          length-le-count ys ids order_y known_y,
          many_x,
          many_y,
          config.intersection,
          length-party_ids c.public_keys,
          count_both in_x in_y ids,
          count-not honest ids,
        )) in
    (id, good, contains-In xs id (ground (arith, both)), contains-In ys id (ground (arith, both)))

pub common_id :
    (crypto : Crypto) (c : AuthorizerConfig) (honest : ℕ → Bool) (p q : PrepareCertificate)
    → count (λ id. not (honest id)) (party_ids c.public_keys) ≤ c.fault_bound
    → IsPrepared crypto p c
    → IsPrepared crypto q c
    → (id : ℕ) × (honest id ≡ true)
      × In id (authorizer_ids p.votes)
      × In id (authorizer_ids q.votes)
common_id crypto c honest p q faults x y =
    common_member c honest (authorizer_ids p.votes) (authorizer_ids q.votes) faults x.config
      (x.ordered, y.ordered)
      (
        known_ids crypto c.public_keys _ _ p.votes x.votes,
        known_ids crypto c.public_keys _ _ q.votes y.votes,
      )
      (x.enough, y.enough)

-- When at most `fault_bound` of the configured authorizers are dishonest, two prepare certificates
-- that verify under one configuration have votes of a common honest authorizer.
pub quorum_intersection :
    (crypto : Crypto) (c : AuthorizerConfig) (honest : ℕ → Bool) (p q : PrepareCertificate)
    → count (λ id. not (honest id)) (party_ids c.public_keys) ≤ c.fault_bound
    → verify_prepare crypto p c ≡ ok tt
    → verify_prepare crypto q c ≡ ok tt
    → (id : ℕ) × (honest id ≡ true)
      × In id (authorizer_ids p.votes)
      × In id (authorizer_ids q.votes)
quorum_intersection crypto c honest p q faults h k =
    common_id crypto c honest p q faults (verify_prepare-IsPrepared crypto p c h)
      (verify_prepare-IsPrepared crypto q c k)
